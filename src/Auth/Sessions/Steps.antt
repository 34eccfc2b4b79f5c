-- ===== src/Auth/Sessions/Steps.antt =====
-- The requests that change the browser sessions of internal/web/auth.go, one after another: every session
-- that the server has can be saved and loaded again.
use mathlib.Core.Path.{subst}
use run_pilot.Auth.Reload.{
  Gets, IsReadable, IsStorable, IsValid, alive, save_sessions-load_sessions,
}
use run_pilot.Auth.Reload.Keeps.{IsValid-delete, IsValid-put}
use run_pilot.Auth.Store.{revoke_persisted-sessions}
use run_pilot.Prelude.{
  List, Option, [], arith, false, if-cases, leb, length, none, refl, some, suc, sym, ℕ, ◌+◌, ◌<◌,
  ◌==◌, ◌∷◌, ◌≡◌, ◌≤◌,
}
use run_pilot.Prelude.Bytes.{Bytes, str_eq_iff}
use run_pilot.Prelude.Dict.{Dict, find}
use run_pilot.Auth.{
  AuthSession, Disk, File, Server, is_invalid, load_sessions, max_sessions, new_server,
  save_sessions,
}
use run_pilot.Auth.Sessions.{
  any_expired, clear_session, close_all, close_connections, drop_expired, forget, has_expired,
  issue_purged, issue_saved, issue_session, purge_sessions, revoke_all, revoke_tickets, session,
  session_found, session_ttl, with_session,
}

-- A request, with the time, the secrets or the cookie, and the outcome of writing the file.
pub data Request : Type 0 where
  issue : Option Bytes → Option Bytes → ℕ → Option Bytes → Request
  clear : Option Bytes → Option Bytes → Option Bytes → Request
  look_up : Option Bytes → ℕ → Option Bytes → Request
  revoke : Option Bytes → Option Bytes → Request

unfoldable pub serve : (Bytes → Bytes) → Request → Server → Server
serve h (issue id csrf now failure) s = (issue_session h id csrf now failure s).0
serve h (clear cookie failure removal) s = (clear_session h cookie failure removal s).0
serve h (look_up cookie now failure) s = (session h cookie now failure s).0
serve h (revoke failure removal) s = (revoke_all failure removal s).0

unfoldable pub serve_all : (Bytes → Bytes) → List Request → Server → Server
serve_all h [] s = s
serve_all h (r ∷ rs) s = serve_all h rs (serve h r s)

nothing-IsValid : IsValid []
nothing-IsValid = record { distinct = tt; storable = tt; within = omega arith }

length-drop_expired : (now : ℕ) (m : Dict AuthSession) → length (drop_expired now m).0 ≤ length m
unfolding drop_expired
length-drop_expired now [] = omega arith
length-drop_expired now ((id, r) ∷ m) =
    if-cases (λ (x : Dict AuthSession × List Bytes). length x.0 ≤ suc (length m))
      (has_expired now r) (λ e. omega (arith, length-drop_expired now m))
      (λ e. omega (arith, length-drop_expired now m))

find-drop_none :
    (k : Bytes) (now : ℕ) (m : Dict AuthSession)
    → find k m ≡ none
    → find k (drop_expired now m).0 ≡ none
unfolding drop_expired find
find-drop_none k now [] h = refl
find-drop_none k now ((id, r) ∷ m) h =
    let rest : find k (drop_expired now m).0 ≡ none =
      find-drop_none k now m (ground (arith, str_eq_iff id k)) in
    if-cases (λ (x : Dict AuthSession × List Bytes). find k x.0 ≡ none) (has_expired now r)
      (λ e. rest) (λ e. ground (arith, str_eq_iff id k))

IsValid-drop : (now : ℕ) (m : Dict AuthSession) → IsValid m → IsValid (drop_expired now m).0
unfolding drop_expired
IsValid-drop now [] v = v
IsValid-drop now ((id, r) ∷ m) v =
    let rest = IsValid-drop now m (record {
      distinct = v.distinct.1;
      storable = v.storable.1;
      within = omega (arith, v.within);
    }) in
    if-cases (λ (x : Dict AuthSession × List Bytes). IsValid x.0) (has_expired now r) (λ e. rest)
      (λ e. record {
        distinct = (find-drop_none id now m v.distinct.0, rest.distinct);
        storable = (v.storable.0, rest.storable);
        within = omega (arith, length-drop_expired now m, v.within);
      })

close_all-sessions : (ids : List Bytes) (s : Server) → (close_all ids s).sessions ≡ s.sessions
unfolding close_all close_connections
close_all-sessions [] s = refl
close_all-sessions (id ∷ ids) s = close_all-sessions ids (close_connections id s)

save_sessions-sessions :
    (failure : Option Bytes) (s : Server) → (save_sessions failure s).0.sessions ≡ s.sessions
unfolding save_sessions
save_sessions-sessions none s = refl
save_sessions-sessions (some e) s = refl

module _ (auth_session_key : Bytes → Bytes)
    (hash : (b : Bytes) → length (auth_session_key b) ≡ 43) where
  issued-IsStorable :
      (id csrf : Bytes) (now : ℕ)
      → IsStorable (
        auth_session_key id,
        record { csrf_hash = auth_session_key csrf; expires = now + session_ttl },
      )
  unfolding is_invalid
  issued-IsStorable id csrf now =
      let z : (now + session_ttl == 0) ≡ false = ground arith in rw (hash id, hash csrf, z) refl

  with_session-IsValid :
      (id csrf : Bytes) (now : ℕ) (s : Server)
      → IsValid s.sessions
      → length s.sessions < max_sessions
      → IsValid (with_session auth_session_key id csrf now s).sessions
  unfolding with_session
  with_session-IsValid id csrf now s v room =
      IsValid-put (auth_session_key id) _ s.sessions (issued-IsStorable id csrf now) v room

  issue_saved-IsValid :
      (id : Bytes) (failure : Option Bytes) (s : Server)
      → IsValid s.sessions
      → IsValid (issue_saved auth_session_key id (save_sessions failure s)).0.sessions
  unfolding issue_saved save_sessions
  issue_saved-IsValid id none s v = v
  issue_saved-IsValid id (some e) s v = IsValid-delete (auth_session_key id) s.sessions v

  issue_session-IsValid :
      (id csrf : Option Bytes) (now : ℕ) (failure : Option Bytes) (s : Server)
      → IsValid s.sessions
      → IsValid (issue_session auth_session_key id csrf now failure s).0.sessions
  unfolding issue_session issue_purged purge_sessions
  issue_session-IsValid none csrf now failure s v = v
  issue_session-IsValid (some id) none now failure s v = v
  issue_session-IsValid (some id) (some csrf) now failure s v =
      let t = purge_sessions now s in
      let p : IsValid t.sessions =
        subst IsValid (sym (close_all-sessions (drop_expired now s.sessions).1 _))
          (IsValid-drop now s.sessions v) in
      if-cases (λ (r : Server × Option Bytes). IsValid r.0.sessions)
        (leb max_sessions (length t.sessions))
        (λ full.
          if-cases (λ (u : Server). IsValid u.sessions) (any_expired now s.sessions)
            (λ e. subst IsValid (sym (save_sessions-sessions failure t)) p) (λ e. p))
        (λ room.
          issue_saved-IsValid id failure (with_session auth_session_key id csrf now t)
            (with_session-IsValid id csrf now t p (ground arith)))

  clear_session-IsValid :
      (cookie failure removal : Option Bytes) (s : Server)
      → IsValid s.sessions
      → IsValid (clear_session auth_session_key cookie failure removal s).0.sessions
  unfolding clear_session forget close_connections revoke_tickets
  clear_session-IsValid none failure removal s v = v
  clear_session-IsValid (some c) failure removal s v =
      subst IsValid (sym (revoke_persisted-sessions failure removal _))
        (IsValid-delete (auth_session_key c) s.sessions v)

  session_found-IsValid :
      (key : Bytes) (now : ℕ) (failure : Option Bytes) (o : Option AuthSession) (s : Server)
      → IsValid s.sessions
      → IsValid (session_found auth_session_key key now failure o s).0.sessions
  unfolding session_found forget close_connections revoke_tickets
  session_found-IsValid key now failure none s v = v
  session_found-IsValid key now failure (some r) s v =
      if-cases (λ (x : Server × Option (Bytes × AuthSession)). IsValid x.0.sessions)
        (has_expired now r)
        (λ e.
          subst IsValid (sym (save_sessions-sessions failure (forget auth_session_key key s)))
            (IsValid-delete key s.sessions v))
        (λ e. v)

  serve-IsValid :
      (r : Request) (s : Server)
      → IsValid s.sessions
      → IsValid (serve auth_session_key r s).sessions
  unfolding serve session revoke_all
  serve-IsValid (issue id csrf now failure) s v = issue_session-IsValid id csrf now failure s v
  serve-IsValid (clear c failure removal) s v = clear_session-IsValid c failure removal s v
  serve-IsValid (look_up none now failure) s v = v
  serve-IsValid (look_up (some c) now failure) s v =
      session_found-IsValid (auth_session_key c) now failure _ s v
  serve-IsValid (revoke failure removal) s v =
      subst IsValid (sym (revoke_persisted-sessions failure removal _)) nothing-IsValid

  serve_all-IsValid :
      (rs : List Request) (s : Server)
      → IsValid s.sessions
      → IsValid (serve_all auth_session_key rs s).sessions
  unfolding serve_all
  serve_all-IsValid [] s v = v
  serve_all-IsValid (r ∷ rs) s v =
      serve_all-IsValid rs (serve auth_session_key r s) (serve-IsValid r s v)

  -- Sessions survive a restart. Whatever requests a new server gets, when the hash of every cookie has 43
  -- bytes and its sessions are then saved, a later start that can read the file succeeds, and has of each
  -- key the session that the server had, unless its time has come by then.
  pub serve_all-Gets :
      (file : File) (rs : List Request) (now : ℕ) (disk : Disk) (key : Bytes)
      → IsReadable disk
      → Gets key (alive now (find key (serve_all auth_session_key rs (new_server file)).sessions)) (
          load_sessions now disk (
            new_server
              (save_sessions none (serve_all auth_session_key rs (new_server file))).0.store))
  unfolding new_server
  serve_all-Gets file rs now disk key d =
      save_sessions-load_sessions (serve_all auth_session_key rs (new_server file)) now disk key
        (serve_all-IsValid rs (new_server file) nothing-IsValid) d
