-- ===== src/Auth/Sessions/Revoked.antt =====
-- Sessions that are ended, `clearSession` of internal/web/auth.go.
use run_pilot.Auth.Store.{Barred, revoke_persisted-Barred, revoke_persisted-sessions}
use run_pilot.Prelude.{Option, ap, none, refl, some, ℕ, ◌∙◌, ◌≡◌}
use run_pilot.Prelude.Bytes.{Bytes, str_eq_self}
use run_pilot.Prelude.Dict.{Dict, delete, find, find-delete}
use run_pilot.Auth.{AuthSession, Server, revoke_persisted}
use run_pilot.Auth.Sessions.{
  clear_session, close_connections, forget, revoke_tickets, session, session_found,
}

module _ (auth_session_key : Bytes → Bytes) where
  delete-none : (key : Bytes) (m : Dict AuthSession) → find key (delete key m) ≡ none
  delete-none key m = find-delete key key m ∙ rw (str_eq_self key) refl

  session-none :
      (cookie : Bytes) (now : ℕ) (failure : Option Bytes) (t : Server)
      → find (auth_session_key cookie) t.sessions ≡ none
      → (session auth_session_key (some cookie) now failure t).1 ≡ none
  unfolding session session_found
  session-none cookie now failure t h = rw h refl

  -- When `clearSession` returns no error for a request with the cookie of a session, the server does not
  -- accept the cookie afterwards, at any time; and no later start of a server that finds the file that it
  -- left gets the session back, whether the file could be written, had to be removed, or was not there.
  pub clear_session-Barred :
      (cookie : Bytes) (failure removal : Option Bytes) (s : Server)
      → (clear_session auth_session_key (some cookie) failure removal s).1 ≡ none
      → ((now : ℕ) (later : Option Bytes)
          → (session auth_session_key
              (some cookie)
              now
              later
              (clear_session auth_session_key (some cookie) failure removal s).0).1
            ≡ none)
        × Barred
            (auth_session_key cookie)
            (clear_session auth_session_key (some cookie) failure removal s).0.store
  unfolding clear_session session session_found forget close_connections revoke_tickets
      revoke_persisted
  clear_session-Barred cookie failure removal s e =
      let key = auth_session_key cookie in
      let t = forget auth_session_key key s in
      let h : find key t.sessions ≡ none = delete-none key s.sessions in
      (
        (λ now later.
            session-none cookie now later _
              (ap (λ m. find key m) (revoke_persisted-sessions failure removal t) ∙ h)),
        revoke_persisted-Barred key failure removal t h e,
      )
