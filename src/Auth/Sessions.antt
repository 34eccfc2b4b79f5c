-- ===== src/Auth/Sessions.antt =====
-- The operations on browser sessions of internal/web/auth.go, and `revokeAllSessions` of server.go. The
-- hash of a cookie, `authSessionKey`, is given, and so are the random secrets and the outcome of a save.
pub mod Revoked
pub mod Steps
use run_pilot.Prelude.{
  Bool, List, Option, [], false, if◌then◌else◌, leb, length, ltb, none, not, some, ℕ, ◌%◌, ◌&&◌,
  ◌++◌, ◌+◌, ◌==◌, ◌^◌, ◌||◌, ◌∷◌,
}
use run_pilot.Prelude.Bytes.{Bytes, str_eq}
use run_pilot.Prelude.Dict.{Dict, delete, find, put}
use run_pilot.Auth.{AuthSession, Server, max_sessions, revoke_persisted, save_sessions}

-- `adminSessionTTL`.
abbrev pub session_ttl : ℕ
session_ttl = 86400000000000

unfoldable pub has_expired : ℕ → AuthSession → Bool
has_expired now r = ltb r.expires now

unfoldable pub any_expired : ℕ → Dict AuthSession → Bool
unfolding has_expired
any_expired now [] = false
any_expired now ((id, r) ∷ m) = has_expired now r || any_expired now m

-- The sessions that are left, and the keys of the others.
unfoldable pub drop_expired : ℕ → Dict AuthSession → Dict AuthSession × List Bytes
unfolding has_expired
drop_expired now [] = ([], [])
drop_expired now ((id, r) ∷ m) =
    let (kept, gone) = drop_expired now m in
    if has_expired now r then (kept, id ∷ gone) else ((id, r) ∷ kept, gone)

connections_of : Bytes → Server → List ℕ
connections_of id s = elim (find id s.connections) [ none ↦ [] | some ns ↦ ns ]

unfoldable pub close_connections : Bytes → Server → Server
unfolding connections_of
close_connections id s = record s {
  connections = delete id s.connections;
  closed = connections_of id s ++ s.closed;
}

unfoldable pub close_all : List Bytes → Server → Server
close_all [] s = s
close_all (id ∷ ids) s = close_all ids (close_connections id s)

unfoldable pub purge_sessions : ℕ → Server → Server
purge_sessions now s =
    let (kept, gone) = drop_expired now s.sessions in close_all gone (record s { sessions = kept })

-- The tickets of the others.
unfoldable pub without : Bytes → Dict Bytes → Dict Bytes
without id [] = []
without id ((ticket, owner) ∷ m) =
    let rest = without id m in if str_eq owner id then rest else (ticket, owner) ∷ rest

-- `revokeSessionTickets`.
unfoldable pub revoke_tickets : Bytes → Server → Server
revoke_tickets id s = record s {
  application_tickets = without id s.application_tickets;
  tickets = without id s.tickets;
  docker_attach_tickets = without id s.docker_attach_tickets;
  remote_tickets = without id s.remote_tickets;
}

-- `revokeAllSessions`: the connections of every key are closed.
all_connections : Dict (List ℕ) → List ℕ
all_connections [] = []
all_connections ((id, ns) ∷ m) = ns ++ all_connections m

unfoldable pub revoke_all : Option Bytes → Option Bytes → Server → Server × Option Bytes
unfolding all_connections
revoke_all failure removal s = revoke_persisted failure removal (record s {
  sessions = [];
  connections = [];
  closed = all_connections s.connections ++ s.closed;
})

-- `registerSessionConnection`, with the number of the connection, and the function that it returns.
unfoldable pub register_connection : Bytes → Server → Server
unfolding connections_of
register_connection id s = if str_eq id [] then s else record s {
  connections = put id (s.next_connection ∷ connections_of id s) s.connections;
  next_connection = (s.next_connection + 1) % 2 ^ 64;
}

remove_number : ℕ → List ℕ → List ℕ
remove_number n [] = []
remove_number n (k ∷ ks) = let rest = remove_number n ks in if k == n then rest else k ∷ rest

unfoldable pub release_connection : Bytes → ℕ → Server → Server
unfolding connections_of remove_number
release_connection id n s =
    let left = remove_number n (connections_of id s) in
    if length left == 0
    then record s { connections = delete id s.connections }
    else record s { connections = put id left s.connections }

module _ (auth_session_key : Bytes → Bytes) where
  with_session : Bytes → Bytes → ℕ → Server → Server
  with_session id csrf now s = record s {
    sessions =
        put (auth_session_key id)
          (record { csrf_hash = auth_session_key csrf; expires = now + session_ttl }) s.sessions;
  }

  issue_saved : Bytes → Server × Option Bytes → Server × Option Bytes
  issue_saved id (s, none) = (s, some (auth_session_key id))
  issue_saved id (s, some e) =
      (record s { sessions = delete (auth_session_key id) s.sessions }, none)

  issue_purged : Bytes → Bytes → ℕ → Option Bytes → Bool → Server → Server × Option Bytes
  unfolding with_session issue_saved
  issue_purged id csrf now failure expired s =
      if leb max_sessions (length s.sessions)
      then ((if expired then (save_sessions failure s).0 else s), none)
      else issue_saved id (save_sessions failure (with_session id csrf now s))

  -- `issueSession`: the key of the session, or none.
  unfoldable pub issue_session :
      Option Bytes → Option Bytes → ℕ → Option Bytes → Server → Server × Option Bytes
  unfolding issue_purged
  issue_session none csrf now failure s = (s, none)
  issue_session (some id) none now failure s = (s, none)
  issue_session (some id) (some csrf) now failure s =
      issue_purged id csrf now failure (any_expired now s.sessions) (purge_sessions now s)

  forget : Bytes → Server → Server
  forget key s = close_connections key (record s { sessions = delete key s.sessions })

  -- `clearSession`.
  unfoldable pub clear_session :
      Option Bytes → Option Bytes → Option Bytes → Server → Server × Option Bytes
  unfolding forget
  clear_session none failure removal s = (s, none)
  clear_session (some cookie) failure removal s =
      let key = auth_session_key cookie in
      let (t, error) = revoke_persisted failure removal (forget key s) in
      (revoke_tickets key t, error)

  session_found :
      Bytes → ℕ → Option Bytes → Option AuthSession → Server → Server × Option (Bytes × AuthSession)
  unfolding forget has_expired
  session_found key now failure none s = (s, none)
  session_found key now failure (some r) s =
      if has_expired now r
      then (revoke_tickets key (save_sessions failure (forget key s)).0, none)
      else (s, some (key, r))

  -- `session`.
  unfoldable pub session :
      Option Bytes → ℕ → Option Bytes → Server → Server × Option (Bytes × AuthSession)
  unfolding session_found
  session none now failure s = (s, none)
  session (some cookie) now failure s =
      let key = auth_session_key cookie in session_found key now failure (find key s.sessions) s

  -- `csrfValid`, with the cookie of the token and the header.
  csrf_matches : Option (Bytes × AuthSession) → Option Bytes → Bytes → Bool
  csrf_matches none csrf header = false
  csrf_matches (some kr) none header = false
  csrf_matches (some kr) (some csrf) header =
      not (str_eq csrf [])
      && str_eq (auth_session_key csrf) kr.1.csrf_hash
      && str_eq (auth_session_key header) kr.1.csrf_hash

  unfoldable pub csrf_valid :
      Option Bytes → Option Bytes → Bytes → ℕ → Option Bytes → Server → Server × Bool
  unfolding csrf_matches
  csrf_valid cookie csrf header now failure s =
      let (t, found) = session cookie now failure s in (t, csrf_matches found csrf header)
