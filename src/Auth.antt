-- ===== src/Auth.antt =====
-- The browser sessions of the web server, internal/web/auth_sessions.go and the state of server.go that it
-- is about. A time is in nanoseconds since the zero time, which is 0. The file of the sessions is the value
-- that it encodes (`authSession` and `persistedAuthSession` have the same fields); a save is atomic, and a
-- step of it that fails gives its error.
pub mod Sessions
pub mod Failures
pub mod Store
pub mod Reload
pub mod Tests
use run_pilot.Prelude.{
  Bool, List, Option, [], if◌then◌else◌, length, ltb, none, not, some, ℕ, ◌++◌, ◌==◌, ◌||◌, ◌∷◌,
}
use run_pilot.Prelude.Bytes.{Bytes, codes}
use run_pilot.Prelude.Dict.{Dict, put}
use run_pilot.Prelude.Result.{Result, err, ok}

pub record AuthSession : Type 0 where
  pub csrf_hash : Bytes
  pub expires : ℕ

abbrev pub max_sessions : ℕ
max_sessions = 128

abbrev pub max_store_bytes : ℕ
max_store_bytes = 131072

-- `persistedAuthSessions`.
pub record Stored : Type 0 where
  pub version : ℕ
  pub stored_sessions : Dict AuthSession

pub data File : Type 0 where
  missing : File
  encoded : Stored → File
  undecodable : Bytes → File

-- A connection is its number, and the connections that were closed are in a list, newest first.
pub record Server : Type 0 where
  pub sessions : Dict AuthSession
  pub store : File
  pub connections : Dict (List ℕ)
  pub next_connection : ℕ
  pub closed : List ℕ
  pub application_tickets : Dict Bytes
  pub tickets : Dict Bytes
  pub docker_attach_tickets : Dict Bytes
  pub remote_tickets : Dict Bytes

unfoldable pub new_server : File → Server
new_server file = record {
  sessions = [];
  store = file;
  connections = [];
  next_connection = 0;
  closed = [];
  application_tickets = [];
  tickets = [];
  docker_attach_tickets = [];
  remote_tickets = [];
}

unfoldable pub is_invalid : Bytes → AuthSession → Bool
is_invalid id r = not (length id == 43) || not (length r.csrf_hash == 43) || r.expires == 0

unfoldable pub load_each : ℕ → Dict AuthSession → Dict AuthSession → Result (Dict AuthSession)
load_each now [] m = ok m
load_each now ((id, r) ∷ records) m =
    let rest = load_each now records (if ltb now r.expires then put id r m else m) in
    if is_invalid id r
    then err (codes "browser session store contains an invalid session")
    else rest

unfoldable pub load_stored : ℕ → Stored → Dict AuthSession → Result (Dict AuthSession)
load_stored now stored m =
    if not (stored.version == 1) || ltb max_sessions (length stored.stored_sessions)
    then err (codes "browser session store has an unsupported format")
    else load_each now stored.stored_sessions m

-- The errors of `Stat` and `ReadFile`, and the size of the file.
pub record Disk : Type 0 where
  pub inspect_error : Option Bytes
  pub read_error : Option Bytes
  pub file_size : ℕ

read_store : ℕ → Disk → File → Dict AuthSession → Result (Dict AuthSession)
unfolding load_stored
read_store now disk missing m = ok m
read_store now disk (undecodable e) m = err (codes "decode browser session store: " ++ e)
read_store now disk (encoded stored) m = load_stored now stored m

unfoldable pub load_file : ℕ → Disk → File → Dict AuthSession → Result (Dict AuthSession)
unfolding read_store
load_file now disk missing m = elim disk.inspect_error [
  | none ↦ ok m
  | some e ↦ err (codes "inspect browser session store: " ++ e)
]
load_file now disk file m = elim disk.inspect_error [
  | some e ↦ err (codes "inspect browser session store: " ++ e)
  | none ↦
      if ltb max_store_bytes disk.file_size
      then err (codes "browser session store is too large")
      else elim disk.read_error [
        | some e ↦ err (codes "read browser session store: " ++ e)
        | none ↦ read_store now disk file m
      ]
]

-- `loadSessions`: the sessions of the server afterwards, or an error, which stops the start of the server.
unfoldable pub load_sessions : ℕ → Disk → Server → Result (Dict AuthSession)
unfolding load_file
load_sessions now disk s = load_file now disk s.store s.sessions

-- `saveSessionsLocked`, with the error of its first step that fails, if any.
unfoldable pub save_sessions : Option Bytes → Server → Server × Option Bytes
save_sessions none s =
    (record s { store = encoded (record { version = 1; stored_sessions = s.sessions }) }, none)
save_sessions (some e) s = (s, some e)

remove_store : Option Bytes → File → File × Option Bytes
remove_store error missing = (missing, none)
remove_store none file = (missing, none)
remove_store (some e) file = (file, some e)

-- `revokePersistedSessionsLocked`.
unfoldable pub revoke_persisted : Option Bytes → Option Bytes → Server → Server × Option Bytes
unfolding save_sessions remove_store
revoke_persisted none removal s = ((save_sessions none s).0, none)
revoke_persisted (some e) removal s =
    let (file, error) = remove_store removal s.store in (record s { store = file }, error)
