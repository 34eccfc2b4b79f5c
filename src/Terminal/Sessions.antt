-- ===== src/Terminal/Sessions.antt =====
-- The sessions that the terminal plugin has: `owned`, `write`, `resize`, `status` and
-- `close`.
pub mod Limit
pub mod Unknown
use run_pilot.Tasks.Host.{HostError, HostResult, fail, is_not_found, ok}
use run_pilot.Prelude.{Bool, Option, [], if◌then◌else◌, none, not, some}
use run_pilot.Prelude.Int.{ℤ}
use run_pilot.Prelude.Bytes.{Bytes, codes, str_eq}
use run_pilot.Prelude.Dict.{delete, find, put}
use run_pilot.Terminal.{
  Host, Plugin, Reply, RpcError, Session, StatusView, answered, called, done, host_error,
  is_running, refuse, refused, session_resize, session_status, session_terminate, session_write,
}

unknown_session : Option Session → Option RpcError
unknown_session (some s) = none
unknown_session none = some (refuse (codes "not_found") (codes "unknown terminal session"))

unfoldable pub owned : Bytes → Plugin → Option RpcError
unfolding unknown_session
owned id pl =
    if str_eq id []
    then some (refuse (codes "invalid_argument") (codes "session id is required"))
    else unknown_session (find id pl.sessions)

write_owned : Host → Bytes → Bytes → Option RpcError → Plugin → Reply (Unit {0}) × Plugin
write_owned h id text (some e) pl = (refused e, pl)
write_owned h id text none pl =
    let pl1 = called (session_write id text) pl in (done tt (h.write_session pl1.calls), pl1)

unfoldable pub write : Host → Bytes → Bytes → Plugin → Reply (Unit {0}) × Plugin
unfolding write_owned owned
write h id text pl = write_owned h id text (owned id pl) pl

resize_owned : Host → Bytes → ℤ → ℤ → Option RpcError → Plugin → Reply (Unit {0}) × Plugin
resize_owned h id rows columns (some e) pl = (refused e, pl)
resize_owned h id rows columns none pl =
    let pl1 = called (session_resize id rows columns) pl in
    (done tt (h.resize_session pl1.calls), pl1)

unfoldable pub resize : Host → Bytes → ℤ → ℤ → Plugin → Reply (Unit {0}) × Plugin
unfolding resize_owned owned
resize h id rows columns pl = resize_owned h id rows columns (owned id pl) pl

-- What `status` answers: the host's view, or the session that the plugin remembers.
pub data StatusReply : Type 0 where
  live : StatusView → StatusReply
  remembered : Session → StatusReply

abbrev or_else {ℓ} : {A : Type ℓ} → Option A → A → A
or_else none a = a
or_else (some b) a = b

abbrev some_or {ℓ} : {A : Type ℓ} → Option A → Option A → Option A
some_or none o = o
some_or (some a) o = some a

updated : StatusView → Session → Session
updated v s = record s {
  state = or_else v.view_state s.state;
  reason = or_else v.view_reason s.reason;
  exit_code = some_or v.view_exit_code s.exit_code;
}

lost : HostError → Option Session → Reply StatusReply
lost e none = refused (host_error e)
lost e (some s) = if not (is_running s) then answered (remembered s) else refused (host_error e)

remember : Bytes → StatusView → Option Session → Plugin → Plugin
unfolding updated
remember id v none pl = pl
remember id v (some s) pl = record pl { sessions = put id (updated v s) pl.sessions }

status_from : Bytes → HostResult StatusView → Plugin → Reply StatusReply × Plugin
unfolding lost remember
status_from id (fail e) pl = (lost e (find id pl.sessions), pl)
status_from id (ok v) pl = (answered (live v), remember id v (find id pl.sessions) pl)

status_owned : Host → Bytes → Option RpcError → Plugin → Reply StatusReply × Plugin
unfolding status_from
status_owned h id (some e) pl = (refused e, pl)
status_owned h id none pl =
    let pl1 = called (session_status id) pl in status_from id (h.session_state pl1.calls) pl1

unfoldable pub status : Host → Bytes → Plugin → Reply StatusReply × Plugin
unfolding status_owned owned
status h id pl = status_owned h id (owned id pl) pl

forget : Bytes → Plugin → Plugin
forget id pl = record pl { sessions = delete id pl.sessions }

close_from : Bytes → HostResult (Unit {0}) → Plugin → Reply (Unit {0}) × Plugin
unfolding forget
close_from id (ok u) pl = (answered tt, forget id pl)
close_from id (fail e) pl =
    if is_not_found e then (answered tt, forget id pl) else (refused (host_error e), pl)

close_session : Host → Bytes → Bool → Session → Plugin → Reply (Unit {0}) × Plugin
unfolding close_from forget
close_session h id force s pl =
    let pl1 = called (session_terminate id force) pl in
    if not (is_running s)
    then (answered tt, forget id pl)
    else close_from id (h.terminate_session pl1.calls) pl1

-- The zero value of a map that lacks its key, which `owned` excludes.
abbrev zero_session : Session
zero_session = record { id = []; state = []; command = []; exit_code = none; reason = [] }

close_owned : Host → Bytes → Bool → Option RpcError → Plugin → Reply (Unit {0}) × Plugin
unfolding close_session
close_owned h id force (some e) pl = (refused e, pl)
close_owned h id force none pl =
    close_session h id force (or_else (find id pl.sessions) zero_session) pl

unfoldable pub close : Host → Bytes → Bool → Plugin → Reply (Unit {0}) × Plugin
unfolding close_owned owned
close h id force pl = close_owned h id force (owned id pl) pl
