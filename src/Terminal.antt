-- ===== src/Terminal.antt =====
-- The terminal plugin, plugins/terminal/backend/plugin.go. Its host is a parameter: it answers each
-- capability call by the list of all calls so far, newest first. Decoding of JSON is given: a request is
-- decoded, or malformed with a message. The settings are in Settings, the sessions in Sessions and Open, and
-- `handle`, `event` and `shutdown` in Dispatch.
pub mod Settings
pub mod Sessions
pub mod Open
pub mod Dispatch
mod Tests
use run_pilot.Tasks.Host.{HostError, HostResult, capability, fail, failure, ok}
use run_pilot.Prelude.{Bool, List, Option, [], ◌∷◌}
use run_pilot.Prelude.Int.{ℤ}
use run_pilot.Prelude.Bytes.{Bytes, codes, str_eq}
use run_pilot.Prelude.Dict.{Dict}

pub record Session : Type 0 where
  pub id : Bytes
  pub state : Bytes
  pub command : Bytes
  pub exit_code : Option ℤ
  pub reason : Bytes

pub record TerminalSettings : Type 0 where
  pub version : ℤ
  pub program : Bytes
  pub args : List Bytes

-- What `storage.get` holds: nothing (or null), JSON that does not decode, or settings.
pub data Stored : Type 0 where
  absent unreadable : Stored
  stored : TerminalSettings → Stored

-- The fields of the host's answer to `process.session.status` that have the expected type.
pub record StatusView : Type 0 where
  pub view_state : Option Bytes
  pub view_reason : Option Bytes
  pub view_exit_code : Option ℤ

pub record SessionCreate : Type 0 where
  pub program : Bytes
  pub args : List Bytes
  pub working_directory : Bytes
  pub rows : ℤ
  pub columns : ℤ

pub data EventName : Type 0 where
  session_output session_exit session_error : EventName
  other_event : Bytes → EventName

pub data Call : Type 0 where
  storage_get system_status : Call
  storage_set : TerminalSettings → Call
  session_create : SessionCreate → Call
  session_write : Bytes → Bytes → Call
  session_resize : Bytes → ℤ → ℤ → Call
  session_status : Bytes → Call
  session_terminate : Bytes → Bool → Call
  events_publish : EventName → Bytes → Call

pub record Host : Type 0 where
  pub get_storage : List Call → HostResult Stored
  pub set_storage : List Call → HostResult (Unit {0})
  pub os : List Call → HostResult Bytes
  pub create_session : List Call → HostResult Session
  pub write_session : List Call → HostResult (Unit {0})
  pub resize_session : List Call → HostResult (Unit {0})
  pub session_state : List Call → HostResult StatusView
  pub terminate_session : List Call → HostResult (Unit {0})
  pub publish_event : List Call → HostResult (Unit {0})

pub record Plugin : Type 0 where
  pub sessions : Dict Session
  pub calls : List Call

unfoldable pub new_plugin : Plugin
new_plugin = record { sessions = []; calls = [] }

pub record RpcError : Type 0 where
  pub code : Bytes
  pub message : Bytes

abbrev pub refuse : Bytes → Bytes → RpcError
refuse code message = record { code = code; message = message }

unfoldable pub host_error : HostError → RpcError
host_error (capability code message) = refuse code message
host_error (failure message) = refuse (codes "host_failure") message

pub data Reply {ℓ} (A : Type ℓ) : Type ℓ where
  answered : A → Reply A
  refused : RpcError → Reply A

-- The call in the list of calls; its answer is the host's at that list.
unfoldable pub called : Call → Plugin → Plugin
called c pl = record pl { calls = c ∷ pl.calls }

-- The answer of a call of which only the error matters.
abbrev pub done {ℓ} : {A : Type ℓ} → A → HostResult (Unit {0}) → Reply A
done a (ok u) = answered a
done a (fail e) = refused (host_error e)

abbrev pub is_running : Session → Bool
is_running s = str_eq s.state (codes "running")
