-- ===== src/Terminal/Dispatch.antt =====
-- `handle`, `event` and `shutdown` of the terminal plugin.
pub mod Limit
pub mod Unknown
use run_pilot.Tasks.Host.{HostResult, fail, ok}
use run_pilot.Prelude.{Bool, List, Option, [], if◌then◌else◌, none, some, true, ◌++◌, ◌∷◌}
use run_pilot.Prelude.Int.{ℤ}
use run_pilot.Prelude.Bytes.{Bytes, codes}
use run_pilot.Prelude.Dict.{Dict, find, put}
use run_pilot.Terminal.{
  Call, EventName, Host, Plugin, Reply, RpcError, Session, TerminalSettings, answered, called,
  events_publish, host_error, is_running, other_event, refuse, refused, session_error, session_exit,
  session_output, session_terminate,
}
use run_pilot.Terminal.Settings.{SettingsView, get_settings, read_settings, set_settings}
use run_pilot.Terminal.Sessions.{StatusReply, close, resize, status, write}
use run_pilot.Terminal.Open.{OpenRequest, open_session, test_settings}

-- A request after decoding. `malformed` is one that does not decode, with its method, and `unreadable`
-- says what `json` reported.
pub data Request : Type 0 where
  settings_get : Request
  settings_set settings_test : Bytes → List Bytes → Request
  open_terminal : OpenRequest → Request
  write_terminal : Bytes → Bytes → Request
  resize_terminal : Bytes → ℤ → ℤ → Request
  status_terminal : Bytes → Request
  close_terminal : Bytes → Bool → Request
  malformed_set malformed : Bytes → Request
  unknown_method : Request

pub data Answer : Type 0 where
  settings_view : SettingsView → Answer
  saved_settings : TerminalSettings → Answer
  session_view : Session → Answer
  status_view : StatusReply → Answer
  accepted : Answer
  error : RpcError → Answer

abbrev answer_by {ℓ} : {A : Type ℓ} → (A → Answer) → Reply A × Plugin → Answer × Plugin
answer_by f (answered a, pl) = (f a, pl)
answer_by f (refused e, pl) = (error e, pl)

invalid_request : Bytes → RpcError
invalid_request e = refuse (codes "invalid_argument") (codes "invalid request: " ++ e)

-- `setSettings` reads the settings before it decodes.
malformed_settings : Bytes → Reply TerminalSettings × Plugin → Answer × Plugin
unfolding invalid_request
malformed_settings e (refused e', pl) = (error e', pl)
malformed_settings e (answered s, pl) = (error (invalid_request e), pl)

unfoldable pub handle : Host → Request → Plugin → Answer × Plugin
unfolding malformed_settings invalid_request
handle h settings_get pl = answer_by settings_view (get_settings h pl)
handle h (settings_set program args) pl = answer_by saved_settings (set_settings h program args pl)
handle h (settings_test program args) pl =
    answer_by (λ _. accepted) (test_settings h program args pl)
handle h (open_terminal r) pl = answer_by session_view (open_session h r pl)
handle h (write_terminal id text) pl = answer_by (λ _. accepted) (write h id text pl)
handle h (resize_terminal id rows columns) pl =
    answer_by (λ _. accepted) (resize h id rows columns pl)
handle h (status_terminal id) pl = answer_by status_view (status h id pl)
handle h (close_terminal id force) pl = answer_by (λ _. accepted) (close h id force pl)
handle h (malformed_set e) pl = malformed_settings e (read_settings h pl)
handle h (malformed e) pl = (error (invalid_request e), pl)
handle h unknown_method pl =
    (error (refuse (codes "unknown_method") (codes "unknown terminal method")), pl)

-- The data of an event: its session, and the end that decodes from it, if it does.
pub record Ending : Type 0 where
  pub end_state : Bytes
  pub end_code : Option ℤ
  pub end_reason : Bytes

pub data EventData : Type 0 where
  unreadable_event : EventData
  event_data : Bytes → Option Ending → EventData

ended_by : Option Ending → Session → Session
ended_by none s = s
ended_by (some e) s = record s {
  state = e.end_state;
  exit_code = e.end_code;
  reason = e.end_reason;
}

settled : EventName → Option Ending → Session → Option Session
unfolding ended_by
settled session_output e s = none
settled session_exit e s = some (ended_by e s)
settled session_error e s = some (record s { state = codes "exited"; reason = codes "io_error" })
settled (other_event n) e s = none

keep_settled : Bytes → Option Session → Plugin → Plugin
keep_settled id none pl = pl
keep_settled id (some s) pl = record pl { sessions = put id s pl.sessions }

published :
    EventName
    → Bytes
    → Option Ending
    → Session
    → HostResult (Unit {0})
    → Plugin
    → Option RpcError × Plugin
unfolding keep_settled settled
published n id e s (fail x) pl = (some (host_error x), pl)
published n id e s (ok u) pl = (none, keep_settled id (settled n e s) pl)

publish :
    Host → EventName → Bytes → Option Ending → Option Session → Plugin → Option RpcError × Plugin
unfolding published
publish h n id e none pl = (none, pl)
publish h n id e (some s) pl =
    let pl1 = called (events_publish n id) pl in published n id e s (h.publish_event pl1.calls) pl1

session_event : Host → EventName → EventData → Plugin → Option RpcError × Plugin
unfolding publish
session_event h n unreadable_event pl =
    (some (refuse (codes "invalid_argument") (codes "invalid process session event")), pl)
session_event h n (event_data id e) pl = publish h n id e (find id pl.sessions) pl

unfoldable pub event : Host → EventName → EventData → Plugin → Option RpcError × Plugin
unfolding session_event
event h (other_event n) d pl = (none, pl)
event h session_output d pl = session_event h session_output d pl
event h session_exit d pl = session_event h session_exit d pl
event h session_error d pl = session_event h session_error d pl

terminate_all : Dict Session → List Call → List Call
terminate_all [] calls = calls
terminate_all ((id, s) ∷ m) calls =
    terminate_all m (if is_running s then session_terminate id true ∷ calls else calls)

-- The answers are not looked at.
unfoldable pub shutdown : Plugin → Plugin
unfolding terminate_all
shutdown pl = record { sessions = []; calls = terminate_all pl.sessions pl.calls }
