-- ===== src/Terminal/Dispatch/Unknown.antt =====
-- What happens to sessions that the plugin does not have, and to all of them at the end.
use mathlib.Core.Option.{some_inj}
use run_pilot.Terminal.Sessions.Unknown.{
  close-refusal, refusal, resize-refusal, status-refusal, write-refusal,
}
use run_pilot.Prelude.{
  All, Any, Bool-cases, List, Option, [], inl, inr, none, refl, some, true, ◌∷◌, ◌≡◌,
}
use run_pilot.Prelude.Bytes.{Bytes}
use run_pilot.Prelude.Dict.{Dict, find}
use run_pilot.Terminal.{
  Call, EventName, Host, Plugin, Session, is_running, other_event, session_error, session_exit,
  session_output, session_terminate,
}
use run_pilot.Terminal.Dispatch.{
  Ending, Request, close_terminal, error, event, event_data, handle, malformed, malformed_set,
  open_terminal, publish, resize_terminal, session_event, settings_get, settings_set, settings_test,
  shutdown, status_terminal, terminate_all, unknown_method, write_terminal,
}

-- The session that a request or an event is about.
unfoldable pub target : Request → Option Bytes
target settings_get = none
target (settings_set program args) = none
target (settings_test program args) = none
target (open_terminal r) = none
target (write_terminal id text) = some id
target (resize_terminal id rows columns) = some id
target (status_terminal id) = some id
target (close_terminal id force) = some id
target (malformed_set e) = none
target (malformed e) = none
target unknown_method = none

-- A request about a session that the plugin does not have is refused, as not found or for want of an id;
-- the host is not asked, and nothing changes.
pub handle-unknown :
    (h : Host) (r : Request) (id : Bytes) (pl : Plugin)
    → target r ≡ some id
    → find id pl.sessions ≡ none
    → handle h r pl ≡ (error (refusal id), pl)
unfolding handle target
handle-unknown h settings_get id pl t n = cc
handle-unknown h (settings_set program args) id pl t n = cc
handle-unknown h (settings_test program args) id pl t n = cc
handle-unknown h (open_terminal r) id pl t n = cc
handle-unknown h (write_terminal i text) id pl t n =
    rw (some_inj.0 t, write-refusal h id pl n text) refl
handle-unknown h (resize_terminal i rows columns) id pl t n =
    rw (some_inj.0 t, resize-refusal h id pl n rows columns) refl
handle-unknown h (status_terminal i) id pl t n = rw (some_inj.0 t, status-refusal h id pl n) refl
handle-unknown h (close_terminal i force) id pl t n =
    rw (some_inj.0 t, close-refusal h id pl n force) refl
handle-unknown h (malformed_set e) id pl t n = cc
handle-unknown h (malformed e) id pl t n = cc
handle-unknown h unknown_method id pl t n = cc

-- An event of a session that the plugin does not have is dropped, and so is one that has another name.
pub event-unknown :
    (h : Host) (n : EventName) (id : Bytes) (e : Option Ending) (pl : Plugin)
    → find id pl.sessions ≡ none
    → event h n (event_data id e) pl ≡ (none, pl)
unfolding event session_event publish
event-unknown h session_output id e pl n = rw n refl
event-unknown h session_exit id e pl n = rw n refl
event-unknown h session_error id e pl n = rw n refl
event-unknown h (other_event x) id e pl n = refl

-- The host was asked to end the session by force.
abbrev pub IsEnded : List Call → Bytes × Session → Type 0
IsEnded calls p = is_running p.1 ≡ true → Any (λ c. c ≡ session_terminate p.0 true) calls

terminate_all-Any :
    (c : Call) (m : Dict Session) (calls : List Call)
    → Any (λ d. d ≡ c) calls
    → Any (λ d. d ≡ c) (terminate_all m calls)
unfolding terminate_all
terminate_all-Any c [] calls a = a
terminate_all-Any c ((id, s) ∷ m) calls a = elim (Bool-cases (is_running s)) [
  | inl runs ↦ rw (runs, terminate_all) (terminate_all-Any c m _ (inr a))
  | inr ended ↦ rw (ended, terminate_all) (terminate_all-Any c m calls a)
]

terminate_all-IsEnded :
    (m : Dict Session) (calls : List Call) → All (IsEnded (terminate_all m calls)) m
unfolding terminate_all
terminate_all-IsEnded [] calls = tt
terminate_all-IsEnded ((id, s) ∷ m) calls = (
  (λ runs. rw (runs, terminate_all) (terminate_all-Any _ m _ (inl refl))),
  terminate_all-IsEnded m _,
)

-- The shutdown asks the host to end every session that runs, by force, and leaves no session.
pub shutdown-IsEnded :
    (pl : Plugin) → ((shutdown pl).sessions ≡ []) × All (IsEnded (shutdown pl).calls) pl.sessions
unfolding shutdown
shutdown-IsEnded pl = (refl, terminate_all-IsEnded pl.sessions pl.calls)
