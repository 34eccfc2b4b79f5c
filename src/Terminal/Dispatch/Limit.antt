-- ===== src/Terminal/Dispatch/Limit.antt =====
-- The sessions of a plugin through all that happens to it.
use run_pilot.Tasks.Host.{HostResult, fail, ok}
use run_pilot.Terminal.Sessions.Limit.{
  IsLimited, close-IsLimited, resize-IsLimited, status-IsLimited, write-IsLimited,
}
use run_pilot.Terminal.Open.Limit.{open_session-IsLimited, test_settings-IsLimited}
use run_pilot.Prelude.{List, Option, [], arith, none, refl, some, ◌∷◌, ◌≡◌}
use run_pilot.Prelude.Bytes.{Bytes}
use run_pilot.Prelude.Dict.{find, length-put_found}
use run_pilot.Terminal.{
  EventName, Host, Plugin, Reply, Session, answered, called, events_publish, new_plugin,
  other_event, refused, session_error, session_exit, session_output,
}
use run_pilot.Terminal.Settings.{
  get_settings, get_settings-sessions, read_settings, set_settings, set_settings-sessions,
}
use run_pilot.Terminal.Sessions.{close, resize, status, write}
use run_pilot.Terminal.Open.{open_session, test_settings}
use run_pilot.Terminal.Dispatch.{
  Answer, Ending, EventData, Request, accepted, answer_by, close_terminal, event, event_data,
  handle, keep_settled, malformed, malformed_set, malformed_settings, open_terminal, publish,
  published, resize_terminal, saved_settings, session_event, session_view, settings_get,
  settings_set, settings_test, settings_view, settled, shutdown, status_terminal, status_view,
  unknown_method, unreadable_event, write_terminal,
}

-- A request, an event, or the shutdown of the plugin, each with a host of its own.
pub data Step : Type 0 where
  requests : Host → Request → Step
  events : Host → EventName → EventData → Step
  shuts_down : Step

unfoldable pub step : Step → Plugin → Plugin
step (requests h r) pl = (handle h r pl).1
step (events h n d) pl = (event h n d pl).1
step shuts_down pl = shutdown pl

unfoldable pub steps : List Step → Plugin → Plugin
unfolding step
steps [] pl = pl
steps (s ∷ ss) pl = steps ss (step s pl)

answer_by_state {ℓ} : {A : Type ℓ} (f : A → Answer) (p : Reply A × Plugin) → (answer_by f p).1 ≡ p.1
answer_by_state f (answered a, pl) = refl
answer_by_state f (refused e, pl) = refl

answer_by-IsLimited {ℓ} :
    {A : Type ℓ} (f : A → Answer) (p : Reply A × Plugin)
    → IsLimited p.1
    → IsLimited (answer_by f p).1
answer_by-IsLimited f p l = rw (answer_by_state f p) l

handle-IsLimited :
    (h : Host) (r : Request) (pl : Plugin) → IsLimited pl → IsLimited (handle h r pl).1
unfolding handle read_settings malformed_settings called
handle-IsLimited h settings_get pl l =
    answer_by-IsLimited settings_view (get_settings h pl) (rw (get_settings-sessions h pl) l)
handle-IsLimited h (settings_set program args) pl l =
    answer_by-IsLimited saved_settings (set_settings h program args pl)
      (rw (set_settings-sessions h program args pl) l)
handle-IsLimited h (settings_test program args) pl l =
    answer_by-IsLimited (λ _. accepted) (test_settings h program args pl)
      (test_settings-IsLimited h program args pl l)
handle-IsLimited h (open_terminal r) pl l =
    answer_by-IsLimited session_view (open_session h r pl) (open_session-IsLimited h r pl l)
handle-IsLimited h (write_terminal id text) pl l =
    answer_by-IsLimited (λ _. accepted) (write h id text pl) (write-IsLimited h id text pl l)
handle-IsLimited h (resize_terminal id rows columns) pl l =
    answer_by-IsLimited (λ _. accepted) (resize h id rows columns pl)
      (resize-IsLimited h id rows columns pl l)
handle-IsLimited h (status_terminal id) pl l =
    answer_by-IsLimited status_view (status h id pl) (status-IsLimited h id pl l)
handle-IsLimited h (close_terminal id force) pl l =
    answer_by-IsLimited (λ _. accepted) (close h id force pl) (close-IsLimited h id force pl l)
handle-IsLimited h (malformed_set e) pl l = ground arith
handle-IsLimited h (malformed e) pl l = l
handle-IsLimited h unknown_method pl l = l

keep_settled-IsLimited :
    (id : Bytes) (s : Session) (o : Option Session) (pl : Plugin)
    → find id pl.sessions ≡ some s
    → IsLimited pl
    → IsLimited (keep_settled id o pl)
unfolding keep_settled
keep_settled-IsLimited id s none pl h l = l
keep_settled-IsLimited id s (some s1) pl h l =
    omega (arith, l, length-put_found id s1 s pl.sessions h)

published-IsLimited :
    (n : EventName) (id : Bytes) (e : Option Ending) (s : Session) (r : HostResult (Unit {0}))
    (pl : Plugin)
    → find id pl.sessions ≡ some s
    → IsLimited pl
    → IsLimited (published n id e s r pl).1
unfolding published
published-IsLimited n id e s (fail x) pl h l = l
published-IsLimited n id e s (ok u) pl h l = keep_settled-IsLimited id s (settled n e s) pl h l

publish-IsLimited :
    (h : Host) (n : EventName) (id : Bytes) (e : Option Ending) (o : Option Session) (pl : Plugin)
    → find id pl.sessions ≡ o
    → IsLimited pl
    → IsLimited (publish h n id e o pl).1
unfolding publish called
publish-IsLimited h n id e none pl found l = l
publish-IsLimited h n id e (some s) pl found l =
    let pl1 = called (events_publish n id) pl in
    published-IsLimited n id e s (h.publish_event pl1.calls) pl1 found l

session_event-IsLimited :
    (h : Host) (n : EventName) (d : EventData) (pl : Plugin)
    → IsLimited pl
    → IsLimited (session_event h n d pl).1
unfolding session_event
session_event-IsLimited h n unreadable_event pl l = l
session_event-IsLimited h n (event_data id e) pl l = publish-IsLimited h n id e _ pl refl l

event-IsLimited :
    (h : Host) (n : EventName) (d : EventData) (pl : Plugin)
    → IsLimited pl
    → IsLimited (event h n d pl).1
unfolding event
event-IsLimited h (other_event n) d pl l = l
event-IsLimited h session_output d pl l = session_event-IsLimited h session_output d pl l
event-IsLimited h session_exit d pl l = session_event-IsLimited h session_exit d pl l
event-IsLimited h session_error d pl l = session_event-IsLimited h session_error d pl l

step-IsLimited : (s : Step) (pl : Plugin) → IsLimited pl → IsLimited (step s pl)
unfolding step shutdown
step-IsLimited (requests h r) pl l = handle-IsLimited h r pl l
step-IsLimited (events h n d) pl l = event-IsLimited h n d pl l
step-IsLimited shuts_down pl l = omega arith

steps_from-IsLimited : (ss : List Step) (pl : Plugin) → IsLimited pl → IsLimited (steps ss pl)
unfolding steps
steps_from-IsLimited [] pl l = l
steps_from-IsLimited (s ∷ ss) pl l = steps_from-IsLimited ss (step s pl) (step-IsLimited s pl l)

-- Whatever requests and events come, in any order and with any answers of the host, the plugin never has
-- more than eight sessions.
pub steps-IsLimited : (ss : List Step) → IsLimited (steps ss new_plugin)
unfolding new_plugin
steps-IsLimited ss = steps_from-IsLimited ss new_plugin (omega arith)
