-- ===== src/Tasks/Events.antt =====
-- The host's events, `event` of plugins/tasks/backend/rpc.go, decoded.
pub mod Stopped
pub mod Definitions
use run_pilot.Prelude.{List, Option, [], false, if◌then◌else◌, none, not, some, ◌||◌, ◌∷◌}
use run_pilot.Prelude.Bytes.{Bytes, str_eq}
use run_pilot.Text.{trim_prefix}
use run_pilot.Tasks.{Task}
use run_pilot.Tasks.Host.{Callback, Host, on_reconcile, on_restart, on_task}
use run_pilot.Tasks.Plugin.{Plugin, ensure, find_task, is_scheduled}
use run_pilot.Tasks.Exit.{ExitInfo, process_exited, restart_fired, restart_prefix}
use run_pilot.Tasks.Control.{reconcile, run_now}
use run_pilot.Tasks.Rpc.{unregister}

pub data Event : Type 0 where
  process_exit : Bytes → ExitInfo → Event
  fired : Callback → Bytes → Event

module _ (h : Host) where
  -- The events of the host, decoded; an event that does not decode is left out.
  unfoldable pub process_exit_event : Bytes → ExitInfo → Plugin → Plugin
  process_exit_event id info = process_exited h id info

  task_due : Option Task → Bytes → Plugin → Plugin
  task_due none id pl = unregister id pl
  task_due (some t) id pl =
      if not (str_eq pl.load_error []) || not (is_scheduled t.type) || not t.enabled
      then unregister id pl
      else (run_now h t false (ensure t.id pl)).1

  unfoldable pub scheduler_fired : Callback → Bytes → Plugin → Plugin
  unfolding task_due
  scheduler_fired on_reconcile id pl = reconcile h pl
  scheduler_fired on_restart id pl = restart_fired h (trim_prefix id restart_prefix) pl
  scheduler_fired on_task id pl = task_due (find_task id pl.tasks) id pl

  unfoldable pub event : Event → Plugin → Plugin
  event (process_exit id info) pl = process_exit_event id info pl
  event (fired callback id) pl = scheduler_fired callback id pl

  unfoldable pub events : List Event → Plugin → Plugin
  events [] pl = pl
  events (e ∷ es) pl = events es (event e pl)
