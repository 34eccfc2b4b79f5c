-- ===== src/Tasks/Events/Definitions.antt =====
-- No event of the host changes what is stored.
use run_pilot.Prelude.{List, Option, [], arith, refl, ◌∷◌}
use run_pilot.Prelude.Bytes.{Bytes}
use run_pilot.Tasks.{Task}
use run_pilot.Tasks.Host.{Host, on_reconcile, on_restart, on_task}
use run_pilot.Tasks.Plugin.{Plugin, ensure, find_task}
use run_pilot.Tasks.Rpc.{unregister}
use run_pilot.Tasks.Frame.{
  SameTasks, SameTasks-trans, process_exited-SameTasks, reconcile-SameTasks,
  restart_fired-SameTasks, run_now-SameTasks,
}
use run_pilot.Tasks.Events.{
  Event, event, events, fired, process_exit, process_exit_event, scheduler_fired, task_due,
}

module _ (h : Host) where
  task_due-SameTasks :
      (t : Option Task) (k : Bytes) (pl : Plugin) → SameTasks pl (task_due h t k pl)
  unfolding task_due unregister ensure
  task_due-SameTasks t k pl = grind (arith, run_now-SameTasks)

  event-SameTasks : (e : Event) (pl : Plugin) → SameTasks pl (event h e pl)
  unfolding event process_exit_event scheduler_fired
  event-SameTasks (process_exit k info) pl = process_exited-SameTasks h k info pl
  event-SameTasks (fired on_reconcile k) pl = reconcile-SameTasks h pl
  event-SameTasks (fired on_restart k) pl = restart_fired-SameTasks h _ pl
  event-SameTasks (fired on_task k) pl = task_due-SameTasks (find_task k pl.tasks) k pl

-- Whatever events the host sends, and whatever it answers, the tasks, the next number and the load error
-- stay as they are.
pub events-SameTasks : (h : Host) (es : List Event) (pl : Plugin) → SameTasks pl (events h es pl)
unfolding events
events-SameTasks h [] pl = record { same_tasks = refl; same_next = refl; same_error = refl }
events-SameTasks h (e ∷ es) pl =
    SameTasks-trans (event-SameTasks h e pl) (events-SameTasks h es (event h e pl))
