-- ===== src/Tasks/Frame.antt =====
-- Starting, settling, stopping and running tasks leave the definitions alone: what is stored, and
-- whether it could be read, changes only in `create`, `update`, `delete` and `load`.
use run_pilot.Prelude.{Bool, List, [], arith, refl, ◌∙◌, ◌∷◌, ◌≡◌}
use run_pilot.Prelude.Bytes.{Bytes}
use run_pilot.Prelude.Dict.{Dict}
use run_pilot.Tasks.{Task}
use run_pilot.Tasks.Host.{Host, HostResult, ProcessStatus, fail, ok, process_status}
use run_pilot.Tasks.Plugin.{Plugin, ProcRef, call, ensure, publish_task, update}
use run_pilot.Tasks.Launch.{launch, spawn}
use run_pilot.Tasks.Exit.{
  ExitInfo, continuous_exited, process_exited, restart_fired, schedule_restart, scheduled_exited,
  settle,
}
use run_pilot.Tasks.Control.{
  cancel_restart_timer, reconcile, reconcile_each, reconciled, run_now, start_task, stop_processes,
  stop_task, terminate,
}
use run_pilot.Prelude.Result.{ok}

pub record SameTasks (a b : Plugin) : Type 0 where
  pub same_tasks : b.tasks ≡ a.tasks
  pub same_next : b.next ≡ a.next
  pub same_error : b.load_error ≡ a.load_error

pub SameTasks-trans : {a b c : Plugin} → SameTasks a b → SameTasks b c → SameTasks a c
SameTasks-trans p q = record {
  same_tasks = q.same_tasks ∙ p.same_tasks;
  same_next = q.same_next ∙ p.same_next;
  same_error = q.same_error ∙ p.same_error;
}

module _ (h : Host) where
  pub launch-SameTasks : (t : Task) (pl : Plugin) → SameTasks pl (launch h t pl).1
  unfolding launch update
  launch-SameTasks t pl = ground arith

  pub spawn-SameTasks : (t : Task) (pl : Plugin) → SameTasks pl (spawn h t pl).1
  unfolding spawn update publish_task ensure
  spawn-SameTasks t pl = ground (arith, launch-SameTasks t pl)

  pub continuous_exited-SameTasks :
      (t : Task) (success : Bool) (pl : Plugin) → SameTasks pl (continuous_exited h t success pl)
  unfolding continuous_exited schedule_restart update publish_task ensure
  continuous_exited-SameTasks t success pl = grind (arith, spawn-SameTasks)

  settle-SameTasks :
      (t : Task) (id : Bytes) (ref : ProcRef) (info : ExitInfo) (success : Bool) (message : Bytes)
      (pl : Plugin)
      → SameTasks pl (settle h t id ref info success message pl)
  unfolding settle scheduled_exited update publish_task ensure
  settle-SameTasks t id ref info success message pl = grind (arith, continuous_exited-SameTasks)

  pub process_exited-SameTasks :
      (id : Bytes) (info : ExitInfo) (pl : Plugin) → SameTasks pl (process_exited h id info pl)
  unfolding process_exited
  process_exited-SameTasks id info pl = grind (arith, settle-SameTasks)

  pub restart_fired-SameTasks : (id : Bytes) (pl : Plugin) → SameTasks pl (restart_fired h id pl)
  unfolding restart_fired update
  restart_fired-SameTasks id pl = grind (arith, spawn-SameTasks)

  pub terminate-SameTasks : (id : Bytes) (pl : Plugin) → SameTasks pl (terminate h id pl).1
  unfolding terminate
  terminate-SameTasks id pl = grind (arith, process_exited-SameTasks)

  reconciled-SameTasks :
      (id : Bytes) (a : HostResult ProcessStatus) (pl : Plugin)
      → SameTasks pl (reconciled h id a pl)
  unfolding reconciled
  reconciled-SameTasks id (ok s) pl = grind (arith, process_exited-SameTasks)
  reconciled-SameTasks id (fail e) pl = grind (arith, process_exited-SameTasks)

  reconcile_each-SameTasks :
      (ids : List Bytes) (pl : Plugin) → SameTasks pl (reconcile_each h ids pl)
  unfolding reconcile_each
  reconcile_each-SameTasks [] pl = record { same_tasks = refl; same_next = refl; same_error = refl }
  reconcile_each-SameTasks (id ∷ ids) pl =
      let pl1 = call (process_status id) pl in
      let answer = h.process_state pl1.calls in
      let step = reconciled-SameTasks id answer pl1 in
      let rest = reconcile_each-SameTasks ids (reconciled h id answer pl1) in
      record {
        same_tasks = rest.same_tasks ∙ step.same_tasks;
        same_next = rest.same_next ∙ step.same_next;
        same_error = rest.same_error ∙ step.same_error;
      }

  pub reconcile-SameTasks : (pl : Plugin) → SameTasks pl (reconcile h pl)
  unfolding reconcile
  reconcile-SameTasks pl = reconcile_each-SameTasks _ pl

  stop_processes-SameTasks :
      (id : Bytes) (refs : Dict ProcRef) (pl : Plugin)
      → SameTasks pl (stop_processes h id refs pl).1
  unfolding stop_processes
  stop_processes-SameTasks id [] pl = record {
    same_tasks = refl;
    same_next = refl;
    same_error = refl;
  }
  stop_processes-SameTasks id ((k, ref) ∷ refs) pl = ground (
    arith,
    terminate-SameTasks k pl,
    stop_processes-SameTasks id refs pl,
    stop_processes-SameTasks id refs (terminate h k pl).1,
  )

  pub stop_task-SameTasks :
      (t : Task) (keep : Bool) (pl : Plugin) → SameTasks pl (stop_task h t keep pl).1
  unfolding stop_task update publish_task ensure cancel_restart_timer
  stop_task-SameTasks t keep pl = grind (arith, terminate-SameTasks, stop_processes-SameTasks)

  pub start_task-SameTasks : (t : Task) (pl : Plugin) → SameTasks pl (start_task h t pl).1
  unfolding start_task update cancel_restart_timer
  start_task-SameTasks t pl = grind (arith, spawn-SameTasks)

  pub run_now-SameTasks :
      (t : Task) (manual : Bool) (pl : Plugin) → SameTasks pl (run_now h t manual pl).1
  unfolding run_now update publish_task ensure
  run_now-SameTasks t manual pl = ground (arith, launch-SameTasks t pl)
