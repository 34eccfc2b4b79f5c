-- ===== src/Tasks/Dispatch/Edits.antt =====
-- Only `create`, `update` and `delete` change what is stored.
use run_pilot.Tasks.Rpc.Views.{views-SameTasks}
use run_pilot.Prelude.{Bool, arith, false, refl, true, ◌≡◌}
use run_pilot.Prelude.Int.{ℤ}
use run_pilot.Prelude.Bytes.{Bytes}
use run_pilot.Tasks.{Task}
use run_pilot.Tasks.Host.{Call, Host, history_get, history_list}
use run_pilot.Tasks.Plugin.{Plugin, ensure, update}
use run_pilot.Tasks.Control.{reconcile}
use run_pilot.Tasks.Rpc.{
  Place, Reply, Request, create_task, delete_task, list_tasks, malformed, restart_request,
  run_request, runs_reply, start_request, stop_request, task_history, task_output, unknown_method,
  update_task,
}
use run_pilot.Tasks.Dispatch.{
  after_control, after_run, control, control_at, handle, host_control, output_of, raw_reply, read,
  restart_at, restart_stopped, run_at, start_at, stop_at,
}
use run_pilot.Tasks.Frame.{
  SameTasks, SameTasks-trans, reconcile-SameTasks, run_now-SameTasks, start_task-SameTasks,
  stop_task-SameTasks,
}

-- The requests that change the definitions.
abbrev pub is_edit : Request → Bool
is_edit list_tasks = false
is_edit (create_task t) = true
is_edit (update_task t) = true
is_edit (delete_task id) = true
is_edit (start_request id) = false
is_edit (stop_request id) = false
is_edit (restart_request id) = false
is_edit (run_request id) = false
is_edit (task_history id n) = false
is_edit (task_output id n) = false
is_edit (malformed e) = false
is_edit unknown_method = false

same : (pl : Plugin) → SameTasks pl pl
same pl = record { same_tasks = refl; same_next = refl; same_error = refl }

module _ (h : Host) where
  start_at-SameTasks : (t : Task) (pl : Plugin) → SameTasks pl (start_at h t pl).1
  unfolding start_at after_control ensure
  start_at-SameTasks t pl = grind (arith, start_task-SameTasks)

  stop_at-SameTasks : (t : Task) (pl : Plugin) → SameTasks pl (stop_at h t pl).1
  unfolding stop_at after_control host_control ensure
  stop_at-SameTasks t pl = grind (arith, stop_task-SameTasks)

  restart_at-SameTasks : (t : Task) (pl : Plugin) → SameTasks pl (restart_at h t pl).1
  unfolding restart_at after_control restart_stopped ensure update
  restart_at-SameTasks t pl = grind (arith, stop_task-SameTasks, start_task-SameTasks)

  run_at-SameTasks : (t : Task) (pl : Plugin) → SameTasks pl (run_at h t pl).1
  unfolding run_at after_run ensure
  run_at-SameTasks t pl = grind (arith, run_now-SameTasks)

  control-SameTasks :
      (f : Place → Plugin → Reply × Plugin) (id : Bytes) (pl : Plugin)
      → ((p : Place) (a : Plugin) → SameTasks a (f p a).1)
      → SameTasks pl (control h f id pl).1
  unfolding control control_at ensure
  control-SameTasks f id pl keep = grind (arith, reconcile-SameTasks, keep)

  history-SameTasks :
      (c : Call) (pl : Plugin) (f : Bytes → Reply) → SameTasks pl (raw_reply h (read h c pl) f).1
  unfolding read
  history-SameTasks c pl f = ground arith

  output-SameTasks :
      (run : Bytes) (n : ℤ) (pl : Plugin)
      → SameTasks pl (output_of h run n (read h (history_get run) pl)).1
  unfolding read output_of
  output-SameTasks run n pl = ground arith

-- A request other than `create`, `update` and `delete` leaves the tasks, the next number and the load
-- error as they are, whatever the host answers.
pub handle-SameTasks :
    (h : Host) (r : Request) (pl : Plugin) → is_edit r ≡ false → SameTasks pl (handle h r pl).1
unfolding handle
handle-SameTasks h list_tasks pl e =
    SameTasks-trans (reconcile-SameTasks h pl) (views-SameTasks (reconcile h pl))
handle-SameTasks h (create_task t) pl e = cc
handle-SameTasks h (update_task t) pl e = cc
handle-SameTasks h (delete_task id) pl e = cc
handle-SameTasks h (start_request id) pl e =
    control-SameTasks h (λ p. start_at h p.1) id pl (λ p. start_at-SameTasks h p.1)
handle-SameTasks h (stop_request id) pl e =
    control-SameTasks h (λ p. stop_at h p.1) id pl (λ p. stop_at-SameTasks h p.1)
handle-SameTasks h (restart_request id) pl e =
    control-SameTasks h (λ p. restart_at h p.1) id pl (λ p. restart_at-SameTasks h p.1)
handle-SameTasks h (run_request id) pl e =
    control-SameTasks h (λ p. run_at h p.1) id pl (λ p. run_at-SameTasks h p.1)
handle-SameTasks h (task_history id n) pl e = history-SameTasks h (history_list id n) pl runs_reply
handle-SameTasks h (task_output run n) pl e = output-SameTasks h run n pl
handle-SameTasks h (malformed message) pl e = same pl
handle-SameTasks h unknown_method pl e = same pl
