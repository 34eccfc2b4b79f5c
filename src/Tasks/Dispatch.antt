-- ===== src/Tasks/Dispatch.antt =====
-- `update`, `control`, `handle` and `event` of plugins/tasks/backend/rpc.go.
pub mod Edits
use run_pilot.Prelude.{Bool, Option, [], false, if◌then◌else◌, none, not, some, true, ◌++◌, ◌∷◌}
use run_pilot.Prelude.Int.{ℤ}
use run_pilot.Prelude.Bytes.{Bytes, codes, str_eq}
use run_pilot.Prelude.Dict.{delete}
use run_pilot.Tasks.{Task, TaskType, continuous, other_type, scheduled}
use run_pilot.Tasks.Normalize.{clone_task, normalize_task}
use run_pilot.Tasks.Validate.{Verdict, invalid, nil_restart, task_error_text, valid, validate_task}
use run_pilot.Tasks.Host.{
  Call, Host, HostError, HostResult, deleted, fail, history_get, history_list, history_output, ok,
  publish_changed, updated,
}
use run_pilot.Tasks.Plugin.{Plugin, call, ensure, is_scheduled, runtime_of, update, view}
use run_pilot.Tasks.Control.{RpcError, host_failure, reconcile, run_now, start_task, stop_task}
use run_pilot.Tasks.Rpc.{
  Place, Reply, Request, apply_schedule, create, create_task, delete_task, deleted_reply, failed,
  invalid_argument, list_tasks, malformed, output_reply, refuse, restart_request, run_reply,
  run_request, runs_reply, save, split_at, start_request, stop_request, task_history, task_output,
  task_reply, tasks_reply, unknown_method, unregister, update_task, validate_with_host, views,
}
use run_pilot.Prelude.Result.{err, ok}

abbrev viewed_in : Task → Plugin → Reply × Plugin
viewed_in t pl = let pl1 = ensure t.id pl in (task_reply (view t pl1.rt), pl1)

abbrev same_type : TaskType → TaskType → Bool
same_type continuous continuous = true
same_type scheduled scheduled = true
same_type (other_type s) (other_type u) = str_eq s u
same_type continuous scheduled = false
same_type continuous (other_type u) = false
same_type scheduled continuous = false
same_type scheduled (other_type u) = false
same_type (other_type s) continuous = false
same_type (other_type s) scheduled = false

-- The plugin is read-only while its stored configuration could not be read.
abbrev pub writable : (Plugin → Reply × Plugin) → Plugin → Reply × Plugin
writable f pl =
    if not (str_eq pl.load_error [])
    then (failed (refuse (codes "state_unreadable") pl.load_error), pl)
    else f pl

abbrev unknown_task : Plugin → Reply × Plugin
unknown_task pl = (failed (refuse (codes "not_found") (codes "unknown task")), pl)

abbrev pub is_continuous : TaskType → Bool
is_continuous continuous = true
is_continuous scheduled = false
is_continuous (other_type s) = false

module _ (h : Host) where
  -- `update`, from its last step to its first. On an error the old registration is put back.
  update_saved : Task → Place → HostResult (Unit {0}) × Plugin → Reply × Plugin
  update_saved t (before, old, behind) (fail e, pl) =
      (failed (host_failure e), (apply_schedule h old pl).1)
  update_saved t (before, old, behind) (ok u, pl) =
      let pl1 = record pl { tasks = before ++ t ∷ behind } in
      let pl2 = update t.id (λ r. record r { err = [] }) pl1 in
      viewed_in t (call (publish_changed updated t.id) pl2)

  update_applied : Task → Place → HostResult (Unit {0}) × Plugin → Reply × Plugin
  unfolding update_saved
  update_applied t (before, old, behind) (fail e, pl) =
      (failed (host_failure e), (apply_schedule h old pl).1)
  update_applied t (before, old, behind) (ok u, pl) =
      update_saved t (before, old, behind) (save h (before ++ t ∷ behind) pl.next pl)

  update_checked : Task → Place → HostResult (Unit {0}) × Plugin → Reply × Plugin
  unfolding update_applied
  update_checked t place (fail e, pl) = (failed (host_failure e), pl)
  update_checked t place (ok u, pl) = update_applied t place (apply_schedule h t pl)

  update_valid : Task → Place → Verdict → Plugin → Reply × Plugin
  unfolding update_checked
  update_valid t place (invalid e) pl = (failed (refuse invalid_argument (task_error_text e)), pl)
  update_valid t place nil_restart pl = (failed (refuse (codes "panic") []), pl)
  update_valid t place valid pl = update_checked t place (validate_with_host h t pl)

  unfoldable pub update_at : Task → Option Place → Plugin → Reply × Plugin
  unfolding update_valid
  update_at input none pl = unknown_task pl
  update_at input (some (before, old, behind)) pl =
      if not (same_type input.type old.type)
      then (failed (refuse invalid_argument (codes "task type cannot be changed")), pl)
      else (let t = normalize_task (clone_task input) in
          update_valid t (before, old, behind) (validate_task t) pl)

  unfoldable pub update_request : Task → Plugin → Reply × Plugin
  unfolding update_at
  update_request input = writable (λ pl. update_at input (split_at input.id pl.tasks) pl)

  delete_saved : Place → HostResult (Unit {0}) × Plugin → Reply × Plugin
  delete_saved place (fail e, pl) = (failed (host_failure e), pl)
  delete_saved (before, t, behind) (ok u, pl) =
      let pl1 = record pl { tasks = before ++ behind } in
      let pl2 = unregister t.id (stop_task h t false pl1).1 in
      let pl3 = record pl2 { rt = delete t.id pl2.rt } in
      (deleted_reply t.id, call (publish_changed deleted t.id) pl3)

  delete_at : Place → Plugin → Reply × Plugin
  unfolding delete_saved
  delete_at (before, t, behind) pl =
      delete_saved (before, t, behind) (save h (before ++ behind) pl.next pl)

  after_control : Task → Option RpcError × Plugin → Reply × Plugin
  after_control t (none, pl) = viewed_in t pl
  after_control t (some e, pl) = (failed e, pl)

  start_at : Task → Plugin → Reply × Plugin
  unfolding after_control
  start_at t pl = if is_continuous t.type then after_control t (start_task h t pl) else (
    failed (
        refuse invalid_argument
          (codes "only continuous tasks can be started; use run for scheduled tasks")),
    pl,
  )

  host_control : Option HostError × Plugin → Option RpcError × Plugin
  host_control (none, pl) = (none, pl)
  host_control (some e, pl) = (some (host_failure e), pl)

  stop_at : Task → Plugin → Reply × Plugin
  unfolding after_control host_control
  stop_at t pl = after_control t (host_control (stop_task h t false pl))

  -- A stop for a restart that fails takes the pending start back.
  restart_stopped : Task → Option HostError × Plugin → Option RpcError × Plugin
  restart_stopped t (none, pl) = (none, pl)
  restart_stopped t (some e, pl) =
      (some (host_failure e), update t.id (λ r. record r { pending_start = false }) pl)

  restart_at : Task → Plugin → Reply × Plugin
  unfolding after_control restart_stopped
  restart_at t pl =
      if not (is_continuous t.type)
      then (failed (refuse invalid_argument (codes "only continuous tasks can be restarted")), pl)
      else if str_eq (runtime_of t.id pl.rt).process_id []
      then after_control t (start_task h t pl)
      else after_control t (
          restart_stopped t
            (stop_task h t true (update t.id (λ r. record r { pending_start = true }) pl)))

  after_run : Task → (Option RpcError × Bytes) × Plugin → Reply × Plugin
  after_run t ((some e, run), pl) = (failed e, pl)
  after_run t ((none, run), pl) = let pl1 = ensure t.id pl in (run_reply run (view t pl1.rt), pl1)

  run_at : Task → Plugin → Reply × Plugin
  unfolding after_run
  run_at t pl = if is_scheduled t.type then after_run t (run_now h t true pl) else (
    failed (
        refuse invalid_argument
          (codes "only scheduled tasks can be run; use start for continuous tasks")),
    pl,
  )

  -- `control`: the task is looked up, missed exits are settled, and the operation `f` runs.
  unfoldable pub control_at :
      (Place → Plugin → Reply × Plugin) → Option Place → Plugin → Reply × Plugin
  control_at f none pl = unknown_task pl
  control_at f (some (before, t, behind)) pl = f (before, t, behind) (reconcile h (ensure t.id pl))

  unfoldable pub control : (Place → Plugin → Reply × Plugin) → Bytes → Plugin → Reply × Plugin
  unfolding control_at
  control f id = writable (λ pl. control_at f (split_at id pl.tasks) pl)

  abbrev raw_reply : HostResult Bytes × Plugin → (Bytes → Reply) → Reply × Plugin
  raw_reply (fail e, pl) f = (failed (host_failure e), pl)
  raw_reply (ok b, pl) f = (f b, pl)

  read : Call → Plugin → HostResult Bytes × Plugin
  read c pl = let pl1 = call c pl in (h.read_history pl1.calls, pl1)

  output_of : Bytes → ℤ → HostResult Bytes × Plugin → Reply × Plugin
  unfolding read
  output_of run max_bytes (fail e, pl) = (failed (host_failure e), pl)
  output_of run max_bytes (ok execution, pl) =
      raw_reply (read (history_output run max_bytes) pl) (output_reply execution)

  unfoldable pub handle : Request → Plugin → Reply × Plugin
  unfolding delete_at start_at stop_at restart_at run_at read output_of
  handle list_tasks pl =
      let (vs, pl1) = views (reconcile h pl) in (tasks_reply vs pl1.load_error, pl1)
  handle (create_task t) pl = create h t pl
  handle (update_task t) pl = update_request t pl
  handle (delete_task id) pl = control delete_at id pl
  handle (start_request id) pl = control (λ p. start_at p.1) id pl
  handle (stop_request id) pl = control (λ p. stop_at p.1) id pl
  handle (restart_request id) pl = control (λ p. restart_at p.1) id pl
  handle (run_request id) pl = control (λ p. run_at p.1) id pl
  handle (task_history id limit) pl = raw_reply (read (history_list id limit) pl) runs_reply
  handle (task_output run max_bytes) pl = output_of run max_bytes (read (history_get run) pl)
  handle (malformed message) pl =
      (failed (refuse invalid_argument (codes "invalid request: " ++ message)), pl)
  handle unknown_method pl =
      (failed (refuse (codes "unknown_method") (codes "unknown tasks method")), pl)
