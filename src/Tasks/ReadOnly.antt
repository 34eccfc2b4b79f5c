-- ===== src/Tasks/ReadOnly.antt =====
-- Stored configuration that could not be read is never written over.
use run_pilot.Prelude.{Bool, Bool-cases, [], false, inl, inr, true, ◌≡◌, ◌≢◌}
use run_pilot.Prelude.Bytes.{Bytes, codes, str_eq, str_eq→eq}
use run_pilot.Tasks.{Task}
use run_pilot.Tasks.Host.{Host}
use run_pilot.Tasks.Plugin.{Plugin}
use run_pilot.Tasks.Rpc.{
  Place, Reply, Request, create, create_task, delete_task, failed, list_tasks, malformed, refuse,
  restart_request, run_request, start_request, stop_request, task_history, task_output,
  unknown_method, update_task,
}
use run_pilot.Tasks.Dispatch.{control, handle, update_request}

-- The requests that would change a definition or run a task.
abbrev pub is_mutation : Request → Bool
is_mutation list_tasks = false
is_mutation (create_task t) = true
is_mutation (update_task t) = true
is_mutation (delete_task id) = true
is_mutation (start_request id) = true
is_mutation (stop_request id) = true
is_mutation (restart_request id) = true
is_mutation (run_request id) = true
is_mutation (task_history id n) = false
is_mutation (task_output id n) = false
is_mutation (malformed e) = false
is_mutation unknown_method = false

create-unreadable :
    (h : Host) (t : Task) (pl : Plugin)
    → str_eq pl.load_error [] ≡ false
    → create h t pl ≡ (failed (refuse (codes "state_unreadable") pl.load_error), pl)
unfolding create
create-unreadable h t pl e = rw e

update-unreadable :
    (h : Host) (t : Task) (pl : Plugin)
    → str_eq pl.load_error [] ≡ false
    → update_request h t pl ≡ (failed (refuse (codes "state_unreadable") pl.load_error), pl)
unfolding update_request
update-unreadable h t pl e = rw e

control-unreadable :
    (h : Host) (f : Place → Plugin → Reply × Plugin) (id : Bytes) (pl : Plugin)
    → str_eq pl.load_error [] ≡ false
    → control h f id pl ≡ (failed (refuse (codes "state_unreadable") pl.load_error), pl)
unfolding control
control-unreadable h f id pl e = rw e

refused :
    (h : Host) (r : Request) (pl : Plugin)
    → str_eq pl.load_error [] ≡ false
    → is_mutation r ≡ true
    → handle h r pl ≡ (failed (refuse (codes "state_unreadable") pl.load_error), pl)
unfolding handle
refused h (create_task t) pl e m = create-unreadable h t pl e
refused h (update_task t) pl e m = update-unreadable h t pl e
refused h (delete_task id) pl e m = control-unreadable h _ id pl e
refused h (start_request id) pl e m = control-unreadable h _ id pl e
refused h (stop_request id) pl e m = control-unreadable h _ id pl e
refused h (restart_request id) pl e m = control-unreadable h _ id pl e
refused h (run_request id) pl e m = control-unreadable h _ id pl e
refused h list_tasks pl e m = cc
refused h (task_history id n) pl e m = cc
refused h (task_output run n) pl e m = cc
refused h (malformed message) pl e m = cc
refused h unknown_method pl e m = cc

-- While `loadError` is set, each request that would change a definition or run a task is refused with
-- it: nothing of the plugin changes, and the host is not called.
pub read_only :
    (h : Host) (r : Request) (pl : Plugin)
    → pl.load_error ≢ []
    → is_mutation r ≡ true
    → handle h r pl ≡ (failed (refuse (codes "state_unreadable") pl.load_error), pl)
read_only h r pl broken m = elim (Bool-cases (str_eq pl.load_error [])) [
  | inl e ↦ absurd (broken (str_eq→eq pl.load_error [] e))
  | inr e ↦ refused h r pl e m
]
