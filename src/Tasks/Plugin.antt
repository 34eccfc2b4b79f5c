-- ===== src/Tasks/Plugin.antt =====
-- The state of the tasks plugin, plugins/tasks/backend/plugin.go: `taskRuntime`, `procRef`, `plugin`,
-- and the views of it. A pointer into `rt` is the task's key in that map.
pub mod Laws
use run_pilot.Prelude.{
  Bool, List, Option, [], false, if◌then◌else◌, none, some, true, ℕ, ◌&&◌, ◌==◌, ◌∷◌,
}
use run_pilot.Prelude.Int.{pos, ℤ}
use run_pilot.Prelude.Bytes.{Bytes, str_eq}
use run_pilot.Prelude.Dict.{Dict, find, put}
use run_pilot.Tasks.{Task, TaskType, continuous, other_type, scheduled}
use run_pilot.Tasks.Normalize.{clone_task}
use run_pilot.Tasks.Host.{
  Call, Status, View, ViewState, publish_status, view_failure, view_idle, view_restarting,
  view_running, view_stopped, view_stopping,
}

pub data RunState : Type 0 where
  stopped running stopping restarting : RunState

-- `restartCount` and `active` count events of one plugin run; they are not bounded here.
pub record TaskRuntime : Type 0 where
  pub state : RunState
  pub desired : Bool
  pub pending_start : Bool
  pub restart_timer : Bool
  pub restart_count : ℕ
  pub process_id : Bytes
  pub pid : ℤ
  pub active : ℕ
  pub current_run_id : Bytes
  pub started_at : Bytes
  pub last_run_id : Bytes
  pub last_run_at : Bytes
  pub last_exit : Option ℤ
  pub last_success : Option Bool
  pub message : Bytes
  pub err : Bytes

pub record ProcRef : Type 0 where
  pub task_id : Bytes
  pub run_id : Bytes
  pub started_at : Bytes
  pub timeout_seconds : ℤ

-- `calls` is the list of calls of the host so far, newest first.
pub record Plugin : Type 0 where
  pub tasks : List Task
  pub next : ℤ
  pub load_error : Bytes
  pub rt : Dict TaskRuntime
  pub procs : Dict ProcRef
  pub calls : List Call

abbrev pub fresh_runtime : TaskRuntime
fresh_runtime = record {
  state = stopped;
  desired = false;
  pending_start = false;
  restart_timer = false;
  restart_count = 0;
  process_id = [];
  pid = pos 0;
  active = 0;
  current_run_id = [];
  started_at = [];
  last_run_id = [];
  last_run_at = [];
  last_exit = none;
  last_success = none;
  message = [];
  err = [];
}

unfoldable pub new_plugin : Plugin
new_plugin = record { tasks = []; next = pos 1; load_error = []; rt = []; procs = []; calls = [] }

unfoldable pub find_task : Bytes → List Task → Option Task
find_task id [] = none
find_task id (t ∷ ts) = if str_eq t.id id then some t else find_task id ts

abbrev pub or_fresh : Option TaskRuntime → TaskRuntime
or_fresh none = fresh_runtime
or_fresh (some r) = r

-- `runtimeOf`: the entry that it returns, and the map with the entry in it.
unfoldable pub runtime_of : Bytes → Dict TaskRuntime → TaskRuntime
runtime_of id rt = or_fresh (find id rt)

unfoldable pub ensure : Bytes → Plugin → Plugin
unfolding runtime_of
ensure id pl = record pl { rt = put id (runtime_of id pl.rt) pl.rt }

-- An assignment through the pointer that `runtimeOf id` returned.
unfoldable pub update : Bytes → (TaskRuntime → TaskRuntime) → Plugin → Plugin
unfolding runtime_of
update id f pl = record pl { rt = put id (f (runtime_of id pl.rt)) pl.rt }

-- A call of the host.
abbrev pub call : Call → Plugin → Plugin
call c pl = record pl { calls = c ∷ pl.calls }

view_state : RunState → ViewState
view_state stopped = view_stopped
view_state running = view_running
view_state stopping = view_stopping
view_state restarting = view_restarting

idle_state : Option Bool → ViewState
idle_state none = view_idle
idle_state (some true) = view_idle
idle_state (some false) = view_failure

abbrev pub is_scheduled : TaskType → Bool
is_scheduled continuous = false
is_scheduled scheduled = true
is_scheduled (other_type s) = false

unfoldable pub status_of : Task → TaskRuntime → Status
unfolding view_state idle_state
status_of t r =
    let idle = r.active == 0 in
    record {
      state =
          if is_scheduled t.type
          then (if idle then idle_state r.last_success else view_running)
          else view_state r.state;
      pid = r.pid;
      started_at = if is_scheduled t.type && idle then [] else r.started_at;
      restart_count = r.restart_count;
      current_run_id = r.current_run_id;
      running_count = if is_scheduled t.type then r.active else 0;
      last_run_id = r.last_run_id;
      last_run_at = r.last_run_at;
      last_exit = r.last_exit;
      last_success = r.last_success;
      message = r.message;
      error = r.err;
    }

unfoldable pub view : Task → Dict TaskRuntime → View
view t rt = record { task = clone_task t; status = status_of t (runtime_of t.id rt) }

unfoldable pub publish_task : Task → Plugin → Plugin
publish_task t pl = let pl' = ensure t.id pl in call (publish_status (view t pl'.rt)) pl'
