-- ===== src/Tasks/Launch.antt =====
-- How the tasks plugin starts a process: `launch` and `spawn` of plugins/tasks/backend/plugin.go. Each
-- function takes the host and returns the new state.
pub mod Laws
use run_pilot.Prelude.{Option, [], false, if◌then◌else◌, none, some, ◌++◌}
use run_pilot.Prelude.Int.{negsuc, pos}
use run_pilot.Prelude.Bytes.{Bytes, codes, str_eq}
use run_pilot.Prelude.Dict.{put}
use run_pilot.Tasks.{Task, TaskType}
use run_pilot.Tasks.Host.{
  Begun, Host, HostError, HostResult, ProcessStart, Started, err_text, fail, history_append,
  history_begin, history_finish, ok, process_start, publish_completed,
}
use run_pilot.Tasks.Plugin.{
  Plugin, ProcRef, TaskRuntime, call, is_scheduled, publish_task, running, stopped, update,
}
use run_pilot.Prelude.Result.{ok}

abbrev kind : TaskType → Bytes
kind t = if is_scheduled t then codes "command" else codes "process"

abbrev start_params : Task → Begun → ProcessStart
start_params t b = record {
  command = t.command.path;
  args = t.command.args;
  working_directory = t.command.working_directory;
  environment = t.command.environment;
  interpreter = if str_eq t.command.interpreter [] then codes "auto" else t.command.interpreter;
  timeout_seconds = t.timeout_seconds;
  history_id = b.id;
}

-- The start failed: the execution is finished with the error.
launch_failed : Task → Begun → Bytes → Plugin → Plugin
launch_failed t b message pl =
    let pl1 = call (history_append b.id (codes "start error: " ++ message ++ codes "\n")) pl in
    let pl2 = call (history_finish b.id (some (negsuc 0)) false message) pl1 in
    let pl3 =
      update t.id
        (λ r. record r {
          last_run_id = b.id;
          last_run_at = b.started_at;
          last_exit = some (negsuc 0);
          last_success = some false;
          message = message;
        })
        pl2 in
    call (publish_completed t.id t.name b.id (negsuc 0) false message) pl3

abbrev pub ref_of : Task → Begun → ProcRef
ref_of t b = record {
  task_id = t.id;
  run_id = b.id;
  started_at = b.started_at;
  timeout_seconds = t.timeout_seconds;
}

launched : Task → Begun → Started → Plugin → Plugin
launched t b s pl =
    update t.id
      (λ r. record r {
        process_id = s.id;
        pid = s.pid;
        current_run_id = b.id;
        started_at = b.started_at;
        message = [];
      })
      (record pl { procs = put s.id (ref_of t b) pl.procs })

abbrev pub no_process : TaskRuntime → TaskRuntime
no_process r = record r { process_id = []; pid = pos 0; current_run_id = []; started_at = [] }

module _ (h : Host) where
  start_begun : Task → Plugin → Begun → HostResult ProcRef × Plugin
  unfolding launch_failed launched
  start_begun t pl b =
      let pl1 = call (process_start (start_params t b)) pl in
      elim (h.start_process pl1.calls) [
        | fail e ↦ (fail e, launch_failed t b (err_text e) pl1)
        | ok s ↦ (ok (ref_of t b), launched t b s pl1)
      ]

  unfoldable pub launch : Task → Plugin → HostResult ProcRef × Plugin
  unfolding start_begun
  launch t pl =
      let pl1 = call (history_begin (kind t.type) t.id t.name) pl in
      elim (h.begin_history pl1.calls) [ fail e ↦ (fail e, pl1) | ok b ↦ start_begun t pl1 b ]

  spawned : Task → HostResult ProcRef × Plugin → Option HostError × Plugin
  spawned t (fail e, pl) = (
    some e,
    publish_task t
        (update t.id (λ r. no_process (record r { state = stopped; desired = false })) pl),
  )
  spawned t (ok ref, pl) =
      (none, publish_task t (update t.id (λ r. record r { state = running }) pl))

  -- Starts the process of a continuous task.
  unfoldable pub spawn : Task → Plugin → Option HostError × Plugin
  unfolding spawned
  spawn t pl = spawned t (launch t pl)
