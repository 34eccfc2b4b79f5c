-- ===== src/Tasks/Tests.antt =====
-- The tasks plugin run on concrete inputs, against a host that takes everything.
use Prim.Native.Nat.{min}
use run_pilot.Prelude.{All, [], arith, false, length, none, refl, some, true, ◌∷◌, ◌≡◌, ◌≤◌}
use run_pilot.Prelude.Int.{pos}
use run_pilot.Prelude.Bytes.{codes, str_eq}
use run_pilot.Prelude.Dict.{delete, find, put}
use run_pilot.Text.{contains, to_lower, to_upper, trim_prefix, trim_space}
use run_pilot.Text.Decimal.{atoi, itoa}
use run_pilot.Tasks.{Command, Restart, Task, always, continuous, unset_policy}
use run_pilot.Tasks.Normalize.{clone_task, normalize_task}
use run_pilot.Tasks.Validate.{
  check_variable, check_variables, conflict, known_interpreter, known_mode, known_type,
  long_argument, valid, validate_environment, validate_restart, validate_task, validate_type,
}
use run_pilot.Tasks.Backoff.{restart_delay}
use run_pilot.Tasks.Host.{Host, ProcessStatus, ok, on_restart, state_file, storage_get}
use run_pilot.Tasks.Plugin.{
  Plugin, ProcRef, TaskRuntime, ensure, find_task, fresh_runtime, new_plugin, publish_task, running,
  runtime_of, stopping, update,
}
use run_pilot.Tasks.Launch.{launch, spawn}
use run_pilot.Tasks.Exit.{
  ExitInfo, continuous_exited, exit_message, limit_reached, process_exited, restart_or_give_up,
  settle, wants_restart,
}
use run_pilot.Tasks.Control.{lost, stop_task}
use run_pilot.Tasks.Rpc.{
  apply_schedule, create, failed, new_task, refuse, save, start_request, unregister,
  validate_with_host,
}
use run_pilot.Tasks.Dispatch.{handle}
use run_pilot.Tasks.Lifecycle.{id_number, load}
use run_pilot.Tasks.Launch.Laws.{NotAgain}
use run_pilot.Tasks.Events.{events, fired, process_exit}
use run_pilot.Tasks.Ids.{HasFreshIds, create-HasFreshIds}
use run_pilot.Tasks.Exit.Idle.{IsIdle, starts_of}
use run_pilot.Tasks.Exit.Once.{exit_once}
use run_pilot.Tasks.ReadOnly.{read_only}
use run_pilot.Tasks.Events.Stopped.{stopped_stays}
use run_pilot.Tasks.Normalize.Laws.{normalize_task_idem}
use run_pilot.Tasks.Exit.Outcome.{ExitOutcome, exit_outcome}
use run_pilot.Tasks.Lifecycle.Load.{IsRoomy, load-HasFreshIds}
use run_pilot.Tasks.Rpc.Create.{Outcome, create-Outcome}
use run_pilot.Tasks.Backoff.Laws.{IsBounded, restart_IsBounded, restart_delay_closed}
use run_pilot.Tasks.Validate.Laws.{IsSound, validate_task-IsSound}
use run_pilot.Tasks.Validate.Environment.{IsDistinct, IsVariable, validate_environment_sound}
use run_pilot.Prelude.Result.{ok}

abbrev web_command : Command
web_command = record {
  path = codes "server";
  args = codes "--port=80" ∷ [];
  working_directory = [];
  environment = (codes "Mode", codes "test") ∷ [];
  interpreter = [];
}

abbrev web_restart : Restart
web_restart = record {
  mode = always;
  initial_delay_seconds = pos 3;
  max_delay_seconds = pos 20;
  max_retries = pos 2;
}

abbrev web : Task
web = record {
  id = codes "task-1";
  name = codes "Web";
  description = [];
  type = continuous;
  command = web_command;
  autostart = true;
  restart = some web_restart;
  enabled = false;
  schedule = none;
  overlap_policy = unset_policy;
  timeout_seconds = pos 0;
}

abbrev stopped_status : ProcessStatus
stopped_status = record {
  running = false;
  exit_code = some (pos 0);
  terminated = true;
  timed_out = false;
}

abbrev a_host : Host
a_host = record {
  get_storage = λ calls. ok (state_file (pos 1) (pos 2) (web ∷ []));
  set_storage = λ calls. ok tt;
  begin_history = λ calls. ok (record { id = codes "run-1"; started_at = codes "now" });
  last_execution = λ calls. ok none;
  start_process = λ calls. ok (record { id = codes "p1"; pid = pos 7 });
  process_state = λ calls. ok stopped_status;
  register_schedule = λ calls. ok tt;
  validate_schedule = λ calls. ok tt;
  read_history = λ calls. ok [];
}

-- The task runs as process `p1`, and is to be kept running.
abbrev web_running : TaskRuntime
web_running = record fresh_runtime {
  state = running;
  desired = true;
  process_id = codes "p1";
  pid = pos 7;
}

abbrev web_ref : ProcRef
web_ref = record {
  task_id = codes "task-1";
  run_id = codes "run-1";
  started_at = codes "now";
  timeout_seconds = pos 0;
}

abbrev at_work : Plugin
at_work = record {
  tasks = web ∷ [];
  next = pos 2;
  load_error = [];
  rt = (codes "task-1", web_running) ∷ [];
  procs = (codes "p1", web_ref) ∷ [];
  calls = [];
}

abbrev clean_exit : ExitInfo
clean_exit = record { code = pos 0; success = true; terminated = false; timed_out = false }

stopped_stays_example :
    (let pl1 =
        events a_host
          (process_exit (codes "p1") clean_exit ∷ fired on_restart (codes "restart:task-1") ∷ [])
          (stop_task a_host web false at_work).1 in
      IsIdle web.id pl1 × (starts_of web.id pl1.calls ≡ 0))
stopped_stays_example =
    stopped_stays a_host web
      (process_exit (codes "p1") clean_exit ∷ fired on_restart (codes "restart:task-1") ∷ [])
      at_work

none_pending : (runtime_of web.id at_work.rt).pending_start ≡ false
unfolding runtime_of find str_eq
none_pending = refl

exit_outcome_example :
    ExitOutcome a_host web true at_work (continuous_exited a_host web true at_work)
exit_outcome_example = exit_outcome a_host web true at_work none_pending

-- The third exit in a row is one too many for two retries.
third_exit_gives_up :
    (runtime_of web.id
      (continuous_exited a_host web true (record at_work {
        rt = (codes "task-1", record web_running { restart_count = 2 }) ∷ [];
      })).rt).desired
    ≡ false
unfolding continuous_exited restart_or_give_up publish_task ensure update runtime_of find put str_eq
    wants_restart limit_reached
third_exit_gives_up = refl

-- A host whose next processes are `p2`, and `p1` with a start pending for its exit.
abbrev next_host : Host
next_host = record a_host { start_process = λ calls. ok (record { id = codes "p2"; pid = pos 8 }) }

abbrev start_waits : Plugin
start_waits = record at_work {
  rt = (codes "task-1", record web_running { state = stopping; pending_start = true }) ∷ [];
}

p1_over : NotAgain next_host (codes "p1") start_waits.calls
unfolding str_eq
p1_over more s e = ground arith

exit_once_example :
    process_exited next_host
      (codes "p1")
      clean_exit
      (process_exited next_host (codes "p1") lost start_waits)
    ≡ process_exited next_host (codes "p1") lost start_waits
exit_once_example = exit_once next_host (codes "p1") lost clean_exit start_waits p1_over

-- The first report takes `p1` out and starts `p2`.
replaced :
    (process_exited next_host (codes "p1") lost start_waits).procs ≡ (codes "p2", web_ref) ∷ []
unfolding process_exited settle continuous_exited spawn launch update publish_task ensure runtime_of
    find put delete str_eq find_task exit_message
replaced = refl

create-Outcome_example : Outcome a_host (new_task at_work web) at_work (create a_host web at_work)
create-Outcome_example = create-Outcome a_host web at_work

-- A second task is stored under the next number.
created_second : (create a_host web at_work).1.next ≡ pos 3
unfolding create validate_task validate_environment check_variables check_variable conflict find put
    contains trim_space to_upper known_type known_interpreter long_argument validate_type
    validate_restart known_mode normalize_task clone_task to_lower validate_with_host apply_schedule
    unregister save ensure runtime_of str_eq itoa
created_second = refl

small_ids : HasFreshIds at_work
unfolding id_number trim_prefix atoi str_eq
small_ids = record { below = ((λ n e. ground arith), tt); distinct = (tt, tt) }

create-HasFreshIds_example : HasFreshIds (create a_host web at_work).1
create-HasFreshIds_example = create-HasFreshIds a_host web at_work 2 refl (omega arith) small_ids

stored-IsRoomy : IsRoomy (a_host.get_storage (storage_get ∷ []))
unfolding id_number trim_prefix atoi str_eq
stored-IsRoomy = ((λ n e. ground arith), tt)

load-HasFreshIds_example : HasFreshIds (load a_host new_plugin)
load-HasFreshIds_example = load-HasFreshIds a_host stored-IsRoomy

normalize_task_idem_example : normalize_task (normalize_task web) ≡ normalize_task web
normalize_task_idem_example = normalize_task_idem web

web_valid : validate_task web ≡ valid
unfolding validate_task validate_environment check_variables check_variable conflict find put
    contains trim_space to_upper known_type known_interpreter long_argument validate_type
    validate_restart known_mode str_eq
web_valid = refl

validate_task-IsSound_example : IsSound web
validate_task-IsSound_example = validate_task-IsSound web web_valid

web_environment : validate_environment web_command.environment ≡ none
unfolding validate_environment check_variables check_variable conflict find put contains trim_space
    to_upper str_eq
web_environment = refl

validate_environment_sound_example :
    (length web_command.environment ≤ 256)
    × All IsVariable web_command.environment
    × IsDistinct web_command.environment
validate_environment_sound_example =
    validate_environment_sound web_command.environment web_environment

web_normal_valid : validate_task (normalize_task web) ≡ valid
unfolding normalize_task validate_task validate_environment check_variables check_variable conflict
    find put contains trim_space to_upper to_lower known_type known_interpreter long_argument
    validate_type validate_restart known_mode str_eq
web_normal_valid = refl

restart_IsBounded_example : (r : Restart) × ((normalize_task web).restart ≡ some r) × IsBounded r
restart_IsBounded_example = restart_IsBounded web refl web_normal_valid

web_bounded : IsBounded web_restart
web_bounded = record {
  initial = 3;
  max = 20;
  initial_delay = refl;
  max_delay_seconds = refl;
  initial_pos = omega arith;
  max_pos = omega arith;
  initial_capped = omega arith;
  max_capped = omega arith;
}

restart_delay_closed_example :
    (restart_delay web_restart 0 ≡ pos 3) × (restart_delay web_restart 3 ≡ pos (min 20 24))
unfolding web_bounded
restart_delay_closed_example = restart_delay_closed web_restart web_bounded 2

read_only_example :
    handle a_host (start_request (codes "task-1")) (record at_work { load_error = codes "stored" })
    ≡ (
      failed (refuse (codes "state_unreadable") (codes "stored")),
      record at_work { load_error = codes "stored" },
    )
read_only_example =
    read_only a_host (start_request (codes "task-1"))
      (record at_work { load_error = codes "stored" }) (λ e. cc) refl
