-- ===== src/Tasks/Normalize.antt =====
-- `normalizeTask` and `cloneTask` of plugins/tasks/backend/model.go.
pub mod Laws
use run_pilot.Prelude.{Option, [], false, if◌then◌else◌, none, some}
use run_pilot.Prelude.Int.{leb_ℤ, pos, ℤ}
use run_pilot.Prelude.Bytes.{Bytes, codes, str_eq}
use run_pilot.Text.{to_lower, trim_space}
use run_pilot.Tasks.{
  Command, OverlapPolicy, Restart, RestartMode, Schedule, Task, TaskType, allow, always, continuous,
  never, on_failure, other_mode, other_policy, other_type, scheduled, skip, unset_mode,
  unset_policy,
}

auto_interpreter : Bytes → Bytes
auto_interpreter s = if str_eq s (codes "auto") then [] else s

normalize_command : Command → Command
unfolding auto_interpreter
normalize_command c = record c {
  path = trim_space c.path;
  interpreter = auto_interpreter (to_lower (trim_space c.interpreter));
}

positive_or : ℤ → ℤ → ℤ
positive_or d n = if leb_ℤ n (pos 0) then d else n

default_restart : Restart
default_restart = record {
  mode = on_failure;
  initial_delay_seconds = pos 2;
  max_delay_seconds = pos 60;
  max_retries = pos 0;
}

-- `t.Restart == nil || t.Restart.Mode == ""` selects the default.
mode_or_default : RestartMode → Restart → Restart
unfolding default_restart
mode_or_default unset_mode r = default_restart
mode_or_default never r = r
mode_or_default on_failure r = r
mode_or_default always r = r
mode_or_default (other_mode m) r = r

restart_or_default : Option Restart → Restart
unfolding mode_or_default default_restart
restart_or_default none = default_restart
restart_or_default (some r) = mode_or_default r.mode r

positive_delays : Restart → Restart
unfolding positive_or
positive_delays r = record r {
  initial_delay_seconds = positive_or (pos 2) r.initial_delay_seconds;
  max_delay_seconds = positive_or (pos 60) r.max_delay_seconds;
}

policy_or_skip : OverlapPolicy → OverlapPolicy
policy_or_skip unset_policy = skip
policy_or_skip skip = skip
policy_or_skip allow = allow
policy_or_skip (other_policy p) = other_policy p

trim_schedule : Schedule → Schedule
trim_schedule s = record s {
  type = trim_space s.type;
  time_of_day = trim_space s.time_of_day;
  cron = trim_space s.cron;
  time_zone = trim_space s.time_zone;
}

trim_schedule? : Option Schedule → Option Schedule
unfolding trim_schedule
trim_schedule? none = none
trim_schedule? (some s) = some (trim_schedule s)

-- The `switch` on the type: fields of the other type are cleared.
normalize_type : TaskType → Task → Task
unfolding restart_or_default positive_delays policy_or_skip trim_schedule?
normalize_type continuous t = record t {
  enabled = false;
  schedule = none;
  overlap_policy = unset_policy;
  timeout_seconds = pos 0;
  restart = some (positive_delays (restart_or_default t.restart));
}
normalize_type scheduled t = record t {
  autostart = false;
  restart = none;
  overlap_policy = policy_or_skip t.overlap_policy;
  schedule = trim_schedule? t.schedule;
}
normalize_type (other_type s) t = t

unfoldable pub normalize_task : Task → Task
unfolding normalize_command normalize_type
normalize_task t = normalize_type t.type (record t {
  name = trim_space t.name;
  description = trim_space t.description;
  command = normalize_command t.command;
})

-- A copy that shares nothing with its original. Values share nothing, so it is the same value.
unfoldable pub clone_task : Task → Task
clone_task t = record {
  id = t.id;
  name = t.name;
  description = t.description;
  type = t.type;
  command = record {
    path = t.command.path;
    args = t.command.args;
    working_directory = t.command.working_directory;
    environment = t.command.environment;
    interpreter = t.command.interpreter;
  };
  autostart = t.autostart;
  restart = t.restart;
  enabled = t.enabled;
  schedule = t.schedule;
  overlap_policy = t.overlap_policy;
  timeout_seconds = t.timeout_seconds;
}
