-- ===== src/Tasks/Validate.antt =====
-- `validateTask` and `validateEnvironment` of plugins/tasks/backend/model.go.
pub mod Environment
pub mod Laws
use run_pilot.Prelude.{
  Bool, List, Option, [], false, if◌then◌else◌, length, ltb, none, not, some, true, ◌++◌, ◌||◌, ◌∷◌,
}
use run_pilot.Prelude.Int.{ltb_ℤ, pos}
use run_pilot.Prelude.Bytes.{Bytes, codes, str_eq}
use run_pilot.Prelude.Dict.{Dict, find, put}
use run_pilot.Text.{contains, to_upper, trim_space}
use run_pilot.Text.Decimal.{itoa}
use run_pilot.Tasks.{
  OverlapPolicy, Restart, RestartMode, Task, TaskType, allow, always, continuous, max_delay,
  max_retry, max_timeout, never, on_failure, other_mode, other_policy, other_type, scheduled, skip,
  unset_mode, unset_policy,
}

-- The messages of `fail`, with the names that a message quotes.
pub data TaskError : Type 0 where
  bad_type no_name text_too_long no_command command_too_long too_many_arguments : TaskError
  argument_too_long : TaskError
  unsupported_interpreter : Bytes → TaskError
  too_many_variables no_variable_name variable_too_long : TaskError
  variable_has_equals : Bytes → TaskError
  variables_conflict : Bytes → Bytes → TaskError
  bad_restart_mode bad_restart_limits no_schedule bad_overlap_policy bad_timeout : TaskError

-- `nil_restart` is the panic on a continuous task with no restart policy.
pub data Verdict : Type 0 where
  valid nil_restart : Verdict
  invalid : TaskError → Verdict

-- Tests in a row: the first that fails decides.
infixr 6 ◌but◌
abbrev pub ◌but◌ : Option TaskError → Verdict → Verdict
none but v = v
some e but v = invalid e

abbrev pub when : Bool → TaskError → Option TaskError
when true e = some e
when false e = none

unfoldable pub known_interpreter : Bytes → Bool
known_interpreter s =
    str_eq s []
    || str_eq s (codes "auto")
    || str_eq s (codes "direct")
    || str_eq s (codes "powershell")
    || str_eq s (codes "cmd")
    || str_eq s (codes "sh")
    || str_eq s (codes "bash")
    || str_eq s (codes "sh-inline")
    || str_eq s (codes "python")

unfoldable pub long_argument : List Bytes → Bool
long_argument [] = false
long_argument (a ∷ args) = ltb 32768 (length a) || long_argument args

-- `seen[canonical]`.
unfoldable pub conflict : Option Bytes → Bytes → Option TaskError
conflict none name = none
conflict (some previous) name = some (variables_conflict previous name)

unfoldable pub check_variable : Dict Bytes → Bytes → Bytes → Option TaskError
check_variable seen name value =
    if str_eq (trim_space name) []
    then some no_variable_name
    else if contains name b'='
    then some (variable_has_equals name)
    else if ltb 1024 (length name) || ltb 32768 (length value)
    then some variable_too_long
    else conflict (find (to_upper name) seen) name

unfoldable pub check_variables : Dict Bytes → Dict Bytes → Option TaskError
check_variables seen [] = none
check_variables seen ((name, value) ∷ vars) = elim (check_variable seen name value) [
  | some e ↦ some e
  | none ↦ check_variables (put (to_upper name) name seen) vars
]

unfoldable pub validate_environment : Dict Bytes → Option TaskError
validate_environment vars =
    if ltb 256 (length vars) then some too_many_variables else check_variables [] vars

unfoldable pub known_mode : RestartMode → Bool
known_mode unset_mode = false
known_mode never = true
known_mode on_failure = true
known_mode always = true
known_mode (other_mode m) = false

unfoldable pub known_policy : OverlapPolicy → Bool
known_policy unset_policy = false
known_policy skip = true
known_policy allow = true
known_policy (other_policy p) = false

unfoldable pub validate_restart : Option Restart → Verdict
validate_restart none = nil_restart
validate_restart (some r) =
    when (not (known_mode r.mode)) bad_restart_mode
    but when
        (ltb_ℤ r.max_retries (pos 0)
          || ltb_ℤ (pos max_retry) r.max_retries
          || ltb_ℤ (pos max_delay) r.initial_delay_seconds
          || ltb_ℤ (pos max_delay) r.max_delay_seconds)
        bad_restart_limits
    but valid

abbrev pub is_none {ℓ} : {A : Type ℓ} → Option A → Bool
is_none none = true
is_none (some a) = false

-- The `switch` on the type; no other type reaches it.
unfoldable pub validate_type : TaskType → Task → Verdict
validate_type continuous t = validate_restart t.restart
validate_type scheduled t =
    when (is_none t.schedule) no_schedule
    but when (not (known_policy t.overlap_policy)) bad_overlap_policy
    but when (ltb_ℤ t.timeout_seconds (pos 0) || ltb_ℤ (pos max_timeout) t.timeout_seconds)
        bad_timeout
    but valid
validate_type (other_type s) t = valid

unfoldable pub known_type : TaskType → Bool
known_type continuous = true
known_type scheduled = true
known_type (other_type s) = false

unfoldable pub validate_task : Task → Verdict
validate_task t =
    when (not (known_type t.type)) bad_type
    but when (str_eq t.name []) no_name
    but when (ltb 200 (length t.name) || ltb 2000 (length t.description)) text_too_long
    but when (str_eq t.command.path []) no_command
    but when (ltb 32768 (length t.command.path) || ltb 32768 (length t.command.working_directory))
        command_too_long
    but when (ltb 1024 (length t.command.args)) too_many_arguments
    but when (long_argument t.command.args) argument_too_long
    but when (not (known_interpreter t.command.interpreter))
        (unsupported_interpreter t.command.interpreter)
    but validate_environment t.command.environment
    but validate_type t.type t

-- `err.Error()`.
pub task_error_text : TaskError → Bytes
task_error_text bad_type = codes "task type must be continuous or scheduled"
task_error_text no_name = codes "task name is required"
task_error_text text_too_long = codes "task name or description is too long"
task_error_text no_command = codes "task command is required"
task_error_text command_too_long = codes "task command or working directory is too long"
task_error_text too_many_arguments = codes "task has too many arguments"
task_error_text argument_too_long = codes "task argument is too long"
task_error_text (unsupported_interpreter s) = codes "unsupported interpreter \"" ++ s ++ codes "\""
task_error_text too_many_variables = codes "too many environment variables"
task_error_text no_variable_name = codes "environment variable name is required"
task_error_text variable_too_long = codes "environment variable is too long"
task_error_text (variable_has_equals s) =
    codes "environment variable name \"" ++ s ++ codes "\" must not contain ="
task_error_text (variables_conflict s u) =
    codes "environment variable names \""
    ++ s
    ++ codes "\" and \""
    ++ u
    ++ codes "\" conflict on case-insensitive platforms"
task_error_text bad_restart_mode = codes "restart mode must be never, on-failure or always"
task_error_text bad_restart_limits = codes "restart limits are out of range"
task_error_text no_schedule = codes "scheduled task requires a schedule"
task_error_text bad_overlap_policy = codes "overlap policy must be skip or allow"
task_error_text bad_timeout =
    codes "timeoutSeconds must be between 0 and " ++ itoa (pos max_timeout)
