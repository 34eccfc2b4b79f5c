-- ===== src/Processes.antt =====
-- The processes that the host runs for plugins, internal/core/plugin_processes.go: the request and its
-- checks. The manager is in Manager, and the notifier of output in Notifier.
pub mod Manager
pub mod Notifier
pub mod Run
mod Tests
use run_pilot.Prelude.{
  Bool, List, Option, [], false, if◌then◌else◌, length, ltb, none, some, ℕ, ◌||◌, ◌∷◌,
}
use run_pilot.Prelude.Int.{ltb_ℤ, pos, ℤ}
use run_pilot.Prelude.Bytes.{Bytes, codes, str_eq}
use run_pilot.Prelude.Dict.{Dict}
use run_pilot.Command.{validate_environment}

-- `plugins.HostFailure`, or any other error.
pub data Failure : Type 0 where
  host_failure : Bytes → Bytes → Failure
  other_failure : Bytes → Failure

abbrev pub invalid_process : Bytes → Failure
invalid_process message = host_failure (codes "invalid_argument") message

abbrev pub max_timeout_seconds : ℕ
max_timeout_seconds = 604800

abbrev pub max_args : ℕ
max_args = 1024

abbrev pub max_environment : ℕ
max_environment = 1024

abbrev pub max_string : ℕ
max_string = 32768

-- `pluginProcessStart`.
pub record ProcessStart : Type 0 where
  pub command : Bytes
  pub args : List Bytes
  pub working_directory : Bytes
  pub environment : Dict Bytes
  pub interpreter : Bytes
  pub timeout_seconds : ℤ
  pub history_id : Bytes

unfoldable pub any_long : List Bytes → Bool
any_long [] = false
any_long (arg ∷ rest) = ltb max_string (length arg) || any_long rest

unfoldable pub any_long_variable : Dict Bytes → Bool
any_long_variable [] = false
any_long_variable ((name, value) ∷ vars) =
    ltb 1024 (length name) || ltb max_string (length value) || any_long_variable vars

invalid_environment : Option Bytes → Option Failure
invalid_environment none = none
invalid_environment (some e) = some (invalid_process e)

unfoldable pub validate_start : ProcessStart → Option Failure
unfolding any_long any_long_variable invalid_environment
validate_start input =
    if str_eq input.command []
    then some (invalid_process (codes "process command is required"))
    else if ltb max_string (length input.command) || ltb max_string (length input.working_directory)
    then some (invalid_process (codes "process command or working directory is too long"))
    else if ltb max_args (length input.args) || ltb max_environment (length input.environment)
    then some (invalid_process (codes "process has too many arguments or environment variables"))
    else if any_long input.args
    then some (invalid_process (codes "process argument is too long"))
    else if any_long_variable input.environment
    then some (invalid_process (codes "process environment variable is too long"))
    else if ltb_ℤ input.timeout_seconds (pos 0)
        || ltb_ℤ (pos max_timeout_seconds) input.timeout_seconds
    then some (invalid_process (codes "timeoutSeconds must be between 0 and 604800"))
    else invalid_environment (validate_environment input.environment)
