-- ===== src/Command.antt =====
-- Commands of the host: the command of internal/model/model.go and the checks of
-- internal/model/command.go. A map of the environment is iterated in the order of its list.
pub mod Launcher
pub mod Distinct
mod Tests
use run_pilot.Prelude.{List, Option, [], if◌then◌else◌, none, some, ◌++◌, ◌∷◌}
use run_pilot.Prelude.Bytes.{Bytes, codes, str_eq}
use run_pilot.Prelude.Dict.{Dict, find, put}
use run_pilot.Text.{contains, to_upper, trim_space}

pub record CommandSpec : Type 0 where
  pub path : Bytes
  pub args : List Bytes
  pub working_directory : Bytes
  pub environment : Dict Bytes
  pub interpreter : Bytes

-- `fmt`'s %q of a text with nothing to escape.
unfoldable pub quoted : Bytes → Bytes
quoted s = codes "\"" ++ s ++ codes "\""

name_conflict : Bytes → Option Bytes → Option Bytes
name_conflict name none = none
name_conflict name (some previous) = some (
    codes "environment variable names "
    ++ quoted previous
    ++ codes " and "
    ++ quoted name
    ++ codes " conflict on case-insensitive platforms")

check_name : Dict Bytes → Bytes → Option Bytes
unfolding name_conflict
check_name seen name =
    if str_eq (trim_space name) []
    then some (codes "environment variable name is required")
    else if contains name b'='
    then some (codes "environment variable name " ++ quoted name ++ codes " must not contain =")
    else name_conflict name (find (to_upper name) seen)

check_names : Dict Bytes → Dict Bytes → Option Bytes
check_names seen [] = none
check_names seen ((name, value) ∷ vars) = elim (check_name seen name) [
  | none ↦ check_names (put (to_upper name) name seen) vars
  | some e ↦ some e
]

unfoldable pub validate_environment : Dict Bytes → Option Bytes
unfolding check_names check_name
validate_environment vars = check_names [] vars

unfoldable pub validate_command : CommandSpec → Option Bytes
unfolding validate_environment
validate_command spec = validate_environment spec.environment
