-- ===== src/Command/Launcher/Direct.antt =====
-- A command that is run directly, with no environment of its own.
use run_pilot.Prelude.{[], false, refl, ◌≡◌}
use run_pilot.Prelude.Bytes.{codes, str_eq}
use run_pilot.Text.{to_lower, trim_space}
use run_pilot.Command.{CommandSpec, check_names, validate_command, validate_environment}
use run_pilot.Prelude.Result.{ok}
use run_pilot.Command.Launcher.{Host, build, built, interpreter_of, invocation, merge_environment}

pub build-direct :
    (host : Host) (spec : CommandSpec)
    → str_eq (trim_space spec.path) [] ≡ false
    → spec.interpreter ≡ codes "direct"
    → spec.environment ≡ []
    → build host spec
      ≡ ok (record {
        exe = spec.path;
        argv = spec.args;
        dir = spec.working_directory;
        env = host.environ;
      })
unfolding build invocation interpreter_of built merge_environment validate_command
    validate_environment check_names trim_space to_lower str_eq
build-direct host spec p i e = rw (p, i, e) refl
