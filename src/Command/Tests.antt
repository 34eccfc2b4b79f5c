-- ===== src/Command/Tests.antt =====
-- Commands built on concrete hosts.
use run_pilot.Command.Launcher.Environment.{HasOnly, build-HasOnly}
use run_pilot.Prelude.{[], refl, true, ◌∷◌, ◌≡◌}
use run_pilot.Prelude.Bytes.{codes, str_eq}
use run_pilot.Prelude.Dict.{find, put}
use run_pilot.Text.{contains, str_lt, to_lower, to_upper, trim_space}
use run_pilot.Command.{CommandSpec, validate_command, validate_environment}
use run_pilot.Prelude.Result.{ok}
use run_pilot.Command.Launcher.{
  Cmd, Host, build, canonical_name, entry, entry_name, merge_environment,
}

abbrev desktop : Host
desktop = record { windows = true; environ = codes "PATH=C:\\Windows" ∷ codes "Temp=C:\\Temp" ∷ [] }

abbrev deploy : CommandSpec
deploy = record {
  path = codes "C:\\tools\\deploy.PS1";
  args = codes "now" ∷ [];
  working_directory = [];
  environment = (codes "Path", codes "C:\\tools") ∷ (codes "MODE", codes "fast") ∷ [];
  interpreter = [];
}

abbrev deploying : Cmd
deploying = record {
  exe = codes "powershell.exe";
  argv =
      codes "-NoLogo"
      ∷ codes "-NoProfile"
      ∷ codes "-NonInteractive"
      ∷ codes "-File"
      ∷ codes "C:\\tools\\deploy.PS1"
      ∷ codes "now"
      ∷ [];
  dir = [];
  env = codes "Temp=C:\\Temp" ∷ codes "MODE=fast" ∷ codes "Path=C:\\tools" ∷ [];
}

deploy_built : build desktop deploy ≡ ok deploying
unfolding build validate_command validate_environment merge_environment entry entry_name
    canonical_name trim_space to_lower to_upper contains find put str_eq str_lt
deploy_built = refl

build-HasOnly_example : HasOnly true (codes "Path") (codes "C:\\tools") deploying.env
unfolding find str_eq
build-HasOnly_example =
    build-HasOnly desktop deploy deploying (codes "Path") (codes "C:\\tools") deploy_built refl
