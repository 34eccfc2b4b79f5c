-- ===== src/Backup/Tests.antt =====
-- Backup plans of concrete specifications.
use run_pilot.Backup.Restic
use run_pilot.Backup.Robocopy
use run_pilot.Jobs.{BackupSpec, JobDefinition, ResticBackupSpec, backup, mirror}
use run_pilot.Jobs.Runner.{exited, execute}
use run_pilot.Backup.Restic.Laws.{IsCareful, plan-IsCareful}
use run_pilot.Backup.Build.Accepts.{build_plan-validate}
use run_pilot.Backup.Build.Older.{build-copying}
use run_pilot.Backup.Older.{copying, program}
use run_pilot.Backup.Build.Runnable.{IsBuilt, build_plan-IsBuilt}
use run_pilot.Backup.Execute.{build_plan_for, execute_robocopy}
use run_pilot.Command.Launcher.{Host}
use run_pilot.Schedule.{daily}
use run_pilot.Prelude.{All, List, [], false, none, refl, some, true, ℕ, ◌++◌, ◌<◌, ◌↔◌, ◌∷◌, ◌≡◌}
use run_pilot.Prelude.Int.{pos}
use run_pilot.Prelude.Bytes.{Bytes, codes, str_eq}
use run_pilot.Text.{to_lower, trim_space}
use run_pilot.Text.Decimal.{itoa}
use run_pilot.Prelude.Result.{Result, error_of, ok}
use run_pilot.Backup.{
  Plan, Step, canonical, direct, exit_zero, non_empty, provider_for, robocopy_provider,
}
use run_pilot.Backup.Build.{build, build_plan, provider_plan, provider_validate, validate}

abbrev folder : BackupSpec
folder = record {
  engine = [];
  robocopy = none;
  restic = none;
  rdiff_backup = none;
  source = codes "C:\\data";
  destination = codes "D:\\data";
  mode = mirror;
  exclude_dirs = [];
  exclude_files = codes "*.tmp" ∷ [];
  retries = pos 2;
  retry_wait_seconds = pos 0;
  additional_args = [];
}

folder_command :
    build true folder
    ≡ some (
        ok (
          direct (codes "robocopy.exe") (
            codes "C:\\data"
            ∷ codes "D:\\data"
            ∷ codes "/MIR"
            ∷ codes "/COPY:DAT"
            ∷ codes "/DCOPY:DAT"
            ∷ codes "/XJ"
            ∷ codes "/R:2"
            ∷ codes "/W:5"
            ∷ codes "/NP"
            ∷ codes "/XF"
            ∷ codes "*.tmp"
            ∷ [])))
unfolding build build_plan canonical provider_for provider_plan provider_validate Robocopy.validate
    Robocopy.plan trim_space to_lower str_eq itoa
folder_command = refl

folder_valid : validate true folder ≡ none
unfolding validate canonical provider_for provider_validate Robocopy.validate trim_space to_lower
    str_eq
folder_valid = refl

build_plan-validate_example :
    (answer : Result Plan) × (build_plan true folder ≡ some answer)
    × (error_of answer ≡ validate true folder)
build_plan-validate_example = build_plan-validate true folder

folder_engine : provider_for folder.engine ≡ ok robocopy_provider
unfolding provider_for trim_space to_lower str_eq
folder_engine = refl

build-copying_example :
    build true folder
    ≡ some (ok (direct (program robocopy_provider true) (copying robocopy_provider folder)))
build-copying_example = build-copying robocopy_provider true folder folder_engine refl folder_valid

-- The same folder for restic, on another system.
restic_command :
    build false (record folder { engine = codes "Restic" })
    ≡ some (
        ok (
          direct (codes "restic") (
            codes "--repo"
            ∷ codes "D:\\data"
            ∷ codes "backup"
            ∷ codes "--exclude"
            ∷ codes "*.tmp"
            ∷ codes "C:\\data"
            ∷ [])))
unfolding build build_plan canonical provider_for provider_plan provider_validate Restic.check
    Restic.plan trim_space to_lower str_eq non_empty
restic_command = refl

abbrev vault : ResticBackupSpec
vault = record {
  executable = [];
  repository = codes "/mnt/vault";
  password_file = codes "/etc/vault";
  sources = codes " /home " ∷ codes " " ∷ [];
  excludes = [];
  tags = codes "home" ∷ [];
  use_vss = false;
  retention = some (record {
    keep_last = pos 0;
    keep_daily = pos 7;
    keep_weekly = pos 0;
    keep_monthly = pos 0;
    keep_yearly = pos 0;
    keep_within = [];
    prune = true;
  });
  check_after_backup = false;
}

abbrev vault_base : List Bytes
vault_base = codes "--repo" ∷ codes "/mnt/vault" ∷ codes "--password-file" ∷ codes "/etc/vault" ∷ []

abbrev vault_plan : Plan
vault_plan = record {
  provider = codes "Restic";
  steps =
      record {
        name = codes "backup";
        command =
            direct (codes "restic")
              (vault_base ++ (codes "backup" ∷ codes "--tag" ∷ codes "home" ∷ codes "/home" ∷ []));
        success = exit_zero;
      }
      ∷ record {
        name = codes "retention";
        command = direct (codes "restic") (
            vault_base
            ++ (codes "forget" ∷ codes "--keep-daily" ∷ codes "7" ∷ codes "--prune" ∷ []));
        success = exit_zero;
      }
      ∷ [];
}

vault_planned : Restic.plan false (some vault) ≡ some (ok vault_plan)
unfolding Restic.plan trim_space str_eq non_empty itoa
vault_planned = refl

vault_valid : Restic.check (some vault) ≡ none
unfolding Restic.check trim_space str_eq non_empty
vault_valid = refl

plan-IsCareful_example : All (IsCareful (codes "/mnt/vault")) vault_plan.steps
plan-IsCareful_example = plan-IsCareful false vault vault_plan vault_valid vault_planned

abbrev to_vault : BackupSpec
to_vault = record folder { engine = codes "Restic"; restic = some vault }

abbrev server : Host
server = record { windows = false; environ = codes "HOME=/root" ∷ [] }

to_vault_planned : build_plan false to_vault ≡ some (ok vault_plan)
unfolding build_plan canonical provider_for provider_plan provider_validate Restic.plan Restic.check
    trim_space to_lower str_eq non_empty itoa
to_vault_planned = refl

build_plan-IsBuilt_example : All (IsBuilt server) vault_plan.steps
build_plan-IsBuilt_example = build_plan-IsBuilt server false to_vault vault_plan to_vault_planned

abbrev mirrored : JobDefinition
mirrored = record {
  id = codes "mirror";
  name = codes "Mirror";
  description = [];
  enabled = true;
  type = backup;
  schedule = record {
    type = daily;
    interval_seconds = pos 0;
    time_of_day = codes "02:30";
    expression = [];
    time_zone = [];
  };
  overlap_policy = [];
  timeout_seconds = pos 0;
  backup_spec = some folder;
}

folder_provider : provider_for (canonical folder).engine ≡ ok robocopy_provider
unfolding canonical provider_for trim_space to_lower str_eq
folder_provider = refl

execute_robocopy_example :
    ((p : Plan) × (s : Step) × (build_plan true folder ≡ some (ok p))
      × (p.steps ≡ s ∷ [])
      × ((s.success (pos 3) ≡ true) ↔ ((n : ℕ) × (pos 3 ≡ pos n) × (n < 8))))
    × (((execute
            (build_plan_for true (λ s. exited (pos 3) (codes "exit status 3") false))
            none
            mirrored).success
          ≡ true)
        ↔ (pos 3 ≡ pos 0))
execute_robocopy_example =
    execute_robocopy true mirrored folder (pos 3) (codes "exit status 3") refl refl folder_provider
      folder_valid
