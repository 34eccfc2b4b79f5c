-- ===== src/Backup/Build.antt =====
-- `Validate`, `BuildPlan` and `Build` of internal/backup/backup.go.
pub mod Accepts
pub mod Runnable
pub mod Older
use run_pilot.Backup.Robocopy
use run_pilot.Backup.Restic
use run_pilot.Backup.RdiffBackup
use run_pilot.Jobs.{BackupSpec}
use run_pilot.Prelude.{Bool, List, Option, [], none, some, ◌++◌, ◌∷◌}
use run_pilot.Prelude.Bytes.{Bytes, codes}
use run_pilot.Command.{CommandSpec, quoted}
use run_pilot.Prelude.Result.{Result, and_then, err, ok}
use run_pilot.Backup.{
  Capabilities, Plan, Provider, Step, canonical, provider_for, rdiff_backup_provider,
  restic_provider, robocopy_provider,
}

-- The methods of a provider.
unfoldable pub capabilities : Provider → Capabilities
capabilities robocopy_provider = Robocopy.capabilities
capabilities restic_provider = Restic.capabilities
capabilities rdiff_backup_provider = RdiffBackup.capabilities

unfoldable pub provider_validate : Provider → Bool → BackupSpec → Option Bytes
provider_validate robocopy_provider windows spec = Robocopy.validate windows spec
provider_validate restic_provider windows spec = Restic.check spec.restic
provider_validate rdiff_backup_provider windows spec = RdiffBackup.check spec.rdiff_backup

unfoldable pub provider_plan : Provider → Bool → BackupSpec → Option (Result Plan)
provider_plan robocopy_provider windows spec = Robocopy.plan spec.robocopy
provider_plan restic_provider windows spec = Restic.plan windows spec.restic
provider_plan rdiff_backup_provider windows spec = RdiffBackup.plan windows spec.rdiff_backup

validate_by : Result Provider → Bool → BackupSpec → Option Bytes
unfolding provider_validate
validate_by (err e) windows spec = some e
validate_by (ok p) windows spec = provider_validate p windows spec

unfoldable pub validate : Bool → BackupSpec → Option Bytes
unfolding validate_by
validate windows spec = let c = canonical spec in validate_by (provider_for c.engine) windows c

plan_if : Option Bytes → Option (Result Plan) → Option (Result Plan)
plan_if none p = p
plan_if (some e) p = some (err e)

plan_by : Result Provider → Bool → BackupSpec → Option (Result Plan)
unfolding plan_if provider_validate provider_plan
plan_by (err e) windows spec = some (err e)
plan_by (ok p) windows spec =
    plan_if (provider_validate p windows spec) (provider_plan p windows spec)

-- The plan or the error; none where the code would panic.
unfoldable pub build_plan : Bool → BackupSpec → Option (Result Plan)
unfolding plan_by
build_plan windows spec = let c = canonical spec in plan_by (provider_for c.engine) windows c

only_command : Plan → Result CommandSpec
only_command p = one p.steps
  where
    one : List Step → Result CommandSpec
    one (s ∷ []) = ok s.command
    one steps =
        err (codes "backup provider " ++ quoted p.provider ++ codes " requires multiple commands")

unfoldable pub build : Bool → BackupSpec → Option (Result CommandSpec)
unfolding build_plan only_command
build windows spec = elim (build_plan windows spec) [
  | none ↦ none
  | some r ↦ some (and_then r only_command)
]
