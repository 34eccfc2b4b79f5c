-- ===== src/Backup/RdiffBackup.antt =====
-- The rdiff-backup provider, internal/backup/rdiff_backup.go.
pub mod Laws
pub mod Older
use run_pilot.Jobs.{RdiffBackupRetention, RdiffBackupSpec}
use run_pilot.Prelude.{
  Bool, List, Option, [], if◌then◌else◌, none, not, refl, some, true, ◌++◌, ◌||◌, ◌∷◌, ◌≡◌,
}
use run_pilot.Prelude.Bytes.{Bytes, codes}
use run_pilot.Prelude.Result.{Result, ok}
use run_pilot.Backup.{Capabilities, Plan, Step, direct, exit_zero, is_blank, non_empty}

unfoldable pub capabilities : Capabilities
capabilities = record {
  retention = true;
  verification = true;
  versioned = true;
  direct_mirror = true;
}

check_retention : Option RdiffBackupRetention → Option Bytes
check_retention none = none
check_retention (some k) =
    if is_blank k.older_than
    then some (codes "rdiff-backup retention value is required when retention is enabled")
    else none

unfoldable pub check : Option RdiffBackupSpec → Option Bytes
unfolding check_retention
check none = some (codes "rdiff-backup configuration is required")
check (some r) =
    if is_blank r.source || is_blank r.destination
    then some (codes "rdiff-backup source and destination are required")
    else check_retention r.retention

executable : Bool → RdiffBackupSpec → Bytes
executable windows r =
    if not (is_blank r.executable)
    then r.executable
    else if windows
    then codes "rdiff-backup.exe"
    else codes "rdiff-backup"

exclude_args : List Bytes → List Bytes
exclude_args [] = []
exclude_args (x ∷ xs) = codes "--exclude" ∷ x ∷ exclude_args xs

step : Bool → RdiffBackupSpec → Bytes → List Bytes → Step
unfolding executable exit_zero
step windows r name args = record {
  name = name;
  command = direct (executable windows r) args;
  success = exit_zero;
}

retention_step : Bool → RdiffBackupSpec → Option RdiffBackupRetention → List Step
unfolding step
retention_step windows r none = []
retention_step windows r (some k) =
    step windows r (codes "retention") (
      codes "remove"
      ∷ codes "increments"
      ∷ codes "--older-than"
      ∷ k.older_than
      ∷ r.destination
      ∷ [])
    ∷ []

verify_step : Bool → RdiffBackupSpec → List Step
unfolding step
verify_step windows r =
    if r.verify_after_backup
    then step windows r (codes "verify") (codes "verify" ∷ r.destination ∷ []) ∷ []
    else []

planned : Bool → RdiffBackupSpec → Plan
unfolding step exclude_args retention_step verify_step
planned windows r = record {
  provider = codes "rdiff-backup";
  steps =
      step windows r (codes "backup")
          (exclude_args (non_empty r.excludes) ++ (r.source ∷ r.destination ∷ []))
        ∷ retention_step windows r r.retention
      ++ verify_step windows r;
}

-- A missing configuration would be a nil dereference (none here); `Validate` comes first.
unfoldable pub plan : Bool → Option RdiffBackupSpec → Option (Result Plan)
unfolding planned
plan windows none = none
plan windows (some r) = some (ok (planned windows r))

pub plan-made :
    (windows : Bool) (r : Option RdiffBackupSpec)
    → check r ≡ none
    → (made : Plan) × (plan windows r ≡ some (ok made))
unfolding check plan
plan-made windows none h = cc
plan-made windows (some r) h = (_, refl)
