-- ===== src/Backup/Restic.antt =====
-- The restic provider, internal/backup/restic.go.
pub mod Laws
pub mod Older
use run_pilot.Jobs.{ResticBackupSpec, ResticRetention}
use run_pilot.Prelude.{
  Bool, List, Option, [], false, if◌then◌else◌, none, not, refl, some, true, ◌&&◌, ◌++◌, ◌||◌, ◌∷◌,
  ◌≡◌,
}
use run_pilot.Prelude.Int.{eq_ℤ, ltb_ℤ, pos, ℤ}
use run_pilot.Prelude.Bytes.{Bytes, codes}
use run_pilot.Text.Decimal.{itoa}
use run_pilot.Prelude.Result.{Result, ok}
use run_pilot.Backup.{Capabilities, Plan, Step, direct, exit_zero, is_blank, non_empty}

unfoldable pub capabilities : Capabilities
capabilities = record {
  retention = true;
  verification = true;
  versioned = true;
  direct_mirror = false;
}

abbrev keeps : ResticRetention → List (Bytes × ℤ)
keeps r =
    (codes "--keep-last", r.keep_last)
    ∷ (codes "--keep-daily", r.keep_daily)
    ∷ (codes "--keep-weekly", r.keep_weekly)
    ∷ (codes "--keep-monthly", r.keep_monthly)
    ∷ (codes "--keep-yearly", r.keep_yearly)
    ∷ []

any_negative : List (Bytes × ℤ) → Bool
any_negative [] = false
any_negative ((f, n) ∷ vs) = ltb_ℤ n (pos 0) || any_negative vs

all_zero : List (Bytes × ℤ) → Bool
all_zero [] = true
all_zero ((f, n) ∷ vs) = eq_ℤ n (pos 0) && all_zero vs

check_retention : Option ResticRetention → Option Bytes
unfolding any_negative all_zero
check_retention none = none
check_retention (some r) =
    if any_negative (keeps r)
    then some (codes "restic retention values cannot be negative")
    else if is_blank r.keep_within && all_zero (keeps r)
    then some (codes "restic retention needs at least one keep setting")
    else none

is_empty : List Bytes → Bool
is_empty [] = true
is_empty (s ∷ ss) = false

unfoldable pub check : Option ResticBackupSpec → Option Bytes
unfolding check_retention is_empty
check none = some (codes "restic configuration is required")
check (some r) =
    if is_blank r.repository
    then some (codes "restic repository is required")
    else if is_empty (non_empty r.sources)
    then some (codes "at least one restic source is required")
    else check_retention r.retention

executable : Bool → ResticBackupSpec → Bytes
executable windows r =
    if is_blank r.executable
    then if windows then codes "restic" ++ codes ".exe" else codes "restic"
    else r.executable

base : ResticBackupSpec → List Bytes
base r =
    let args = codes "--repo" ∷ r.repository ∷ [] in
    if not (is_blank r.password_file)
    then args ++ (codes "--password-file" ∷ r.password_file ∷ [])
    else args

flagged : Bytes → List Bytes → List Bytes
flagged flag [] = []
flagged flag (x ∷ xs) = flag ∷ x ∷ flagged flag xs

keep_args : List (Bytes × ℤ) → List Bytes
keep_args [] = []
keep_args ((f, n) ∷ vs) =
    let rest = keep_args vs in if ltb_ℤ (pos 0) n then f ∷ itoa n ∷ rest else rest

retention_args : ResticRetention → List Bytes
unfolding keep_args
retention_args r =
    keep_args (keeps r)
    ++ (if not (is_blank r.keep_within) then codes "--keep-within" ∷ r.keep_within ∷ [] else [])

backup_args : ResticBackupSpec → List Bytes
unfolding base flagged
backup_args r =
    base r
    ++ (codes "backup" ∷ [])
    ++ flagged (codes "--exclude") (non_empty r.excludes)
    ++ flagged (codes "--tag") (non_empty r.tags)
    ++ (if r.use_vss then codes "--use-fs-snapshot" ∷ [] else [])
    ++ non_empty r.sources

forget_args : ResticBackupSpec → ResticRetention → List Bytes
unfolding base retention_args
forget_args r k =
    base r
    ++ (codes "forget" ∷ [])
    ++ retention_args k
    ++ (if k.prune then codes "--prune" ∷ [] else [])

step : Bool → ResticBackupSpec → Bytes → List Bytes → Step
unfolding executable exit_zero
step windows r name args = record {
  name = name;
  command = direct (executable windows r) args;
  success = exit_zero;
}

retention_step : Bool → ResticBackupSpec → Option ResticRetention → List Step
unfolding step forget_args
retention_step windows r none = []
retention_step windows r (some k) = step windows r (codes "retention") (forget_args r k) ∷ []

check_step : Bool → ResticBackupSpec → List Step
unfolding step base
check_step windows r =
    if r.check_after_backup
    then step windows r (codes "check") (base r ++ (codes "check" ∷ [])) ∷ []
    else []

planned : Bool → ResticBackupSpec → Plan
unfolding step backup_args retention_step check_step
planned windows r = record {
  provider = codes "Restic";
  steps =
      step windows r (codes "backup") (backup_args r) ∷ retention_step windows r r.retention
      ++ check_step windows r;
}

-- A missing configuration would be a nil dereference (none here); `Validate` comes first.
unfoldable pub plan : Bool → Option ResticBackupSpec → Option (Result Plan)
unfolding planned
plan windows none = none
plan windows (some r) = some (ok (planned windows r))

pub plan-made :
    (windows : Bool) (r : Option ResticBackupSpec)
    → check r ≡ none
    → (made : Plan) × (plan windows r ≡ some (ok made))
unfolding check plan
plan-made windows none h = cc
plan-made windows (some r) h = (_, refl)
