-- ===== src/Backup/Robocopy.antt =====
-- The robocopy provider, internal/backup/robocopy.go.
pub mod Older
use mathlib.Core.Path.{subst}
use mathlib.Core.Option.{some_inj}
use run_pilot.Jobs.{
  BackupMode, BackupSpec, RobocopyBackupSpec, copy, mirror, other_mode, unset_mode,
}
use run_pilot.Prelude.{
  All, Bool, List, Option, [], false, if◌then◌else◌, none, not, refl, some, true, ◌&&◌, ◌++◌, ◌||◌,
  ◌∷◌, ◌≡◌,
}
use run_pilot.Prelude.Int.{leb_ℤ, ltb_ℤ, pos, ℤ}
use run_pilot.Prelude.Bytes.{Bytes, codes, str_eq}
use run_pilot.Text.{trim_space}
use run_pilot.Command.{quoted}
use run_pilot.Text.Decimal.{itoa}
use run_pilot.Prelude.Result.{Result, and_then, and_then-eq-ok, err, if-eq-none, ok, ok-inj}
use run_pilot.Backup.{Capabilities, IsRunnable, Plan, Step, direct, is_blank}

unfoldable pub capabilities : Capabilities
capabilities = record {
  retention = false;
  verification = false;
  versioned = false;
  direct_mirror = true;
}

known_mode : BackupMode → Option Bytes
known_mode unset_mode = none
known_mode copy = none
known_mode mirror = none
known_mode (other_mode m) = some (codes "unsupported robocopy mode " ++ quoted m)

check_numbers : RobocopyBackupSpec → Option Bytes
check_numbers r =
    if ltb_ℤ r.retries (pos 0) || ltb_ℤ r.retry_wait_seconds (pos 0)
    then some (codes "robocopy retries and retry wait cannot be negative")
    else none

check_mode : RobocopyBackupSpec → Option Bytes → Option Bytes
unfolding check_numbers
check_mode r none = check_numbers r
check_mode r (some e) = some e

unfoldable pub check : Option RobocopyBackupSpec → Option Bytes
unfolding known_mode check_mode
check none = some (codes "robocopy configuration is required")
check (some r) =
    if is_blank r.source || is_blank r.destination
    then some (codes "robocopy source and destination are required")
    else check_mode r (known_mode r.mode)

unfoldable pub validate : Bool → BackupSpec → Option Bytes
unfolding check
validate windows spec =
    if not windows
    then some (codes "robocopy backup engine is only available on Windows")
    else check spec.robocopy

-- `ExitCodeSuccess`.
unfoldable pub exit_code_success : ℤ → Bool
exit_code_success code = leb_ℤ (pos 0) code && ltb_ℤ code (pos 8)

mode_args : BackupMode → Result (List Bytes)
mode_args mirror = ok (codes "/MIR" ∷ [])
mode_args copy = ok (codes "/E" ∷ [])
mode_args unset_mode = ok (codes "/E" ∷ [])
mode_args (other_mode m) = err (codes "unsupported backup mode " ++ quoted m)

excluded : Bytes → List Bytes → List Bytes
excluded flag [] = []
excluded flag (d ∷ ds) = flag ∷ d ∷ ds

planned : RobocopyBackupSpec → List Bytes → Plan
unfolding excluded exit_code_success
planned r mode = record {
  provider = codes "Robocopy";
  steps =
      record {
        name = codes "backup";
        command = direct (codes "robocopy.exe") (
            (r.source ∷ r.destination ∷ [])
            ++ mode
            ++ (codes "/COPY:DAT"
                ∷ codes "/DCOPY:DAT"
                ∷ codes "/XJ"
                ∷ (codes "/R:" ++ itoa r.retries)
                ∷ (codes "/W:" ++ itoa r.retry_wait_seconds)
                ∷ codes "/NP"
                ∷ [])
            ++ excluded (codes "/XD") r.exclude_dirs
            ++ excluded (codes "/XF") r.exclude_files
            ++ r.additional_args);
        success = exit_code_success;
      }
      ∷ [];
}

-- A missing configuration would be a nil dereference (none here); `Validate` comes first.
unfoldable pub plan : Option RobocopyBackupSpec → Option (Result Plan)
unfolding planned mode_args
plan none = none
plan (some r) = some (and_then (mode_args r.mode) (λ mode. ok (planned r mode)))

-- The plan of a specification that passes: one step, which succeeds as `ExitCodeSuccess` says.
pub record IsMade (r : Option (Result Plan)) : Type 0 where
  pub made : Plan
  pub is_made : r ≡ some (ok made)
  pub only_step : (s : Step) × (made.steps ≡ s ∷ []) × (s.success ≡ exit_code_success)

known_mode-args :
    (m : BackupMode) → known_mode m ≡ none → (args : List Bytes) × (mode_args m ≡ ok args)
unfolding known_mode mode_args
known_mode-args unset_mode h = (_, refl)
known_mode-args copy h = (_, refl)
known_mode-args mirror h = (_, refl)
known_mode-args (other_mode m) h = cc

check-known_mode : (r : RobocopyBackupSpec) (o : Option Bytes) → check_mode r o ≡ none → o ≡ none
unfolding check_mode
check-known_mode r none h = refl
check-known_mode r (some e) h = cc

check-IsMade : (r : Option RobocopyBackupSpec) → check r ≡ none → IsMade (plan r)
unfolding check plan planned
check-IsMade none h = cc
check-IsMade (some r) h =
    let (_, modes) = if-eq-none (is_blank r.source || is_blank r.destination) _ _ h in
    let (args, e) = known_mode-args r.mode (check-known_mode r _ modes) in
    record { made = planned r args; is_made = rw e refl; only_step = (_, refl, refl) }

pub validate-check :
    (windows : Bool) (spec : BackupSpec) → validate windows spec ≡ none → check spec.robocopy ≡ none
unfolding validate
validate-check windows spec h = (if-eq-none (not windows) _ _ h).1

pub validate-IsMade :
    (windows : Bool) (spec : BackupSpec)
    → validate windows spec ≡ none
    → IsMade (plan spec.robocopy)
unfolding validate
validate-IsMade windows spec h = check-IsMade spec.robocopy (validate-check windows spec h)

pub plan-IsRunnable :
    (r : Option RobocopyBackupSpec) (p : Plan) → plan r ≡ some (ok p) → All IsRunnable p.steps
unfolding plan planned trim_space str_eq
plan-IsRunnable none p e = cc
plan-IsRunnable (some r) p e =
    let (mode, _, same) = and_then-eq-ok (mode_args r.mode) _ (some_inj.0 e) in
    subst (λ q. All IsRunnable q.steps) (ok-inj same)
      (record { has_path = refl; is_direct = refl; sets_nothing = refl }, tt)
