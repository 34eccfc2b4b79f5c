-- ===== src/Backup/RdiffBackup/Laws.antt =====
-- The steps of a plan for rdiff-backup are commands that can be run.
use mathlib.Core.Path.{subst}
use mathlib.Core.Option.{some_inj}
use run_pilot.Jobs.{RdiffBackupRetention, RdiffBackupSpec}
use run_pilot.Prelude.{
  All, All-append, Bool, Bool-cases, List, Option, false, if◌then◌else◌, inl, inr, none, refl, some,
  true, ◌≡◌, ◌⊎◌,
}
use run_pilot.Prelude.Bytes.{Bytes, codes, str_eq}
use run_pilot.Text.{trim_space}
use run_pilot.Prelude.Result.{ok, ok-inj}
use run_pilot.Backup.{IsRunnable, Plan, is_blank}
use run_pilot.Backup.RdiffBackup.{executable, plan, planned, retention_step, step, verify_step}

executable-is_blank :
    (windows : Bool) (r : RdiffBackupSpec) → is_blank (executable windows r) ≡ false
unfolding executable trim_space str_eq
executable-is_blank windows r = elim (Bool-cases (is_blank r.executable)) [
  | inr chosen ↦ rw chosen chosen
  | inl blank ↦ rw blank (default windows)
]
  where
    default :
        (b : Bool) → is_blank (if b then codes "rdiff-backup.exe" else codes "rdiff-backup") ≡ false
    default true = refl
    default false = refl

step-IsRunnable :
    (windows : Bool) (r : RdiffBackupSpec) (name : Bytes) (args : List Bytes)
    → IsRunnable (step windows r name args)
unfolding step
step-IsRunnable windows r name args = record {
  has_path = executable-is_blank windows r;
  is_direct = refl;
  sets_nothing = refl;
}

pub plan-IsRunnable :
    (windows : Bool) (r : Option RdiffBackupSpec) (p : Plan)
    → plan windows r ≡ some (ok p)
    → All IsRunnable p.steps
unfolding plan planned
plan-IsRunnable windows none p e = cc
plan-IsRunnable windows (some r) p e =
    subst (λ q. All IsRunnable q.steps) (ok-inj (some_inj.0 e))
      (
        step-IsRunnable windows r _ _,
        All-append _ (retention_step windows r r.retention) _ (retention r.retention)
            (verifies (Bool-cases r.verify_after_backup)),
      )
  where
    retention : (k : Option RdiffBackupRetention) → All IsRunnable (retention_step windows r k)
    retention none = tt
    retention (some k) = (step-IsRunnable windows r _ _, tt)

    verifies :
        (r.verify_after_backup ≡ true) ⊎ (r.verify_after_backup ≡ false)
        → All IsRunnable (verify_step windows r)
    verifies (inl wanted) = rw (verify_step, wanted) (step-IsRunnable windows r _ _, tt)
    verifies (inr skipped) = rw (verify_step, skipped) tt
