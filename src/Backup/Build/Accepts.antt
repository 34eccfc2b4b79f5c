-- ===== src/Backup/Build/Accepts.antt =====
-- Plans are made of exactly the specifications that pass their validation.
use run_pilot.Backup.Restic
use run_pilot.Backup.RdiffBackup
use run_pilot.Backup.Robocopy.{IsMade, validate-IsMade}
use run_pilot.Jobs.{BackupSpec}
use run_pilot.Prelude.{Bool, Option-cases, inl, inr, none, refl, some, ◌≡◌}
use run_pilot.Prelude.Result.{Result, err, error_of, ok}
use run_pilot.Backup.{
  Plan, Provider, canonical, provider_for, rdiff_backup_provider, restic_provider,
  robocopy_provider,
}
use run_pilot.Backup.Build.{
  build_plan, plan_by, plan_if, provider_plan, provider_validate, validate, validate_by,
}

-- The provider answers a specification that it accepts by a plan.
provider_plan-made :
    (p : Provider) (windows : Bool) (spec : BackupSpec)
    → provider_validate p windows spec ≡ none
    → (made : Plan) × (provider_plan p windows spec ≡ some (ok made))
unfolding provider_validate provider_plan Restic.check Restic.plan RdiffBackup.check
    RdiffBackup.plan
provider_plan-made robocopy_provider windows spec h =
    let m = validate-IsMade windows spec h in (m.made, m.is_made)
provider_plan-made restic_provider windows spec h = Restic.plan-made windows _ h
provider_plan-made rdiff_backup_provider windows spec h = RdiffBackup.plan-made windows _ h

plan_by-error :
    (p : Result Provider) (windows : Bool) (spec : BackupSpec)
    → (answer : Result Plan) × (plan_by p windows spec ≡ some answer)
      × (error_of answer ≡ validate_by p windows spec)
unfolding plan_by validate_by
plan_by-error (err e) windows spec = (err e, refl, refl)
plan_by-error (ok p) windows spec = elim (Option-cases (provider_validate p windows spec)) [
  | inr (e, h) ↦ rw (h, plan_if) (err e, refl, refl)
  | inl h ↦
      let (made, m) = provider_plan-made p windows spec h in rw (h, plan_if) (ok made, m, refl)
]

-- `BuildPlan` does not panic, and refuses exactly what `Validate` refuses, with the same error.
pub build_plan-validate :
    (windows : Bool) (spec : BackupSpec)
    → (answer : Result Plan) × (build_plan windows spec ≡ some answer)
      × (error_of answer ≡ validate windows spec)
unfolding build_plan validate
build_plan-validate windows spec =
    let c = canonical spec in plan_by-error (provider_for c.engine) windows c

-- The plan of robocopy is one step.
pub robocopy-IsMade :
    (windows : Bool) (spec : BackupSpec)
    → provider_for (canonical spec).engine ≡ ok robocopy_provider
    → validate windows spec ≡ none
    → IsMade (build_plan windows spec)
unfolding build_plan validate plan_by validate_by provider_validate provider_plan
robocopy-IsMade windows spec e h =
    let v = rw (e, validate_by, provider_validate) at h in
    rw (e, plan_by, provider_validate, v, plan_if, provider_plan)
      (validate-IsMade windows (canonical spec) v)
