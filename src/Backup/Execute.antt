-- ===== src/Backup/Execute.antt =====
-- Backup jobs as the runner of internal/jobs/runner.go executes them: `planFor` over `BuildPlan`, and
-- the exit codes that the providers take for success. `runs` is what the process of each step does.
use run_pilot.Jobs.Runner
use mathlib.Core.Path.{subst}
use run_pilot.Backup.Build.Accepts.{robocopy-IsMade}
use run_pilot.Jobs.{BackupSpec, JobDefinition, backup}
use run_pilot.Jobs.Runner.{
  exited, PlanResult, StepRun, execute, no_plan, plan, plan_for, wait_error,
}
use run_pilot.Jobs.Runner.Steps.{Succeeds, execute-Succeeds}
use run_pilot.Backup.Robocopy.{exit_code_success}
use run_pilot.Prelude.{
  All, Bool, List, Option, [], ap, arith, false, none, refl, some, sym, true, ℕ, ◌<◌, ◌↔◌, ◌∷◌, ◌≡◌,
}
use run_pilot.Prelude.Int.{negsuc, pos, pos-inj, ℤ}
use run_pilot.Prelude.Bytes.{Bytes, codes}
use run_pilot.Prelude.Result.{Result, err, ok}
use run_pilot.Backup.{Plan, Step, canonical, provider_for, robocopy_provider}
use run_pilot.Backup.Build.{build_plan, validate}

abbrev runner_step : Step → Runner.Step
runner_step s = record { name = s.name; succeeds = s.success }

with_runs : (Step → StepRun) → List Step → List (Runner.Step × StepRun)
with_runs runs [] = []
with_runs runs (s ∷ ss) = (runner_step s, runs s) ∷ with_runs runs ss

-- A panic would be none, which `BuildPlan` never is.
plan_result : (Step → StepRun) → Option (Result Plan) → PlanResult
unfolding with_runs
plan_result runs none = no_plan (codes "panic")
plan_result runs (some (err e)) = no_plan e
plan_result runs (some (ok p)) = plan (with_runs runs p.steps)

unfoldable pub build_plan_for : Bool → (Step → StepRun) → BackupSpec → PlanResult
unfolding plan_result
build_plan_for windows runs spec = plan_result runs (build_plan windows spec)

All-with_runs :
    (runs : Step → StepRun) (ss : List Step)
    → All (λ p. Succeeds p.0 p.1) (with_runs runs ss)
      ↔ All (λ s. Succeeds (runner_step s) (runs s)) ss
unfolding with_runs
All-with_runs runs [] = ((λ u. tt), (λ u. tt))
All-with_runs runs (s ∷ ss) =
    let (f, g) = All-with_runs runs ss in ((λ p. (p.0, f p.1)), (λ p. (p.0, g p.1)))

wait_error-none : (c : ℤ) (text : Bytes) → wait_error c text ≡ none → c ≡ pos 0
wait_error-none (pos n) text h = ap pos (ground arith)
wait_error-none (negsuc n) text h = cc

-- A backup job whose log opens and whose specification has a plan succeeds exactly when all of its steps do.
pub execute_backup :
    (windows : Bool) (runs : Step → StepRun) (def : JobDefinition) (spec : BackupSpec) (p : Plan)
    → def.type ≡ backup
    → def.backup_spec ≡ some spec
    → build_plan windows spec ≡ some (ok p)
    → ((execute (build_plan_for windows runs) none def).success ≡ true)
      ↔ All (λ s. Succeeds (runner_step s) (runs s)) p.steps
unfolding build_plan_for plan_for
execute_backup windows runs def spec p t b e =
    let (f, g) =
      execute-Succeeds (build_plan_for windows runs) def (with_runs runs p.steps)
        (rw (t, b, e) refl) in
    let (f', g') = All-with_runs runs p.steps in ((λ h. f' (f h)), (λ h. g (g' h)))

exit_code_success_iff : (c : ℤ) → (exit_code_success c ≡ true) ↔ ((n : ℕ) × (c ≡ pos n) × (n < 8))
unfolding exit_code_success
exit_code_success_iff (pos n) =
    ((λ h. (n, refl, ground arith)), (λ p. rw (pos-inj p.1) (ground arith)))
exit_code_success_iff (negsuc n) = ((λ h. cc), (λ p. let q = p.1 in cc))

-- A backup job of robocopy, whose specification is valid and whose process exits with the code `c` before
-- the deadline. Its plan is one step that takes the codes from 0 to 7 for success; but the job succeeds
-- exactly when `c` is 0, as `Wait` has an error for every other code.
pub execute_robocopy :
    (windows : Bool) (def : JobDefinition) (spec : BackupSpec) (c : ℤ) (text : Bytes)
    → def.type ≡ backup
    → def.backup_spec ≡ some spec
    → provider_for (canonical spec).engine ≡ ok robocopy_provider
    → validate windows spec ≡ none
    → ((p : Plan) × (s : Step) × (build_plan windows spec ≡ some (ok p))
        × (p.steps ≡ s ∷ [])
        × ((s.success c ≡ true) ↔ ((n : ℕ) × (c ≡ pos n) × (n < 8))))
      × (((execute (build_plan_for windows (λ s. exited c text false)) none def).success ≡ true)
          ↔ (c ≡ pos 0))
execute_robocopy windows def spec c text t b e h =
    let m = robocopy-IsMade windows spec e h in
    let (s, one, code) = m.only_step in
    let (f, g) = execute_backup windows (λ s. exited c text false) def spec m.made t b m.is_made in
    let takes : (s.success c ≡ true) ↔ ((n : ℕ) × (c ≡ pos n) × (n < 8)) =
      subst (λ test. (test c ≡ true) ↔ ((n : ℕ) × (c ≡ pos n) × (n < 8))) (sym code)
        (exit_code_success_iff c) in
    (
      (m.made, s, m.is_made, one, takes),
      (
        (λ x. wait_error-none c text (subst (All _) one (f x)).0.0),
        (λ y. g (subst (All _) (sym one) ((rw y refl, takes.1 (0, y, omega arith)), tt))),
      ),
    )
