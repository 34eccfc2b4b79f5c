-- ===== src/Jobs/Runner/Steps.antt =====
-- When the execution of a job succeeds.
use run_pilot.Prelude.{
  All, Bool-cases, List, [], arith, false, inl, inr, none, refl, sym, true, ◌↔◌, ◌∙◌, ◌∷◌, ◌≡◌,
}
use run_pilot.Prelude.Int.{ℤ}
use run_pilot.Jobs.{BackupSpec, JobDefinition}
use run_pilot.Jobs.Runner.{
  Outcome, PlanResult, Step, StepRun, execute, executed, exited, not_built, not_started, not_waited,
  plan, plan_for, run_step, run_steps, step_ended, wait_error,
}

-- The step's process was built and started, was not stopped at the deadline, was waited for without an
-- error, and ended with a code that the step takes for success.
abbrev pub Succeeds : Step → StepRun → Type 0
Succeeds s (not_built e) = ⊥
Succeeds s (not_started e) = ⊥
Succeeds s (exited code text true) = ⊥
Succeeds s (exited code text false) = (wait_error code text ≡ none) × (s.succeeds code ≡ true)
Succeeds s (not_waited e timed_out) = ⊥

run_step-Succeeds :
    (limit : ℤ) (s : Step) (r : StepRun) → ((run_step limit s r).success ≡ true) ↔ Succeeds s r
unfolding run_step step_ended
run_step-Succeeds limit s (not_built e) = ground arith
run_step-Succeeds limit s (not_started e) = ground arith
run_step-Succeeds limit s (exited code text true) = ground arith
run_step-Succeeds limit s (exited code text false) = ground arith
run_step-Succeeds limit s (not_waited e true) = ground arith
run_step-Succeeds limit s (not_waited e false) = ground arith

run_steps-Succeeds :
    (limit : ℤ) (steps : List (Step × StepRun)) (o : Outcome)
    → o.success ≡ true
    → ((run_steps limit steps o).success ≡ true) ↔ All (λ p. Succeeds p.0 p.1) steps
unfolding run_steps run_step
run_steps-Succeeds limit [] o h = ((λ e. tt), (λ u. h))
run_steps-Succeeds limit ((s, r) ∷ rest) o h =
    let (right, left) = run_step-Succeeds limit s r in
    elim (Bool-cases (run_step limit s r).success) [
      | inr bad ↦ rw bad (
        (λ e. let q : false ≡ true = sym bad ∙ e in cc),
        (λ p. let q : false ≡ true = sym bad ∙ left p.0 in cc),
      )
      | inl good ↦
          let (f, g) = run_steps-Succeeds limit rest (run_step limit s r) good in
          rw good ((λ e. (right good, f e)), (λ p. g p.1))
    ]

-- An execution whose log file opens and whose plan is made succeeds exactly when every step does: its
-- process is built and started, ends before the deadline, is waited for without an error, and has an exit
-- code that the step takes for success.
pub execute-Succeeds :
    (build_plan : BackupSpec → PlanResult) (def : JobDefinition) (steps : List (Step × StepRun))
    → plan_for build_plan def.type def.backup_spec ≡ plan steps
    → ((execute build_plan none def).success ≡ true) ↔ All (λ p. Succeeds p.0 p.1) steps
unfolding execute executed
execute-Succeeds build_plan def steps e = rw e (run_steps-Succeeds def.timeout_seconds steps _ refl)
