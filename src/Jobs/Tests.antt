-- ===== src/Jobs/Tests.antt =====
-- Jobs run on concrete inputs.
use run_pilot.Schedule.{daily}
use run_pilot.Prelude.{All, List, [], false, length, none, refl, some, true, ◌↔◌, ◌∷◌, ◌≡◌}
use run_pilot.Prelude.Int.{ltb_ℤ, pos}
use run_pilot.Prelude.Bytes.{codes, str_eq}
use run_pilot.Prelude.Dict.{delete, find, put}
use run_pilot.Jobs.{BackupSpec, JobDefinition, backup, mirror, normalize_job}
use run_pilot.Jobs.Runner.{
  Outcome, PlanResult, Step, StepRun, execute, exited, finish, new, plan, plan_for, run, run_step,
  run_unless, start_run, status_of,
}
use run_pilot.Jobs.Runner.System.{
  Act, System, act, acts, after_finish, after_run, finishes, runs, take_out,
}
use run_pilot.Jobs.Runner.Exclusive.{IsExclusive, acts-IsExclusive}
use run_pilot.Jobs.Runner.Steps.{Succeeds, execute-Succeeds}

abbrev mirror_spec : BackupSpec
mirror_spec = record {
  engine = [];
  robocopy = none;
  restic = none;
  rdiff_backup = none;
  source = codes "C:\\data";
  destination = codes "D:\\data";
  mode = mirror;
  exclude_dirs = [];
  exclude_files = [];
  retries = pos 2;
  retry_wait_seconds = pos 0;
  additional_args = [];
}

abbrev nightly : JobDefinition
nightly = record {
  id = codes "job-1";
  name = codes "Nightly";
  description = [];
  enabled = true;
  type = backup;
  schedule = record {
    type = daily;
    interval_seconds = pos 0;
    time_of_day = codes "02:00";
    expression = [];
    time_zone = [];
  };
  overlap_policy = [];
  timeout_seconds = pos 60;
  backup_spec = some mirror_spec;
}

abbrev done : Outcome
done = record { code = pos 0; success = true; message = [] }

abbrev empty : System
empty = record { runner = new; executing = [] }

not_allow : str_eq nightly.overlap_policy (codes "allow") ≡ false
unfolding str_eq
not_allow = refl

empty-IsExclusive : IsExclusive empty
unfolding new status_of find
empty-IsExclusive = record { apart = tt; tracked = tt; idle = λ id h. refl; busy = λ id c h. cc }

abbrev two_runs : List Act
two_runs = runs nightly (codes "run-a") ∷ runs nightly (codes "run-b") ∷ finishes 0 5 done ∷ []

acts-IsExclusive_example : IsExclusive (acts two_runs empty)
acts-IsExclusive_example =
    acts-IsExclusive two_runs empty (not_allow, (not_allow, (tt, tt))) empty-IsExclusive

-- With the policy `allow`, the end of the first of two executions makes the job look idle.
abbrev parallel : JobDefinition
parallel = record nightly { overlap_policy = codes "allow" }

abbrev overlapping : List Act
overlapping = runs parallel (codes "run-a") ∷ runs parallel (codes "run-b") ∷ finishes 1 5 done ∷ []

still_executing : length (acts overlapping empty).executing ≡ 1
unfolding acts act run run_unless start_run after_run after_finish take_out finish new normalize_job
    status_of find put delete str_eq
still_executing = refl

looks_idle : (status_of parallel.id (acts overlapping empty).runner).running ≡ false
unfolding acts act run run_unless start_run after_run after_finish take_out finish new normalize_job
    status_of find put delete str_eq
looks_idle = refl

-- A tool whose codes below 8 are success.
abbrev copying : Step
copying = record { name = codes "backup"; succeeds = λ c. ltb_ℤ c (pos 8) }

abbrev copied : List (Step × StepRun)
copied = (copying, exited (pos 0) [] false) ∷ []

-- The runner fails a step that exits with 3 by the error of `Wait`, though the step takes 3 for success.
not_copied :
    run_step (pos 0) copying (exited (pos 3) (codes "exit status 3") false)
    ≡ record { code = pos 3; success = false; message = codes "exit status 3" }
unfolding run_step
not_copied = refl

abbrev build_copy : BackupSpec → PlanResult
build_copy b = plan copied

nightly_plan : plan_for build_copy nightly.type nightly.backup_spec ≡ plan copied
unfolding plan_for
nightly_plan = refl

execute-Succeeds_example :
    ((execute build_copy none nightly).success ≡ true) ↔ All (λ p. Succeeds p.0 p.1) copied
execute-Succeeds_example = execute-Succeeds build_copy nightly copied nightly_plan
