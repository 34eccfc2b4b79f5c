-- ===== src/Jobs/Runner.antt =====
-- The runner of internal/jobs/runner.go: `Run`, `execute`, `runStep`, `planFor`, `finish` and `Views`. A
-- time is a number, and what a process of a step did is given (`StepRun`).
pub mod System
pub mod Exclusive
pub mod Steps
use run_pilot.Prelude.{
  Bool, List, Option, [], false, if◌then◌else◌, none, not, some, true, ℕ, ◌++◌, ◌∷◌,
}
use run_pilot.Prelude.Int.{eq_ℤ, negsuc, pos, ℤ}
use run_pilot.Prelude.Bytes.{Bytes, codes, str_eq}
use run_pilot.Prelude.Dict.{Dict, delete, find, put}
use run_pilot.Text.{str_lt}
use run_pilot.Text.Decimal.{itoa}
use run_pilot.Jobs.{BackupSpec, JobDefinition, JobType, backup, normalize_job, other_job}

pub record JobStatus : Type 0 where
  pub id : Bytes
  pub name : Bytes
  pub running : Bool
  pub current_run_id : Bytes
  pub last_run_at : Option ℕ
  pub last_exit_code : Option ℤ
  pub last_success : Option Bool

pub record Runner : Type 0 where
  pub active : Dict Bytes
  pub status : Dict JobStatus

unfoldable pub new : Runner
new = record { active = []; status = [] }

abbrev zero_status : JobStatus
zero_status = record {
  id = [];
  name = [];
  running = false;
  current_run_id = [];
  last_run_at = none;
  last_exit_code = none;
  last_success = none;
}

abbrev or_zero : Option JobStatus → JobStatus
or_zero none = zero_status
or_zero (some s) = s

-- `r.status[id]`, the zero value where there is none.
unfoldable pub status_of : Bytes → Runner → JobStatus
status_of id r = or_zero (find id r.status)

pub data RunResult : Type 0 where
  started : Bytes → RunResult
  already_running : Bytes → Bytes → RunResult

unfoldable pub start_run : JobDefinition → Bytes → Runner → RunResult × Runner
unfolding status_of
start_run def run_id r = (
  started run_id,
  record r {
    active = put def.id run_id r.active;
    status =
        put def.id
          (record (status_of def.id r) {
            id = def.id;
            name = def.name;
            running = true;
            current_run_id = run_id;
          })
          r.status;
  },
)

unfoldable pub run_unless : Option Bytes → JobDefinition → Bytes → Runner → RunResult × Runner
unfolding start_run
run_unless none def run_id r = start_run def run_id r
run_unless (some current) def run_id r =
    if not (str_eq def.overlap_policy (codes "allow"))
    then (already_running def.name current, r)
    else start_run def run_id r

-- `Run`; `run_id` is the new identifier that `config.NewID` makes. The execution that it starts in the
-- background is a step of its own.
unfoldable pub run : JobDefinition → Bytes → Runner → RunResult × Runner
unfolding run_unless
run input run_id r = let def = normalize_job input in run_unless (find def.id r.active) def run_id r

-- The result of an execution: exit code, success, message.
pub record Outcome : Type 0 where
  pub code : ℤ
  pub success : Bool
  pub message : Bytes

unfoldable pub finish : JobDefinition → ℕ → Outcome → Runner → Runner
unfolding status_of
finish def at o r = record {
  active = delete def.id r.active;
  status =
      put def.id
        (record (status_of def.id r) {
          id = def.id;
          name = def.name;
          running = false;
          current_run_id = [];
          last_run_at = some at;
          last_exit_code = some o.code;
          last_success = some o.success;
        })
        r.status;
}

pub record View : Type 0 where
  pub definition : JobDefinition
  pub view_status : JobStatus

insert_view : View → List View → List View
insert_view v [] = v ∷ []
insert_view v (w ∷ ws) =
    if str_lt w.definition.name v.definition.name then w ∷ insert_view v ws else v ∷ w ∷ ws

view_of : Runner → JobDefinition → View
unfolding status_of
view_of r def = record {
  definition = def;
  view_status = record (status_of def.id r) { id = def.id; name = def.name };
}

unfoldable pub views : List JobDefinition → Runner → List View
unfolding insert_view view_of
views [] r = []
views (def ∷ defs) r = insert_view (view_of r def) (views defs r)

-- What became of a step's process: it was not built, it was not started, it exited with a code (and the
-- text of the `ExitError` that `Wait` makes of another code than 0), or it could not be waited for and has
-- no state; the last two perhaps at the deadline. Its output goes to a file, whose copying cannot fail.
pub data StepRun : Type 0 where
  not_built not_started : Bytes → StepRun
  exited : ℤ → Bytes → Bool → StepRun
  not_waited : Bytes → Bool → StepRun

pub record Step : Type 0 where
  pub name : Bytes
  pub succeeds : ℤ → Bool

-- The error of `Wait`: none exactly for the exit code 0.
abbrev pub wait_error : ℤ → Bytes → Option Bytes
wait_error code text = if eq_ℤ code (pos 0) then none else some text

step_ended : Step → ℤ → ℤ → Option Bytes → Bool → Outcome
step_ended s limit code e true = record {
  code = code;
  success = false;
  message = codes "timed out after " ++ itoa limit ++ codes " seconds";
}
step_ended s limit code (some e) false = record { code = code; success = false; message = e }
step_ended s limit code none false =
    if s.succeeds code then record { code = code; success = true; message = [] } else record {
      code = code;
      success = false;
      message = codes "step " ++ s.name ++ codes " failed with exit code " ++ itoa code;
    }

unfoldable pub run_step : ℤ → Step → StepRun → Outcome
unfolding step_ended
run_step limit s (not_built e) = record { code = negsuc 0; success = false; message = e }
run_step limit s (not_started e) = record { code = negsuc 0; success = false; message = e }
run_step limit s (exited code text timed_out) =
    step_ended s limit code (wait_error code text) timed_out
run_step limit s (not_waited e timed_out) = step_ended s limit (negsuc 0) (some e) timed_out

-- The loop over the steps, each with what its process would do: the first failure ends it.
unfoldable pub run_steps : ℤ → List (Step × StepRun) → Outcome → Outcome
run_steps limit [] o = o
run_steps limit ((s, r) ∷ rest) o =
    let o1 = run_step limit s r in
    let after = run_steps limit rest o1 in if not o1.success then o1 else after

-- `planFor`, over `backup.BuildPlan`. `%q` is written as plain quotes.
pub data PlanResult : Type 0 where
  plan : List (Step × StepRun) → PlanResult
  no_plan : Bytes → PlanResult

module _ (build_plan : BackupSpec → PlanResult) where
  unfoldable pub plan_for : JobType → Option BackupSpec → PlanResult
  plan_for backup none = no_plan (codes "backup job has no backup specification")
  plan_for backup (some b) = build_plan b
  plan_for (other_job t) b = no_plan (codes "unsupported job type " ++ quote t)
    where
      quote : Bytes → Bytes
      quote t = codes "\"" ++ t ++ codes "\""

  executed : ℤ → PlanResult → Outcome
  executed limit (no_plan e) = record { code = negsuc 0; success = false; message = e }
  executed limit (plan steps) =
      run_steps limit steps (record { code = negsuc 0; success = true; message = [] })

  -- `execute`, up to its `finish`: `none` is a log file that was opened, and `some` the error.
  unfoldable pub execute : Option Bytes → JobDefinition → Outcome
  unfolding executed plan_for
  execute (some e) def = record { code = negsuc 0; success = false; message = e }
  execute none def = executed def.timeout_seconds (plan_for def.type def.backup_spec)
