-- ===== src/Tasks/Validate/Laws.antt =====
-- What a validated task satisfies.
use run_pilot.Tasks.Validate.Environment.{IsDistinct, IsVariable, validate_environment_sound}
use run_pilot.Prelude.{
  All, List, Option-cases, [], arith, false, inl, inr, length, ltb, none, refl, some, true, ℕ, ◌||◌,
  ◌∷◌, ◌≡◌, ◌≢◌, ◌≤◌, ◌⊎◌,
}
use run_pilot.Prelude.Int.{natural, pos, ◌≤ℤ◌}
use run_pilot.Prelude.Bytes.{Bytes, str_eq, str_eq_iff}
use run_pilot.Tasks.{
  Restart, Schedule, Task, TaskType, allow, always, continuous, max_delay, max_retry, max_timeout,
  never, on_failure, other_type, scheduled, skip,
}
use run_pilot.Tasks.Validate.{
  known_interpreter, known_mode, known_policy, known_type, long_argument, nil_restart, valid,
  validate_environment, validate_restart, validate_task, validate_type,
}

long_argument-All :
    (args : List Bytes) → long_argument args ≡ false → All (λ a. length a ≤ 32768) args
unfolding long_argument
long_argument-All [] h = tt
long_argument-All (a ∷ args) h = (ground arith, long_argument-All args (ground arith))

-- The tests that a valid task has passed.
record Passes (t : Task) : Type 0 where
  type_passes : known_type t.type ≡ true
  name_passes : str_eq t.name [] ≡ false
  texts_pass : (ltb 200 (length t.name) || ltb 2000 (length t.description)) ≡ false
  path_passes : str_eq t.command.path [] ≡ false
  lengths_pass :
      (ltb 32768 (length t.command.path) || ltb 32768 (length t.command.working_directory)) ≡ false
  count_passes : ltb 1024 (length t.command.args) ≡ false
  arguments_pass : long_argument t.command.args ≡ false
  interpreter_passes : known_interpreter t.command.interpreter ≡ true
  environment_passes : validate_environment t.command.environment ≡ none
  rest_passes : validate_type t.type t ≡ valid

validate_task-Passes : (t : Task) → validate_task t ≡ valid → Passes t
unfolding validate_task
validate_task-Passes t h = ground arith

-- A restart policy that validation lets through.
pub record IsRestart (r : Restart) : Type 0 where
  pub mode_known : (r.mode ≡ never) ⊎ (r.mode ≡ on_failure) ⊎ (r.mode ≡ always)
  pub retries : ℕ
  pub max_retries : r.max_retries ≡ pos retries
  pub retries_capped : retries ≤ max_retry
  pub initial_capped : r.initial_delay_seconds ≤ℤ pos max_delay
  pub max_capped : r.max_delay_seconds ≤ℤ pos max_delay

-- What the source asks of the fields of each type of task.
abbrev pub IsTyped : TaskType → Task → Type 0
IsTyped continuous t = (r : Restart) × (t.restart ≡ some r) × IsRestart r
IsTyped scheduled t =
    (s : Schedule) × (t.schedule ≡ some s)
    × ((t.overlap_policy ≡ skip) ⊎ (t.overlap_policy ≡ allow))
    × (n : ℕ) × (t.timeout_seconds ≡ pos n)
    × (n ≤ max_timeout)
IsTyped (other_type s) t = ⊥

-- The bounds that the source means to set, in plain words: one field for each.
pub record IsSound (t : Task) : Type 0 where
  pub named : t.name ≢ []
  pub name_short : length t.name ≤ 200
  pub description_short : length t.description ≤ 2000
  pub has_command : t.command.path ≢ []
  pub path_short : length t.command.path ≤ 32768
  pub directory_short : length t.command.working_directory ≤ 32768
  pub few_arguments : length t.command.args ≤ 1024
  pub short_arguments : All (λ a. length a ≤ 32768) t.command.args
  pub few_variables : length t.command.environment ≤ 256
  pub variables : All IsVariable t.command.environment
  pub distinct : IsDistinct t.command.environment
  pub typed : IsTyped t.type t

restart_IsRestart : (r : Restart) → validate_restart (some r) ≡ valid → IsRestart r
unfolding validate_restart known_mode
restart_IsRestart r h =
    let (n, e) = natural r.max_retries (ground arith) in
    record {
      mode_known = ground arith;
      retries = n;
      max_retries = e;
      retries_capped = ground arith;
      initial_capped = ground arith;
      max_capped = ground arith;
    }

nil_restart_invalid : validate_restart none ≡ nil_restart
unfolding validate_restart
nil_restart_invalid = refl

typed : (y : TaskType) (t : Task) → known_type y ≡ true → validate_type y t ≡ valid → IsTyped y t
unfolding known_type validate_type known_policy
typed continuous t k h = elim (Option-cases t.restart) [
  | inl e ↦ cc (rw e at h, nil_restart_invalid)
  | inr (r, e) ↦ (r, e, restart_IsRestart r (rw e at h))
]
typed scheduled t k h = elim (Option-cases t.schedule) [
  | inl e ↦ cc (rw (e, validate_type) at h)
  | inr (s, e) ↦
      let h' = rw (e, validate_type) at h in
      let (n, q) = natural t.timeout_seconds (ground arith) in
      (s, e, ground arith, n, q, ground arith)
]
typed (other_type s) t k h = cc

-- A task that validation lets through is within every bound of the source.
pub validate_task-IsSound : (t : Task) → validate_task t ≡ valid → IsSound t
validate_task-IsSound t h =
    let p = validate_task-Passes t h in
    let (few, fine, apart) =
      validate_environment_sound t.command.environment p.environment_passes in
    record {
      named = ground (arith, str_eq_iff t.name []);
      name_short = ground (arith, p.texts_pass);
      description_short = ground (arith, p.texts_pass);
      has_command = ground (arith, str_eq_iff t.command.path []);
      path_short = ground (arith, p.lengths_pass);
      directory_short = ground (arith, p.lengths_pass);
      few_arguments = ground (arith, p.count_passes);
      short_arguments = long_argument-All t.command.args p.arguments_pass;
      few_variables = few;
      variables = fine;
      distinct = apart;
      typed = typed t.type t p.type_passes p.rest_passes;
    }
