-- ===== src/Tasks/Normalize/Laws.antt =====
-- Normalising twice is normalising once, and what a normalised task looks like.
use run_pilot.Prelude.{
  Bool-cases, Option, [], ap, arith, inl, inr, none, refl, some, true, ◌∙◌, ◌≡◌,
}
use run_pilot.Prelude.Int.{ltb_ℤ, pos, ℤ}
use run_pilot.Prelude.Bytes.{Bytes, codes, str_eq}
use run_pilot.Text.{to_lower, trim_space}
use run_pilot.Text.Trim.{to_lower-to_lower, trim_space-to_lower, trim_space-trim_space}
use run_pilot.Tasks.{
  Command, OverlapPolicy, Restart, Schedule, Task, TaskType, continuous, other_type, scheduled,
}
use run_pilot.Tasks.Normalize.{
  auto_interpreter, normalize_command, normalize_task, normalize_type, policy_or_skip,
  positive_delays, positive_or, restart_or_default, trim_schedule?,
}

auto_empty : auto_interpreter (to_lower (trim_space [])) ≡ []
unfolding auto_interpreter trim_space to_lower str_eq
auto_empty = refl

auto_trim_lower :
    (s : Bytes)
    → trim_space s ≡ s
    → to_lower s ≡ s
    → auto_interpreter (to_lower (trim_space (auto_interpreter s))) ≡ auto_interpreter s
auto_trim_lower s p q = elim (Bool-cases (str_eq s (codes "auto"))) [
  | inl e ↦
      let empty : auto_interpreter s ≡ [] = unfold auto_interpreter in rw e in rw empty auto_empty
  | inr e ↦
      let same : auto_interpreter s ≡ s = unfold auto_interpreter in rw e in rw (same, p, q) same
]

normalize_command_idem :
    (c : Command) → normalize_command (normalize_command c) ≡ normalize_command c
unfolding normalize_command
normalize_command_idem c =
    let tidy = to_lower (trim_space c.interpreter) in
    let trimmed =
      trim_space-to_lower (trim_space c.interpreter)
      ∙ ap to_lower (trim_space-trim_space c.interpreter) in
    let p = trim_space-trim_space c.path in
    let q = auto_trim_lower tidy trimmed (to_lower-to_lower (trim_space c.interpreter)) in
    λ i. record c { path = p i; interpreter = q i }

positive_delays_idem : (r : Restart) → positive_delays (positive_delays r) ≡ positive_delays r
unfolding positive_delays
positive_delays_idem r = ground arith

restart_kept :
    (r : Option Restart)
    → restart_or_default (some (positive_delays (restart_or_default r)))
      ≡ positive_delays (restart_or_default r)
unfolding restart_or_default positive_delays
restart_kept r = ground arith

trim_schedule?_idem : (s : Option Schedule) → trim_schedule? (trim_schedule? s) ≡ trim_schedule? s
unfolding trim_schedule?
trim_schedule?_idem none = refl
trim_schedule?_idem (some s) = λ i. some (record s {
  type = trim_space-trim_space s.type i;
  time_of_day = trim_space-trim_space s.time_of_day i;
  cron = trim_space-trim_space s.cron i;
  time_zone = trim_space-trim_space s.time_zone i;
})

policy_or_skip_idem : (p : OverlapPolicy) → policy_or_skip (policy_or_skip p) ≡ policy_or_skip p
unfolding policy_or_skip
policy_or_skip_idem p = ground arith

-- One more pass changes the texts, and then only trims them once more.
normalize_type_idem :
    (y : TaskType) (t : Task)
    → t.type ≡ y
    → trim_space t.name ≡ t.name
    → trim_space t.description ≡ t.description
    → normalize_command t.command ≡ t.command
    → normalize_task (normalize_type y t) ≡ normalize_type y t
unfolding normalize_task normalize_type
normalize_type_idem continuous t e n d c =
    ground (arith, restart_kept t.restart, positive_delays_idem (restart_or_default t.restart))
normalize_type_idem scheduled t e n d c =
    ground (arith, trim_schedule?_idem t.schedule, policy_or_skip_idem t.overlap_policy)
normalize_type_idem (other_type x) t e n d c = ground arith

-- Normalising a normalised task changes nothing.
pub normalize_task_idem : (t : Task) → normalize_task (normalize_task t) ≡ normalize_task t
unfolding normalize_task
normalize_task_idem t =
    let texts = record t {
      name = trim_space t.name;
      description = trim_space t.description;
      command = normalize_command t.command;
    } in
    normalize_type_idem t.type texts refl (trim_space-trim_space t.name)
      (trim_space-trim_space t.description) (normalize_command_idem t.command)

positive_or_pos : (d n : ℤ) → ltb_ℤ (pos 0) d ≡ true → ltb_ℤ (pos 0) (positive_or d n) ≡ true
unfolding positive_or
positive_or_pos d n h = ground arith

-- A normalised continuous task has a restart policy, whose delays are positive.
pub restart-normalize_task :
    (t : Task)
    → t.type ≡ continuous
    → (r : Restart) × ((normalize_task t).restart ≡ some r)
      × (ltb_ℤ (pos 0) r.initial_delay_seconds ≡ true)
      × (ltb_ℤ (pos 0) r.max_delay_seconds ≡ true)
unfolding normalize_task
restart-normalize_task t e =
    let r = restart_or_default t.restart in
    (
      positive_delays r,
      rw (e, normalize_type),
      unfold positive_delays in positive_or_pos (pos 2) r.initial_delay_seconds refl,
      unfold positive_delays in positive_or_pos (pos 60) r.max_delay_seconds refl,
    )

normalize_type_keeps :
    (y : TaskType) (t : Task)
    → ((normalize_type y t).type ≡ t.type) × ((normalize_type y t).id ≡ t.id)
unfolding normalize_type
normalize_type_keeps continuous t = (refl, refl)
normalize_type_keeps scheduled t = (refl, refl)
normalize_type_keeps (other_type s) t = (refl, refl)

pub type-normalize_task : (t : Task) → (normalize_task t).type ≡ t.type
unfolding normalize_task
type-normalize_task t = (normalize_type_keeps t.type _).0

pub id-normalize_task : (t : Task) → (normalize_task t).id ≡ t.id
unfolding normalize_task
id-normalize_task t = (normalize_type_keeps t.type _).1
