-- ===== src/Tasks/Backoff/Laws.antt =====
-- The delay before a restart, in closed form.
use mathlib.Core.Path.{subst}
use Prim.Native.Nat.{min}
use native.Mathlib.Nat.{pow-suc}
use run_pilot.Tasks.Normalize.Laws.{restart-normalize_task, type-normalize_task}
use run_pilot.Tasks.Validate.Laws.{IsRestart, IsTyped, validate_task-IsSound}
use run_pilot.Prelude.{
  Bool-cases, arith, inl, inr, ltb, refl, some, suc, true, zero, ℕ, ◌*◌, ◌<◌, ◌^◌, ◌∙◌, ◌≡◌, ◌≤◌,
}
use run_pilot.Prelude.Int.{ltb_ℤ, pos, positive, ℤ, ◌≤ℤ◌}
use run_pilot.Tasks.{Restart, Task, continuous, max_delay}
use run_pilot.Tasks.Normalize.{normalize_task}
use run_pilot.Tasks.Validate.{valid, validate_task}
use run_pilot.Tasks.Backoff.{double32, double_until, or_default, restart_delay}

double32_small : (n : ℕ) → n < 2 ^ 30 → double32 (pos n) ≡ pos (2 * n)
unfolding double32
double32_small n h = ground arith

pow2_pos : (k : ℕ) → 0 < 2 ^ k
pow2_pos zero = omega arith
pow2_pos (suc k) = rw (pow-suc 2 k) (omega (arith, pow2_pos k))

-- The delay is the first one doubled once for each retry, and at most the maximum.
double_until_closed :
    (k seconds max : ℕ)
    → 0 < seconds
    → max ≤ max_delay
    → seconds ≤ max_delay
    → double_until (suc k) (pos seconds) (pos max) ≡ pos (min max (seconds * 2 ^ suc k))
unfolding double_until
double_until_closed zero seconds max p h q =
    let twice = double32_small seconds (omega arith) in
    let e : seconds * 2 ^ 1 ≡ 2 * seconds = omega arith in rw (twice, e) (ground arith)
double_until_closed (suc k) seconds max p h q =
    let twice = double32_small seconds (omega arith) in
    let more : seconds * 2 ^ suc (suc k) ≡ 2 * seconds * 2 ^ suc k =
      rw (pow-suc 2 (suc k)) (grind arith) in
    let large : 2 * seconds ≤ 2 * seconds * 2 ^ suc k = grind (arith, pow2_pos (suc k)) in
    elim (Bool-cases (ltb (2 * seconds) max)) [
      | inl below ↦
          rw (twice, below, more)
            (double_until_closed k (2 * seconds) max (omega arith) h (ground arith))
      | inr reached ↦ rw (twice, reached, more) (ground arith)
    ]

or_default_pos : (d : ℤ) (n : ℕ) → 0 < n → or_default d (pos n) ≡ pos n
unfolding or_default
or_default_pos d n h = ground arith

-- A policy within the limits that validation sets, and above zero as normalisation leaves it.
pub record IsBounded (r : Restart) : Type 0 where
  pub initial : ℕ
  pub max : ℕ
  pub initial_delay : r.initial_delay_seconds ≡ pos initial
  pub max_delay_seconds : r.max_delay_seconds ≡ pos max
  pub initial_pos : 0 < initial
  pub max_pos : 0 < max
  pub initial_capped : initial ≤ max_delay
  pub max_capped : max ≤ max_delay

within_limits :
    (r : Restart)
    → IsRestart r
    → ltb_ℤ (pos 0) r.initial_delay_seconds ≡ true
    → ltb_ℤ (pos 0) r.max_delay_seconds ≡ true
    → IsBounded r
within_limits r limits above above' =
    let (i, pi, i_pos) = positive r.initial_delay_seconds above in
    let (m, pm, m_pos) = positive r.max_delay_seconds above' in
    record {
      initial = i;
      max = m;
      initial_delay = pi;
      max_delay_seconds = pm;
      initial_pos = i_pos;
      max_pos = m_pos;
      initial_capped = below i r.initial_delay_seconds pi limits.initial_capped;
      max_capped = below m r.max_delay_seconds pm limits.max_capped;
    }
  where
    below : (k : ℕ) (z : ℤ) → z ≡ pos k → z ≤ℤ pos max_delay → k ≤ max_delay
    below k z e h = ground arith

-- The restart policy of a continuous task that was normalised and then validated is bounded.
pub restart_IsBounded :
    (t : Task)
    → t.type ≡ continuous
    → validate_task (normalize_task t) ≡ valid
    → (r : Restart) × ((normalize_task t).restart ≡ some r) × IsBounded r
restart_IsBounded t e v =
    let n = normalize_task t in
    let (r, p, above, above') = restart-normalize_task t e in
    let (s, q, limits) =
      subst (λ y. IsTyped y n) (type-normalize_task t ∙ e) (validate_task-IsSound n v).typed in
    let same : s ≡ r = cc in (r, p, within_limits r (subst IsRestart same limits) above above')

-- The first restart waits for the initial delay, as it stands; each later one for twice the delay
-- before, but at most for the maximum. No doubling overflows.
pub restart_delay_closed :
    (r : Restart) (b : IsBounded r) (k : ℕ)
    → (restart_delay r 0 ≡ pos b.initial)
      × (restart_delay r (suc k) ≡ pos (min b.max (b.initial * 2 ^ suc k)))
unfolding restart_delay
restart_delay_closed r b k =
    let first = or_default_pos (pos 2) b.initial b.initial_pos in
    let most = or_default_pos (pos 60) b.max b.max_pos in
    rw (b.initial_delay, b.max_delay_seconds, first, most)
      (refl, double_until_closed k b.initial b.max b.initial_pos b.max_capped b.initial_capped)
