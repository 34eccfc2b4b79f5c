-- ===== src/Schedule/Cron/Values.antt =====
-- The loop that fills a field: which values it sets, that 64 rounds are enough, and the overflow of a
-- huge step.
use run_pilot.Prelude.{
  Bool, [], arith, dec_le, false, refl, suc, true, zero, ℕ, ℕ_discrete, ◌*◌, ◌+◌, ◌-◌, ◌<◌, ◌==◌,
  ◌^◌, ◌||◌, ◌∷◌, ◌≡◌, ◌≤◌,
}
use run_pilot.Prelude.Int.{negsuc, pos}
use run_pilot.Schedule.Cron.{CronField, add64, has, values}

-- The values that a token is meant to stand for.
abbrev pub InSteps : ℕ → ℕ → ℕ → ℕ → Type 0
InSteps start last step n = (k : ℕ) × (n ≡ start + k * step) × (n ≤ last)

module _ (last step : ℕ) where
  -- A round without overflow, and the end.
  pub values_next :
      (fuel v : ℕ)
      → v ≤ last
      → v + step < 2 ^ 63
      → values (suc fuel) (pos v) (pos last) step
        ≡ pos v ∷ values fuel (pos (v + step)) (pos last) step
  unfolding values
  values_next fuel v h b = ground arith

  pub values_stop : (fuel v : ℕ) → last < v → values fuel (pos v) (pos last) step ≡ []
  unfolding values
  values_stop zero v h = refl
  values_stop (suc fuel) v h = ground arith

  -- A round that overflows goes on below zero, and the one after it adds the step once more.
  pub values_wrap :
      (fuel v : ℕ)
      → v ≤ last
      → 2 ^ 63 ≤ v + step
      → values (suc (suc fuel)) (pos v) (pos last) step
        ≡ pos v
          ∷ negsuc (2 ^ 64 - (v + step) - 1)
          ∷ values fuel (add64 (negsuc (2 ^ 64 - (v + step) - 1)) step) (pos last) step
  unfolding values
  values_wrap fuel v h b = ground arith

  pub values_below :
      (fuel a : ℕ)
      → values (suc fuel) (negsuc a) (pos last) step
        ≡ negsuc a ∷ values fuel (add64 (negsuc a) step) (pos last) step
  unfolding values
  values_below fuel a = refl

or-true_of : (a : Bool) {b : Bool} → b ≡ true → (a || b) ≡ true
or-true_of true h = refl
or-true_of false h = h

InSteps-next :
    (last step : ℕ) (rest : CronField) (v n : ℕ)
    → v ≤ last
    → (has rest n ≡ true → InSteps (v + step) last step n)
    → (v == n || has rest n) ≡ true
    → InSteps v last step n
InSteps-next last step rest v n h ih e = elim (ℕ_discrete v n) [
  | yes same ↦ (0, omega arith, omega arith)
  | no other ↦ let (k, p, q) = ih (ground arith) in (suc k, grind arith, q)
]

values_none : (v n last step : ℕ) → has (values zero (pos v) (pos last) step) n ≡ false
unfolding has values
values_none v n last step = refl

module _ (last step : ℕ) (no_overflow : last + step < 2 ^ 63) where
  has-values :
      (fuel v n : ℕ) → has (values fuel (pos v) (pos last) step) n ≡ true → InSteps v last step n
  unfolding has
  has-values zero v n e = cc (values_none v n last step)
  has-values (suc fuel) v n e = elim (dec_le v last) [
    | yes within ↦
        InSteps-next last step (values fuel (pos (v + step)) (pos last) step) v n within
          (has-values fuel (v + step) n)
          (rw (values_next last step fuel v within (omega arith)) at e)
    | no past ↦ cc (rw (values_stop last step (suc fuel) v (omega arith)) at e)
  ]

  values-has :
      (fuel v k : ℕ)
      → 0 < step
      → last < v + fuel
      → v + k * step ≤ last
      → has (values fuel (pos v) (pos last) step) (v + k * step) ≡ true
  unfolding has
  values-has zero v k s f b = absurd (omega arith)
  values-has (suc fuel) v zero s f b =
      rw (values_next last step fuel v (omega arith) (omega arith)) (ground arith)
  values-has (suc fuel) v (suc k) s f b =
      let e : v + step + k * step ≡ v + suc k * step = grind arith in
      let h = values-has fuel (v + step) k s (omega arith) (rw e b) in
      rw (values_next last step fuel v (grind arith) (grind arith)) (or-true_of _ (rw e at h))
