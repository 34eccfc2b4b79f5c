-- ===== src/Schedule/Cron/Rounds.antt =====
-- The loop over the values of a token ends within 64 rounds, also where a huge step overflows.
use run_pilot.Schedule.Cron.Values.{values_next, values_stop, values_wrap, values_below}
use run_pilot.Prelude.{
  [], ap, arith, dec_le, dec_lt, suc, sym, zero, ℕ, ◌+◌, ◌-◌, ◌<◌, ◌^◌, ◌∙◌, ◌∷◌, ◌≡◌, ◌≤◌,
}
use run_pilot.Prelude.Int.{negsuc, pos}
use run_pilot.Schedule.Cron.{add64, rounds, values}

module _ (last step : ℕ) where
  -- Without overflow the value grows in each round.
  same_counting :
      (f g v : ℕ)
      → 0 < step
      → last + step < 2 ^ 63
      → last < v + f
      → last < v + g
      → values f (pos v) (pos last) step ≡ values g (pos v) (pos last) step
  same_counting zero g v s h p q =
      values_stop last step zero v (omega arith) ∙ sym (values_stop last step g v (omega arith))
  same_counting (suc f) zero v s h p q =
      values_stop last step (suc f) v (omega arith)
      ∙ sym (values_stop last step zero v (omega arith))
  same_counting (suc f) (suc g) v s h p q = elim (dec_le v last) [
    | yes within ↦
        values_next last step f v within (omega arith)
        ∙ ap (λ t. pos v ∷ t) (same_counting f g (v + step) s h (omega arith) (omega arith))
        ∙ sym (values_next last step g v within (omega arith))
    | no past ↦
        values_stop last step (suc f) v (omega arith)
        ∙ sym (values_stop last step (suc g) v (omega arith))
  ]

  -- With a step this large the value is past the end after one step, or falls in two.
  after_wrap :
      (f g b : ℕ)
      → b < 200
      → last ≤ 59
      → 2 ^ 63 ≤ last + step
      → values (suc f) (negsuc b) (pos last) step ≡ values (suc g) (negsuc b) (pos last) step
  after_wrap f g b small h w =
      let past : (k : ℕ) → values k (add64 (negsuc b) step) (pos last) step ≡ [] =
        λ k. rw (above) (values_stop last step k (step - b - 1) (omega arith)) in
      values_below last step f b
      ∙ ap (λ t. negsuc b ∷ t) (past f ∙ sym (past g))
      ∙ sym (values_below last step g b)
    where
      above : add64 (negsuc b) step ≡ pos (step - b - 1)
      above = ground arith

  falls :
      (f g v : ℕ)
      → last ≤ 59
      → step < 2 ^ 63
      → 2 ^ 63 ≤ last + step
      → v ≤ 59
      → v ≤ last
      → 2 ^ 63 ≤ v + step
      → ((u : ℕ)
          → u + 2 ≤ v
          → values (suc f) (pos u) (pos last) step ≡ values (suc g) (pos u) (pos last) step)
      → values (suc f) (add64 (negsuc (2 ^ 64 - (v + step) - 1)) step) (pos last) step
        ≡ values (suc g) (add64 (negsuc (2 ^ 64 - (v + step) - 1)) step) (pos last) step
  falls f g v h s w b within over ih = elim (dec_le step (2 ^ 64 - (v + step) - 1)) [
    | yes still ↦
        rw (still_below still) (after_wrap f g (2 ^ 64 - (v + step) - 1 - step) (omega arith) h w)
    | no back ↦ rw (back_above back) (ih (step - (2 ^ 64 - (v + step) - 1) - 1) (omega arith))
  ]
    where
      still_below :
          step ≤ 2 ^ 64 - (v + step) - 1
          → add64 (negsuc (2 ^ 64 - (v + step) - 1)) step ≡ negsuc (2 ^ 64 - (v + step) - 1 - step)
      still_below le = ground arith

      back_above :
          ¬ (step ≤ 2 ^ 64 - (v + step) - 1)
          → add64 (negsuc (2 ^ 64 - (v + step) - 1)) step
            ≡ pos (step - (2 ^ 64 - (v + step) - 1) - 1)
      back_above gt = ground arith

  same_wrapping :
      (f g v : ℕ)
      → last ≤ 59
      → step < 2 ^ 63
      → 2 ^ 63 ≤ last + step
      → v ≤ 59
      → v + 3 ≤ f
      → v + 3 ≤ g
      → values f (pos v) (pos last) step ≡ values g (pos v) (pos last) step
  same_wrapping zero g v h s w b p q = absurd (omega arith)
  same_wrapping (suc zero) g v h s w b p q = absurd (omega arith)
  same_wrapping (suc (suc zero)) g v h s w b p q = absurd (omega arith)
  same_wrapping (suc (suc (suc f))) zero v h s w b p q = absurd (omega arith)
  same_wrapping (suc (suc (suc f))) (suc zero) v h s w b p q = absurd (omega arith)
  same_wrapping (suc (suc (suc f))) (suc (suc zero)) v h s w b p q = absurd (omega arith)
  same_wrapping (suc (suc (suc f))) (suc (suc (suc g))) v h s w b p q = elim (dec_le v last) [
    | no past ↦
        values_stop last step (suc (suc (suc f))) v (omega arith)
        ∙ sym (values_stop last step (suc (suc (suc g))) v (omega arith))
    | yes within ↦ elim (dec_lt (v + step) (2 ^ 63)) [
      | yes fits ↦
          values_next last step (suc (suc f)) v within fits
          ∙ ap (λ t. pos v ∷ t)
              (values_stop last step (suc (suc f)) (v + step) (omega arith)
                ∙ sym (values_stop last step (suc (suc g)) (v + step) (omega arith)))
          ∙ sym (values_next last step (suc (suc g)) v within fits)
      | no over ↦
          values_wrap last step (suc f) v within (omega arith)
          ∙ ap (λ t. pos v ∷ negsuc (2 ^ 64 - (v + step) - 1) ∷ t)
              (falls f g v h s w b within (omega arith) (λ u lower.
                same_wrapping (suc f) (suc g) u h s w (omega arith) (omega arith) (omega arith)))
          ∙ sym (values_wrap last step (suc g) v within (omega arith))
    ]
  ]

-- The loop over the values of a token ends within its fuel of 64 rounds: more of them change nothing,
-- for every range up to 59 and every positive step of 63 bits.
pub rounds_enough :
    (last step v extra : ℕ)
    → last ≤ 59
    → 0 < step
    → step < 2 ^ 63
    → v ≤ last
    → values (rounds + extra) (pos v) (pos last) step ≡ values rounds (pos v) (pos last) step
rounds_enough last step v extra h s w b = elim (dec_lt (last + step) (2 ^ 63)) [
  | yes fits ↦ same_counting last step (rounds + extra) rounds v s fits (omega arith) (omega arith)
  | no over ↦
      same_wrapping last step (rounds + extra) rounds v h w (omega arith) (omega arith)
        (omega arith) (omega arith)
]
