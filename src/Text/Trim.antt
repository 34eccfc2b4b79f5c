-- ===== src/Text/Trim.antt =====
-- `strings.TrimSpace` twice is `strings.TrimSpace` once, and it goes with `strings.ToLower`.
use mathlib.Core.List.{reverse-reverse, reverse-append, reverse-cons, map-append}
use run_pilot.Prelude.{
  [], ap, arith, inl, inr, map, refl, reverse, suc, sym, zero, ℕ, ℕ-cases, ◌++◌, ◌∙◌, ◌∷◌, ◌≡◌,
}
use run_pilot.Prelude.Bytes.{Bytes}
use run_pilot.Text.{
  drop_spaces, is_ascii_space, is_space2, is_space3, lower, space_width, space_width_back, to_lower,
  trim_space,
}

module _ (width : Bytes → ℕ) (width-nil : width [] ≡ 0) where
  -- What is left begins with no white space.
  width-drop_spaces : (k : ℕ) (s : Bytes) → width (drop_spaces width k s) ≡ 0
  unfolding drop_spaces
  width-drop_spaces k [] = width-nil
  width-drop_spaces (suc k) (c ∷ s) = width-drop_spaces k s
  width-drop_spaces zero (c ∷ s) = elim (ℕ-cases (width (c ∷ s))) [
    | inl e ↦ rw (e, drop_spaces) e
    | inr (k, e) ↦ rw (e, drop_spaces) (width-drop_spaces k s)
  ]

  pub drop_spaces_id : (s : Bytes) → width s ≡ 0 → drop_spaces width 0 s ≡ s
  unfolding drop_spaces
  drop_spaces_id [] e = refl
  drop_spaces_id (c ∷ s) e = rw (e, drop_spaces)

  -- Only a front part is dropped.
  append-drop_spaces : (k : ℕ) (s : Bytes) → (p : Bytes) × (s ≡ p ++ drop_spaces width k s)
  unfolding drop_spaces
  append-drop_spaces k [] = ([], refl)
  append-drop_spaces (suc k) (c ∷ s) =
      let (p, e) = append-drop_spaces k s in (c ∷ p, ap (λ t. c ∷ t) e)
  append-drop_spaces zero (c ∷ s) = elim (ℕ-cases (width (c ∷ s))) [
    | inl e ↦ ([], rw (e, drop_spaces))
    | inr (k, e) ↦
        let (p, q) = append-drop_spaces k s in (c ∷ p, rw (e, drop_spaces) (ap (λ t. c ∷ t) q))
  ]

width-append : (u v : Bytes) → space_width (u ++ v) ≡ 0 → space_width u ≡ 0
unfolding space_width
width-append [] v h = refl
width-append (a ∷ []) [] h = h
width-append (a ∷ []) (b ∷ []) h = ground arith
width-append (a ∷ []) (b ∷ c ∷ v) h = ground arith
width-append (a ∷ b ∷ []) [] h = h
width-append (a ∷ b ∷ []) (c ∷ v) h = ground arith
width-append (a ∷ b ∷ c ∷ u) v h = h

trim_right : Bytes → Bytes
trim_right s = reverse (drop_spaces space_width_back 0 (reverse s))

trim_right-prefix : (s : Bytes) → (p : Bytes) × (s ≡ trim_right s ++ p)
unfolding trim_right space_width_back
trim_right-prefix s =
    let (p, e) = append-drop_spaces space_width_back refl 0 (reverse s) in
    (
      reverse p,
      sym (reverse-reverse s)
          ∙ ap reverse e
          ∙ reverse-append p (drop_spaces space_width_back 0 (reverse s)),
    )

trim_right-trim_right : (s : Bytes) → trim_right (trim_right s) ≡ trim_right s
unfolding trim_right space_width_back
trim_right-trim_right s = rw reverse-reverse (
    ap reverse (
      drop_spaces_id space_width_back refl _
        (width-drop_spaces space_width_back refl 0 (reverse s))))

width-trim_right : (s : Bytes) → space_width s ≡ 0 → space_width (trim_right s) ≡ 0
width-trim_right s h =
    let (p, e) = trim_right-prefix s in width-append (trim_right s) p (rw (← e) h)

pub trim_space-trim_space : (s : Bytes) → trim_space (trim_space s) ≡ trim_space s
unfolding trim_space trim_right
trim_space-trim_space s =
    let front = drop_spaces space_width 0 s in
    let clean = width-trim_right front (width-drop_spaces space_width refl 0 s) in
    ap trim_right (drop_spaces_id space_width refl (trim_right front) clean)
    ∙ trim_right-trim_right front

is_ascii_space-lower : (a : ℕ) → is_ascii_space (lower a) ≡ is_ascii_space a
unfolding is_ascii_space lower
is_ascii_space-lower a = ground arith

is_space2-lower : (a b : ℕ) → is_space2 (lower a) (lower b) ≡ is_space2 a b
unfolding is_space2 lower
is_space2-lower a b = ground arith

is_space3-lower : (a b c : ℕ) → is_space3 (lower a) (lower b) (lower c) ≡ is_space3 a b c
unfolding is_space3 lower
is_space3-lower a b c = ground arith

ruleset space_lower = (is_ascii_space-lower, is_space2-lower, is_space3-lower)

width-lower : (s : Bytes) → space_width (map lower s) ≡ space_width s
unfolding space_width
width-lower [] = refl
width-lower (a ∷ []) = simp space_lower
width-lower (a ∷ b ∷ []) = simp space_lower
width-lower (a ∷ b ∷ c ∷ s) = simp space_lower

width_back-lower : (s : Bytes) → space_width_back (map lower s) ≡ space_width_back s
unfolding space_width_back
width_back-lower [] = refl
width_back-lower (a ∷ []) = simp space_lower
width_back-lower (a ∷ b ∷ []) = simp space_lower
width_back-lower (a ∷ b ∷ c ∷ s) = simp space_lower

module _ (width : Bytes → ℕ) (same : (s : Bytes) → width (map lower s) ≡ width s) where
  drop_spaces-lower :
      (k : ℕ) (s : Bytes) → drop_spaces width k (map lower s) ≡ map lower (drop_spaces width k s)
  unfolding drop_spaces
  drop_spaces-lower k [] = refl
  drop_spaces-lower (suc k) (c ∷ s) = drop_spaces-lower k s
  drop_spaces-lower zero (c ∷ s) = elim (ℕ-cases (width (c ∷ s))) [
    | inl e ↦ let e' = same (c ∷ s) ∙ e in rw (e, e', drop_spaces)
    | inr (k, e) ↦ let e' = same (c ∷ s) ∙ e in rw (e, e', drop_spaces) (drop_spaces-lower k s)
  ]

reverse-lower : (s : Bytes) → reverse (map lower s) ≡ map lower (reverse s)
reverse-lower [] = refl
reverse-lower (c ∷ s) =
    reverse-cons (lower c) (map lower s)
    ∙ ap (λ t. t ++ lower c ∷ []) (reverse-lower s)
    ∙ sym (ap (map lower) (reverse-cons c s) ∙ map-append lower (reverse s) (c ∷ []))

pub trim_space-to_lower : (s : Bytes) → trim_space (to_lower s) ≡ to_lower (trim_space s)
unfolding trim_space to_lower
trim_space-to_lower s = rw (
  drop_spaces-lower space_width width-lower 0 s,
  reverse-lower,
  drop_spaces-lower space_width_back width_back-lower 0 (reverse (drop_spaces space_width 0 s)),
  reverse-lower,
)

lower_idem : (c : ℕ) → lower (lower c) ≡ lower c
unfolding lower
lower_idem c = ground arith

pub to_lower-to_lower : (s : Bytes) → to_lower (to_lower s) ≡ to_lower s
unfolding to_lower
to_lower-to_lower [] = refl
to_lower-to_lower (c ∷ s) = cc (lower_idem c, to_lower-to_lower s)
