-- ===== src/Text/Split.antt =====
-- `strings.Split`, `strings.Contains` and `strings.TrimSpace` on text that is made of plain parts.
use mathlib.Core.List.{reverse-reverse, reverse-cons}
use run_pilot.Prelude.{
  ==_iff, All, All-append, [], arith, false, refl, reverse, some, true, ℕ, ◌++◌, ◌<◌, ◌∷◌, ◌≡◌, ◌≢◌,
}
use run_pilot.Prelude.Bytes.{Bytes}
use run_pilot.Text.{
  contains, cut_prefix, space_width, space_width_back, split, trim_prefix, trim_space,
}
use run_pilot.Text.Trim.{drop_spaces_id}

abbrev pub Lacks : ℕ → Bytes → Type 0
Lacks sep = All (λ c. c ≢ sep)

module _ (sep : ℕ) where
  pub split-Lacks : (s : Bytes) → Lacks sep s → split s sep ≡ s ∷ []
  unfolding split
  split-Lacks [] h = refl
  split-Lacks (c ∷ s) h = ground (arith, split-Lacks s h.1, ==_iff c sep)

  pub split-append : (s t : Bytes) → Lacks sep s → split (s ++ (sep ∷ t)) sep ≡ s ∷ split t sep
  unfolding split
  split-append [] t h = ground (arith)
  split-append (c ∷ s) t h = ground (arith, split-append s t h.1, ==_iff c sep)

  pub contains-Lacks : (s : Bytes) → Lacks sep s → contains s sep ≡ false
  unfolding contains
  contains-Lacks [] h = refl
  contains-Lacks (c ∷ s) h = ground (arith, contains-Lacks s h.1, ==_iff c sep)

  pub contains-append : (s t : Bytes) → contains (s ++ (sep ∷ t)) sep ≡ true
  unfolding contains
  contains-append [] t = ground arith
  contains-append (c ∷ s) t = ground (arith, contains-append s t)

-- The bytes of ASCII that are no white space.
abbrev pub IsPlain : Bytes → Type 0
IsPlain = All (λ c. (32 < c) × (c < 127))

width-IsPlain : (s : Bytes) → IsPlain s → space_width s ≡ 0
unfolding space_width
width-IsPlain [] h = refl
width-IsPlain (a ∷ []) h = ground arith
width-IsPlain (a ∷ b ∷ []) h = ground arith
width-IsPlain (a ∷ b ∷ c ∷ s) h = ground arith

width_back-IsPlain : (s : Bytes) → IsPlain s → space_width_back s ≡ 0
unfolding space_width_back
width_back-IsPlain [] h = refl
width_back-IsPlain (a ∷ []) h = ground arith
width_back-IsPlain (a ∷ b ∷ []) h = ground arith
width_back-IsPlain (a ∷ b ∷ c ∷ s) h = ground arith

IsPlain-reverse : (s : Bytes) → IsPlain s → IsPlain (reverse s)
IsPlain-reverse [] h = tt
IsPlain-reverse (c ∷ s) h =
    rw (reverse-cons c s) (All-append _ (reverse s) (c ∷ []) (IsPlain-reverse s h.1) (h.0, tt))

pub trim_space-IsPlain : (s : Bytes) → IsPlain s → trim_space s ≡ s
unfolding trim_space
trim_space-IsPlain s h = rw (drop_spaces_id space_width refl s (width-IsPlain s h)) (
    rw
      (drop_spaces_id space_width_back refl (reverse s)
        (width_back-IsPlain (reverse s) (IsPlain-reverse s h)))
      (reverse-reverse s))

-- Cutting off what stands before and at a separator.
cut_prefix-append : (p : Bytes) (b : ℕ) (s : Bytes) → cut_prefix (p ++ b ∷ s) (p ++ b ∷ []) ≡ some s
unfolding cut_prefix
cut_prefix-append [] b s = ground arith
cut_prefix-append (c ∷ p) b s = ground (arith, cut_prefix-append p b s)

pub trim_prefix-append :
    (p : Bytes) (b : ℕ) (s : Bytes) → trim_prefix (p ++ b ∷ s) (p ++ b ∷ []) ≡ s
unfolding trim_prefix
trim_prefix-append p b s = ground (arith, cut_prefix-append p b s)
