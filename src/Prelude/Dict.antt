-- ===== src/Prelude/Dict.antt =====
-- A Go map with string keys, as an association list; `put` writes over the first entry of its key.
-- Iteration follows the list, which stands for the order that Go chooses.
use mathlib.Core.Path.{◌≡◌, refl, sym, ◌∙◌}
use mathlib.Core.Logic.{◌⊎◌, inl, inr}
use mathlib.Core.Bool.{false}
use mathlib.Core.List.{List, [], ◌∷◌}
use mathlib.Core.Option.{Option, none, some, some_inj}
use native.Mathlib.Omega.{arith}
use Prim.Native.Nat.{suc, ◌≤◌}
use run_pilot.Prelude.Lists.{length}
use run_pilot.Prelude.Tests.{Bool-cases, if◌then◌else◌}
use run_pilot.Prelude.Bytes.{Bytes, str_eq, str_eq_iff, str_eq_self, str_eq→eq}

abbrev pub Dict {ℓ} : Type ℓ → Type ℓ
Dict V = List (Bytes × V)

module _ {ℓ} {V : Type ℓ} where
  unfoldable pub find : Bytes → Dict V → Option V
  find k [] = none
  find k ((j, v) ∷ m) = if str_eq j k then some v else find k m

  unfoldable pub put : Bytes → V → Dict V → Dict V
  put k v [] = (k, v) ∷ []
  put k v ((j, w) ∷ m) = if str_eq j k then (j, v) ∷ m else (j, w) ∷ put k v m

  unfoldable pub delete : Bytes → Dict V → Dict V
  delete k [] = []
  delete k ((j, v) ∷ m) = let rest = delete k m in if str_eq j k then rest else (j, v) ∷ rest

  pub find-put :
      (k j : Bytes) (v : V) (m : Dict V)
      → find j (put k v m) ≡ (if str_eq k j then some v else find j m)
  unfolding find put
  find-put k j v [] = refl
  find-put k j v ((i, w) ∷ m) =
      ground (arith, str_eq_iff k j, str_eq_iff i k, str_eq_iff i j, find-put k j v m)

  pub find-delete :
      (k j : Bytes) (m : Dict V) → find j (delete k m) ≡ (if str_eq k j then none else find j m)
  unfolding find delete
  find-delete k j [] = ground arith
  find-delete k j ((i, w) ∷ m) =
      ground (arith, str_eq_iff k j, str_eq_iff i k, str_eq_iff i j, find-delete k j m)

  -- The number of the entries.
  pub length-put : (k : Bytes) (v : V) (m : Dict V) → length (put k v m) ≤ suc (length m)
  unfolding put
  length-put k v [] = omega arith
  length-put k v ((i, w) ∷ m) = ground (arith, length-put k v m)

  pub length-put_found :
      (k : Bytes) (v w : V) (m : Dict V) → find k m ≡ some w → length (put k v m) ≡ length m
  unfolding put find
  length-put_found k v w [] h = cc
  length-put_found k v w ((i, u) ∷ m) h = ground (arith, length-put_found k v w m)

  pub length-delete : (k : Bytes) (m : Dict V) → length (delete k m) ≤ length m
  unfolding delete
  length-delete k [] = omega arith
  length-delete k ((i, w) ∷ m) = ground (arith, length-delete k m)

  -- Where an entry of a map that was written comes from.
  pub find-put_cases :
      (k j : Bytes) (v w : V) (m : Dict V)
      → find j (put k v m) ≡ some w
      → ((k ≡ j) × (v ≡ w)) ⊎ ((str_eq k j ≡ false) × (find j m ≡ some w))
  find-put_cases k j v w m h = elim (Bool-cases (str_eq k j)) [
    | inl same ↦ inl (str_eq→eq k j same, some_inj.0 (rw (same) at (sym (find-put k j v m) ∙ h)))
    | inr other ↦ inr (other, rw other at (sym (find-put k j v m) ∙ h))
  ]

  pub find-put_self : (k : Bytes) (v : V) (m : Dict V) → find k (put k v m) ≡ some v
  find-put_self k v m = find-put k k v m ∙ rw (str_eq_self k) refl

  pub find-put_other :
      (k j : Bytes) (v : V) (m : Dict V) → str_eq k j ≡ false → find j (put k v m) ≡ find j m
  find-put_other k j v m other = find-put k j v m ∙ rw other refl
