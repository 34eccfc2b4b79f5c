-- ===== src/Prelude/Lists.antt =====
-- Lists measured by native numbers, and membership and absence as predicates by recursion.
use Prim.Native.Nat.{ℕ, zero, suc, ◌+◌, ◌-◌, ◌≤◌}
use mathlib.Core.Path.{◌≡◌, refl, sym, ap, ◌∙◌}
use mathlib.Core.Logic.{◌⊎◌, inl, inr}
use mathlib.Core.List.{List, [], ◌∷◌, ◌++◌, map}
use native.Mathlib.Omega.{arith}

module _ {ℓ} {A : Type ℓ} where
  abbrev pub length : List A → ℕ
  length [] = 0
  length (x ∷ xs) = suc (length xs)

  pub length-append : (xs ys : List A) → length (xs ++ ys) ≡ length xs + length ys
  length-append [] ys = omega arith
  length-append (x ∷ xs) ys = omega (arith, length-append xs ys)

  -- The first `n`, and what follows them.
  unfoldable pub take : ℕ → List A → List A
  take zero s = []
  take (suc n) [] = []
  take (suc n) (b ∷ s) = b ∷ take n s

  unfoldable pub drop : ℕ → List A → List A
  drop zero s = s
  drop (suc n) [] = []
  drop (suc n) (b ∷ s) = drop n s

  pub take-drop : (n : ℕ) (s : List A) → take n s ++ drop n s ≡ s
  unfolding take drop
  take-drop zero s = refl
  take-drop (suc n) [] = refl
  take-drop (suc n) (b ∷ s) = ap (λ r. b ∷ r) (take-drop n s)

  pub length-take : (n : ℕ) (s : List A) → length (take n s) + (length s - n) ≡ length s
  unfolding take
  length-take zero s = omega arith
  length-take (suc n) [] = omega arith
  length-take (suc n) (b ∷ s) = omega (arith, length-take n s)

  pub length-drop : (n : ℕ) (s : List A) → length (drop n s) ≡ length s - n
  unfolding drop
  length-drop zero s = omega arith
  length-drop (suc n) [] = omega arith
  length-drop (suc n) (b ∷ s) = omega (arith, length-drop n s)

  pub take_all : (n : ℕ) (s : List A) → length s ≤ n → take n s ≡ s
  unfolding take
  take_all zero [] h = refl
  take_all zero (b ∷ s) h = absurd (omega arith)
  take_all (suc n) [] h = refl
  take_all (suc n) (b ∷ s) h = ap (λ r. b ∷ r) (take_all n s (omega arith))

  pub take-append : (n : ℕ) (s t : List A) → take n (s ++ t) ≡ take n s ++ take (n - length s) t
  unfolding take
  take-append zero [] t = refl
  take-append zero (b ∷ s) t = let e : 0 ≡ 0 - suc (length s) = omega arith in ap (λ k. take k t) e
  take-append (suc n) [] t = let e : suc n ≡ suc n - 0 = omega arith in ap (λ k. take k t) e
  take-append (suc n) (b ∷ s) t =
      let e : n - length s ≡ suc n - suc (length s) = omega arith in
      ap (λ r. b ∷ r) (take-append n s t ∙ ap (λ k. take n s ++ take k t) e)

  pub drop-append : (n : ℕ) (s t : List A) → n ≤ length s → drop n (s ++ t) ≡ drop n s ++ t
  unfolding drop
  drop-append zero s t h = refl
  drop-append (suc n) [] t h = absurd (omega arith)
  drop-append (suc n) (b ∷ s) t h = drop-append n s t (omega arith)

  pub drop-nil : (n : ℕ) → drop n [] ≡ []
  unfolding drop
  drop-nil zero = refl
  drop-nil (suc n) = refl

  pub drop-drop : (m n : ℕ) (s : List A) → drop m (drop n s) ≡ drop (n + m) s
  unfolding drop
  drop-drop m zero s = ap (λ k. drop k s) (omega arith)
  drop-drop m (suc n) [] = drop-nil m ∙ sym (drop-nil (suc n + m))
  drop-drop m (suc n) (b ∷ s) =
      let e : suc (n + m) ≡ suc n + m = omega arith in drop-drop m n s ∙ ap (λ k. drop k (b ∷ s)) e

module _ {ℓ κ} {A : Type ℓ} (P : A → Type κ) where
  abbrev pub All : List A → Type κ
  All [] = Unit
  All (x ∷ xs) = P x × All xs

  abbrev pub Any : List A → Type κ
  Any [] = Unit → ⊥
  Any (x ∷ xs) = P x ⊎ Any xs

  pub All-append : (xs ys : List A) → All xs → All ys → All (xs ++ ys)
  All-append [] ys _ hy = hy
  All-append (x ∷ xs) ys (px, hx) hy = (px, All-append xs ys hx hy)

  pub Any-append-left : (xs ys : List A) → Any xs → Any (xs ++ ys)
  Any-append-left [] ys a = absurd (a tt)
  Any-append-left (x ∷ xs) ys (inl p) = inl p
  Any-append-left (x ∷ xs) ys (inr a) = inr (Any-append-left xs ys a)

  pub Any-append-right : (xs ys : List A) → Any ys → Any (xs ++ ys)
  Any-append-right [] ys a = a
  Any-append-right (x ∷ xs) ys a = inr (Any-append-right xs ys a)

module _ {ℓ κ κ'} {A : Type ℓ} (P : A → Type κ) (Q : A → Type κ') where
  pub All-map : ((a : A) → P a → Q a) → (xs : List A) → All P xs → All Q xs
  All-map f [] h = tt
  All-map f (x ∷ xs) h = (f x h.0, All-map f xs h.1)

  pub Any-map : ((a : A) → P a → Q a) → (xs : List A) → Any P xs → Any Q xs
  Any-map f [] h = λ _. h tt
  Any-map f (x ∷ xs) (inl p) = inl (f x p)
  Any-map f (x ∷ xs) (inr h) = inr (Any-map f xs h)

module _ {ℓ κ κ'} {A : Type ℓ} {B : Type κ} (f : A → B) (P : B → Type κ') where
  pub All-over_map : (xs : List A) → All (λ a. P (f a)) xs → All P (map f xs)
  All-over_map [] h = tt
  All-over_map (x ∷ xs) h = (h.0, All-over_map xs h.1)

  pub Any-over_map : (xs : List A) → Any (λ a. P (f a)) xs → Any P (map f xs)
  Any-over_map [] h = h
  Any-over_map (x ∷ xs) (inl p) = inl p
  Any-over_map (x ∷ xs) (inr h) = inr (Any-over_map xs h)
