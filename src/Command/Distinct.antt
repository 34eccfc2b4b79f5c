-- ===== src/Command/Distinct.antt =====
-- What a validated environment satisfies: no name has a `=`, and no two are the same in upper case.
use mathlib.Core.Path.{subst}
use run_pilot.Prelude.{
  All, All-map, Bool, Bool-cases, Option-cases, [], arith, false, inl, inr, none, some, true, ◌∷◌,
  ◌≡◌,
}
use run_pilot.Prelude.Bytes.{Bytes, str_eq, str_eq_iff, str_eq_self, str_eq→eq}
use run_pilot.Prelude.Dict.{Dict, find, find-put, put}
use run_pilot.Text.{contains, to_upper}
use run_pilot.Command.{check_name, check_names, name_conflict, validate_environment}
use run_pilot.Command.Launcher.{canonical_name}

abbrev IsApart : Bytes → Bytes → Type 0
IsApart name other = str_eq (to_upper name) (to_upper other) ≡ false

abbrev NoEquals : Bytes → Type 0
NoEquals name = contains name b'=' ≡ false

abbrev pub IsDistinct : Dict Bytes → Type 0
IsDistinct [] = Unit {0}
IsDistinct ((name, value) ∷ vars) =
    NoEquals name × All (λ v. IsApart name v.0) vars × IsDistinct vars

abbrev Unseen : Dict Bytes → Bytes × Bytes → Type 0
Unseen seen v = find (to_upper v.0) seen ≡ none

check_name-eq-none :
    (seen : Dict Bytes) (name value : Bytes)
    → check_name seen name ≡ none
    → NoEquals name × Unseen seen (name, value)
unfolding check_name name_conflict
check_name-eq-none seen name value h = ground arith

Unseen-put :
    (seen : Dict Bytes) (name : Bytes) (v : Bytes × Bytes)
    → Unseen (put (to_upper name) name seen) v
    → IsApart name v.0 × Unseen seen v
Unseen-put seen name v h = ground (arith, find-put (to_upper name) (to_upper v.0) name seen)

check_names-eq-none :
    (seen vars : Dict Bytes)
    → check_names seen vars ≡ none
    → All (Unseen seen) vars × IsDistinct vars
unfolding check_names
check_names-eq-none seen [] h = (tt, tt)
check_names-eq-none seen ((name, value) ∷ vars) h = elim (Option-cases (check_name seen name)) [
  | inr (e, p) ↦ cc (rw (p, check_names) at h)
  | inl p ↦
      let (plain, new) = check_name-eq-none seen name value p in
      let (others, distinct) =
        check_names-eq-none (put (to_upper name) name seen) vars (rw (p, check_names) at h) in
      let apart =
        All-map _ (λ v. IsApart name v.0 × Unseen seen v) (Unseen-put seen name) vars others in
      (
        (new, All-map _ (Unseen seen) (λ v u. u.1) vars apart),
        (plain, All-map _ (λ v. IsApart name v.0) (λ v u. u.0) vars apart, distinct),
      )
]

pub validate_environment-IsDistinct :
    (vars : Dict Bytes) → validate_environment vars ≡ none → IsDistinct vars
unfolding validate_environment
validate_environment-IsDistinct vars h = (check_names-eq-none [] vars h).1

All-find {ℓ} :
    (P : Bytes → Type ℓ) (k v : Bytes) (vars : Dict Bytes)
    → All (λ w. P w.0) vars
    → find k vars ≡ some v
    → P k
unfolding find
All-find P k v [] a h = cc
All-find P k v ((j, w) ∷ vars) a h = elim (Bool-cases (str_eq j k)) [
  | inl same ↦ subst P (str_eq→eq j k same) a.0
  | inr other ↦ All-find P k v vars a.1 (rw (other, find) at h)
]

-- A configured name that is the same as `k` on the platform is `k`.
abbrev pub IsOnly : Bool → Bytes → Bytes → Type 0
IsOnly insensitive k name =
    NoEquals name × (canonical_name insensitive name ≡ canonical_name insensitive k → name ≡ k)

apart-IsOnly :
    (insensitive : Bool) (k name : Bytes)
    → NoEquals name
    → IsApart name k
    → IsOnly insensitive k name
unfolding canonical_name
apart-IsOnly false k name plain apart = (plain, λ e. e)
apart-IsOnly true k name plain apart =
    (plain, λ e. let q = str_eq_self (to_upper k) in let p = rw e at apart in absurd (cc))

IsApart-sym : (a b : Bytes) → IsApart a b → IsApart b a
IsApart-sym a b h =
    grind (arith, str_eq_iff (to_upper a) (to_upper b), str_eq_iff (to_upper b) (to_upper a))

IsDistinct-NoEquals : (vars : Dict Bytes) → IsDistinct vars → All (λ w. NoEquals w.0) vars
IsDistinct-NoEquals [] d = tt
IsDistinct-NoEquals ((j, w) ∷ vars) (plain, _, d) = (plain, IsDistinct-NoEquals vars d)

apart_from-IsOnly :
    (insensitive : Bool) (k : Bytes) (vars : Dict Bytes)
    → All (λ w. NoEquals w.0) vars
    → All (λ w. IsApart k w.0) vars
    → All (λ w. IsOnly insensitive k w.0) vars
apart_from-IsOnly insensitive k [] p a = tt
apart_from-IsOnly insensitive k ((j, w) ∷ vars) p a = (
  apart-IsOnly insensitive k j p.0 (IsApart-sym k j a.0),
  apart_from-IsOnly insensitive k vars p.1 a.1,
)

pub IsDistinct-IsOnly :
    (insensitive : Bool) (k v : Bytes) (vars : Dict Bytes)
    → IsDistinct vars
    → find k vars ≡ some v
    → All (λ w. IsOnly insensitive k w.0) vars
unfolding find
IsDistinct-IsOnly insensitive k v [] d h = tt
IsDistinct-IsOnly insensitive k v ((j, w) ∷ vars) (plain, apart, d) h =
    elim (Bool-cases (str_eq j k)) [
      | inl same ↦
          let e = str_eq→eq j k same in
          (
            (plain, λ _. e),
            apart_from-IsOnly insensitive k vars (IsDistinct-NoEquals vars d)
                (subst (λ i. All (λ u. IsApart i u.0) vars) e apart),
          )
      | inr other ↦
          let later = rw (other, find) at h in
          (
            apart-IsOnly insensitive k j plain (All-find (IsApart j) k v vars apart later),
            IsDistinct-IsOnly insensitive k v vars d later,
          )
    ]
