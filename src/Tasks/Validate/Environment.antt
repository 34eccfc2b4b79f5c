-- ===== src/Tasks/Validate/Environment.antt =====
-- What a validated environment satisfies.
use run_pilot.Prelude.{
  All, All-map, Bool-cases, Option-cases, [], arith, false, inl, inr, length, ltb, none, ◌∷◌, ◌≡◌,
  ◌≢◌, ◌≤◌,
}
use run_pilot.Prelude.Bytes.{Bytes, str_eq, str_eq_iff}
use run_pilot.Prelude.Dict.{Dict, find, find-put, put}
use run_pilot.Text.{contains, to_upper, trim_space}
use run_pilot.Tasks.Validate.{check_variable, check_variables, conflict, validate_environment}

-- A name that every platform can represent.
pub record IsVariable (v : Bytes × Bytes) : Type 0 where
  pub not_blank : trim_space v.0 ≢ []
  pub no_equals : contains v.0 b'=' ≡ false
  pub name_short : length v.0 ≤ 1024
  pub value_short : length v.1 ≤ 32768

-- No two names are the same in upper case.
abbrev pub IsDistinct : Dict Bytes → Type 0
IsDistinct [] = Unit {0}
IsDistinct ((name, value) ∷ vars) =
    All (λ v. str_eq (to_upper name) (to_upper v.0) ≡ false) vars × IsDistinct vars

abbrev Unseen : Dict Bytes → Bytes × Bytes → Type 0
Unseen seen v = find (to_upper v.0) seen ≡ none

check_variable-eq-none :
    (seen : Dict Bytes) (name value : Bytes)
    → check_variable seen name value ≡ none
    → IsVariable (name, value) × Unseen seen (name, value)
unfolding check_variable conflict
check_variable-eq-none seen name value h = ground (arith, str_eq_iff (trim_space name) [])

Unseen-put :
    (seen : Dict Bytes) (name : Bytes) (v : Bytes × Bytes)
    → Unseen (put (to_upper name) name seen) v
    → (str_eq (to_upper name) (to_upper v.0) ≡ false) × Unseen seen v
Unseen-put seen name v h = ground (arith, find-put (to_upper name) (to_upper v.0) name seen)

check_variables-eq-none :
    (seen vars : Dict Bytes)
    → check_variables seen vars ≡ none
    → All (Unseen seen) vars × All IsVariable vars × IsDistinct vars
unfolding check_variables
check_variables-eq-none seen [] h = (tt, tt, tt)
check_variables-eq-none seen ((name, value) ∷ vars) h =
    elim (Option-cases (check_variable seen name value)) [
      | inr (e, p) ↦ cc (rw (p, check_variables) at h)
      | inl p ↦
          let (good, new) = check_variable-eq-none seen name value p in
          let (others, fine, distinct) =
            check_variables-eq-none (put (to_upper name) name seen) vars
              (rw (p, check_variables) at h) in
          let apart = Unseen-put seen name in
          (
            (new, All-map _ (Unseen seen) (λ v u. (apart v u).1) vars others),
            (good, fine),
            (
              All-map (Unseen (put (to_upper name) name seen))
                  (λ v. str_eq (to_upper name) (to_upper v.0) ≡ false) (λ v u. (apart v u).0) vars
                  others,
              distinct,
            ),
          )
    ]

-- A valid environment holds at most 256 variables, each with a name that is not blank, has no `=` and at
-- most 1024 bytes, and a value of at most 32768 bytes; no two names are the same in upper case.
pub validate_environment_sound :
    (vars : Dict Bytes)
    → validate_environment vars ≡ none
    → (length vars ≤ 256) × All IsVariable vars × IsDistinct vars
unfolding validate_environment
validate_environment_sound vars h = elim (Bool-cases (ltb 256 (length vars))) [
  | inl long ↦ cc (rw (long, validate_environment) at h)
  | inr short ↦
      let passes = rw (short, validate_environment) at h in
      let (_, fine, distinct) = check_variables-eq-none [] vars passes in
      (ground arith, fine, distinct)
]
