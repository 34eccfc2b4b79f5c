-- ===== src/Command/Launcher/Environment.antt =====
-- The environment of a command: what it was configured to be wins, and nothing else is lost.
use mathlib.Core.Path.{subst}
use mathlib.Core.Option.{some_inj}
use run_pilot.Command.Distinct.{
  IsOnly, IsDistinct, IsDistinct-IsOnly, validate_environment-IsDistinct,
}
use run_pilot.Prelude.{
  All, All-append, All-map, All-over_map, Any, Any-append-right, Any-map, Any-over_map, Bool,
  Bool-cases, List, [], ap, arith, false, inl, inr, map, refl, some, sym, true, ◌++◌, ◌∙◌, ◌∷◌, ◌≡◌,
}
use run_pilot.Prelude.Bytes.{Bytes, str_eq, str_eq_self, str_eq→eq}
use run_pilot.Prelude.Dict.{Dict, find}
use run_pilot.Text.{contains, str_lt, trim_space}
use run_pilot.Command.{CommandSpec, validate_command}
use run_pilot.Prelude.Result.{and_then-eq-ok, checked-eq-ok, ok, ok-inj, unless-eq-ok}
use run_pilot.Command.Launcher.{
  Cmd, Host, build, built, canonical_name, entry, entry_name, insert_key, interpreter_of,
  invocation, kept, merge_environment, or_empty, overrides, replaced, sorted_keys,
}

-- The entry sets the variable `k`, under the names that are the same on the platform.
abbrev pub Sets : Bool → Bytes → Bytes → Type 0
Sets insensitive k e =
    (n : Bytes) × (entry_name e ≡ some n)
    × (canonical_name insensitive n ≡ canonical_name insensitive k)

overrides-find :
    (insensitive : Bool) (k v : Bytes) (vars : Dict Bytes)
    → find k vars ≡ some v
    → overrides insensitive (canonical_name insensitive k) vars ≡ true
unfolding overrides find
overrides-find insensitive k v [] h = cc
overrides-find insensitive k v ((j, w) ∷ vars) h = elim (Bool-cases (str_eq j k)) [
  | inl same ↦ rw (str_eq→eq j k same, str_eq_self (canonical_name insensitive k)) refl
  | inr other ↦ grind (arith, overrides-find insensitive k v vars (rw (other, find) at h))
]

-- No entry that is kept sets a configured variable.
kept-Sets :
    (insensitive : Bool) (k v : Bytes) (vars : Dict Bytes) (inherited : List Bytes)
    → find k vars ≡ some v
    → All (λ e. ¬ Sets insensitive k e) (kept insensitive vars inherited)
unfolding kept replaced
kept-Sets insensitive k v vars [] h = tt
kept-Sets insensitive k v vars (e ∷ inherited) h =
    elim (Bool-cases (replaced insensitive vars (entry_name e))) [
      | inl gone ↦ rw (gone, kept) (kept-Sets insensitive k v vars inherited h)
      | inr stays ↦
          rw (stays, kept)
            (
              (λ s.
                  let p = rw (s.1, replaced, s.2, overrides-find insensitive k v vars h) at stays in
                  absurd (cc)),
              kept-Sets insensitive k v vars inherited h,
            )
    ]

module _ {ℓ} (P : Bytes → Type ℓ) where
  All-insert_key : (k : Bytes) (ks : List Bytes) → P k → All P ks → All P (insert_key k ks)
  unfolding insert_key
  All-insert_key k [] p a = (p, tt)
  All-insert_key k (j ∷ ks) p a = elim (Bool-cases (str_lt j k)) [
    | inl before ↦ rw (before, insert_key) (a.0, All-insert_key k ks p a.1)
    | inr after ↦ rw (after, insert_key) (p, a)
  ]

  All-sorted_keys : (vars : Dict Bytes) → All (λ w. P w.0) vars → All P (sorted_keys vars)
  unfolding sorted_keys
  All-sorted_keys [] a = tt
  All-sorted_keys ((k, v) ∷ vars) a =
      All-insert_key k (sorted_keys vars) a.0 (All-sorted_keys vars a.1)

  insert_key-first : (k : Bytes) (ks : List Bytes) → P k → Any P (insert_key k ks)
  unfolding insert_key
  insert_key-first k [] p = inl p
  insert_key-first k (j ∷ ks) p = elim (Bool-cases (str_lt j k)) [
    | inl before ↦ rw (before, insert_key) (inr (insert_key-first k ks p))
    | inr after ↦ rw (after, insert_key) (inl p)
  ]

  insert_key-later : (k : Bytes) (ks : List Bytes) → Any P ks → Any P (insert_key k ks)
  unfolding insert_key
  insert_key-later k [] a = absurd (a tt)
  insert_key-later k (j ∷ ks) a = elim (Bool-cases (str_lt j k)) [
    | inr after ↦ rw (after, insert_key) (inr a)
    | inl before ↦
        rw (before, insert_key) (elim a [ inl p ↦ inl p | inr b ↦ inr (insert_key-later k ks b) ])
  ]

find-sorted_keys :
    (k v : Bytes) (vars : Dict Bytes) → find k vars ≡ some v → Any (λ n. n ≡ k) (sorted_keys vars)
unfolding sorted_keys find
find-sorted_keys k v [] h = cc
find-sorted_keys k v ((j, w) ∷ vars) h = elim (Bool-cases (str_eq j k)) [
  | inl same ↦ insert_key-first (λ n. n ≡ k) j (sorted_keys vars) (str_eq→eq j k same)
  | inr other ↦
      insert_key-later (λ n. n ≡ k) j (sorted_keys vars)
        (find-sorted_keys k v vars (rw (other, find) at h))
]

entry_name-entry :
    (name value : Bytes) → contains name b'=' ≡ false → entry_name (entry name value) ≡ some name
unfolding entry_name entry contains
entry_name-entry [] value h = refl
entry_name-entry (c ∷ name) value h = ground (arith, entry_name-entry name value)

-- In the environment that is merged, an entry for `k` is there, and no other sets it.
abbrev pub HasOnly : Bool → Bytes → Bytes → List Bytes → Type 0
HasOnly insensitive k v env =
    Any (λ e. e ≡ entry k v) env × All (λ e. Sets insensitive k e → e ≡ entry k v) env

module _ (insensitive : Bool) (k v : Bytes) (vars : Dict Bytes) (h : find k vars ≡ some v) where
  configured : Bytes → Bytes
  configured name = entry name (or_empty (find name vars))

  configured-k : (name : Bytes) → name ≡ k → configured name ≡ entry k v
  unfolding configured
  configured-k name e = rw (e, h) refl

  configured-IsOnly :
      (name : Bytes)
      → IsOnly insensitive k name
      → Sets insensitive k (configured name)
      → configured name ≡ entry k v
  unfolding configured
  configured-IsOnly name (plain, only) (n, e, c) =
      configured-k name (only (ap (canonical_name insensitive) (same n e) ∙ c))
    where
      same : (n : Bytes) → entry_name (configured name) ≡ some n → name ≡ n
      same n e =
          let q = entry_name-entry name (or_empty (find name vars)) plain in some_inj.0 (sym q ∙ e)

  -- A validated environment is set in the one that is merged.
  merge-HasOnly :
      (inherited : List Bytes)
      → IsDistinct vars
      → HasOnly insensitive k v
          (kept insensitive vars inherited ++ map configured (sorted_keys vars))
  merge-HasOnly inherited d = (
    Any-append-right _ (kept insensitive vars inherited) _ (
        Any-over_map configured _ (sorted_keys vars)
          (Any-map _ _ configured-k (sorted_keys vars) (find-sorted_keys k v vars h))),
    All-append _ (kept insensitive vars inherited) _
        (All-map _ _ (λ e no s. absurd (no s)) (kept insensitive vars inherited)
          (kept-Sets insensitive k v vars inherited h))
        (All-over_map configured _ (sorted_keys vars) (
          All-map _ _ configured-IsOnly (sorted_keys vars)
            (All-sorted_keys _ vars (IsDistinct-IsOnly insensitive k v vars d h)))),
  )

merge_environment-HasOnly :
    (insensitive : Bool) (k v : Bytes) (inherited : List Bytes) (vars : Dict Bytes)
    → IsDistinct vars
    → find k vars ≡ some v
    → HasOnly insensitive k v (merge_environment inherited vars insensitive)
unfolding merge_environment configured find
merge_environment-HasOnly insensitive k v inherited [] d h = cc
merge_environment-HasOnly insensitive k v inherited (w ∷ vars) d h =
    merge-HasOnly insensitive k v (w ∷ vars) h inherited d

-- A command that is built runs in an environment that has each configured variable as it was configured,
-- and no other entry for the same variable; on Windows that is a name that is the same in upper case.
pub build-HasOnly :
    (host : Host) (spec : CommandSpec) (cmd : Cmd) (k v : Bytes)
    → build host spec ≡ ok cmd
    → find k spec.environment ≡ some v
    → HasOnly host.windows k v cmd.env
unfolding build built validate_command
build-HasOnly host spec cmd k v e h =
    let (_, passed) = unless-eq-ok (str_eq (trim_space spec.path) []) _ _ e in
    let (valid, made) = checked-eq-ok (validate_command spec) _ passed in
    let (p, _, same) =
      and_then-eq-ok (invocation host.windows (interpreter_of host.windows spec) spec)
        (λ p. ok (built host spec p)) made in
    subst (λ c. HasOnly host.windows k v c.env) (ok-inj same)
      (merge_environment-HasOnly host.windows k v host.environ spec.environment
        (validate_environment-IsDistinct spec.environment valid) h)
