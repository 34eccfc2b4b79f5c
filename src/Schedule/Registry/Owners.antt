-- ===== src/Schedule/Registry/Owners.antt =====
-- The registrations of one owner are out of reach of the others.
use mathlib.Core.Path.{subst}
use run_pilot.Schedule.Compile.{Compiled}
use run_pilot.Prelude.{
  ==_iff, All, All-map, Any, Bool-cases, List, [], ap, arith, false, inl, inr, none, refl, sym,
  true, ◌++◌, ◌∙◌, ◌∷◌, ◌≡◌, ◌⊎◌,
}
use run_pilot.Prelude.Bytes.{Bytes, str_eq, str_eq_self, str_eq→eq}
use run_pilot.Prelude.Dict.{Dict, delete, find}
use run_pilot.Text.{has_prefix, trim_prefix}
use run_pilot.Text.Split.{Lacks, trim_prefix-append}
use run_pilot.Schedule.Registry.{
  PluginSchedule, Scheduler, key_of, list_plugin, listed, owner_ids, remove_each, remove_plugin,
  remove_plugin_owner,
}

-- An entry stands under the key of its owner and its identifier, and the owner has no NUL byte.
pub record IsNamed (e : Bytes × (PluginSchedule × Compiled)) : Type 0 where
  pub key_is : e.0 ≡ key_of e.1.0.owner e.1.0.id
  pub plain : Lacks 0 e.1.0.owner

has_prefix-key_of :
    (a o i : Bytes) → Lacks 0 a → Lacks 0 o → has_prefix (key_of a i) (o ++ 0 ∷ []) ≡ str_eq a o
unfolding has_prefix str_eq
has_prefix-key_of [] [] i la lo = refl
has_prefix-key_of [] (p ∷ o) i la lo = ground (arith, ==_iff 0 p)
has_prefix-key_of (c ∷ a) [] i la lo = ground (arith, ==_iff c 0)
has_prefix-key_of (c ∷ a) (p ∷ o) i la lo = ground (arith, has_prefix-key_of a o i la.1 lo.1)

delete-absent :
    (k : Bytes) (m : Dict (PluginSchedule × Compiled)) → find k m ≡ none → delete k m ≡ m
unfolding find delete
delete-absent k [] h = refl
delete-absent k ((j, v) ∷ m) h = ground (arith, delete-absent k m)

remove_plugin-delete :
    (o id : Bytes) (s : Scheduler) → (remove_plugin o id s).1.plugin ≡ delete (key_of o id) s.plugin
unfolding remove_plugin
remove_plugin-delete o id s = ground (arith, delete-absent (key_of o id) s.plugin)

delete-IsNamed :
    (k : Bytes) (m : Dict (PluginSchedule × Compiled)) → All IsNamed m → All IsNamed (delete k m)
unfolding delete
delete-IsNamed k [] h = tt
delete-IsNamed k ((j, v) ∷ m) h = let rest = delete-IsNamed k m h.1 in ground arith

-- Which owner a key speaks of.
owner_of_key :
    (o id : Bytes) (e : Bytes × (PluginSchedule × Compiled))
    → Lacks 0 o
    → IsNamed e
    → e.0 ≡ key_of o id
    → str_eq e.1.0.owner o ≡ true
owner_of_key o id e lo n q =
    sym (has_prefix-key_of e.1.0.owner o e.1.0.id n.plain lo)
    ∙ ap (λ k. has_prefix k (o ++ 0 ∷ [])) (sym n.key_is ∙ q)
    ∙ has_prefix-key_of o o id lo lo
    ∙ str_eq_self o

listed-delete :
    (o id p : Bytes) (m : Dict (PluginSchedule × Compiled))
    → Lacks 0 o
    → str_eq o p ≡ false
    → All IsNamed m
    → listed p (delete (key_of o id) m) ≡ listed p m
unfolding listed delete
listed-delete o id p [] lo other h = refl
listed-delete o id p ((k, (v, c)) ∷ m) lo other h =
    let rest = listed-delete o id p m lo other h.1 in
    elim (Bool-cases (str_eq k (key_of o id))) [
      | inr keep ↦ ground arith
      | inl gone ↦
          let q = str_eq→eq k (key_of o id) gone in
          let own = owner_of_key o id (k, (v, c)) lo h.0 q in
          let same = str_eq→eq v.owner o own in
          let not_p : str_eq v.owner p ≡ false = ap (λ w. str_eq w p) same ∙ other in ground arith
    ]

-- Each entry of the owner stands under one of the identifiers.
abbrev Covered : Bytes → List Bytes → Bytes × (PluginSchedule × Compiled) → Type 0
Covered o ids e = (str_eq e.1.0.owner o ≡ false) ⊎ Any (λ i. e.0 ≡ key_of o i) ids

owner_ids-Covered :
    (o : Bytes) (m : Dict (PluginSchedule × Compiled))
    → Lacks 0 o
    → All IsNamed m
    → All (Covered o (owner_ids o m)) m
unfolding owner_ids
owner_ids-Covered o [] lo h = tt
owner_ids-Covered o ((k, (v, c)) ∷ m) lo h =
    let rest = owner_ids-Covered o m lo h.1 in
    let prefixed : has_prefix k (o ++ 0 ∷ []) ≡ str_eq v.owner o =
      ap (λ j. has_prefix j (o ++ 0 ∷ [])) h.0.key_is
      ∙ has_prefix-key_of v.owner o v.id h.0.plain lo in
    elim (Bool-cases (str_eq v.owner o)) [
      | inr other ↦
          let ids_is : owner_ids o ((k, (v, c)) ∷ m) ≡ owner_ids o m = rw (prefixed ∙ other) refl in
          subst (λ ids. All (Covered o ids) ((k, (v, c)) ∷ m)) (sym ids_is) (inl other, rest)
      | inl own ↦
          let same : v.owner ≡ o = str_eq→eq v.owner o own in
          let k_is : k ≡ key_of o v.id = h.0.key_is ∙ ap (λ w. key_of w v.id) same in
          let cut = trim_prefix k (o ++ 0 ∷ []) in
          let trimmed : cut ≡ v.id =
            ap (λ j. trim_prefix j (o ++ 0 ∷ [])) k_is ∙ trim_prefix-append o 0 v.id in
          let ids_is : owner_ids o ((k, (v, c)) ∷ m) ≡ cut ∷ owner_ids o m =
            rw (prefixed ∙ own) refl in
          subst (λ ids. All (Covered o ids) ((k, (v, c)) ∷ m)) (sym ids_is)
            (
              inr (inl (k_is ∙ ap (key_of o) (sym trimmed))),
              All-map (Covered o (owner_ids o m)) (Covered o (cut ∷ owner_ids o m))
                  (λ e x. elim x [ inl other ↦ inl other | inr there ↦ inr (inr there) ]) m rest,
            )
    ]

delete-Covered :
    (o id : Bytes) (ids : List Bytes) (m : Dict (PluginSchedule × Compiled))
    → All (Covered o (id ∷ ids)) m
    → All (Covered o ids) (delete (key_of o id) m)
unfolding delete
delete-Covered o id ids [] h = tt
delete-Covered o id ids ((k, v) ∷ m) h =
    let rest = delete-Covered o id ids m h.1 in
    elim (Bool-cases (str_eq k (key_of o id))) [
      | inl gone ↦ rw gone rest
      | inr keep ↦ rw keep (
        elim h.0 [
          | inl other ↦ inl other
          | inr (inl here) ↦
              let q : true ≡ false =
                sym (ap (λ j. str_eq j (key_of o id)) here ∙ str_eq_self (key_of o id)) ∙ keep in
              cc
          | inr (inr there) ↦ inr there
        ],
        rest,
      )
    ]

listed-none :
    (o : Bytes) (m : Dict (PluginSchedule × Compiled)) → All (Covered o []) m → listed o m ≡ []
unfolding listed
listed-none o [] h = refl
listed-none o ((k, (v, c)) ∷ m) h =
    let rest = listed-none o m h.1 in
    elim h.0 [ inl other ↦ rw other rest | inr none_left ↦ absurd (none_left tt) ]

-- What `remove_each` leaves.
record IsRemoved (o : Bytes) (ids : List Bytes) (a b : Scheduler) : Type 0 where
  still_named : All IsNamed b.plugin
  covered : All (Covered o []) b.plugin
  others : (p : Bytes) → str_eq o p ≡ false → list_plugin p b ≡ list_plugin p a
  same_loops : b.loops ≡ a.loops

remove_plugin-loops : (o id : Bytes) (s : Scheduler) → (remove_plugin o id s).1.loops ≡ s.loops
unfolding remove_plugin
remove_plugin-loops o id s = ground arith

remove_each-IsRemoved :
    (o : Bytes) (ids : List Bytes) (s : Scheduler)
    → Lacks 0 o
    → All IsNamed s.plugin
    → All (Covered o ids) s.plugin
    → IsRemoved o ids s (remove_each o ids s)
unfolding remove_each list_plugin
remove_each-IsRemoved o [] s lo h c = record {
  still_named = h;
  covered = c;
  others = λ p other. refl;
  same_loops = refl;
}
remove_each-IsRemoved o (id ∷ ids) s lo h c =
    let s1 = (remove_plugin o id s).1 in
    let d = remove_plugin-delete o id s in
    let r =
      remove_each-IsRemoved o ids s1 lo
        (subst (All IsNamed) (sym d) (delete-IsNamed (key_of o id) s.plugin h))
        (subst (All (Covered o ids)) (sym d) (delete-Covered o id ids s.plugin c)) in
    record {
      still_named = r.still_named;
      covered = r.covered;
      others =
          λ p other. r.others p other ∙ ap (listed p) d ∙ listed-delete o id p s.plugin lo other h;
      same_loops = r.same_loops ∙ remove_plugin-loops o id s;
    }

-- `RemovePluginOwner`, on registrations under the keys of their owners and with owners without a NUL
-- byte: nothing of the owner is left, the list of every other owner is as before, and so are the loops of
-- the jobs; the registrations stay under their keys.
pub remove_plugin_owner-isolated :
    (o : Bytes) (s : Scheduler)
    → Lacks 0 o
    → All IsNamed s.plugin
    → (list_plugin o (remove_plugin_owner o s) ≡ [])
      × ((p : Bytes)
          → str_eq o p ≡ false
          → list_plugin p (remove_plugin_owner o s) ≡ list_plugin p s)
      × ((remove_plugin_owner o s).loops ≡ s.loops)
      × All IsNamed (remove_plugin_owner o s).plugin
unfolding remove_plugin_owner list_plugin
remove_plugin_owner-isolated o s lo h =
    let r =
      remove_each-IsRemoved o (owner_ids o s.plugin) s lo h (owner_ids-Covered o s.plugin lo h) in
    (
      listed-none o (remove_each o (owner_ids o s.plugin) s).plugin r.covered,
      r.others,
      r.same_loops,
      r.still_named,
    )
