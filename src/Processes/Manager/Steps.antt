-- ===== src/Processes/Manager/Steps.antt =====
-- What may happen to the manager, in any order, and what stays true of it.
use mathlib.Core.Path.{subst}
use mathlib.Core.Option.{some_inj}
use run_pilot.Processes.Manager.Captures.{
  Captures, IsExclusive, IsExclusive-put, IsExclusive-same, is_captured-release,
}
use run_pilot.Processes.Manager.Exclusive.{start-IsExclusive}
use run_pilot.Prelude.{
  Bool-cases, List, Option, [], ap, arith, false, if-cases, inl, inr, none, not, refl, some, sym,
  true, ◌↔◌, ◌∙◌, ◌∷◌, ◌≡◌,
}
use run_pilot.Prelude.Bytes.{Bytes, str_eq, str_eq_iff, str_eq_self, str_eq→eq}
use run_pilot.Prelude.Dict.{find, find-delete, find-put_cases, find-put_other}
use run_pilot.Processes.{ProcessStart}
use run_pilot.Processes.Manager.{
  Ended, Manager, Outcome, Process, World, close, forget, is_captured, kill, lookup, new_manager,
  owned_by, owned_ids, owners, process_ends, release, release_capture, start, stop_owner,
  stop_owners, terminate, terminate_each, terminate_from, time_out, timer_fires,
}

-- A plugin starts a process, under a new identifier; the timer of a process fires; a process that runs
-- ends; one that has ended is forgotten; a plugin terminates a process; an owner is stopped; all are.
pub data Step (m : Manager) : Manager → Type 0 where
  starts :
      (w : World) (owner id : Bytes) (input : ProcessStart)
      → find id m.items ≡ none
      → Step m (start w owner id input m).1
  fires : (id : Bytes) (p : Process) → find id m.items ≡ some p → Step m (timer_fires id p m)
  ends :
      (id : Bytes) (p : Process) (e : Ended)
      → find id m.items ≡ some p
      → p.running ≡ true
      → Step m (process_ends id p e m)
  forgets :
      (id : Bytes) (p : Process)
      → find id m.items ≡ some p
      → p.running ≡ false
      → Step m (forget id m)
  terminates : (owner id : Bytes) (killing : Option Bytes) → Step m (terminate owner id killing m).1
  stops : (owner : Bytes) (killing : Bytes → Option Bytes) → Step m (stop_owner owner killing m)
  closes : (killing : Bytes → Option Bytes) → Step m (close killing m)

pub data Reach (s : Manager) : Manager → Type 0 where
  here : Reach s s
  later : {m m' : Manager} → Reach s m → Step m m' → Reach s m'

timer_fires-IsExclusive :
    (id : Bytes) (p : Process) (m : Manager)
    → find id m.items ≡ some p
    → IsExclusive m
    → IsExclusive (timer_fires id p m)
unfolding timer_fires time_out
timer_fires-IsExclusive id p m f x =
    IsExclusive-put m id p (time_out p) f (ground arith) (ground arith) x

lookup-find :
    (owner id : Bytes) (m : Manager) (p : Process)
    → lookup owner id m ≡ some p
    → find id m.items ≡ some p
unfolding lookup owned_by
lookup-find owner id m p h = ground arith

kill_state :
    (owner id : Bytes) (killing : Option Bytes) (m : Manager) → (kill owner id killing m).1 ≡ m
unfolding kill
kill_state owner id none m = refl
kill_state owner id (some e) m = refl

terminate_from-IsExclusive :
    (owner id : Bytes) (killing : Option Bytes) (o : Option Process) (m : Manager)
    → lookup owner id m ≡ o
    → IsExclusive m
    → IsExclusive (terminate_from owner id killing o m).1
unfolding terminate_from
terminate_from-IsExclusive owner id killing none m l x = x
terminate_from-IsExclusive owner id killing (some p) m l x =
    if-cases (λ (r : Outcome × Manager). IsExclusive r.1) (not p.running) (λ ended. x)
      (λ runs. subst IsExclusive (sym (kill_state owner id killing _)) (
        IsExclusive-put m id p (record p { terminated = true }) (lookup-find owner id m p l) refl
          refl x))

terminate-IsExclusive :
    (owner id : Bytes) (killing : Option Bytes) (m : Manager)
    → IsExclusive m
    → IsExclusive (terminate owner id killing m).1
unfolding terminate
terminate-IsExclusive owner id killing m x =
    terminate_from-IsExclusive owner id killing (lookup owner id m) m refl x

terminate_each-IsExclusive :
    (owner : Bytes) (killing : Bytes → Option Bytes) (ids : List Bytes) (m : Manager)
    → IsExclusive m
    → IsExclusive (terminate_each owner killing ids m)
unfolding terminate_each
terminate_each-IsExclusive owner killing [] m x = x
terminate_each-IsExclusive owner killing (id ∷ ids) m x =
    terminate_each-IsExclusive owner killing ids _ (terminate-IsExclusive owner id (killing id) m x)

stop_owner-IsExclusive :
    (owner : Bytes) (killing : Bytes → Option Bytes) (m : Manager)
    → IsExclusive m
    → IsExclusive (stop_owner owner killing m)
unfolding stop_owner
stop_owner-IsExclusive owner killing m x =
    terminate_each-IsExclusive owner killing (owned_ids owner m.items) m x

stop_owners-IsExclusive :
    (killing : Bytes → Option Bytes) (os : List Bytes) (m : Manager)
    → IsExclusive m
    → IsExclusive (stop_owners killing os m)
unfolding stop_owners
stop_owners-IsExclusive killing [] m x = x
stop_owners-IsExclusive killing (owner ∷ os) m x =
    stop_owners-IsExclusive killing os _ (stop_owner-IsExclusive owner killing m x)

release-items : (o : Option Bytes) (m : Manager) → (release o m).items ≡ m.items
unfolding release release_capture
release-items none m = refl
release-items (some key) m = refl

-- What is captured after a release was captured, and by another key.
captured-from_release :
    (o : Option Bytes) (m : Manager) (k : Bytes)
    → is_captured k (release o m) ≡ true
    → (is_captured k m ≡ true) × ¬ (o ≡ some k)
unfolding release
captured-from_release none m k h = (h, λ e. absurd (cc))
captured-from_release (some key) m k h = elim (Bool-cases (str_eq key k)) [
  | inl same ↦ absurd (cc (rw same at (sym (is_captured-release k key m) ∙ h)))
  | inr other ↦ (
    rw other at (sym (is_captured-release k key m) ∙ h),
    λ e.
        let t = ap (str_eq key) (some_inj.0 e) in
        let b : false ≡ true = sym other ∙ (sym t ∙ str_eq_self key) in absurd (cc),
  )
]

release-captured :
    (o : Option Bytes) (m : Manager) (k : Bytes)
    → is_captured k m ≡ true
    → ¬ (o ≡ some k)
    → is_captured k (release o m) ≡ true
unfolding release
release-captured none m k h n = h
release-captured (some key) m k h n = elim (Bool-cases (str_eq key k)) [
  | inl same ↦ absurd (n (ap some (str_eq→eq key k same)))
  | inr other ↦ ground (arith, is_captured-release k key m)
]

module _ (m : Manager) (id : Bytes) (p : Process) (found : find id m.items ≡ some p) where
  -- A process that is `p` has what `p` has.
  is_p : (j : Bytes) (q : Process) → id ≡ j → find j m.items ≡ some q → p ≡ q
  is_p j q e f = some_inj.0 (sym found ∙ (ap (λ i. find i m.items) e ∙ f))

  forget-IsExclusive : p.running ≡ false → IsExclusive m → IsExclusive (forget id m)
  unfolding forget is_captured
  forget-IsExclusive ended = IsExclusive-same m (forget id m) both (λ k. refl)
    where
      both : (k j : Bytes) → Captures m k j ↔ Captures (forget id m) k j
      both k j = (
        (λ (q, f, r, c). elim (Bool-cases (str_eq id j)) [
          | inl same ↦
              let e = is_p j q (str_eq→eq id j same) f in
              let b : false ≡ true = sym ended ∙ (ap (λ u. u.running) e ∙ r) in absurd (cc)
          | inr other ↦ (q, find-delete id j m.items ∙ rw other f, r, c)
        ]),
        (λ (q, f, r, c). elim (Bool-cases (str_eq id j)) [
          | inl same ↦ absurd (cc (rw same at (sym (find-delete id j m.items) ∙ f)))
          | inr other ↦ (q, rw other at (sym (find-delete id j m.items) ∙ f), r, c)
        ]),
      )

  module _ (e : Ended) (runs : p.running ≡ true) (x : IsExclusive m) where
    Captures-ended :
        (k j : Bytes)
        → Captures (process_ends id p e m) k j
        → (str_eq id j ≡ false) × Captures m k j
    unfolding process_ends
    Captures-ended k j (q, f, r, c) = elim (find-put_cases id j _ q _ f) [
      | inl (i, e) ↦ let b : false ≡ true = ap (λ u. u.running) e ∙ r in absurd (cc)
      | inr (other, f') ↦
          (other, (q, subst (λ items. find j items ≡ some q) (release-items p.capture m) f', r, c))
    ]

    Captures-still :
        (k j : Bytes) → str_eq id j ≡ false → Captures m k j → Captures (process_ends id p e m) k j
    unfolding process_ends
    Captures-still k j other (q, f, r, c) = (
      q,
      find-put_other id j _ _ other
          ∙ subst (λ items. find j items ≡ some q) (sym (release-items p.capture m)) f,
      r,
      c,
    )

    process_ends-IsExclusive : IsExclusive (process_ends id p e m)
    unfolding process_ends is_captured
    process_ends-IsExclusive = record {
      held = λ i k c.
          let (other, d) = Captures-ended k i c in
          release-captured p.capture m k (x.held i k d) (λ same.
            let q = x.apart id i k (p, found, runs, same) d in
            let t = str_eq_iff id i in ground arith);
      apart = λ i j k c d. x.apart i j k (Captures-ended k i c).1 (Captures-ended k j d).1;
      used = λ k h.
          let (h', n) = captured-from_release p.capture m k h in
          let (j, d) = x.used k h' in
          elim (Bool-cases (str_eq id j)) [
            | inr other ↦ (j, Captures-still k j other d)
            | inl same ↦
                absurd (n (ap (λ u. u.capture) (is_p j d.0 (str_eq→eq id j same) d.1) ∙ d.3))
          ];
    }

Step-IsExclusive : (m m' : Manager) → Step m m' → IsExclusive m → IsExclusive m'
unfolding close
Step-IsExclusive m _ (starts w owner id input fresh) x =
    start-IsExclusive w owner id input m fresh x
Step-IsExclusive m _ (fires id p f) x = timer_fires-IsExclusive id p m f x
Step-IsExclusive m _ (ends id p e f r) x = process_ends-IsExclusive m id p f e r x
Step-IsExclusive m _ (forgets id p f r) x = forget-IsExclusive m id p f r x
Step-IsExclusive m _ (terminates owner id killing) x = terminate-IsExclusive owner id killing m x
Step-IsExclusive m _ (stops owner killing) x = stop_owner-IsExclusive owner killing m x
Step-IsExclusive m _ (closes killing) x = stop_owners-IsExclusive killing (owners m.items) m x

new_manager-IsExclusive : IsExclusive new_manager
unfolding new_manager is_captured find
new_manager-IsExclusive = record {
  held = λ id k c. let e = c.1 in absurd (cc);
  apart = λ i j k c d. let e = c.1 in absurd (cc);
  used = λ k h. absurd (cc);
}

-- Whatever plugins start and terminate, and whenever processes end, an execution of the history is marked
-- as captured exactly while a process that runs captures it, and never by two at once.
pub Reach-IsExclusive : {m : Manager} → Reach new_manager m → IsExclusive m
Reach-IsExclusive here = new_manager-IsExclusive
Reach-IsExclusive (later {m} {m'} r s) = Step-IsExclusive m m' s (Reach-IsExclusive r)
