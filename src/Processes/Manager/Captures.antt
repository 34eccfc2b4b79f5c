-- ===== src/Processes/Manager/Captures.antt =====
-- Which process captures an execution of the history.
use mathlib.Core.Option.{some_inj}
use run_pilot.Prelude.{
  Bool-cases, ap, arith, false, if◌then◌else◌, inl, inr, refl, some, sym, true, ◌↔◌, ◌∙◌, ◌≡◌,
}
use run_pilot.Prelude.Bytes.{Bytes, str_eq, str_eq→eq}
use run_pilot.Prelude.Dict.{
  find, find-delete, find-put, find-put_cases, find-put_other, find-put_self, put,
}
use run_pilot.Processes.Manager.{Manager, Process, is_captured, release_capture}

-- The process `id` runs, and its output goes to the execution `k`.
abbrev pub Captures : Manager → Bytes → Bytes → Type 0
Captures m k id =
    (p : Process) × (find id m.items ≡ some p) × (p.running ≡ true) × (p.capture ≡ some k)

-- `captured` has exactly the executions that a running process captures, each by one process.
pub record IsExclusive (m : Manager) : Type 0 where
  pub held : (id k : Bytes) → Captures m k id → is_captured k m ≡ true
  pub apart : (i j k : Bytes) → Captures m k i → Captures m k j → i ≡ j
  pub used : (k : Bytes) → is_captured k m ≡ true → (id : Bytes) × Captures m k id

-- It is enough that the processes and the captured executions are the same.
pub IsExclusive-same :
    (m m' : Manager)
    → ((k j : Bytes) → Captures m k j ↔ Captures m' k j)
    → ((k : Bytes) → is_captured k m' ≡ is_captured k m)
    → IsExclusive m
    → IsExclusive m'
IsExclusive-same m m' both same x = record {
  held = λ id k c. same k ∙ x.held id k ((both k id).1 c);
  apart = λ i j k c d. x.apart i j k ((both k i).1 c) ((both k j).1 d);
  used = λ k h. let (id, c) = x.used k (sym (same k) ∙ h) in (id, (both k id).0 c);
}

-- A process that is written over by one that captures the same, while it runs.
module _ (m : Manager) (id : Bytes) (p p' : Process) (found : find id m.items ≡ some p)
    (r : p'.running ≡ p.running) (c : p'.capture ≡ p.capture) where
  Captures-put :
      (k j : Bytes) → Captures m k j ↔ Captures (record m { items = put id p' m.items }) k j
  Captures-put k j = (forth, back)
    where
      forth : Captures m k j → Captures (record m { items = put id p' m.items }) k j
      forth (q, f, r', c') = elim (Bool-cases (str_eq id j)) [
        | inr other ↦ (q, find-put_other id j p' m.items other ∙ f, r', c')
        | inl same ↦
            let i = str_eq→eq id j same in
            let e : p ≡ q = some_inj.0 (sym found ∙ (ap (λ i. find i m.items) i ∙ f)) in
            (p', rw (← i) (find-put_self id p' m.items), rw (r, e) r', rw (c, e) c')
      ]

      back : Captures (record m { items = put id p' m.items }) k j → Captures m k j
      back (q, f, r', c') = elim (find-put_cases id j p' q m.items f) [
        | inr (other, f') ↦ (q, f', r', c')
        | inl (i, e) ↦ (
          p,
          rw (← i) found,
          sym r ∙ (ap (λ u. u.running) e ∙ r'),
          sym c ∙ (ap (λ u. u.capture) e ∙ c'),
        )
      ]

  pub IsExclusive-put : IsExclusive m → IsExclusive (record m { items = put id p' m.items })
  unfolding is_captured
  IsExclusive-put = IsExclusive-same m _ Captures-put (λ k. refl)

pub is_captured-put :
    (k key : Bytes) (m : Manager)
    → is_captured k (record m { captured = put key true m.captured })
      ≡ (if str_eq key k then true else is_captured k m)
unfolding is_captured
is_captured-put k key m = ground (arith, find-put key k true m.captured)

pub is_captured-release :
    (k key : Bytes) (m : Manager)
    → is_captured k (release_capture key m) ≡ (if str_eq key k then false else is_captured k m)
unfolding is_captured release_capture
is_captured-release k key m = ground (arith, find-delete key k m.captured)

-- A start that fails takes its mark back.
pub IsExclusive-released :
    (m : Manager) (key : Bytes)
    → is_captured key m ≡ false
    → IsExclusive m
    → IsExclusive (release_capture key (record m { captured = put key true m.captured }))
unfolding release_capture
IsExclusive-released m key free =
    IsExclusive-same m _ (λ k j. ((λ c. c), (λ c. c)))
      (λ k. ground (
        arith,
        str_eq→eq key k,
        is_captured-release k key (record m { captured = put key true m.captured }),
        is_captured-put k key m,
      ))
