-- ===== src/Processes/Manager/Exclusive.antt =====
-- An execution of the history is captured by one process at a time, and is free again when it has ended.
use mathlib.Core.Path.{subst}
use run_pilot.Command.Launcher.{Cmd}
use run_pilot.Processes.Manager.Captures.{
  Captures, IsExclusive, IsExclusive-released, is_captured-put,
}
use run_pilot.Prelude.{
  Bool-cases, Option, [], ap, arith, false, if-cases, inl, inr, none, not, refl, some, sym, true, ℕ,
  ◌∙◌, ◌≡◌, ◌⊎◌,
}
use run_pilot.Prelude.Bytes.{Bytes, str_eq, str_eq→eq}
use run_pilot.Prelude.Dict.{find, find-put_cases, find-put_other, find-put_self, put}
use run_pilot.Prelude.Result.{Result, err, ok}
use run_pilot.Processes.{Failure, ProcessStart, validate_start}
use run_pilot.Processes.Manager.{
  Manager, Outcome, Process, World, capture_key, captured_start, is_captured, piped_start, release,
  start, start_built, start_from, start_valid, started, with_log,
}

-- `m` with the key marked, if there is one.
abbrev marked : Option Bytes → Manager → Manager
marked none m = m
marked (some key) m = record m { captured = put key true m.captured }

abbrev IsFree : Option Bytes → Manager → Type 0
IsFree none m = Unit {0}
IsFree (some key) m = is_captured key m ≡ false

marked-items : (capture : Option Bytes) (m : Manager) → (marked capture m).items ≡ m.items
marked-items none m = refl
marked-items (some key) m = refl

is_captured-marked :
    (o : Option Bytes) (m : Manager) (k : Bytes)
    → is_captured k m ≡ true
    → is_captured k (marked o m) ≡ true
is_captured-marked none m k h = h
is_captured-marked (some key) m k h = ground (arith, is_captured-put k key m)

is_captured-from_marked :
    (o : Option Bytes) (m : Manager) (k : Bytes)
    → is_captured k (marked o m) ≡ true
    → (o ≡ some k) ⊎ (is_captured k m ≡ true)
is_captured-from_marked none m k h = inr h
is_captured-from_marked (some key) m k h = elim (Bool-cases (str_eq key k)) [
  | inl same ↦ inl (ap some (str_eq→eq key k same))
  | inr other ↦ inr (ground (arith, is_captured-put k key m))
]

-- A process that starts, where its id is new and its execution is free.
module _ (m : Manager) (id : Bytes) (p : Process) (fresh : find id m.items ≡ none)
    (r : p.running ≡ true) (free : IsFree p.capture m) (x : IsExclusive m) where
  after : Manager
  after = record (marked p.capture m) { items = put id p m.items }

  Captures-before :
      (k j : Bytes) → Captures after k j → ((id ≡ j) × (p.capture ≡ some k)) ⊎ Captures m k j
  unfolding after
  Captures-before k j (q, f, r', c) = elim (find-put_cases id j p q m.items f) [
    | inl (i, e) ↦ inl (i, ap (λ u. u.capture) e ∙ c)
    | inr (other, f') ↦ inr (q, f', r', c)
  ]

  Captures-after : (k j : Bytes) → Captures m k j → Captures after k j
  unfolding after
  Captures-after k j (q, f, r', c) = elim (Bool-cases (str_eq id j)) [
    | inr other ↦ (q, find-put_other id j p m.items other ∙ f, r', c)
    | inl same ↦ absurd (cc (sym fresh ∙ (ap (λ i. find i m.items) (str_eq→eq id j same) ∙ f)))
  ]

  Captures-new : (k : Bytes) → p.capture ≡ some k → Captures after k id
  unfolding after
  Captures-new k c = (p, find-put_self id p m.items, r, c)

  is_captured-after : (k : Bytes) → p.capture ≡ some k → is_captured k after ≡ true
  unfolding after is_captured
  is_captured-after k c = rw (c, find-put_self k true m.captured) refl

  is_captured-still : (k : Bytes) → is_captured k m ≡ true → is_captured k after ≡ true
  unfolding after is_captured
  is_captured-still k h = is_captured-marked p.capture m k h

  is_captured-from :
      (k : Bytes) → is_captured k after ≡ true → (p.capture ≡ some k) ⊎ (is_captured k m ≡ true)
  unfolding after is_captured
  is_captured-from k h = is_captured-from_marked p.capture m k h

  -- The execution of the new process was captured by no other.
  not_before : (k j : Bytes) → p.capture ≡ some k → Captures m k j → ⊥
  not_before k j c d =
      let q : is_captured k m ≡ false = subst (λ o. IsFree o m) c free in
      let q' = x.held j k d in cc

  IsExclusive-started : IsExclusive after
  IsExclusive-started = record {
    held = λ i k c. elim (Captures-before k i c) [
      | inl (e, n) ↦ is_captured-after k n
      | inr d ↦ is_captured-still k (x.held i k d)
    ];
    apart = λ i j k c d. elim (Captures-before k i c) [
      | inl (e, n) ↦ elim (Captures-before k j d) [
        | inl (e', n') ↦ sym e ∙ e'
        | inr d' ↦ absurd (not_before k j n d')
      ]
      | inr c' ↦ elim (Captures-before k j d) [
        | inl (e', n') ↦ absurd (not_before k i n' c')
        | inr d' ↦ x.apart i j k c' d'
      ]
    ];
    used = λ k h. elim (is_captured-from k h) [
      | inl n ↦ (id, Captures-new k n)
      | inr h' ↦ let (j, c) = x.used k h' in (j, Captures-after k j c)
    ];
  }

module _ (w : World) (owner id : Bytes) (input : ProcessStart) where
  start_from-IsExclusive :
      (capture : Option Bytes) (r : Result ℕ) (m : Manager)
      → find id m.items ≡ none
      → IsFree capture m
      → IsExclusive m
      → IsExclusive (start_from owner id input capture r (marked capture m)).1
  unfolding start_from release after
  start_from-IsExclusive capture (ok pid) m fresh free x =
      subst
        (λ items.
          IsExclusive (record (marked capture m) {
            items = put id (started owner id input capture pid) items;
          }))
        (sym (marked-items capture m))
        (IsExclusive-started m id (started owner id input capture pid) fresh refl free x)
  start_from-IsExclusive none (err e) m fresh free x = x
  start_from-IsExclusive (some key) (err e) m fresh free x = IsExclusive-released m key free x

  with_log-IsExclusive :
      (cmd : Cmd) (key : Bytes) (o : Option Bytes) (m : Manager)
      → find id m.items ≡ none
      → is_captured key m ≡ false
      → IsExclusive m
      → IsExclusive (with_log w owner id input cmd key o (marked (some key) m)).1
  unfolding with_log
  with_log-IsExclusive cmd key (some e) m fresh free x = IsExclusive-released m key free x
  with_log-IsExclusive cmd key none m fresh free x =
      start_from-IsExclusive (some key) (w.start_process cmd) m fresh free x

  captured_start-IsExclusive :
      (cmd : Cmd) (m : Manager)
      → find id m.items ≡ none
      → IsExclusive m
      → IsExclusive (captured_start w owner id input cmd m).1
  unfolding captured_start
  captured_start-IsExclusive cmd m fresh x =
      let key = capture_key owner input.history_id in
      if-cases (λ (r : Outcome × Manager). IsExclusive r.1) (not w.has_history) (λ no_history. x)
        (λ history.
          if-cases (λ (r : Outcome × Manager). IsExclusive r.1) (is_captured key m) (λ busy. x)
            (λ free. with_log-IsExclusive cmd key w.open_log m fresh free x))

  piped_start-IsExclusive :
      (cmd : Cmd) (o : Option Bytes) (m : Manager)
      → find id m.items ≡ none
      → IsExclusive m
      → IsExclusive (piped_start w owner id input cmd o m).1
  unfolding piped_start
  piped_start-IsExclusive cmd (some e) m fresh x = x
  piped_start-IsExclusive cmd none m fresh x =
      start_from-IsExclusive none (w.start_process cmd) m fresh tt x

  start_built-IsExclusive :
      (r : Result Cmd) (m : Manager)
      → find id m.items ≡ none
      → IsExclusive m
      → IsExclusive (start_built w owner id input r m).1
  unfolding start_built
  start_built-IsExclusive (err e) m fresh x = x
  start_built-IsExclusive (ok cmd) m fresh x =
      if-cases (λ (r : Outcome × Manager). IsExclusive r.1) (not (str_eq input.history_id []))
        (λ history. captured_start-IsExclusive cmd m fresh x)
        (λ plain. piped_start-IsExclusive cmd w.pipes m fresh x)

  start_valid-IsExclusive :
      (o : Option Failure) (m : Manager)
      → find id m.items ≡ none
      → IsExclusive m
      → IsExclusive (start_valid w owner id input o m).1
  unfolding start_valid
  start_valid-IsExclusive (some e) m fresh x = x
  start_valid-IsExclusive none m fresh x = start_built-IsExclusive _ m fresh x

  pub start-IsExclusive :
      (m : Manager)
      → find id m.items ≡ none
      → IsExclusive m
      → IsExclusive (start w owner id input m).1
  unfolding start
  start-IsExclusive m fresh x = start_valid-IsExclusive (validate_start input) m fresh x
