-- ===== src/Jobs/Runner/System.antt =====
-- The runner with the executions that `go r.execute` leaves behind, each of which calls `finish` at some
-- later time.
-- The executions that were begun and have not finished, each with its definition and run.
use run_pilot.Prelude.{
  All, Any, List, Option, [], arith, inl, inr, none, some, suc, zero, ℕ, ◌∷◌, ◌≡◌, ◌⊎◌,
}
use run_pilot.Prelude.Bytes.{Bytes}
use run_pilot.Prelude.Maybe.{◌>>=◌}
use run_pilot.Jobs.{JobDefinition, normalize_job}
use run_pilot.Jobs.Runner.{Outcome, RunResult, Runner, already_running, finish, run, started}

pub record System : Type 0 where
  pub runner : Runner
  pub executing : List (JobDefinition × Bytes)

-- `finishes n`: the execution at place `n` ends.
pub data Act : Type 0 where
  runs : JobDefinition → Bytes → Act
  finishes : ℕ → ℕ → Outcome → Act

unfoldable pub take_out {ℓ} : {A : Type ℓ} → ℕ → List A → Option (A × List A)
take_out n [] = none
take_out zero (x ∷ xs) = some (x, xs)
take_out (suc n) (x ∷ xs) = do (y, ys) ← take_out n xs; some (y, x ∷ ys)

unfoldable pub after_run : JobDefinition → RunResult × Runner → System → System
after_run def (started id, r) s = record { runner = r; executing = (def, id) ∷ s.executing }
after_run def (already_running n c, r) s = record { runner = r; executing = s.executing }

unfoldable pub after_finish :
    Option ((JobDefinition × Bytes) × List (JobDefinition × Bytes)) → ℕ → Outcome → System → System
after_finish none at o s = s
after_finish (some ((def, id), rest)) at o s = record {
  runner = finish def at o s.runner;
  executing = rest;
}

unfoldable pub act : Act → System → System
unfolding after_run after_finish
act (runs def id) s = after_run (normalize_job def) (run def id s.runner) s
act (finishes n at o) s = after_finish (take_out n s.executing) at o s

unfoldable pub acts : List Act → System → System
acts [] s = s
acts (a ∷ as_) s = acts as_ (act a s)

pub take_out_first {ℓ} :
    {A : Type ℓ} (x y : A) (xs ys : List A)
    → take_out zero (x ∷ xs) ≡ some (y, ys)
    → (y ≡ x) × (ys ≡ xs)
unfolding take_out
take_out_first x y xs ys q = (ground arith, ground arith)

pub take_out_later {ℓ} :
    {A : Type ℓ} (n : ℕ) (x y : A) (xs ys : List A)
    → take_out (suc n) (x ∷ xs) ≡ some (y, ys)
    → (zs : List A) × (take_out n xs ≡ some (y, zs)) × (ys ≡ x ∷ zs)
unfolding take_out
take_out_later n x y xs ys q = ground arith

pub take_out_none {ℓ κ} :
    {A : Type ℓ} {B : Type κ} {y : A × List A} (n : ℕ) → take_out n [] ≡ some y → B
unfolding take_out
take_out_none n q = cc

pub take_out-All {ℓ} :
    (P : JobDefinition × Bytes → Type ℓ) (n : ℕ) (es rest : List (JobDefinition × Bytes))
    (e : JobDefinition × Bytes)
    → take_out n es ≡ some (e, rest)
    → All P es
    → P e × All P rest
take_out-All P n [] rest e q a = take_out_none n q
take_out-All P zero (f ∷ es) rest e q a =
    let (same, left) = take_out_first f e es rest q in rw (same, left) a
take_out-All P (suc n) (f ∷ es) rest e q a =
    let (zs, later, left) = take_out_later n f e es rest q in
    let (head, tail) = take_out-All P n es zs e later a.1 in rw left (head, (a.0, tail))

pub take_out-Any {ℓ} :
    (P : JobDefinition × Bytes → Type ℓ) (n : ℕ) (es rest : List (JobDefinition × Bytes))
    (e : JobDefinition × Bytes)
    → take_out n es ≡ some (e, rest)
    → Any P es
    → P e ⊎ Any P rest
take_out-Any P n [] rest e q a = take_out_none n q
take_out-Any P zero (f ∷ es) rest e q a =
    let (same, left) = take_out_first f e es rest q in rw (same, left) a
take_out-Any P (suc n) (f ∷ es) rest e q (inl here) =
    let (zs, later, left) = take_out_later n f e es rest q in rw left (inr (inl here))
take_out-Any P (suc n) (f ∷ es) rest e q (inr there) =
    let (zs, later, left) = take_out_later n f e es rest q in
    rw left (elim (take_out-Any P n es zs e later there) [
      | inl own ↦ inl own
      | inr others ↦ inr (inr others)
    ])
