-- ===== src/Tasks/Exit/Idle.antt =====
-- A continuous task that no one wants to run: the exits of processes do not start it.
pub mod Exits
use run_pilot.Prelude.{
  Bool, Bool-cases, List, [], arith, false, if◌then◌else◌, inl, inr, refl, suc, true, ℕ, ◌&&◌, ◌∙◌,
  ◌∷◌, ◌≡◌,
}
use run_pilot.Prelude.Bytes.{Bytes, codes, str_eq, str_eq→eq}
use run_pilot.Tasks.{Task}
use run_pilot.Tasks.Host.{Call, Host, history_begin}
use run_pilot.Tasks.Plugin.{Plugin, TaskRuntime, call, ensure, publish_task, runtime_of, update}
use run_pilot.Tasks.Launch.{launch, spawn}
use run_pilot.Tasks.Plugin.Laws.{runtime_of-put}

-- How often an execution of the continuous task was begun.
abbrev pub starts_of : Bytes → List Call → ℕ
starts_of id [] = 0
starts_of id (history_begin kind task name ∷ calls) =
    let rest = starts_of id calls in
    if str_eq kind (codes "process") && str_eq task id then suc rest else rest
starts_of id (_ ∷ calls) = starts_of id calls

pub record IsIdle (id : Bytes) (pl : Plugin) : Type 0 where
  pub undesired : (runtime_of id pl.rt).desired ≡ false
  pub no_pending : (runtime_of id pl.rt).pending_start ≡ false

pub record Stays (id : Bytes) (a b : Plugin) : Type 0 where
  pub idle : IsIdle id b
  pub no_start : starts_of id b.calls ≡ starts_of id a.calls

pub Stays-trans : {id : Bytes} {a b c : Plugin} → Stays id a b → Stays id b c → Stays id a c
Stays-trans p q = record { idle = q.idle; no_start = q.no_start ∙ p.no_start }

module _ (id : Bytes) where
  pub Stays-if :
      {a x y : Plugin} (b : Bool)
      → (b ≡ true → Stays id a x)
      → (b ≡ false → Stays id a y)
      → Stays id a (if b then x else y)
  Stays-if true f g = f refl
  Stays-if false f g = g refl

  -- An assignment that does not ask for a start.
  abbrev pub Lowers : Bytes → (TaskRuntime → TaskRuntime) → Type 0
  Lowers k f =
      (r : TaskRuntime)
      → str_eq k id ≡ true
      → r.desired ≡ false
      → r.pending_start ≡ false
      → ((f r).desired ≡ false) × ((f r).pending_start ≡ false)

  pub update-Stays :
      (k : Bytes) (f : TaskRuntime → TaskRuntime) (pl : Plugin)
      → Lowers k f
      → IsIdle id pl
      → Stays id pl (update k f pl)
  unfolding update
  update-Stays k f pl lowers i = elim (Bool-cases (str_eq k id)) [
    | inr other ↦ grind (arith, runtime_of-put)
    | inl same ↦
        let e : k ≡ id = str_eq→eq k id same in
        let now : runtime_of id (update k f pl).rt ≡ f (runtime_of k pl.rt) =
          rw (runtime_of-put k id (f (runtime_of k pl.rt)) pl.rt, same) in
        let kept = lowers (runtime_of k pl.rt) same (rw e i.undesired) (rw e i.no_pending) in
        record {
          idle = record { undesired = rw now kept.0; no_pending = rw now kept.1 };
          no_start = refl;
        }
  ]

  pub ensure-Stays : (k : Bytes) (pl : Plugin) → IsIdle id pl → Stays id pl (ensure k pl)
  unfolding ensure update
  ensure-Stays k pl i = update-Stays k (λ r. r) pl (λ r _ d p. (d, p)) i

  pub publish_task-Stays : (t : Task) (pl : Plugin) → IsIdle id pl → Stays id pl (publish_task t pl)
  unfolding publish_task ensure
  publish_task-Stays t pl i = elim (Bool-cases (str_eq t.id id)) [
    | inr other ↦ grind (arith, runtime_of-put)
    | inl same ↦ let e : t.id ≡ id = str_eq→eq t.id id same in grind (arith, runtime_of-put)
  ]

  pub call-Stays :
      (c : Call) (pl : Plugin)
      → starts_of id (c ∷ pl.calls) ≡ starts_of id pl.calls
      → IsIdle id pl
      → Stays id pl (call c pl)
  call-Stays c pl e i = record {
    idle = record { undesired = i.undesired; no_pending = i.no_pending };
    no_start = e;
  }

  -- An assignment, and then a view.
  pub published-Stays :
      (t : Task) (f : TaskRuntime → TaskRuntime) (pl : Plugin)
      → Lowers t.id f
      → IsIdle id pl
      → Stays id pl (publish_task t (update t.id f pl))
  published-Stays t f pl lowers i =
      let u = update-Stays t.id f pl lowers i in
      Stays-trans u (publish_task-Stays t (update t.id f pl) u.idle)

module _ (h : Host) (id : Bytes) where
  launch-Stays :
      (t : Task) (pl : Plugin)
      → str_eq t.id id ≡ false
      → IsIdle id pl
      → Stays id pl (launch h t pl).1
  unfolding launch update
  launch-Stays t pl other i = grind (arith, runtime_of-put)

  pub spawn-Stays :
      (t : Task) (pl : Plugin)
      → str_eq t.id id ≡ false
      → IsIdle id pl
      → Stays id pl (spawn h t pl).1
  unfolding spawn update publish_task ensure
  spawn-Stays t pl other i = grind (arith, launch-Stays t pl other i, runtime_of-put)
