-- ===== src/Tasks/Events/Stopped.antt =====
-- A stopped task stays stopped, whatever the host's events are.
use run_pilot.Prelude.{
  Bool-cases, List, Option, [], arith, false, inl, inr, none, not, refl, some, true, ◌||◌, ◌∙◌, ◌∷◌,
  ◌≡◌,
}
use run_pilot.Prelude.Bytes.{Bytes, codes, str_eq, str_eq→eq}
use run_pilot.Tasks.{Task}
use run_pilot.Tasks.Host.{Callback, Host, on_reconcile, on_restart, on_task, scheduler_remove}
use run_pilot.Tasks.Plugin.{Plugin, ensure, find_task, is_scheduled, update}
use run_pilot.Tasks.Launch.{launch}
use run_pilot.Tasks.Control.{run_now, stop_task}
use run_pilot.Tasks.Rpc.{unregister}
use run_pilot.Tasks.Plugin.Laws.{runtime_of-put}
use run_pilot.Tasks.Events.{
  Event, event, events, fired, process_exit, process_exit_event, scheduler_fired, task_due,
}
use run_pilot.Tasks.Exit.Idle.{
  IsIdle, Stays, Stays-if, Stays-trans, call-Stays, ensure-Stays, publish_task-Stays,
  published-Stays, starts_of,
}
use run_pilot.Tasks.Exit.Fired.{restart_fired-Stays}
use run_pilot.Tasks.Control.Idle.{reconcile-Stays, stop_task-Stays}
use run_pilot.Tasks.Exit.Idle.Exits.{process_exited-Stays}

kinds_differ : str_eq (codes "command") (codes "process") ≡ false
unfolding str_eq
kinds_differ = refl

module _ (h : Host) (id : Bytes) where
  launch-Stays :
      (t : Task) (pl : Plugin)
      → is_scheduled t.type ≡ true
      → IsIdle id pl
      → Stays id pl (launch h t pl).1
  unfolding launch update
  launch-Stays t pl is i = elim (Bool-cases (str_eq t.id id)) [
    | inr other ↦ grind (arith, runtime_of-put, kinds_differ)
    | inl same ↦
        let e : t.id ≡ id = str_eq→eq t.id id same in grind (arith, runtime_of-put, kinds_differ)
  ]

  run_now-Stays :
      (t : Task) (pl : Plugin)
      → is_scheduled t.type ≡ true
      → IsIdle id pl
      → Stays id pl (run_now h t false pl).1
  unfolding run_now
  run_now-Stays t pl is i =
      grind (arith, launch-Stays t pl is i, published-Stays, publish_task-Stays)

  task_due-Stays :
      (t : Option Task) (k : Bytes) (pl : Plugin) → IsIdle id pl → Stays id pl (task_due h t k pl)
  unfolding task_due unregister
  task_due-Stays none k pl i = call-Stays id (scheduler_remove k) pl refl i
  task_due-Stays (some t) k pl i =
      Stays-if id (not (str_eq pl.load_error []) || not (is_scheduled t.type) || not t.enabled)
        (λ _. call-Stays id (scheduler_remove k) pl refl i)
        (λ due.
          let u = ensure-Stays id t.id pl i in
          Stays-trans u (run_now-Stays t (ensure t.id pl) (ground arith) u.idle))

  scheduler_fired-Stays :
      (c : Callback) (k : Bytes) (pl : Plugin)
      → IsIdle id pl
      → Stays id pl (scheduler_fired h c k pl)
  unfolding scheduler_fired
  scheduler_fired-Stays on_reconcile k pl i = reconcile-Stays h id pl i
  scheduler_fired-Stays on_restart k pl i = restart_fired-Stays h id _ pl i
  scheduler_fired-Stays on_task k pl i = task_due-Stays (find_task k pl.tasks) k pl i

  event-Stays : (e : Event) (pl : Plugin) → IsIdle id pl → Stays id pl (event h e pl)
  unfolding event process_exit_event
  event-Stays (process_exit k info) pl i = process_exited-Stays h id k info pl i
  event-Stays (fired c k) pl i = scheduler_fired-Stays c k pl i

  events-Stays : (es : List Event) (pl : Plugin) → IsIdle id pl → Stays id pl (events h es pl)
  unfolding events
  events-Stays [] pl i = record { idle = i; no_start = refl }
  events-Stays (e ∷ es) pl i =
      let u = event-Stays e pl i in Stays-trans u (events-Stays es (event h e pl) u.idle)

-- Once `stopTask` ran for a task without keeping its pending start (`keepPending` is false, unlike in a
-- restart), whether it succeeded or not and whatever the host answers, no sequence of events begins an
-- execution of it as a continuous task, and it stays undesired with no pending start.
pub stopped_stays :
    (h : Host) (t : Task) (es : List Event) (pl : Plugin)
    → (let pl1 = events h es (stop_task h t false pl).1 in
        IsIdle t.id pl1 × (starts_of t.id pl1.calls ≡ starts_of t.id pl.calls))
stopped_stays h t es pl =
    let (idle, none_begun) = stop_task-Stays h t pl in
    let u = events-Stays h t.id es (stop_task h t false pl).1 idle in
    (u.idle, u.no_start ∙ none_begun)
