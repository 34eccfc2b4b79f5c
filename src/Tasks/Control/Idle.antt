-- ===== src/Tasks/Control/Idle.antt =====
-- A task that no one wants to run: reconciling and stopping do not start it.
use run_pilot.Prelude.{
  Bool, List, Option, [], arith, false, if◌then◌else◌, none, refl, some, true, ◌++◌, ◌∷◌, ◌≡◌,
}
use run_pilot.Prelude.Bytes.{Bytes, str_eq}
use run_pilot.Prelude.Dict.{Dict}
use run_pilot.Tasks.{Task}
use run_pilot.Tasks.Host.{
  Host, HostError, HostResult, ProcessStatus, fail, is_not_found, ok, process_status,
  process_terminate, scheduler_remove,
}
use run_pilot.Tasks.Plugin.{
  Plugin, ProcRef, RunState, TaskRuntime, is_scheduled, runtime_of, stopping, update,
}
use run_pilot.Tasks.Exit.{restart_prefix}
use run_pilot.Tasks.Control.{
  cancel_restart_timer, exit_of, lost, reconcile, reconcile_each, reconciled, settle_status,
  stop_continuous, stop_outcome, stop_processes, stop_task, terminate, terminated_with,
}
use run_pilot.Tasks.Plugin.Laws.{runtime_of-put_self}
use run_pilot.Tasks.Exit.Idle.{
  IsIdle, Stays, Stays-if, Stays-trans, call-Stays, published-Stays, starts_of, update-Stays,
}
use run_pilot.Tasks.Exit.Idle.Exits.{process_exited-Stays}
use run_pilot.Prelude.Result.{ok}

module _ (h : Host) (id : Bytes) where
  settle_status-Stays :
      (k : Bytes) (s : ProcessStatus) (pl : Plugin)
      → IsIdle id pl
      → Stays id pl (settle_status h k s pl)
  unfolding settle_status
  settle_status-Stays k s pl i =
      Stays-if id s.running (λ _. record { idle = i; no_start = refl })
        (λ _. process_exited-Stays h id k (exit_of s) pl i)

  reconciled-Stays :
      (k : Bytes) (r : HostResult ProcessStatus) (pl : Plugin)
      → IsIdle id pl
      → Stays id pl (reconciled h k r pl)
  unfolding reconciled
  reconciled-Stays k (ok s) pl i = settle_status-Stays k s pl i
  reconciled-Stays k (fail e) pl i =
      Stays-if id (is_not_found e) (λ _. process_exited-Stays h id k lost pl i)
        (λ _. record { idle = i; no_start = refl })

  reconcile_each-Stays :
      (ks : List Bytes) (pl : Plugin) → IsIdle id pl → Stays id pl (reconcile_each h ks pl)
  unfolding reconcile_each
  reconcile_each-Stays [] pl i = record { idle = i; no_start = refl }
  reconcile_each-Stays (k ∷ ks) pl i =
      let u = call-Stays id (process_status k) pl refl i in
      let v = Stays-trans u (reconciled-Stays k _ _ u.idle) in
      Stays-trans v (reconcile_each-Stays ks _ v.idle)

  pub reconcile-Stays : (pl : Plugin) → IsIdle id pl → Stays id pl (reconcile h pl)
  unfolding reconcile
  reconcile-Stays pl i = reconcile_each-Stays _ pl i

  terminated_with-Stays :
      (k : Bytes) (r : HostResult ProcessStatus) (pl : Plugin)
      → IsIdle id pl
      → Stays id pl (terminated_with h k r pl).1
  unfolding terminated_with
  terminated_with-Stays k (ok s) pl i = settle_status-Stays k s pl i
  terminated_with-Stays k (fail e) pl i = grind (arith, process_exited-Stays h id k lost pl i)

  terminate-Stays : (k : Bytes) (pl : Plugin) → IsIdle id pl → Stays id pl (terminate h k pl).1
  unfolding terminate
  terminate-Stays k pl i =
      let u = call-Stays id (process_terminate k) pl refl i in
      Stays-trans u (terminated_with-Stays k _ _ u.idle)

  stop_processes-Stays :
      (k : Bytes) (refs : Dict ProcRef) (pl : Plugin)
      → IsIdle id pl
      → Stays id pl (stop_processes h k refs pl).1
  unfolding stop_processes
  stop_processes-Stays k [] pl i = record { idle = i; no_start = refl }
  stop_processes-Stays k ((j, ref) ∷ refs) pl i =
      let u = terminate-Stays j pl i in grind (arith, stop_processes-Stays k refs, Stays-trans)

  cancel-Stays : (k : Bytes) (pl : Plugin) → IsIdle id pl → Stays id pl (cancel_restart_timer k pl)
  unfolding cancel_restart_timer
  cancel-Stays k pl i =
      let u = call-Stays id (scheduler_remove (restart_prefix ++ k)) pl refl i in
      Stays-if id (runtime_of k pl.rt).restart_timer
        (λ _. Stays-trans u (
          update-Stays id k (λ r. record r { restart_timer = false }) _ (λ r _ d p. (d, p)) u.idle))
        (λ _. record { idle = i; no_start = refl })

  stop_outcome-Stays :
      (t : Task) (previous : RunState) (a : Plugin) (r : Option HostError × Plugin)
      → Stays id a r.1
      → Stays id a (stop_outcome h t previous r).1
  unfolding stop_outcome
  stop_outcome-Stays t previous a (none, pl) s = s
  stop_outcome-Stays t previous a (some e, pl) s =
      Stays-trans s (published-Stays id t _ pl (λ r _ d p. (d, p)) s.idle)

  either-Stays :
      (a : Plugin) (x y : Option HostError × Plugin) (b : Bool)
      → Stays id a x.1
      → Stays id a y.1
      → Stays id a (if b then x else y).1
  either-Stays a x y true s t = s
  either-Stays a x y false s t = t

  stop_continuous-Stays :
      (t : Task) (pl : Plugin) → IsIdle id pl → Stays id pl (stop_continuous h t pl).1
  unfolding stop_continuous
  stop_continuous-Stays t pl i =
      let r = runtime_of t.id pl.rt in
      let u = published-Stays id t (λ r. record r { state = stopping }) pl (λ r _ d p. (d, p)) i in
      either-Stays pl _ _ (str_eq r.process_id []) (published-Stays id t _ pl (λ r _ d p. (d, p)) i)
        (stop_outcome-Stays t r.state pl _ (Stays-trans u (terminate-Stays r.process_id _ u.idle)))

-- `stopTask` takes the wish to run and a pending start back, whether the stop succeeds or not, and begins
-- no execution.
lowered :
    (id : Bytes) (pl : Plugin)
    → IsIdle id (update id (λ r. record r { desired = false; pending_start = false }) pl)
unfolding update
lowered id pl = record {
  undesired = rw (runtime_of-put_self id _ pl.rt) refl;
  no_pending = rw (runtime_of-put_self id _ pl.rt) refl;
}

pub stop_task-Stays :
    (h : Host) (t : Task) (pl : Plugin)
    → IsIdle t.id (stop_task h t false pl).1
      × (starts_of t.id (stop_task h t false pl).1.calls ≡ starts_of t.id pl.calls)
unfolding stop_task update
stop_task-Stays h t pl =
    let f : TaskRuntime → TaskRuntime = λ r. record r { desired = false; pending_start = false } in
    let pl0 = update t.id f pl in
    let u = cancel-Stays h t.id t.id pl0 (lowered t.id pl) in
    let pl1 = cancel_restart_timer t.id pl0 in
    let v =
      either-Stays h t.id pl1 _ _ (is_scheduled t.type)
        (stop_processes-Stays h t.id t.id pl1.procs pl1 u.idle)
        (stop_continuous-Stays h t.id t pl1 u.idle) in
    let w = Stays-trans u v in (w.idle, w.no_start)
