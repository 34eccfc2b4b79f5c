-- ===== src/Tasks/Exit/Idle/Exits.antt =====
-- A continuous task that no one wants to run: settling the exits of processes does not start it.
use run_pilot.Prelude.{
  Bool, Bool-cases, Option, ap, arith, false, if◌then◌else◌, inl, inr, none, refl, some, suc, sym,
  true, ◌-◌, ◌∙◌, ◌≡◌,
}
use run_pilot.Prelude.Bytes.{Bytes, str_eq, str_eq→eq}
use run_pilot.Prelude.Dict.{find}
use run_pilot.Tasks.{Restart, Task}
use run_pilot.Tasks.Host.{Host, HostResult, fail, ok, scheduler_register}
use run_pilot.Tasks.Plugin.{
  Plugin, ProcRef, TaskRuntime, is_scheduled, publish_task, runtime_of, stopped, update,
}
use run_pilot.Tasks.Launch.{no_process, spawn}
use run_pilot.Tasks.Exit.{
  ExitInfo, continuous_exited, exited, exited_ref, limit_reached, process_exited,
  restart_or_give_up, restart_registered, schedule_restart, scheduled_exited, settle, settle_known,
  wants_restart,
}
use run_pilot.Tasks.Exit.Idle.{
  IsIdle, Stays, Stays-if, Stays-trans, call-Stays, publish_task-Stays, published-Stays,
  spawn-Stays, update-Stays,
}
use run_pilot.Prelude.Result.{ok}

module _ (h : Host) (id : Bytes) where
  registered-Stays :
      (t : Task) (r : HostResult (Unit {0})) (pl : Plugin)
      → IsIdle id pl
      → Stays id pl (restart_registered h t r pl)
  unfolding restart_registered
  registered-Stays t (ok u) pl i = published-Stays id t _ pl (λ r _ d p. (d, p)) i
  registered-Stays t (fail e) pl i = published-Stays id t _ pl (λ r _ d p. (refl, p)) i

  schedule_restart-Stays :
      (t : Task) (p : Restart) (pl : Plugin)
      → IsIdle id pl
      → Stays id pl (schedule_restart h t p pl)
  unfolding schedule_restart
  schedule_restart-Stays t p pl i =
      let u =
        update-Stays id t.id
          (λ r. record r { restart_count = suc (runtime_of t.id pl.rt).restart_count }) pl
          (λ r _ d p. (d, p)) i in
      let v = call-Stays id (scheduler_register _ _ _) _ refl u.idle in
      Stays-trans (Stays-trans u v) (registered-Stays t _ _ v.idle)

  give_up-Stays :
      (t : Task) (p : Option Restart) (pl : Plugin)
      → IsIdle id pl
      → Stays id pl (restart_or_give_up h t p pl)
  unfolding restart_or_give_up
  give_up-Stays t none pl i = publish_task-Stays id t pl i
  give_up-Stays t (some p) pl i =
      Stays-if id (limit_reached p (runtime_of t.id pl.rt).restart_count)
        (λ _. published-Stays id t _ pl (λ r _ d q. (refl, q)) i)
        (λ _. schedule_restart-Stays t p pl i)

  wanted-Stays :
      (t : Task) (success : Bool) (pl : Plugin)
      → IsIdle id pl
      → Stays id pl (
          if wants_restart (runtime_of t.id pl.rt).desired t.restart success
          then restart_or_give_up h t t.restart pl
          else publish_task t pl)
  wanted-Stays t success pl i =
      Stays-if id _ (λ _. give_up-Stays t t.restart pl i) (λ _. publish_task-Stays id t pl i)

  begun-Stays :
      (t : Task) (pl : Plugin)
      → (runtime_of t.id pl.rt).pending_start ≡ true
      → IsIdle id pl
      → Stays id pl
          (spawn h t (
            update t.id
              (λ r. record r { pending_start = false; restart_count = 0; desired = true })
              pl)).1
  begun-Stays t pl pending i = elim (Bool-cases (str_eq t.id id)) [
    | inl same ↦
        let e : t.id ≡ id = str_eq→eq t.id id same in
        let q : false ≡ true =
          sym i.no_pending ∙ ap (λ k. (runtime_of k pl.rt).pending_start) (sym e) ∙ pending in
        cc
    | inr other ↦
        let u =
          update-Stays id t.id _ pl (λ r same _ _. let q : false ≡ true = sym other ∙ same in cc)
            i in
        Stays-trans u (spawn-Stays h id t _ other u.idle)
  ]

  continuous-Stays :
      (t : Task) (success : Bool) (pl : Plugin)
      → IsIdle id pl
      → Stays id pl (continuous_exited h t success pl)
  unfolding continuous_exited
  continuous-Stays t success pl i =
      let u =
        update-Stays id t.id (λ r. no_process (record r { state = stopped })) pl (λ r _ d p. (d, p))
          i in
      let pl1 = update t.id (λ r. no_process (record r { state = stopped })) pl in
      Stays-trans u (
        Stays-if id (runtime_of t.id pl1.rt).pending_start
          (λ pending. begun-Stays t pl1 pending u.idle) (λ _. wanted-Stays t success pl1 u.idle))

  settle-Stays :
      (t : Task) (p : Bytes) (ref : ProcRef) (info : ExitInfo) (success : Bool) (message : Bytes)
      (pl : Plugin)
      → IsIdle id pl
      → Stays id pl (settle h t p ref info success message pl)
  unfolding settle scheduled_exited
  settle-Stays t p ref info success message pl i =
      let u = update-Stays id t.id _ pl (λ r _ d q. (d, q)) i in
      let v =
        update-Stays id t.id (λ r. record r { active = r.active - 1 }) _ (λ r _ d q. (d, q))
          u.idle in
      Stays-trans u (
        Stays-if id (is_scheduled t.type)
          (λ _. Stays-trans v (published-Stays id t _ _ (λ r _ d q. ground arith) v.idle))
          (λ _.
            Stays-if id (str_eq _ p) (λ _. continuous-Stays t success _ u.idle)
              (λ _. record { idle = u.idle; no_start = refl })))

  settle_known-Stays :
      (t : Option Task) (r : Option TaskRuntime) (p : Bytes) (ref : ProcRef) (info : ExitInfo)
      (success : Bool) (message : Bytes) (pl : Plugin)
      → IsIdle id pl
      → Stays id pl (settle_known h t r p ref info success message pl)
  unfolding settle_known
  settle_known-Stays none r p ref info success message pl i = record { idle = i; no_start = refl }
  settle_known-Stays (some t) none p ref info success message pl i = record {
    idle = i;
    no_start = refl;
  }
  settle_known-Stays (some t) (some r) p ref info success message pl i =
      settle-Stays t p ref info success message pl i

  exited_ref-Stays :
      (ref : Option ProcRef) (p : Bytes) (info : ExitInfo) (pl : Plugin)
      → IsIdle id pl
      → Stays id pl (exited_ref h ref p info pl)
  unfolding exited_ref exited
  exited_ref-Stays none p info pl i = record { idle = i; no_start = refl }
  exited_ref-Stays (some ref) p info pl i = grind (arith, settle_known-Stays)

  pub process_exited-Stays :
      (p : Bytes) (info : ExitInfo) (pl : Plugin)
      → IsIdle id pl
      → Stays id pl (process_exited h p info pl)
  unfolding process_exited
  process_exited-Stays p info pl i = exited_ref-Stays (find p pl.procs) p info pl i
