-- ===== src/Tasks/Exit/Outcome.antt =====
-- What the exit of a continuous task's process leads to.
use run_pilot.Prelude.{
  Bool, Option, ap, arith, false, if◌then◌else◌, inl, inr, none, refl, some, suc, sym, true, ℕ,
  ◌++◌, ◌∙◌, ◌∷◌, ◌≡◌, ◌⊎◌,
}
use run_pilot.Prelude.Bytes.{codes}
use run_pilot.Text.Decimal.{itoa}
use run_pilot.Tasks.{Restart, Task}
use run_pilot.Tasks.Backoff.{restart_delay}
use run_pilot.Tasks.Host.{
  Call, Host, HostError, HostResult, err_text, fail, ok, on_restart, publish_status,
  scheduler_register,
}
use run_pilot.Tasks.Plugin.{
  Plugin, TaskRuntime, call, publish_task, restarting, runtime_of, stopped, update, view,
}
use run_pilot.Tasks.Launch.{no_process}
use run_pilot.Tasks.Exit.{
  continuous_exited, interval_schedule, limit_reached, restart_or_give_up, restart_prefix,
  restart_registered, schedule_restart, wants_restart,
}
use run_pilot.Tasks.Plugin.Laws.{assigned, published, update_self}
use run_pilot.Prelude.Result.{ok}

-- The exit led to nothing but a published view.
pub record IsSettled (t : Task) (pl pl' : Plugin) : Type 0 where
  pub now_stopped : (runtime_of t.id pl'.rt).state ≡ stopped
  pub only_published : pl'.calls ≡ publish_status (view t pl'.rt) ∷ pl.calls

pub record IsKept (t : Task) (success : Bool) (pl pl' : Plugin) : Type 0 where
  pub unwanted : wants_restart (runtime_of t.id pl.rt).desired t.restart success ≡ false
  pub kept : (runtime_of t.id pl'.rt).desired ≡ (runtime_of t.id pl.rt).desired
  pub settled : IsSettled t pl pl'

pub record IsGivenUp (t : Task) (p : Restart) (pl pl' : Plugin) : Type 0 where
  pub reached : limit_reached p (runtime_of t.id pl.rt).restart_count ≡ true
  pub given_up : (runtime_of t.id pl'.rt).desired ≡ false
  pub settled : IsSettled t pl pl'

-- The calls of the host for a restart: the registration, and then the view.
abbrev pub registration : Task → Restart → ℕ → Call
registration t p count =
    scheduler_register (restart_prefix ++ t.id) on_restart
      (some (interval_schedule (restart_delay p count)))

pub record IsRestarting (h : Host) (t : Task) (p : Restart) (pl pl' : Plugin) : Type 0 where
  pub below : limit_reached p (runtime_of t.id pl.rt).restart_count ≡ false
  pub counted : (runtime_of t.id pl'.rt).restart_count ≡ suc (runtime_of t.id pl.rt).restart_count
  pub registered :
      pl'.calls
      ≡ publish_status (view t pl'.rt)
        ∷ registration t p (runtime_of t.id pl.rt).restart_count
        ∷ pl.calls
  pub answered :
      ((u : Unit {0}) × (h.register_schedule
            (registration t p (runtime_of t.id pl.rt).restart_count ∷ pl.calls)
          ≡ ok u)
        × ((runtime_of t.id pl'.rt).state ≡ restarting)
        × ((runtime_of t.id pl'.rt).restart_timer ≡ true))
      ⊎ ((e : HostError) × (h.register_schedule
              (registration t p (runtime_of t.id pl.rt).restart_count ∷ pl.calls)
            ≡ fail e)
          × ((runtime_of t.id pl'.rt).state ≡ stopped)
          × ((runtime_of t.id pl'.rt).desired ≡ false))

-- The process is taken out of the runtime, and nothing else is done.
record IsReset (t : Task) (pl pl1 : Plugin) : Type 0 where
  reset_state : (runtime_of t.id pl1.rt).state ≡ stopped
  same_count : (runtime_of t.id pl1.rt).restart_count ≡ (runtime_of t.id pl.rt).restart_count
  same_desired : (runtime_of t.id pl1.rt).desired ≡ (runtime_of t.id pl.rt).desired
  same_pending : (runtime_of t.id pl1.rt).pending_start ≡ (runtime_of t.id pl.rt).pending_start
  same_calls : pl1.calls ≡ pl.calls

module _ (h : Host) where
  answered_outcome :
      (t : Task) (p : Restart) (pl pl2 : Plugin) (r : HostResult (Unit {0}))
      → limit_reached p (runtime_of t.id pl.rt).restart_count ≡ false
      → (runtime_of t.id pl2.rt).restart_count ≡ suc (runtime_of t.id pl.rt).restart_count
      → (runtime_of t.id pl2.rt).state ≡ stopped
      → pl2.calls ≡ registration t p (runtime_of t.id pl.rt).restart_count ∷ pl.calls
      → h.register_schedule (registration t p (runtime_of t.id pl.rt).restart_count ∷ pl.calls) ≡ r
      → IsRestarting h t p pl (restart_registered h t r pl2)
  unfolding restart_registered
  answered_outcome t p pl pl2 (ok u) below count s calls e =
      let f : TaskRuntime → TaskRuntime =
        λ r. record r { restart_timer = true; state = restarting } in
      let a = assigned t f pl2 in
      record {
        below = below;
        counted = rw a.0 count;
        registered = cc;
        answered = inl (u, e, rw a.0 refl, rw a.0 refl);
      }
  answered_outcome t p pl pl2 (fail e) below count s calls q =
      let f : TaskRuntime → TaskRuntime = λ r. record r {
        desired = false;
        message = codes "restart not scheduled: " ++ err_text e;
      } in
      let a = assigned t f pl2 in
      record {
        below = below;
        counted = rw a.0 count;
        registered = cc;
        answered = inr (e, q, rw a.0 s, rw a.0 refl);
      }

  schedule_restart-IsRestarting :
      (t : Task) (p : Restart) (pl pl1 : Plugin)
      → IsReset t pl pl1
      → limit_reached p (runtime_of t.id pl.rt).restart_count ≡ false
      → IsRestarting h t p pl (schedule_restart h t p pl1)
  unfolding schedule_restart update
  schedule_restart-IsRestarting t p pl pl1 z below =
      let count = (runtime_of t.id pl1.rt).restart_count in
      let f : TaskRuntime → TaskRuntime = λ r. record r { restart_count = suc count } in
      let c : runtime_of t.id (update t.id f pl1).rt ≡ f (runtime_of t.id pl1.rt) =
        update_self t.id f pl1 in
      let pl2 = call (registration t p count) (update t.id f pl1) in
      let e : pl2.calls ≡ registration t p (runtime_of t.id pl.rt).restart_count ∷ pl.calls =
        rw (z.same_count, z.same_calls) refl in
      answered_outcome t p pl pl2 (h.register_schedule pl2.calls) below
        (ap (λ r. r.restart_count) c ∙ ap suc z.same_count) (ap (λ r. r.state) c ∙ z.reset_state) e
        (ap h.register_schedule (sym e))

  abbrev pub ExitOutcome : Task → Bool → Plugin → Plugin → Type 0
  ExitOutcome t success pl pl' =
      IsKept t success pl pl'
      ⊎ ((p : Restart) × (t.restart ≡ some p)
          × (wants_restart (runtime_of t.id pl.rt).desired t.restart success ≡ true)
          × (IsGivenUp t p pl pl' ⊎ IsRestarting h t p pl pl'))

  publish_task-IsSettled :
      (t : Task) (pl pl1 : Plugin)
      → IsReset t pl pl1
      → IsSettled t pl (publish_task t pl1)
        × ((runtime_of t.id (publish_task t pl1).rt).desired ≡ (runtime_of t.id pl.rt).desired)
  publish_task-IsSettled t pl pl1 z =
      let a = published t pl1 in
      (
        record { now_stopped = rw a.0 z.reset_state; only_published = cc (a.1, z.same_calls) },
        rw a.0 z.same_desired,
      )

  limited_outcome :
      (t : Task) (p : Restart) (pl pl1 : Plugin) (b : Bool)
      → limit_reached p (runtime_of t.id pl.rt).restart_count ≡ b
      → IsReset t pl pl1
      → IsGivenUp t p pl (restart_or_give_up h t (some p) pl1)
        ⊎ IsRestarting h t p pl (restart_or_give_up h t (some p) pl1)
  unfolding restart_or_give_up
  limited_outcome t p pl pl1 true e z =
      let q : limit_reached p (runtime_of t.id pl1.rt).restart_count ≡ true =
        ap (limit_reached p) z.same_count ∙ e in
      let f : TaskRuntime → TaskRuntime = λ r. record r {
        desired = false;
        message = codes "restart limit reached (" ++ itoa p.max_retries ++ codes ")";
      } in
      let a = assigned t f pl1 in
      rw q (
        inl (record {
          reached = e;
          given_up = rw a.0 refl;
          settled = record { now_stopped = rw a.0 z.reset_state; only_published = cc };
        }))
  limited_outcome t p pl pl1 false e z =
      let q : limit_reached p (runtime_of t.id pl1.rt).restart_count ≡ false =
        ap (limit_reached p) z.same_count ∙ e in
      rw q (inr (schedule_restart-IsRestarting t p pl pl1 z e))

  wanted_outcome :
      (t : Task) (success : Bool) (pl pl1 : Plugin) (p : Option Restart)
      → t.restart ≡ p
      → wants_restart (runtime_of t.id pl.rt).desired t.restart success ≡ true
      → IsReset t pl pl1
      → ExitOutcome t success pl (restart_or_give_up h t p pl1)
  unfolding wants_restart
  wanted_outcome t success pl pl1 none e w z = ground arith
  wanted_outcome t success pl pl1 (some p) e w z =
      inr (p, e, w, limited_outcome t p pl pl1 _ refl z)

  outcome_from :
      (t : Task) (success : Bool) (pl pl1 : Plugin) (b : Bool)
      → wants_restart (runtime_of t.id pl.rt).desired t.restart success ≡ b
      → IsReset t pl pl1
      → ExitOutcome t success pl
          (if b then restart_or_give_up h t t.restart pl1 else publish_task t pl1)
  outcome_from t success pl pl1 true w z = wanted_outcome t success pl pl1 t.restart refl w z
  outcome_from t success pl pl1 false w z =
      let (settled, kept) = publish_task-IsSettled t pl pl1 z in
      inl (record { unwanted = w; kept = kept; settled = settled })

  reset :
      (t : Task) (pl : Plugin)
      → IsReset t pl (update t.id (λ r. no_process (record r { state = stopped })) pl)
  unfolding update
  reset t pl =
      let c = update_self t.id (λ r. no_process (record r { state = stopped })) pl in
      record {
        reset_state = ap (λ r. r.state) c;
        same_count = ap (λ r. r.restart_count) c;
        same_desired = ap (λ r. r.desired) c;
        same_pending = ap (λ r. r.pending_start) c;
        same_calls = refl;
      }

  -- The exit of a continuous task's process with no start pending. Either its policy does not want it
  -- back: it is stopped, its wish to run is kept, and only a view is published. Or the policy wants it
  -- back, and the retries are used up: it is stopped and no longer desired, and only a view is published.
  -- Or the retries are not used up: the restart is counted and registered after the backoff of the count
  -- before, and the task is restarting when the host takes the registration, and else stopped and no
  -- longer desired.
  pub exit_outcome :
      (t : Task) (success : Bool) (pl : Plugin)
      → (runtime_of t.id pl.rt).pending_start ≡ false
      → ExitOutcome t success pl (continuous_exited h t success pl)
  unfolding continuous_exited
  exit_outcome t success pl none_pending =
      let pl1 = update t.id (λ r. no_process (record r { state = stopped })) pl in
      let z = reset t pl in
      let pending : (runtime_of t.id pl1.rt).pending_start ≡ false =
        z.same_pending ∙ none_pending in
      let out = outcome_from t success pl pl1 _ refl z in rw (pending, z.same_desired) out
