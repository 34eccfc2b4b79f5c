-- ===== src/Tasks/Exit.antt =====
-- How the exit of a process is settled, and the restarts: `processExited`, `continuousExited`,
-- `exitMessage` and `restartFired` of plugins/tasks/backend/plugin.go.
pub mod Once
pub mod Idle
pub mod Fired
pub mod Outcome
use run_pilot.Prelude.{
  Bool, Option, [], false, if◌then◌else◌, none, not, some, suc, true, ℕ, ◌&&◌, ◌++◌, ◌-◌, ◌==◌,
}
use run_pilot.Prelude.Int.{leb_ℤ, ltb_ℤ, pos, ℤ}
use run_pilot.Prelude.Bytes.{Bytes, codes, str_eq}
use run_pilot.Prelude.Dict.{delete, find}
use run_pilot.Text.Decimal.{itoa}
use run_pilot.Tasks.{
  Restart, RestartMode, Schedule, Task, always, never, on_failure, other_mode, unset_mode,
}
use run_pilot.Tasks.Backoff.{restart_delay}
use run_pilot.Tasks.Host.{
  Host, HostResult, err_text, fail, history_finish, ok, on_restart, publish_completed,
  scheduler_register, scheduler_remove,
}
use run_pilot.Tasks.Plugin.{
  Plugin, ProcRef, RunState, TaskRuntime, call, find_task, is_scheduled, publish_task, restarting,
  running, runtime_of, stopped, stopping, update,
}
use run_pilot.Tasks.Launch.{no_process, spawn}
use run_pilot.Prelude.Result.{ok}

pub record ExitInfo : Type 0 where
  pub code : ℤ
  pub success : Bool
  pub terminated : Bool
  pub timed_out : Bool

abbrev pub restart_prefix : Bytes
restart_prefix = codes "restart:"

-- A registration that the host fires every so many seconds.
abbrev pub interval_schedule : ℤ → Schedule
interval_schedule n = record {
  type = codes "interval";
  interval_seconds = n;
  time_of_day = [];
  cron = [];
  time_zone = [];
}

unfoldable pub exit_message : ProcRef → ExitInfo → Bytes
exit_message ref info =
    if info.timed_out
    then codes "timed out after " ++ itoa ref.timeout_seconds ++ codes " seconds"
    else if info.terminated
    then codes "stopped"
    else if not info.success
    then codes "exit code " ++ itoa info.code
    else []

-- `r.desired && policy != nil && (…)`.
wants_mode : RestartMode → Bool → Bool
wants_mode always success = true
wants_mode on_failure success = not success
wants_mode never success = false
wants_mode unset_mode success = false
wants_mode (other_mode m) success = false

unfoldable pub wants_restart : Bool → Option Restart → Bool → Bool
unfolding wants_mode
wants_restart desired none success = false
wants_restart desired (some p) success = desired && wants_mode p.mode success

unfoldable pub limit_reached : Restart → ℕ → Bool
limit_reached p count = ltb_ℤ (pos 0) p.max_retries && leb_ℤ p.max_retries (pos count)

abbrev name_of : Option Task → Bytes
name_of none = []
name_of (some t) = t.name

abbrev pub is_restarting : RunState → Bool
is_restarting restarting = true
is_restarting stopped = false
is_restarting running = false
is_restarting stopping = false

module _ (h : Host) where
  restart_registered : Task → HostResult (Unit {0}) → Plugin → Plugin
  restart_registered t (ok u) pl =
      publish_task t (update t.id (λ r. record r { restart_timer = true; state = restarting }) pl)
  restart_registered t (fail e) pl = publish_task t (
      update t.id
        (λ r. record r { desired = false; message = codes "restart not scheduled: " ++ err_text e })
        pl)

  unfoldable pub schedule_restart : Task → Restart → Plugin → Plugin
  unfolding restart_registered
  schedule_restart t p pl =
      let count = (runtime_of t.id pl.rt).restart_count in
      let pl1 = update t.id (λ r. record r { restart_count = suc count }) pl in
      let pl2 =
        call
          (scheduler_register (restart_prefix ++ t.id) on_restart
            (some (interval_schedule (restart_delay p count))))
          pl1 in
      restart_registered t (h.register_schedule pl2.calls) pl2

  unfoldable pub restart_or_give_up : Task → Option Restart → Plugin → Plugin
  restart_or_give_up t none pl = publish_task t pl
  restart_or_give_up t (some p) pl =
      if limit_reached p (runtime_of t.id pl.rt).restart_count
      then publish_task t (
          update t.id
            (λ r. record r {
              desired = false;
              message = codes "restart limit reached (" ++ itoa p.max_retries ++ codes ")";
            })
            pl)
      else schedule_restart t p pl

  unfoldable pub continuous_exited : Task → Bool → Plugin → Plugin
  unfolding restart_or_give_up
  continuous_exited t success pl =
      let pl1 = update t.id (λ r. no_process (record r { state = stopped })) pl in
      let r = runtime_of t.id pl1.rt in
      if r.pending_start
      then (spawn h t (
          update t.id (λ r. record r { pending_start = false; restart_count = 0; desired = true })
            pl1)).1
      else if wants_restart r.desired t.restart success
      then restart_or_give_up t t.restart pl1
      else publish_task t pl1

  -- One execution of a scheduled task less.
  unfoldable pub scheduled_exited : Task → Plugin → Plugin
  scheduled_exited t pl =
      let pl1 = update t.id (λ r. record r { active = r.active - 1 }) pl in
      publish_task t (update t.id (λ r. if r.active == 0 then no_process r else r) pl1)

  -- The task and its runtime are there.
  unfoldable pub settle : Task → Bytes → ProcRef → ExitInfo → Bool → Bytes → Plugin → Plugin
  settle t process_id ref info success message pl =
      let pl1 =
        update t.id
          (λ r. record r {
            last_run_id = ref.run_id;
            last_run_at = ref.started_at;
            last_exit = some info.code;
            last_success = some success;
            message = if success then [] else message;
          })
          pl in
      if is_scheduled t.type
      then scheduled_exited t pl1
      else if str_eq (runtime_of t.id pl1.rt).process_id process_id
      then continuous_exited t success pl1
      else pl1

  settle_known :
      Option Task → Option TaskRuntime → Bytes → ProcRef → ExitInfo → Bool → Bytes → Plugin → Plugin
  settle_known none r process_id ref info success message pl = pl
  settle_known (some t) none process_id ref info success message pl = pl
  settle_known (some t) (some r) process_id ref info success message pl =
      settle t process_id ref info success message pl

  exited : Bytes → ProcRef → ExitInfo → Plugin → Plugin
  unfolding settle_known
  exited process_id ref info pl =
      let message = exit_message ref info in
      let success = info.success && not info.timed_out in
      let pl1 = call (history_finish ref.run_id (some info.code) success message) pl in
      let t = find_task ref.task_id pl1.tasks in
      let pl2 =
        call (publish_completed ref.task_id (name_of t) ref.run_id info.code success message) pl1 in
      settle_known t (find ref.task_id pl2.rt) process_id ref info success message pl2

  exited_ref : Option ProcRef → Bytes → ExitInfo → Plugin → Plugin
  unfolding exited
  exited_ref none process_id info pl = pl
  exited_ref (some ref) process_id info pl =
      exited process_id ref info (record pl { procs = delete process_id pl.procs })

  -- A host event, a reconcile pass and a stop may all report the same exit.
  unfoldable pub process_exited : Bytes → ExitInfo → Plugin → Plugin
  unfolding exited_ref
  process_exited process_id info pl = exited_ref (find process_id pl.procs) process_id info pl

  restart_due : Option Task → Option TaskRuntime → Plugin → Plugin
  restart_due none r pl = pl
  restart_due (some t) none pl = pl
  restart_due (some t) (some r) pl =
      let pl1 = update t.id (λ r. record r { restart_timer = false }) pl in
      if is_restarting r.state && r.desired then (spawn h t pl1).1 else pl1

  unfoldable pub restart_fired : Bytes → Plugin → Plugin
  unfolding restart_due
  restart_fired id pl =
      let pl1 = call (scheduler_remove (restart_prefix ++ id)) pl in
      restart_due (find_task id pl1.tasks) (find id pl1.rt) pl1
