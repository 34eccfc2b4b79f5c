-- ===== src/Tasks/Control.antt =====
-- What the browser and the host's timers make the plugin do: `reconcile`, `terminate`, `stopTask`,
-- `startTask` and `runNow` of plugins/tasks/backend/plugin.go.
pub mod Idle
use run_pilot.Prelude.{
  Bool, List, Option, [], false, if◌then◌else◌, ltb, map, none, not, some, suc, true, ◌&&◌, ◌++◌,
  ◌∷◌,
}
use run_pilot.Prelude.Int.{eq_ℤ, negsuc, pos, ℤ}
use run_pilot.Prelude.Bytes.{Bytes, codes, str_eq}
use run_pilot.Prelude.Dict.{Dict}
use run_pilot.Text.{str_lt}
use run_pilot.Tasks.{OverlapPolicy, Task, allow, other_policy, skip, unset_policy}
use run_pilot.Tasks.Host.{
  Host, HostError, HostResult, ProcessStatus, capability, fail, failure, is_not_found, ok,
  process_status, process_terminate, scheduler_remove,
}
use run_pilot.Tasks.Plugin.{
  Plugin, ProcRef, RunState, call, is_scheduled, publish_task, running, runtime_of, stopped,
  stopping, update,
}
use run_pilot.Tasks.Launch.{launch, spawn}
use run_pilot.Tasks.Exit.{ExitInfo, process_exited, restart_prefix}
use run_pilot.Prelude.Result.{err, ok}

pub record RpcError : Type 0 where
  pub code : Bytes
  pub message : Bytes

-- `hostFailure`.
unfoldable pub host_failure : HostError → RpcError
host_failure (capability code message) = record { code = code; message = message }
host_failure (failure message) = record { code = codes "host_failure"; message = message }

abbrev exit_code_or : ℤ → Option ℤ → ℤ
exit_code_or d none = d
exit_code_or d (some c) = c

-- The exit that a status of a process tells of.
abbrev pub exit_of : ProcessStatus → ExitInfo
exit_of s =
    let code = exit_code_or (negsuc 0) s.exit_code in
    record {
      code = code;
      success = eq_ℤ code (pos 0) && not s.timed_out;
      terminated = s.terminated;
      timed_out = s.timed_out;
    }

-- A process that the host no longer knows.
abbrev pub lost : ExitInfo
lost = record { code = negsuc 0; success = false; terminated = false; timed_out = false }

-- `sort.Strings`.
insert_sorted : Bytes → List Bytes → List Bytes
insert_sorted a [] = a ∷ []
insert_sorted a (b ∷ bs) = if str_lt b a then b ∷ insert_sorted a bs else a ∷ b ∷ bs

unfoldable pub sort : List Bytes → List Bytes
unfolding insert_sorted
sort [] = []
sort (a ∷ as_) = insert_sorted a (sort as_)

abbrev keys : Dict ProcRef → List Bytes
keys = map (λ p. p.0)

already_running : Task → Bytes → RpcError
already_running t tail = record {
  code = codes "already_running";
  message = codes "task \"" ++ t.name ++ codes "\" is already " ++ tail;
}

unfoldable pub cancel_restart_timer : Bytes → Plugin → Plugin
cancel_restart_timer id pl =
    if (runtime_of id pl.rt).restart_timer
    then update id (λ r. record r { restart_timer = false })
        (call (scheduler_remove (restart_prefix ++ id)) pl)
    else pl

abbrev is_allow : OverlapPolicy → Bool
is_allow allow = true
is_allow unset_policy = false
is_allow skip = false
is_allow (other_policy p) = false

module _ (h : Host) where
  unfoldable pub settle_status : Bytes → ProcessStatus → Plugin → Plugin
  settle_status id s pl = if s.running then pl else process_exited h id (exit_of s) pl

  unfoldable pub reconciled : Bytes → HostResult ProcessStatus → Plugin → Plugin
  unfolding settle_status
  reconciled id (ok s) pl = settle_status id s pl
  reconciled id (fail e) pl = if is_not_found e then process_exited h id lost pl else pl

  unfoldable pub reconcile_each : List Bytes → Plugin → Plugin
  reconcile_each [] pl = pl
  reconcile_each (id ∷ ids) pl =
      let pl1 = call (process_status id) pl in
      reconcile_each ids (reconciled id (h.process_state pl1.calls) pl1)

  -- Settles the exits that no event told of.
  unfoldable pub reconcile : Plugin → Plugin
  reconcile pl = reconcile_each (sort (keys pl.procs)) pl

  terminated_with : Bytes → HostResult ProcessStatus → Plugin → Option HostError × Plugin
  unfolding settle_status
  terminated_with id (ok s) pl = (none, settle_status id s pl)
  terminated_with id (fail e) pl =
      if is_not_found e then (none, process_exited h id lost pl) else (some e, pl)

  unfoldable pub terminate : Bytes → Plugin → Option HostError × Plugin
  unfolding terminated_with
  terminate id pl =
      let pl1 = call (process_terminate id) pl in terminated_with id (h.process_state pl1.calls) pl1

  -- The loop over `procs` for a scheduled task.
  unfoldable pub stop_processes : Bytes → Dict ProcRef → Plugin → Option HostError × Plugin
  stop_processes id [] pl = (none, pl)
  stop_processes id ((k, ref) ∷ refs) pl = elim (str_eq ref.task_id id) [
    | false ↦ stop_processes id refs pl
    | true ↦ elim (terminate k pl).0 [
      | some e ↦ (some e, (terminate k pl).1)
      | none ↦ stop_processes id refs (terminate k pl).1
    ]
  ]

  stop_outcome : Task → RunState → Option HostError × Plugin → Option HostError × Plugin
  stop_outcome t previous (none, pl) = (none, pl)
  stop_outcome t previous (some e, pl) =
      (some e, publish_task t (update t.id (λ r. record r { state = previous }) pl))

  unfoldable pub stop_continuous : Task → Plugin → Option HostError × Plugin
  unfolding stop_outcome
  stop_continuous t pl =
      let r = runtime_of t.id pl.rt in
      if str_eq r.process_id []
      then (none, publish_task t (update t.id (λ r. record r { state = stopped }) pl))
      else stop_outcome t r.state (
          terminate r.process_id
            (publish_task t (update t.id (λ r. record r { state = stopping }) pl)))

  unfoldable pub stop_task : Task → Bool → Plugin → Option HostError × Plugin
  unfolding stop_continuous
  stop_task t keep_pending pl =
      let pl1 = cancel_restart_timer t.id (
        update t.id
          (λ r. record r {
            desired = false;
            pending_start = if keep_pending then r.pending_start else false;
          })
          pl) in
      if is_scheduled t.type then stop_processes t.id pl1.procs pl1 else stop_continuous t pl1

  abbrev as_rpc : Option HostError × Plugin → Option RpcError × Plugin
  as_rpc (none, pl) = (none, pl)
  as_rpc (some e, pl) = (some (host_failure e), pl)

  start_in : RunState → Task → Plugin → Option RpcError × Plugin
  unfolding already_running
  start_in running t pl = (some (already_running t (codes "running")), pl)
  start_in stopping t pl = (some (already_running t (codes "stopping")), pl)
  start_in _ t pl = as_rpc (
      spawn h t (
        update t.id
          (λ r. record r { desired = true; restart_count = 0; pending_start = false; err = [] })
          (cancel_restart_timer t.id pl)))

  unfoldable pub start_task : Task → Plugin → Option RpcError × Plugin
  unfolding start_in
  start_task t pl = start_in (runtime_of t.id pl.rt).state t pl

  run_outcome : Task → HostResult ProcRef × Plugin → (Option RpcError × Bytes) × Plugin
  run_outcome t (fail e, pl) = ((some (host_failure e), []), publish_task t pl)
  run_outcome t (ok ref, pl) = (
    (none, ref.run_id),
    publish_task t (update t.id (λ r. record r { active = suc r.active; state = running }) pl),
  )

  -- The error, or the run's id; the id is empty where an overlapping run is left out.
  unfoldable pub run_now : Task → Bool → Plugin → (Option RpcError × Bytes) × Plugin
  unfolding run_outcome already_running
  run_now t manual pl =
      if ltb 0 (runtime_of t.id pl.rt).active && not (is_allow t.overlap_policy)
      then (if manual
          then ((some (already_running t (codes "running")), []), pl)
          else ((none, []), pl))
      else run_outcome t (launch h t pl)
