-- ===== src/Tasks/Lifecycle.antt =====
-- `load`, `init`, `restore`, `shutdown` and the host's events, of plugins/tasks/backend/plugin.go and
-- rpc.go.
pub mod Load
use run_pilot.Prelude.{
  Bool, List, Option, [], false, if◌then◌else◌, none, not, some, true, ◌++◌, ◌||◌, ◌∷◌,
}
use run_pilot.Prelude.Int.{eq_ℤ, leb_ℤ, ltb_ℤ, pos, ℤ}
use run_pilot.Prelude.Bytes.{Bytes, codes, str_eq}
use run_pilot.Prelude.Dict.{Dict}
use run_pilot.Text.{trim_prefix}
use run_pilot.Text.Decimal.{atoi, itoa}
use run_pilot.Prelude.Maybe.{◌>>=◌}
use run_pilot.Tasks.{Task, TaskType, continuous, other_type, scheduled}
use run_pilot.Tasks.Normalize.{normalize_task}
use run_pilot.Tasks.Validate.{Verdict, invalid, nil_restart, task_error_text, valid, validate_task}
use run_pilot.Tasks.Host.{
  Call, Execution, Host, HostError, HostResult, Stored, absent, err_text, fail, history_finish,
  history_list, ok, on_reconcile, on_task, process_terminate, scheduler_register, scheduler_remove,
  state_file, storage_get, unreadable,
}
use run_pilot.Tasks.Plugin.{Plugin, ProcRef, TaskRuntime, call, ensure, update}
use run_pilot.Tasks.Launch.{spawn}
use run_pilot.Tasks.Exit.{interval_schedule, restart_prefix}
use run_pilot.Tasks.Rpc.{succ32}
use run_pilot.Prelude.Result.{err, ok}

-- `pl.loadError` for state that is there and cannot be used.
unusable : Bytes → Plugin → Plugin
unusable message pl = record pl { load_error = message }

-- `if n, err := strconv.Atoi(…); err == nil && n >= next { next = n + 1 }`.
raise_next : Option ℤ → ℤ → ℤ
raise_next none next = next
raise_next (some n) next = if leb_ℤ next n then succ32 n else next

-- `id-` numbers are read by a 32-bit `Atoi`.
unfoldable pub id_number : Bytes → Option ℤ
id_number id = atoi 32 (trim_prefix id (codes "task-"))

seen_id : Bytes → List Bytes → Bool
seen_id id [] = false
seen_id id (s ∷ seen) = str_eq s id || seen_id id seen

-- The loop over the stored tasks: `none` on a missing or a duplicate identifier.
load_tasks : List Bytes → ℤ → List Task → Option (List Task × ℤ)
unfolding raise_next id_number seen_id
load_tasks seen next [] = some ([], next)
load_tasks seen next (t ∷ ts) = elim (str_eq t.id [] || seen_id t.id seen) [
  | true ↦ none
  | false ↦ do
    (kept, last) ← load_tasks (t.id ∷ seen) (raise_next (id_number t.id) next) ts
    some (normalize_task t ∷ kept, last)
]

loaded : Option (List Task × ℤ) → Plugin → Plugin
unfolding unusable
loaded none pl =
    unusable (codes "stored task configuration contains a missing or duplicate task ID")
      (record pl { tasks = []; next = pos 1 })
loaded (some (tasks, next)) pl = record pl {
  tasks = pl.tasks ++ tasks;
  next = if ltb_ℤ next (pos 1) then pos 1 else next;
}

load_stored : Stored → Plugin → Plugin
unfolding load_tasks loaded
load_stored absent pl = pl
load_stored (unreadable e) pl = unusable (codes "stored task configuration is unreadable: " ++ e) pl
load_stored (state_file version next tasks) pl =
    if not (eq_ℤ version (pos 1))
    then unusable (codes "stored task configuration has unsupported version " ++ itoa version) pl
    else loaded (load_tasks [] next tasks) pl

load_answer : HostResult Stored → Plugin → Plugin
unfolding load_stored
load_answer (fail e) pl = record pl {
  load_error = codes "could not read stored tasks: " ++ err_text e;
}
load_answer (ok s) pl = load_stored s pl

-- `r.message` of the last run, if that failed.
abbrev failure_message : Option Bool → Bytes → Bytes → Bytes
failure_message none old new = old
failure_message (some true) old new = old
failure_message (some false) old new = new

last_run : Option Execution → TaskRuntime → TaskRuntime
last_run none r = r
last_run (some e) r = record r {
  last_run_id = e.id;
  last_run_at = e.started_at;
  last_exit = e.exit_code;
  last_success = e.success;
  message = failure_message e.success r.message e.message;
}

abbrev answer_or_none {ℓ} : {A : Type ℓ} → HostResult (Option A) → Option A
answer_or_none (ok a) = a
answer_or_none (fail e) = none

set_err : Bytes → HostError → Bytes → Plugin → Plugin
set_err id e prefix = update id (λ r. record r { err = prefix ++ err_text e })

module _ (h : Host) where
  unfoldable pub load : Plugin → Plugin
  unfolding load_answer
  load pl = let pl1 = call storage_get pl in load_answer (h.get_storage pl1.calls) pl1

  registered : Bytes → HostResult (Unit {0}) → Plugin → Plugin
  unfolding set_err
  registered id (ok u) pl = pl
  registered id (fail e) pl = set_err id e (codes "schedule not registered: ") pl

  autostarted : Bytes → Option HostError × Plugin → Plugin
  unfolding set_err
  autostarted id (none, pl) = pl
  autostarted id (some e, pl) = set_err id e (codes "autostart failed: ") pl

  restore_type : TaskType → Task → Plugin → Plugin
  unfolding registered autostarted
  restore_type continuous t pl =
      if t.autostart
      then autostarted t.id (spawn h t (update t.id (λ r. record r { desired = true }) pl))
      else pl
  restore_type scheduled t pl =
      if t.enabled
      then (let pl1 = call (scheduler_register t.id on_task t.schedule) pl in
          registered t.id (h.register_schedule pl1.calls) pl1)
      else pl
  restore_type (other_type s) t pl = pl

  restore_valid : Verdict → Task → Plugin → Plugin
  unfolding restore_type
  restore_valid (invalid e) t pl = update t.id (λ r. record r { err = task_error_text e }) pl
  restore_valid nil_restart t pl = pl
  restore_valid valid t pl = restore_type t.type t pl

  unfoldable pub restore : Task → Plugin → Plugin
  unfolding restore_valid last_run
  restore t pl =
      let pl1 = call (history_list t.id (pos 1)) (ensure t.id pl) in
      let pl2 = update t.id (last_run (answer_or_none (h.last_execution pl1.calls))) pl1 in
      restore_valid (validate_task t) t pl2

  restore_each : List Task → Plugin → Plugin
  restore_each [] pl = pl
  restore_each (t ∷ ts) pl = restore_each ts (restore t pl)

  -- `init`, on the new plugin.
  unfoldable pub init : Plugin → Plugin
  unfolding restore_each
  init pl =
      let pl1 = load pl in
      let pl2 = if str_eq pl1.load_error [] then restore_each pl1.tasks pl1 else pl1 in
      call (scheduler_register (codes "reconcile") on_reconcile (some (interval_schedule (pos 30))))
        pl2

  terminate_each : Dict ProcRef → Plugin → Plugin
  terminate_each [] pl = pl
  terminate_each ((id, ref) ∷ refs) pl = terminate_each refs (
      call (history_finish ref.run_id none false (codes "stopped: RunPilot is shutting down"))
        (call (process_terminate id) pl))

  -- The loop over `rt`: what is left of each entry, and the calls.
  cancel_each : Dict TaskRuntime → List Call → Dict TaskRuntime × List Call
  cancel_each [] calls = ([], calls)
  cancel_each ((id, r) ∷ rt) calls =
      let (rest, calls') =
        cancel_each rt
          (if r.restart_timer then scheduler_remove (restart_prefix ++ id) ∷ calls else calls) in
      ((id, record r { restart_timer = false; desired = false }) ∷ rest, calls')

  unfoldable pub shutdown : Plugin → Plugin
  unfolding terminate_each cancel_each
  shutdown pl =
      let pl1 = record (terminate_each pl.procs pl) { procs = [] } in
      let (rt, calls) = cancel_each pl1.rt pl1.calls in record pl1 { rt = rt; calls = calls }
