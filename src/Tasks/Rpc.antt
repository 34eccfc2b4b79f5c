-- ===== src/Tasks/Rpc.antt =====
-- The operations that the browser calls, plugins/tasks/backend/rpc.go. `decodeRequest` is JSON's: a
-- request is given decoded, or as `malformed` with the message.
pub mod Create
pub mod Views
use run_pilot.Prelude.{
  Bool, List, Option, [], if◌then◌else◌, leb, length, ltb, map, none, not, some, suc, zero, ◌&&◌,
  ◌++◌, ◌-◌, ◌^◌, ◌∷◌,
}
use run_pilot.Prelude.Int.{negsuc, pos, ℤ}
use run_pilot.Prelude.Bytes.{Bytes, codes, str_eq}
use run_pilot.Text.{str_lt, to_lower}
use run_pilot.Text.Decimal.{itoa}
use run_pilot.Tasks.{Task, max_tasks}
use run_pilot.Tasks.Normalize.{clone_task, normalize_task}
use run_pilot.Tasks.Validate.{Verdict, invalid, nil_restart, task_error_text, valid, validate_task}
use run_pilot.Tasks.Host.{
  Host, HostResult, View, created, fail, ok, on_task, publish_changed, scheduler_register,
  scheduler_remove, scheduler_validate, storage_set,
}
use run_pilot.Tasks.Plugin.{Plugin, call, ensure, is_scheduled, view}
use run_pilot.Tasks.Control.{RpcError, host_failure}
use run_pilot.Prelude.Result.{ok}

pub data Request : Type 0 where
  list_tasks : Request
  create_task update_task : Task → Request
  delete_task start_request stop_request restart_request run_request : Bytes → Request
  task_history task_output : Bytes → ℤ → Request
  malformed : Bytes → Request
  unknown_method : Request

pub data Reply : Type 0 where
  failed : RpcError → Reply
  tasks_reply : List View → Bytes → Reply
  task_reply : View → Reply
  deleted_reply : Bytes → Reply
  run_reply : Bytes → View → Reply
  runs_reply : Bytes → Reply
  output_reply : Bytes → Bytes → Reply

abbrev pub refuse : Bytes → Bytes → RpcError
refuse code message = record { code = code; message = message }

abbrev pub invalid_argument : Bytes
invalid_argument = codes "invalid_argument"

-- What `pl.index(id)` points at: the tasks before, the task, and the tasks behind.
abbrev pub Place : Type 0
Place = List Task × Task × List Task

abbrev behind_task : Task → Option Place → Option Place
behind_task t none = none
behind_task t (some (before, u, behind)) = some (t ∷ before, u, behind)

unfoldable pub split_at : Bytes → List Task → Option Place
split_at id [] = none
split_at id (t ∷ ts) = if str_eq t.id id then some ([], t, ts) else behind_task t (split_at id ts)

-- `views` sorts by the lower-case name, and then by the identifier.
abbrev view_before : View → View → Bool
view_before v w =
    let a = to_lower v.task.name in
    let b = to_lower w.task.name in if str_eq a b then str_lt v.task.id w.task.id else str_lt a b

insert_view : View → List View → List View
insert_view v [] = v ∷ []
insert_view v (w ∷ ws) = if view_before w v then w ∷ insert_view v ws else v ∷ w ∷ ws

sort_views : List View → List View
unfolding insert_view
sort_views [] = []
sort_views (v ∷ vs) = insert_view v (sort_views vs)

ensure_each : List Task → Plugin → Plugin
ensure_each [] pl = pl
ensure_each (t ∷ ts) pl = ensure_each ts (ensure t.id pl)

unfoldable pub views : Plugin → List View × Plugin
unfolding sort_views ensure_each
views pl =
    let pl1 = ensure_each pl.tasks pl in (sort_views (map (λ t. view t pl1.rt) pl1.tasks), pl1)

-- `next + 1` on 32 bits.
abbrev pub succ32 : ℤ → ℤ
succ32 (pos n) = if ltb (suc n) (2 ^ 31) then pos (suc n) else negsuc (2 ^ 31 - 1)
succ32 (negsuc zero) = pos 0
succ32 (negsuc (suc n)) = negsuc n

abbrev pub numbered : ℤ → Bytes
numbered n = codes "task-" ++ itoa n

-- A reply with the view of the task, for which `runtimeOf` makes an entry.
abbrev viewed : Task → Plugin → Reply × Plugin
viewed t pl = let pl1 = ensure t.id pl in (task_reply (view t pl1.rt), pl1)

unfoldable pub unregister : Bytes → Plugin → Plugin
unregister id pl = call (scheduler_remove id) pl

-- The task that `create` stores for an input.
abbrev pub new_task : Plugin → Task → Task
new_task pl input = normalize_task (record (clone_task input) { id = numbered pl.next })

module _ (h : Host) where
  -- `applySchedule`: the host's registration follows the definition.
  unfoldable pub apply_schedule : Task → Plugin → HostResult (Unit {0}) × Plugin
  apply_schedule t pl =
      let pl1 = unregister t.id pl in
      if is_scheduled t.type && t.enabled
      then (let pl2 = call (scheduler_register t.id on_task t.schedule) pl1 in
          (h.register_schedule pl2.calls, pl2))
      else (ok tt, pl1)

  unfoldable pub validate_with_host : Task → Plugin → HostResult (Unit {0}) × Plugin
  validate_with_host t pl =
      if is_scheduled t.type
      then (let pl1 = call (scheduler_validate t.schedule) pl in
          (h.validate_schedule pl1.calls, pl1))
      else (ok tt, pl)

  unfoldable pub save : List Task → ℤ → Plugin → HostResult (Unit {0}) × Plugin
  save tasks next pl = let pl1 = call (storage_set tasks next) pl in (h.set_storage pl1.calls, pl1)

  -- `create`, from its last step to its first.
  create_saved : Task → HostResult (Unit {0}) × Plugin → Reply × Plugin
  create_saved t (fail e, pl) = (failed (host_failure e), unregister t.id pl)
  create_saved t (ok u, pl) =
      let pl1 = ensure t.id (record pl { tasks = pl.tasks ++ t ∷ []; next = succ32 pl.next }) in
      viewed t (call (publish_changed created t.id) pl1)

  create_applied : Task → HostResult (Unit {0}) × Plugin → Reply × Plugin
  unfolding create_saved
  create_applied t (fail e, pl) = (failed (host_failure e), unregister t.id pl)
  create_applied t (ok u, pl) = create_saved t (save (pl.tasks ++ t ∷ []) (succ32 pl.next) pl)

  create_checked : Task → HostResult (Unit {0}) × Plugin → Reply × Plugin
  unfolding create_applied
  create_checked t (fail e, pl) = (failed (host_failure e), pl)
  create_checked t (ok u, pl) = create_applied t (apply_schedule t pl)

  create_valid : Task → Verdict → Plugin → Reply × Plugin
  unfolding create_checked
  create_valid t (invalid e) pl = (failed (refuse invalid_argument (task_error_text e)), pl)
  create_valid t nil_restart pl = (failed (refuse (codes "panic") []), pl)
  create_valid t valid pl = create_checked t (validate_with_host t pl)

  unfoldable pub create : Task → Plugin → Reply × Plugin
  unfolding create_valid
  create input pl =
      if not (str_eq pl.load_error [])
      then (failed (refuse (codes "state_unreadable") pl.load_error), pl)
      else if leb max_tasks (length pl.tasks)
      then (failed (refuse (codes "limit_reached") (codes "too many tasks")), pl)
      else (let t = new_task pl input in create_valid t (validate_task t) pl)
