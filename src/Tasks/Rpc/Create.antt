-- ===== src/Tasks/Rpc/Create.antt =====
-- What `create` does on every path.
use run_pilot.Prelude.{
  Bool-cases, List, [], ap, arith, inl, inr, leb, length, refl, some, ◌++◌, ◌<◌, ◌∙◌, ◌∷◌, ◌≡◌, ◌⊎◌,
}
use run_pilot.Prelude.Bytes.{codes, str_eq, str_eq→eq}
use run_pilot.Prelude.Dict.{find}
use run_pilot.Tasks.{Task, max_tasks}
use run_pilot.Tasks.Validate.{Verdict, invalid, nil_restart, task_error_text, valid, validate_task}
use run_pilot.Tasks.Host.{
  Call, Host, HostResult, View, created, fail, ok, publish_changed, storage_set,
}
use run_pilot.Tasks.Plugin.{Plugin, call, ensure, runtime_of}
use run_pilot.Tasks.Control.{RpcError, host_failure}
use run_pilot.Tasks.Rpc.{
  Reply, apply_schedule, create, create_applied, create_checked, create_saved, create_valid, failed,
  invalid_argument, new_task, refuse, save, succ32, task_reply, unregister, validate_with_host,
}
use run_pilot.Tasks.Plugin.Laws.{runtime_laws}
use run_pilot.Prelude.Result.{ok}

-- Nothing but the list of calls differs.
pub record IsKept (a b : Plugin) : Type 0 where
  pub kept_tasks : b.tasks ≡ a.tasks
  pub kept_next : b.next ≡ a.next
  pub kept_error : b.load_error ≡ a.load_error
  pub kept_rt : b.rt ≡ a.rt
  pub kept_procs : b.procs ≡ a.procs

IsKept-refl : (a : Plugin) → IsKept a a
IsKept-refl a = record {
  kept_tasks = refl;
  kept_next = refl;
  kept_error = refl;
  kept_rt = refl;
  kept_procs = refl;
}

IsKept-trans : {a b c : Plugin} → IsKept a b → IsKept b c → IsKept a c
IsKept-trans k l = record {
  kept_tasks = l.kept_tasks ∙ k.kept_tasks;
  kept_next = l.kept_next ∙ k.kept_next;
  kept_error = l.kept_error ∙ k.kept_error;
  kept_rt = l.kept_rt ∙ k.kept_rt;
  kept_procs = l.kept_procs ∙ k.kept_procs;
}

pub apply_schedule-IsKept : (h : Host) (t : Task) (b : Plugin) → IsKept b (apply_schedule h t b).1
unfolding apply_schedule unregister
apply_schedule-IsKept h t b = ground arith

pub validate_with_host-IsKept :
    (h : Host) (t : Task) (b : Plugin) → IsKept b (validate_with_host h t b).1
unfolding validate_with_host
validate_with_host-IsKept h t b = ground arith

-- The new task is the last one, and the host has stored exactly the list that is now in memory.
pub record IsCreated (h : Host) (t : Task) (a b : Plugin) : Type 0 where
  pub appended : b.tasks ≡ a.tasks ++ t ∷ []
  pub numbered_next : b.next ≡ succ32 a.next
  pub older : List Call
  pub last_calls : b.calls ≡ publish_changed created t.id ∷ storage_set b.tasks b.next ∷ older
  pub stored : h.set_storage (storage_set b.tasks b.next ∷ older) ≡ ok tt
  pub same_procs : b.procs ≡ a.procs
  pub has_runtime : find t.id b.rt ≡ some (runtime_of t.id a.rt)

abbrev pub CreateOutcome : Host → Task → Plugin → Reply × Plugin → Type 0
CreateOutcome h t a out =
    ((e : RpcError) × (out.0 ≡ failed e) × IsKept a out.1)
    ⊎ ((v : View) × (out.0 ≡ task_reply v) × IsCreated h t a out.1)

module _ (h : Host) (t : Task) (a : Plugin) where
  abbrev storing : Plugin → Plugin
  storing b = call (storage_set (b.tasks ++ t ∷ []) (succ32 b.next)) b

  create_saved-CreateOutcome :
      (b : Plugin) (r : HostResult (Unit {0}))
      → IsKept a b
      → h.set_storage (storing b).calls ≡ r
      → CreateOutcome h t a (create_saved h t (r, storing b))
  unfolding create_saved unregister ensure
  create_saved-CreateOutcome b (fail e) k s = inl (
    host_failure e,
    refl,
    record {
      kept_tasks = k.kept_tasks;
      kept_next = k.kept_next;
      kept_error = k.kept_error;
      kept_rt = k.kept_rt;
      kept_procs = k.kept_procs;
    },
  )
  create_saved-CreateOutcome b (ok u) k s = inr (
    _,
    refl,
    record {
      appended = ap (λ ts. ts ++ t ∷ []) k.kept_tasks;
      numbered_next = ap succ32 k.kept_next;
      older = b.calls;
      last_calls = refl;
      stored = s;
      same_procs = k.kept_procs;
      has_runtime = simp (runtime_laws, k.kept_rt);
    },
  )

  create_applied-CreateOutcome :
      (b : Plugin) (r : HostResult (Unit {0}))
      → IsKept a b
      → CreateOutcome h t a (create_applied h t (r, b))
  unfolding create_applied unregister save
  create_applied-CreateOutcome b (fail e) k = inl (
    host_failure e,
    refl,
    record {
      kept_tasks = k.kept_tasks;
      kept_next = k.kept_next;
      kept_error = k.kept_error;
      kept_rt = k.kept_rt;
      kept_procs = k.kept_procs;
    },
  )
  create_applied-CreateOutcome b (ok u) k = create_saved-CreateOutcome b _ k refl

  create_checked-CreateOutcome :
      (b : Plugin) (r : HostResult (Unit {0}))
      → IsKept a b
      → CreateOutcome h t a (create_checked h t (r, b))
  unfolding create_checked
  create_checked-CreateOutcome b (fail e) k = inl (host_failure e, refl, k)
  create_checked-CreateOutcome b (ok u) k =
      create_applied-CreateOutcome (apply_schedule h t b).1 (apply_schedule h t b).0
        (IsKept-trans k (apply_schedule-IsKept h t b))

  create_valid-CreateOutcome : (v : Verdict) → CreateOutcome h t a (create_valid h t v a)
  unfolding create_valid
  create_valid-CreateOutcome (invalid e) =
      inl (refuse invalid_argument (task_error_text e), refl, IsKept-refl a)
  create_valid-CreateOutcome nil_restart = inl (refuse (codes "panic") [], refl, IsKept-refl a)
  create_valid-CreateOutcome valid =
      create_checked-CreateOutcome (validate_with_host h t a).1 (validate_with_host h t a).0
        (validate_with_host-IsKept h t a)

-- Only a valid task gets past the validation.
create_valid-valid :
    (h : Host) (t : Task) (v : Verdict) (a : Plugin) (w : View)
    → (create_valid h t v a).0 ≡ task_reply w
    → v ≡ valid
unfolding create_valid
create_valid-valid h t (invalid e) a w p = cc
create_valid-valid h t nil_restart a w p = cc
create_valid-valid h t valid a w p = refl

-- Refused, or done with all that `create` asks for.
abbrev pub Outcome : Host → Task → Plugin → Reply × Plugin → Type 0
Outcome h t pl out =
    ((e : RpcError) × (out.0 ≡ failed e) × IsKept pl out.1)
    ⊎ ((v : View) × (out.0 ≡ task_reply v)
        × IsCreated h t pl out.1
        × (validate_task t ≡ valid)
        × (pl.load_error ≡ [])
        × (length pl.tasks < max_tasks))

admitted :
    (h : Host) (t : Task) (pl : Plugin)
    → pl.load_error ≡ []
    → length pl.tasks < max_tasks
    → Outcome h t pl (create_valid h t (validate_task t) pl)
admitted h t pl readable room = elim (create_valid-CreateOutcome h t pl (validate_task t)) [
  | inl no_change ↦ inl no_change
  | inr (v, e, done) ↦
      inr (v, e, done, create_valid-valid h t (validate_task t) pl v e, readable, room)
]

-- A `create` that is refused, for whatever reason, changes nothing but the list of calls made. One that
-- succeeds was allowed (the configuration is readable and there is room), appends a valid task under
-- the next number, gives it a runtime, and its list of tasks is what the host has stored.
pub create-Outcome :
    (h : Host) (input : Task) (pl : Plugin) → Outcome h (new_task pl input) pl (create h input pl)
unfolding create
create-Outcome h input pl = elim (Bool-cases (str_eq pl.load_error [])) [
  | inr broken ↦
      rw (broken, create)
        (inl (refuse (codes "state_unreadable") pl.load_error, refl, IsKept-refl pl))
  | inl readable ↦ elim (Bool-cases (leb max_tasks (length pl.tasks))) [
    | inl full ↦
        rw (readable, full, create)
          (inl (refuse (codes "limit_reached") (codes "too many tasks"), refl, IsKept-refl pl))
    | inr room ↦
        rw (readable, room, create)
          (admitted h (new_task pl input) pl (str_eq→eq pl.load_error [] readable) (ground arith))
  ]
]
