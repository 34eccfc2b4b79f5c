-- ===== src/Tasks/Plugin/Laws.antt =====
-- Reading the runtime of a task after a write.
use run_pilot.Prelude.{arith, if◌then◌else◌, refl, some, ◌∙◌, ◌∷◌, ◌≡◌}
use run_pilot.Prelude.Bytes.{Bytes, str_eq, str_eq_self}
use run_pilot.Prelude.Dict.{Dict, find, find-put, put}
use run_pilot.Tasks.{Task}
use run_pilot.Tasks.Host.{publish_status}
use run_pilot.Tasks.Plugin.{Plugin, TaskRuntime, ensure, publish_task, runtime_of, update, view}

pub runtime_of-put :
    (id j : Bytes) (r : TaskRuntime) (rt : Dict TaskRuntime)
    → runtime_of j (put id r rt) ≡ (if str_eq id j then r else runtime_of j rt)
unfolding runtime_of
runtime_of-put id j r rt = ground (arith, find-put id j r rt)

pub runtime_of-put_self :
    (id : Bytes) (r : TaskRuntime) (rt : Dict TaskRuntime) → runtime_of id (put id r rt) ≡ r
runtime_of-put_self id r rt = rw (runtime_of-put id id r rt, str_eq_self id)

pub find-put_self {ℓ} :
    {V : Type ℓ} (id : Bytes) (v : V) (m : Dict V) → find id (put id v m) ≡ some v
find-put_self id v m = rw (find-put id id v m, str_eq_self id)

pub update_self :
    (id : Bytes) (f : TaskRuntime → TaskRuntime) (pl : Plugin)
    → runtime_of id (update id f pl).rt ≡ f (runtime_of id pl.rt)
unfolding update
update_self id f pl = runtime_of-put_self id (f (runtime_of id pl.rt)) pl.rt

pub published :
    (t : Task) (pl : Plugin)
    → (runtime_of t.id (publish_task t pl).rt ≡ runtime_of t.id pl.rt)
      × ((publish_task t pl).calls ≡ publish_status (view t (publish_task t pl).rt) ∷ pl.calls)
unfolding publish_task ensure
published t pl = (runtime_of-put_self t.id (runtime_of t.id pl.rt) pl.rt, refl)

-- An assignment, and then a view.
pub assigned :
    (t : Task) (f : TaskRuntime → TaskRuntime) (pl : Plugin)
    → (let pl' = publish_task t (update t.id f pl) in
        (runtime_of t.id pl'.rt ≡ f (runtime_of t.id pl.rt))
        × (pl'.calls ≡ publish_status (view t pl'.rt) ∷ pl.calls))
unfolding update
assigned t f pl =
    let (same, calls) = published t (update t.id f pl) in (same ∙ update_self t.id f pl, calls)

pub ruleset runtime_laws = (runtime_of-put_self, find-put_self)
