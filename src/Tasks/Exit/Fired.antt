-- ===== src/Tasks/Exit/Fired.antt =====
-- A pending restart that fires does not start a task that no one wants to run.
use run_pilot.Prelude.{
  Bool-cases, List, Option, [], arith, false, if◌then◌else◌, inl, inr, none, refl, some, true, ◌&&◌,
  ◌++◌, ◌∷◌, ◌≡◌,
}
use run_pilot.Prelude.Bytes.{Bytes, str_eq, str_eq→eq}
use run_pilot.Prelude.Dict.{find}
use run_pilot.Tasks.{Task}
use run_pilot.Tasks.Host.{Host, scheduler_remove}
use run_pilot.Tasks.Plugin.{Plugin, TaskRuntime, find_task, or_fresh, runtime_of}
use run_pilot.Tasks.Launch.{spawn}
use run_pilot.Tasks.Exit.{is_restarting, restart_due, restart_fired, restart_prefix}
use run_pilot.Tasks.Exit.Idle.{
  IsIdle, Stays, Stays-if, Stays-trans, call-Stays, spawn-Stays, update-Stays,
}

find_task-id :
    (id : Bytes) (ts : List Task) (t : Task) → find_task id ts ≡ some t → str_eq t.id id ≡ true
unfolding find_task
find_task-id id [] t e = cc
find_task-id id (u ∷ ts) t e = grind (arith, find_task-id id ts)

module _ (h : Host) (id : Bytes) where
  wanted_start-Stays :
      (t : Task) (r : TaskRuntime) (pl : Plugin)
      → (r.desired ≡ true → str_eq t.id id ≡ false)
      → IsIdle id pl
      → Stays id pl (if is_restarting r.state && r.desired then (spawn h t pl).1 else pl)
  wanted_start-Stays t r pl other i =
      Stays-if id _ (λ both. spawn-Stays h id t pl (other (ground arith)) i)
        (λ _. record { idle = i; no_start = refl })

  restart_due-Stays :
      (k : Bytes) (t : Option Task) (r : Option TaskRuntime) (pl : Plugin)
      → find_task k pl.tasks ≡ t
      → find k pl.rt ≡ r
      → IsIdle id pl
      → Stays id pl (restart_due h t r pl)
  unfolding restart_due runtime_of
  restart_due-Stays k none r pl e f i = record { idle = i; no_start = refl }
  restart_due-Stays k (some t) none pl e f i = record { idle = i; no_start = refl }
  restart_due-Stays k (some t) (some r) pl e f i =
      let u =
        update-Stays id t.id (λ r. record r { restart_timer = false }) pl (λ r _ d p. (d, p)) i in
      let is_k = str_eq→eq t.id k (find_task-id k pl.tasks t e) in
      Stays-trans u (
        wanted_start-Stays t r _
          (λ desired. elim (Bool-cases (str_eq t.id id)) [
            | inr other ↦ other
            | inl same ↦
                let is_id = str_eq→eq t.id id same in
                let idle : (or_fresh (find id pl.rt)).desired ≡ false = i.undesired in cc
          ])
          u.idle)

  pub restart_fired-Stays :
      (k : Bytes) (pl : Plugin) → IsIdle id pl → Stays id pl (restart_fired h k pl)
  unfolding restart_fired
  restart_fired-Stays k pl i =
      let u = call-Stays id (scheduler_remove (restart_prefix ++ k)) pl refl i in
      Stays-trans u (restart_due-Stays k _ _ _ refl refl u.idle)
