-- ===== src/Tasks/Exit/Once.antt =====
-- An exit takes effect once, however often it is reported.
use run_pilot.Prelude.{Bool, Option, arith, none, refl, some, ◌∙◌, ◌≡◌}
use run_pilot.Prelude.Bytes.{Bytes, str_eq_self}
use run_pilot.Prelude.Dict.{delete, find, find-delete}
use run_pilot.Tasks.{Task}
use run_pilot.Tasks.Host.{Host}
use run_pilot.Tasks.Plugin.{Plugin, ProcRef, TaskRuntime, ensure, publish_task, update}
use run_pilot.Tasks.Exit.{
  ExitInfo, continuous_exited, exited, exited_ref, process_exited, schedule_restart,
  scheduled_exited, settle, settle_known,
}
use run_pilot.Tasks.Launch.Laws.{NotAgain, NotAgain-later, spawn-find}

module _ (h : Host) (id : Bytes) where
  continuous-find :
      (t : Task) (success : Bool) (pl : Plugin)
      → NotAgain h id pl.calls
      → find id (continuous_exited h t success pl).procs ≡ find id pl.procs
  unfolding continuous_exited schedule_restart update publish_task ensure
  continuous-find t success pl unused = grind (arith, spawn-find h id, unused)

  settle-find :
      (t : Task) (p : Bytes) (ref : ProcRef) (info : ExitInfo) (success : Bool) (message : Bytes)
      (pl : Plugin)
      → NotAgain h id pl.calls
      → find id (settle h t p ref info success message pl).procs ≡ find id pl.procs
  unfolding settle scheduled_exited update publish_task ensure
  settle-find t p ref info success message pl unused = grind (arith, continuous-find, unused)

  settle_known-find :
      (t : Option Task) (r : Option TaskRuntime) (p : Bytes) (ref : ProcRef) (info : ExitInfo)
      (success : Bool) (message : Bytes) (pl : Plugin)
      → NotAgain h id pl.calls
      → find id (settle_known h t r p ref info success message pl).procs ≡ find id pl.procs
  unfolding settle_known
  settle_known-find none r p ref info success message pl unused = refl
  settle_known-find (some t) none p ref info success message pl unused = refl
  settle_known-find (some t) (some r) p ref info success message pl unused =
      settle-find t p ref info success message pl unused

  exited-find :
      (p : Bytes) (ref : ProcRef) (info : ExitInfo) (pl : Plugin)
      → NotAgain h id pl.calls
      → find id (exited h p ref info pl).procs ≡ find id pl.procs
  unfolding exited
  exited-find p ref info pl unused =
      settle_known-find _ _ p ref info _ _ _
        (NotAgain-later h id _ _ (NotAgain-later h id pl.calls _ unused))

  settled_ref :
      (r : Option ProcRef) (info : ExitInfo) (pl : Plugin)
      → NotAgain h id pl.calls
      → find id pl.procs ≡ r
      → find id (exited_ref h r id info pl).procs ≡ none
  unfolding exited_ref
  settled_ref none info pl unused e = e
  settled_ref (some ref) info pl unused e =
      exited-find id ref info (record pl { procs = delete id pl.procs }) unused
      ∙ find-delete id id pl.procs
      ∙ ground (arith, str_eq_self id)

  settled :
      (info : ExitInfo) (pl : Plugin)
      → NotAgain h id pl.calls
      → find id (process_exited h id info pl).procs ≡ none
  unfolding process_exited
  settled info pl unused = settled_ref (find id pl.procs) info pl unused refl

  unknown :
      (info : ExitInfo) (pl : Plugin) → find id pl.procs ≡ none → process_exited h id info pl ≡ pl
  unfolding process_exited exited_ref
  unknown info pl e = rw e

-- When the host does not give the identifier to another process from now on, the exit of the process counts
-- once: a second report of it, with any exit information, changes nothing and calls nothing.
pub exit_once :
    (h : Host) (id : Bytes) (first second : ExitInfo) (pl : Plugin)
    → NotAgain h id pl.calls
    → process_exited h id second (process_exited h id first pl) ≡ process_exited h id first pl
exit_once h id first second pl unused =
    unknown h id second (process_exited h id first pl) (settled h id first pl unused)
