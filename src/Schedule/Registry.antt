-- ===== src/Schedule/Registry.antt =====
-- The registrations of the scheduler, internal/scheduler/scheduler.go: `RegisterPlugin`, `RemovePlugin`,
-- `RemovePluginOwner`, `ListPlugin`, `Reload`, `Stop` and `stopJobs`. A registration has its compiled
-- schedule in place of the goroutine that waits for it.
pub mod Owners
pub mod Register
use run_pilot.Schedule.{ScheduleSpec}
use run_pilot.Schedule.Compile.{Compiled, Result, ScheduleError, compile, err, ok}
use run_pilot.Prelude.{
  Bool, List, Option, [], false, if◌then◌else◌, inl, inr, none, not, some, true, ◌++◌, ◌==◌, ◌||◌,
  ◌∷◌, ◌⊎◌,
}
use run_pilot.Prelude.Bytes.{Bytes, str_eq}
use run_pilot.Prelude.Dict.{Dict, delete, find, put}
use run_pilot.Text.{has_prefix, trim_prefix, trim_space}
use run_pilot.Schedule.Calendar.{Calendar}
use run_pilot.Jobs.{JobDefinition}

pub record PluginSchedule : Type 0 where
  pub owner : Bytes
  pub id : Bytes
  pub callback : Bytes
  pub schedule : ScheduleSpec
  pub payload : Bytes

-- `loops` are the jobs that `loop` waits for; `none` is the `nil` channel of a stopped scheduler.
pub record Scheduler : Type 0 where
  pub plugin : Dict (PluginSchedule × Compiled)
  pub loops : Option (List (JobDefinition × Compiled))

pub data RegisterError : Type 0 where
  missing_field : RegisterError
  bad_schedule : ScheduleError → RegisterError
  already_exists : Bytes → RegisterError

unfoldable pub new_scheduler : Scheduler
new_scheduler = record { plugin = []; loops = none }

-- The key `owner + "\x00" + id`.
abbrev pub key_of : Bytes → Bytes → Bytes
key_of owner id = owner ++ 0 ∷ id

register_new :
    PluginSchedule
    → Option (PluginSchedule × Compiled)
    → Compiled
    → Scheduler
    → Option RegisterError × Scheduler
register_new v (some old) c s = (some (already_exists v.id), s)
register_new v none c s = (none, record s { plugin = put (key_of v.owner v.id) (v, c) s.plugin })

register_compiled : PluginSchedule → Result Compiled → Scheduler → Option RegisterError × Scheduler
unfolding register_new
register_compiled v (err e) s = (some (bad_schedule e), s)
register_compiled v (ok c) s = register_new v (find (key_of v.owner v.id) s.plugin) c s

removed : Bytes → Option (PluginSchedule × Compiled) → Scheduler → Bool × Scheduler
removed k none s = (false, s)
removed k (some v) s = (true, record s { plugin = delete k s.plugin })

unfoldable pub remove_plugin : Bytes → Bytes → Scheduler → Bool × Scheduler
unfolding removed
remove_plugin owner id s = let k = key_of owner id in removed k (find k s.plugin) s

-- The identifiers in the keys that begin with `owner + "\x00"`.
unfoldable pub owner_ids : Bytes → Dict (PluginSchedule × Compiled) → List Bytes
owner_ids owner [] = []
owner_ids owner ((k, v) ∷ m) =
    let rest = owner_ids owner m in
    let prefix = owner ++ 0 ∷ [] in
    if has_prefix k prefix then trim_prefix k prefix ∷ rest else rest

unfoldable pub remove_each : Bytes → List Bytes → Scheduler → Scheduler
remove_each owner [] s = s
remove_each owner (id ∷ ids) s = remove_each owner ids (remove_plugin owner id s).1

unfoldable pub remove_plugin_owner : Bytes → Scheduler → Scheduler
remove_plugin_owner owner s = remove_each owner (owner_ids owner s.plugin) s

listed : Bytes → Dict (PluginSchedule × Compiled) → List PluginSchedule
listed owner [] = []
listed owner ((k, (v, c)) ∷ m) =
    let rest = listed owner m in if str_eq v.owner owner then v ∷ rest else rest

unfoldable pub list_plugin : Bytes → Scheduler → List PluginSchedule
unfolding listed
list_plugin owner s = listed owner s.plugin

unfoldable pub stop_jobs : Scheduler → Scheduler
stop_jobs s = record s { loops = none }

-- The part of a key before its first NUL byte.
unfoldable pub owner_part : Bytes → Bytes
owner_part [] = []
owner_part (b ∷ bs) = let rest = owner_part bs in if b == 0 then [] else b ∷ rest

owners : Dict (PluginSchedule × Compiled) → List Bytes
owners [] = []
owners ((k, v) ∷ m) = owner_part k ∷ owners m

remove_owners : List Bytes → Scheduler → Scheduler
remove_owners [] s = s
remove_owners (o ∷ os) s = remove_owners os (remove_plugin_owner o s)

unfoldable pub stop : Scheduler → Scheduler
unfolding owners remove_owners
stop s = stop_jobs (remove_owners (owners s.plugin) s)

module _ (load_location : Bytes → Option Calendar) (local : Calendar) where
  unfoldable pub register_plugin : PluginSchedule → Scheduler → Option RegisterError × Scheduler
  unfolding register_compiled
  register_plugin v s =
      if str_eq (trim_space v.owner) []
        || str_eq (trim_space v.id) []
        || str_eq (trim_space v.callback) []
      then (some missing_field, s)
      else register_compiled v (compile load_location local v.schedule) s

  -- The enabled jobs with their schedules, or the first that does not compile, with its name.
  unfoldable pub compile_jobs :
      List JobDefinition → (Bytes × ScheduleError) ⊎ List (JobDefinition × Compiled)
  compile_jobs [] = inr []
  compile_jobs (def ∷ defs) =
      let rest = compile_jobs defs in
      if not def.enabled then rest else with_job def (compile load_location local def.schedule) rest
    where
      with_job :
          JobDefinition
          → Result Compiled
          → (Bytes × ScheduleError) ⊎ List (JobDefinition × Compiled)
          → (Bytes × ScheduleError) ⊎ List (JobDefinition × Compiled)
      with_job def (err e) rest = inl (def.name, e)
      with_job def (ok c) (inl e) = inl e
      with_job def (ok c) (inr jobs) = inr ((def, c) ∷ jobs)

  reloaded :
      (Bytes × ScheduleError) ⊎ List (JobDefinition × Compiled)
      → Scheduler
      → Option (Bytes × ScheduleError) × Scheduler
  reloaded (inl e) s = (some e, s)
  reloaded (inr jobs) s = (none, record (stop_jobs s) { loops = some jobs })

  unfoldable pub reload :
      List JobDefinition → Scheduler → Option (Bytes × ScheduleError) × Scheduler
  unfolding reloaded
  reload defs s = reloaded (compile_jobs defs) s
