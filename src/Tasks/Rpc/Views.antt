-- ===== src/Tasks/Rpc/Views.antt =====
-- Looking at the tasks leaves the definitions alone.
use run_pilot.Prelude.{List, [], refl, ◌∷◌}
use run_pilot.Tasks.{Task}
use run_pilot.Tasks.Plugin.{Plugin, ensure}
use run_pilot.Tasks.Rpc.{ensure_each, views}
use run_pilot.Tasks.Frame.{SameTasks, SameTasks-trans}

ensure_each-SameTasks : (ts : List Task) (pl : Plugin) → SameTasks pl (ensure_each ts pl)
unfolding ensure_each ensure
ensure_each-SameTasks [] pl = record { same_tasks = refl; same_next = refl; same_error = refl }
ensure_each-SameTasks (t ∷ ts) pl =
    SameTasks-trans (record { same_tasks = refl; same_next = refl; same_error = refl })
      (ensure_each-SameTasks ts (ensure t.id pl))

pub views-SameTasks : (pl : Plugin) → SameTasks pl (views pl).1
unfolding views
views-SameTasks pl = ensure_each-SameTasks pl.tasks pl
