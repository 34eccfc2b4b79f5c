-- ===== src/Schedule/Registry/Register.antt =====
-- `RegisterPlugin` keeps the registrations under the keys of their owners.
use run_pilot.Schedule.Compile.{Compiled, Result, compile, err, ok}
use run_pilot.Schedule.Registry.Owners.{IsNamed}
use run_pilot.Prelude.{All, Bool-cases, Option, [], inl, inr, none, refl, some, ◌||◌, ◌∷◌}
use run_pilot.Prelude.Bytes.{Bytes, str_eq, str_eq→eq}
use run_pilot.Prelude.Dict.{Dict, put}
use run_pilot.Text.{trim_space}
use run_pilot.Text.Split.{Lacks}
use run_pilot.Schedule.Calendar.{Calendar}
use run_pilot.Schedule.Registry.{
  PluginSchedule, Scheduler, key_of, register_compiled, register_new, register_plugin,
}

put-IsNamed :
    (v : PluginSchedule) (c : Compiled) (m : Dict (PluginSchedule × Compiled))
    → Lacks 0 v.owner
    → All IsNamed m
    → All IsNamed (put (key_of v.owner v.id) (v, c) m)
unfolding put
put-IsNamed v c [] l h = (record { key_is = refl; plain = l }, tt)
put-IsNamed v c ((j, w) ∷ m) l h =
    let rest = put-IsNamed v c m l h.1 in
    elim (Bool-cases (str_eq j (key_of v.owner v.id))) [
      | inl same ↦
          rw same (record { key_is = str_eq→eq j (key_of v.owner v.id) same; plain = l }, h.1)
      | inr other ↦ rw other (h.0, rest)
    ]

register_new-IsNamed :
    (v : PluginSchedule) (old : Option (PluginSchedule × Compiled)) (c : Compiled) (s : Scheduler)
    → Lacks 0 v.owner
    → All IsNamed s.plugin
    → All IsNamed (register_new v old c s).1.plugin
unfolding register_new
register_new-IsNamed v none c s l h = put-IsNamed v c s.plugin l h
register_new-IsNamed v (some old) c s l h = h

register_compiled-IsNamed :
    (v : PluginSchedule) (r : Result Compiled) (s : Scheduler)
    → Lacks 0 v.owner
    → All IsNamed s.plugin
    → All IsNamed (register_compiled v r s).1.plugin
unfolding register_compiled
register_compiled-IsNamed v (err e) s l h = h
register_compiled-IsNamed v (ok c) s l h = register_new-IsNamed v _ c s l h

-- After a registration, whether it is taken or refused, all registrations stand under the keys of their
-- owners, if they did before and the new owner has no NUL byte.
pub register_plugin-IsNamed :
    (load_location : Bytes → Option Calendar) (local : Calendar) (v : PluginSchedule)
    (s : Scheduler)
    → Lacks 0 v.owner
    → All IsNamed s.plugin
    → All IsNamed (register_plugin load_location local v s).1.plugin
unfolding register_plugin
register_plugin-IsNamed load_location local v s l h =
    elim (Bool-cases (
      str_eq (trim_space v.owner) []
      || str_eq (trim_space v.id) []
      || str_eq (trim_space v.callback) [])) [
        | inl missing ↦ rw missing h
        | inr all_there ↦
            rw all_there
              (register_compiled-IsNamed v (compile load_location local v.schedule) s l h)
      ]
