-- ===== src/Schedule/Tests.antt =====
-- Schedules run on concrete inputs, over a calendar of equal months.
use run_pilot.Schedule.{ScheduleSpec, interval}
use run_pilot.Schedule.Compile.{every}
use run_pilot.Schedule.Registry.Owners.{IsNamed, remove_plugin_owner-isolated}
use run_pilot.Schedule.Daily.{parse_time_of_day, parse_time_of_day_bounds}
use run_pilot.Schedule.Cron.Next.{IsFirst, next-IsFirst, next_unmatched}
use run_pilot.Schedule.Cron.Rounds.{rounds_enough}
use run_pilot.Prelude.{
  All, [], arith, false, map, none, refl, some, true, ℕ, ◌%◌, ◌*◌, ◌+◌, ◌-◌, ◌/◌, ◌<◌, ◌^◌, ◌∷◌,
  ◌≡◌, ◌≤◌,
}
use run_pilot.Prelude.Int.{negsuc, pos}
use run_pilot.Prelude.Bytes.{Bytes, codes, str_eq}
use run_pilot.Text.{contains, split, trim_space}
use run_pilot.Text.Decimal.{atoi, atoi-itoa, itoa}
use run_pilot.Text.Split.{Lacks}
use run_pilot.Schedule.Calendar.{Calendar, nanos}
use run_pilot.Schedule.Cron.{CronExpr, has, matches, next, parse_field, parse_token, values}
use run_pilot.Schedule.Registry.{
  PluginSchedule, Scheduler, key_of, list_plugin, remove_plugin_owner,
}

-- Twelve months of 31 days; no location is far from it for the tests' purposes.
abbrev even_months : Calendar
even_months = record {
  second = λ t. t % 60;
  minute = λ t. t / 60 % 60;
  hour = λ t. t / 3600 % 24;
  day = λ t. t / 86400 % 31 + 1;
  month = λ t. t / 2678400 % 12 + 1;
  weekday = λ t. (t / 86400 + 4) % 7;
  add_year = λ t. t + 32140800;
  add_day = λ t. t + 86400;
  at_clock = λ t h m. t / 86400 * 86400 + h * 3600 + m * 60;
}

half_past : parse_time_of_day (codes " 07:30 ") ≡ some (7, 30)
unfolding parse_time_of_day split trim_space atoi
half_past = refl

no_25th_hour : parse_time_of_day (codes "25:00") ≡ none
unfolding parse_time_of_day split trim_space atoi
no_25th_hour = refl

parse_time_of_day_bounds_example : (7 < 24) × (30 < 60)
parse_time_of_day_bounds_example = parse_time_of_day_bounds (codes " 07:30 ") 7 30 half_past

quarter_hours :
    parse_field 0 59 (codes "*/15, 7-9") ≡ some (map pos (0 ∷ 15 ∷ 30 ∷ 45 ∷ 7 ∷ 8 ∷ 9 ∷ []))
unfolding parse_field parse_token values split contains trim_space atoi str_eq
quarter_hours = refl

out_of_range : parse_field 1 12 (codes "0-3") ≡ none
unfolding parse_field parse_token values split contains trim_space atoi str_eq
out_of_range = refl

-- Every day at 00:01:05 and 00:03:05.
abbrev twice_a_day : CronExpr
twice_a_day = record {
  second = pos 5 ∷ [];
  minute = pos 1 ∷ pos 3 ∷ [];
  hour = pos 0 ∷ [];
  dom = [];
  month = pos 1 ∷ pos 2 ∷ [];
  dow = [];
  dom_any = true;
  dow_any = true;
}

fires_at_185 : matches even_months twice_a_day 185 ≡ true
unfolding matches has
fires_at_185 = refl

next-IsFirst_example :
    (r : ℕ) × (next even_months twice_a_day 70000000000 ≡ r * nanos)
    × IsFirst even_months twice_a_day 71 r
    × (r ≤ 185)
next-IsFirst_example =
    next-IsFirst even_months twice_a_day 70000000000 185 (omega arith) (omega arith) fires_at_185

-- A thirteenth month never comes.
abbrev never : CronExpr
never = record twice_a_day { month = pos 13 ∷ [] }

never_fires : (u : ℕ) → matches even_months never u ≡ false
unfolding matches has
never_fires u = ground arith

next_unmatched_example :
    (next even_months never 70000000000 ≡ 32140871 * nanos)
    × (matches even_months never 32140871 ≡ false)
next_unmatched_example =
    next_unmatched even_months never 70000000000 (omega arith) (λ u _ _. never_fires u)

rounds_enough_example :
    values 70 (pos 2) (pos 2) (2 ^ 63 - 1) ≡ values 64 (pos 2) (pos 2) (2 ^ 63 - 1)
rounds_enough_example =
    rounds_enough 2 (2 ^ 63 - 1) 2 6 (omega arith) (omega arith) (omega arith) (omega arith)

reads_back : atoi 64 (itoa (negsuc 41)) ≡ some (negsuc 41)
reads_back = atoi-itoa 64 (negsuc 41) (omega arith) (omega arith)

abbrev hourly : ScheduleSpec
hourly = record {
  type = interval;
  interval_seconds = pos 3600;
  time_of_day = [];
  expression = [];
  time_zone = [];
}

abbrev of_tasks : PluginSchedule
of_tasks = record {
  owner = codes "tasks";
  id = codes "task-1";
  callback = codes "task";
  schedule = hourly;
  payload = [];
}

abbrev of_remote : PluginSchedule
of_remote = record of_tasks { owner = codes "remote" }

abbrev two_owners : Scheduler
two_owners = record {
  plugin =
      (key_of of_tasks.owner of_tasks.id, (of_tasks, every (pos 3600000000000)))
      ∷ (key_of of_remote.owner of_remote.id, (of_remote, every (pos 3600000000000)))
      ∷ [];
  loops = none;
}

tasks_plain : Lacks 0 (codes "tasks")
tasks_plain = ground arith

remote_plain : Lacks 0 (codes "remote")
remote_plain = ground arith

two_owners-IsNamed : All IsNamed two_owners.plugin
two_owners-IsNamed = (
  record { key_is = refl; plain = tasks_plain },
  (record { key_is = refl; plain = remote_plain }, tt),
)

remove_plugin_owner-isolated_example :
    (list_plugin (codes "tasks") (remove_plugin_owner (codes "tasks") two_owners) ≡ [])
    × ((p : Bytes)
        → str_eq (codes "tasks") p ≡ false
        → list_plugin p (remove_plugin_owner (codes "tasks") two_owners) ≡ list_plugin p two_owners)
    × ((remove_plugin_owner (codes "tasks") two_owners).loops ≡ none)
    × All IsNamed (remove_plugin_owner (codes "tasks") two_owners).plugin
remove_plugin_owner-isolated_example =
    remove_plugin_owner-isolated (codes "tasks") two_owners tasks_plain two_owners-IsNamed
