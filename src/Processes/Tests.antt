-- ===== src/Processes/Tests.antt =====
-- Processes of plugins on concrete worlds.
use mathlib.Core.Option
use run_pilot.Command.Launcher
use mathlib.Core.Path.{subst}
use run_pilot.Processes.Manager.Captures.{IsExclusive}
use run_pilot.Processes.Manager.Steps.{Reach, Reach-IsExclusive, ends, here, later, starts}
use run_pilot.Processes.Manager.Owners.{foreign_unknown, mark, stop_owner-find}
use run_pilot.Processes.Run.{new_capture, write, writes}
use run_pilot.Processes.Run.Capture.{kept, writes-kept, written}
use run_pilot.Processes.Notifier.{
  event, events, fires, grows, head_or, last_size, new_notifier, notify, stop, stop_delivers,
}
use run_pilot.Prelude.{
  List, [], drop, false, length, ltb, none, refl, some, take, true, ◌++◌, ◌∷◌, ◌≡◌,
}
use run_pilot.Prelude.Int.{pos}
use run_pilot.Prelude.Bytes.{Bytes, codes, str_eq}
use run_pilot.Prelude.Dict.{delete, find, put}
use run_pilot.Text.{to_lower, trim_space}
use run_pilot.Command.{validate_command, validate_environment}
use run_pilot.Prelude.Result.{ok}
use run_pilot.Processes.{ProcessStart, validate_start}
use run_pilot.Processes.Manager.{
  Manager, Process, World, capture_key, command_of, failed, is_captured, new_manager, process_ends,
  start, status, stop_owner, terminate, unknown_process,
}

abbrev linux : World
linux = record {
  host = record { windows = false; environ = codes "HOME=/root" ∷ [] };
  has_history = true;
  open_log = none;
  pipes = none;
  start_process = λ cmd. ok 41;
}

abbrev sleeping : ProcessStart
sleeping = record {
  command = codes "/bin/sleep";
  args = codes "60" ∷ [];
  working_directory = [];
  environment = [];
  interpreter = [];
  timeout_seconds = pos 90;
  history_id = codes "run-1";
}

abbrev sleeper : Process
sleeper = record {
  owner = codes "tasks";
  pid = 41;
  running = true;
  terminated = false;
  timed_out = false;
  exit_code = none;
  capture = some (codes "tasks" ++ 0 ∷ codes "run-1");
  history_id = codes "run-1";
}

abbrev asleep : Manager
asleep = record {
  items = (codes "p1", sleeper) ∷ [];
  captured = (codes "tasks" ++ 0 ∷ codes "run-1", true) ∷ [];
  exits = [];
}

falls_asleep : (start linux (codes "tasks") (codes "p1") sleeping new_manager).1 ≡ asleep
unfolding start new_manager validate_start validate_environment Launcher.build validate_command
    command_of capture_key is_captured find put delete str_eq trim_space to_lower
falls_asleep = refl

-- The execution is busy while the first process captures it.
second_is_refused : (start linux (codes "tasks") (codes "p2") sleeping asleep).1 ≡ asleep
unfolding start new_manager validate_start validate_environment Launcher.build validate_command
    command_of capture_key is_captured find put delete str_eq trim_space to_lower
second_is_refused = refl

abbrev woken : Manager
woken =
    process_ends (codes "p1") sleeper (record { state_code = some (pos 0); wait_failed = false })
      asleep

reaches_asleep : Reach new_manager asleep
unfolding new_manager find
reaches_asleep =
    subst (Reach new_manager) falls_asleep
      (later here (starts linux (codes "tasks") (codes "p1") sleeping refl))

reaches_woken : Reach new_manager woken
unfolding find str_eq
reaches_woken = later reaches_asleep (ends (codes "p1") sleeper _ refl refl)

Reach-IsExclusive_example : IsExclusive woken
Reach-IsExclusive_example = Reach-IsExclusive reaches_woken

stop_owner-find_example :
    find (codes "p1") (stop_owner (codes "tasks") (λ id. none) asleep).items
    ≡ Option.map (mark (codes "tasks")) (find (codes "p1") asleep.items)
stop_owner-find_example = stop_owner-find (codes "tasks") (λ id. none) asleep (codes "p1")

foreign_unknown_example :
    (status (codes "docker") (codes "p1") asleep ≡ failed unknown_process)
    × (terminate (codes "docker") (codes "p1") none asleep ≡ (failed unknown_process, asleep))
unfolding find str_eq
foreign_unknown_example =
    foreign_unknown (codes "docker") (codes "p1") none asleep sleeper refl refl

stop_delivers_example :
    let stopped = stop (events (grows 10 100 ∷ grows 25 200 ∷ []) new_notifier) in
    (head_or 0 stopped.publications ≡ last_size (grows 10 100 ∷ grows 25 200 ∷ []) 0)
    × ((events (fires 900 ∷ []) stopped).publications ≡ stopped.publications)
stop_delivers_example = stop_delivers (grows 10 100 ∷ grows 25 200 ∷ []) (fires 900 ∷ [])

both_published :
    (stop (events (grows 10 100 ∷ grows 25 200 ∷ []) new_notifier)).publications ≡ 25 ∷ 10 ∷ []
unfolding stop events event notify new_notifier
both_published = refl

abbrev pieces : List Bytes
pieces = codes "make" ∷ codes ": " ∷ codes "done" ∷ []

writes-kept_example :
    ((writes pieces (new_capture 5 true)).bytes ≡ kept true 5 (written pieces))
    × ((writes pieces (new_capture 5 true)).truncated ≡ ltb 5 (length (written pieces)))
writes-kept_example = writes-kept 5 true pieces

last_bytes : (writes pieces (new_capture 5 true)).bytes ≡ codes " done"
unfolding writes write new_capture drop
last_bytes = refl

first_bytes : (writes pieces (new_capture 5 false)).bytes ≡ codes "make:"
unfolding writes write new_capture take
first_bytes = refl
