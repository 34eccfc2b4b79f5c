-- ===== src/Processes/Manager.antt =====
-- `pluginProcessManager` of internal/core/plugin_processes.go. Each function is what happens under the
-- locks of one call; a process is its record, and what the operating system does is given (World). Texts
-- that a process writes, and the events of its output, are left out.
pub mod Captures
pub mod Exclusive
pub mod Steps
pub mod Owners
use run_pilot.Command.Launcher
use run_pilot.Command.Launcher.{Cmd}
use run_pilot.Prelude.{
  Bool, List, Option, [], false, if◌then◌else◌, none, not, some, true, ℕ, ◌&&◌, ◌++◌, ◌||◌, ◌∷◌,
}
use run_pilot.Prelude.Int.{eq_ℤ, negsuc, pos, ℤ}
use run_pilot.Prelude.Bytes.{Bytes, codes, str_eq}
use run_pilot.Prelude.Dict.{Dict, delete, find, put}
use run_pilot.Command.{CommandSpec}
use run_pilot.Prelude.Result.{Result, err, ok}
use run_pilot.Processes.{
  Failure, ProcessStart, host_failure, invalid_process, other_failure, validate_start,
}

pub record Process : Type 0 where
  pub owner : Bytes
  pub pid : ℕ
  pub running : Bool
  pub terminated : Bool
  pub timed_out : Bool
  pub exit_code : Option ℤ
  -- The execution that captures its output, as the key of `captured`, and its history id.
  pub capture : Option Bytes
  pub history_id : Bytes

pub record ExitEvent : Type 0 where
  pub owner : Bytes
  pub id : Bytes
  pub code : ℤ
  pub success : Bool
  pub terminated : Bool
  pub timed_out : Bool
  pub history_id : Bytes

-- `items`, `captured`, and the exits that were emitted, newest first.
pub record Manager : Type 0 where
  pub items : Dict Process
  pub captured : Dict Bool
  pub exits : List ExitEvent

unfoldable pub new_manager : Manager
new_manager = record { items = []; captured = []; exits = [] }

pub record Status : Type 0 where
  pub id : Bytes
  pub pid : ℕ
  pub running : Bool
  pub exit_code : Option ℤ
  pub terminated : Bool
  pub timed_out : Bool

-- What the call finds outside: the host of the launcher, whether there is a history, the errors of
-- `OpenExecutionLog` and of the pipes, and the process identifier or the error of `cmd.Start`.
pub record World : Type 0 where
  pub host : Launcher.Host
  pub has_history : Bool
  pub open_log : Option Bytes
  pub pipes : Option Bytes
  pub start_process : Cmd → Result ℕ

pub data Outcome : Type 0 where
  done : Status → Outcome
  failed : Failure → Outcome

unfoldable pub command_of : ProcessStart → CommandSpec
command_of input = record {
  path = input.command;
  args = input.args;
  working_directory = input.working_directory;
  environment = input.environment;
  interpreter = if str_eq input.interpreter [] then codes "direct" else input.interpreter;
}

unfoldable pub capture_key : Bytes → Bytes → Bytes
capture_key owner history_id = owner ++ 0 ∷ history_id

abbrev pub is_true : Option Bool → Bool
is_true none = false
is_true (some b) = b

unfoldable pub is_captured : Bytes → Manager → Bool
is_captured key m = is_true (find key m.captured)

unfoldable pub release_capture : Bytes → Manager → Manager
release_capture key m = record m { captured = delete key m.captured }

-- After a failure to start, the capture is released.
release : Option Bytes → Manager → Manager
unfolding release_capture
release none m = m
release (some key) m = release_capture key m

abbrev started : Bytes → Bytes → ProcessStart → Option Bytes → ℕ → Process
started owner id input capture pid = record {
  owner = owner;
  pid = pid;
  running = true;
  terminated = false;
  timed_out = false;
  exit_code = none;
  capture = capture;
  history_id = input.history_id;
}

start_from : Bytes → Bytes → ProcessStart → Option Bytes → Result ℕ → Manager → Outcome × Manager
unfolding release
start_from owner id input capture (err e) m =
    (failed (other_failure (codes "start process: " ++ e)), release capture m)
start_from owner id input capture (ok pid) m = (
  done (record {
    id = id;
    pid = pid;
    running = true;
    exit_code = none;
    terminated = false;
    timed_out = false;
  }),
  record m { items = put id (started owner id input capture pid) m.items },
)

with_log :
    World → Bytes → Bytes → ProcessStart → Cmd → Bytes → Option Bytes → Manager → Outcome × Manager
unfolding start_from release_capture
with_log w owner id input cmd key (some e) m = (
  failed (host_failure (codes "invalid_argument") (codes "historyId: " ++ e)),
  release_capture key m,
)
with_log w owner id input cmd key none m =
    start_from owner id input (some key) (w.start_process cmd) m

captured_start : World → Bytes → Bytes → ProcessStart → Cmd → Manager → Outcome × Manager
unfolding with_log capture_key
captured_start w owner id input cmd m =
    let key = capture_key owner input.history_id in
    if not w.has_history
    then (failed (host_failure (codes "unavailable") (codes "execution history is unavailable")), m)
    else if is_captured key m
    then (failed (invalid_process (codes "execution is already capturing a process")), m)
    else with_log w owner id input cmd key w.open_log
        (record m { captured = put key true m.captured })

piped_start :
    World → Bytes → Bytes → ProcessStart → Cmd → Option Bytes → Manager → Outcome × Manager
unfolding start_from
piped_start w owner id input cmd (some e) m = (failed (other_failure e), m)
piped_start w owner id input cmd none m = start_from owner id input none (w.start_process cmd) m

start_built : World → Bytes → Bytes → ProcessStart → Result Cmd → Manager → Outcome × Manager
unfolding captured_start piped_start
start_built w owner id input (err e) m = (failed (host_failure (codes "invalid_argument") e), m)
start_built w owner id input (ok cmd) m =
    if not (str_eq input.history_id [])
    then captured_start w owner id input cmd m
    else piped_start w owner id input cmd w.pipes m

start_valid : World → Bytes → Bytes → ProcessStart → Option Failure → Manager → Outcome × Manager
unfolding start_built command_of
start_valid w owner id input (some e) m = (failed e, m)
start_valid w owner id input none m =
    start_built w owner id input (Launcher.build w.host (command_of input)) m

-- `start`; `id` is the new identifier that `config.NewID` makes.
unfoldable pub start : World → Bytes → Bytes → ProcessStart → Manager → Outcome × Manager
unfolding start_valid
start w owner id input m = start_valid w owner id input (validate_start input) m

-- The timer of a process.
time_out : Process → Process
time_out p = if p.running then record p { timed_out = true } else p

unfoldable pub timer_fires : Bytes → Process → Manager → Manager
unfolding time_out
timer_fires id p m = record m { items = put id (time_out p) m.items }

-- The end of a process: the code of its state, if there is one, and whether `Wait` had an error other
-- than that of an output held open while a history captures it.
pub record Ended : Type 0 where
  pub state_code : Option ℤ
  pub wait_failed : Bool

abbrev code_or : Option ℤ → ℤ
code_or none = negsuc 0
code_or (some c) = c

unfoldable pub process_ends : Bytes → Process → Ended → Manager → Manager
unfolding release
process_ends id p e m =
    let m1 = release p.capture m in
    let code = code_or e.state_code in
    record m1 {
      items = put id (record p { running = false; exit_code = some code }) m1.items;
      exits =
          record {
            owner = p.owner;
            id = id;
            code = code;
            success = not e.wait_failed && eq_ℤ code (pos 0);
            terminated = p.terminated;
            timed_out = p.timed_out;
            history_id = p.history_id;
          }
          ∷ m1.exits;
    }

-- Five minutes after its end the process is forgotten.
unfoldable pub forget : Bytes → Manager → Manager
forget id m = record m { items = delete id m.items }

unfoldable pub unknown_process : Failure
unknown_process = host_failure (codes "not_found") (codes "unknown process")

owned_by : Bytes → Option Process → Option Process
owned_by owner none = none
owned_by owner (some p) = if str_eq p.owner owner then some p else none

unfoldable pub lookup : Bytes → Bytes → Manager → Option Process
unfolding owned_by
lookup owner id m = owned_by owner (find id m.items)

status_of : Bytes → Process → Status
status_of id p = record {
  id = id;
  pid = if p.running then p.pid else 0;
  running = p.running;
  exit_code = p.exit_code;
  terminated = p.terminated;
  timed_out = p.timed_out;
}

status_from : Bytes → Option Process → Outcome
unfolding status_of unknown_process
status_from id none = failed unknown_process
status_from id (some p) = done (status_of id p)

unfoldable pub status : Bytes → Bytes → Manager → Outcome
unfolding status_from
status owner id m = status_from id (lookup owner id m)

kill : Bytes → Bytes → Option Bytes → Manager → Outcome × Manager
kill owner id (some e) m = (failed (other_failure e), m)
kill owner id none m = (status owner id m, m)

terminate_from : Bytes → Bytes → Option Bytes → Option Process → Manager → Outcome × Manager
unfolding kill status_of unknown_process
terminate_from owner id killing none m = (failed unknown_process, m)
terminate_from owner id killing (some p) m =
    if not p.running
    then (done (status_of id p), m)
    else kill owner id killing
        (record m { items = put id (record p { terminated = true }) m.items })

-- `terminate`; `killing` is the error of `KillProcessTree`.
unfoldable pub terminate : Bytes → Bytes → Option Bytes → Manager → Outcome × Manager
unfolding terminate_from
terminate owner id killing m = terminate_from owner id killing (lookup owner id m) m

unfoldable pub owned_ids : Bytes → Dict Process → List Bytes
owned_ids owner [] = []
owned_ids owner ((id, p) ∷ items) =
    let rest = owned_ids owner items in if str_eq p.owner owner then id ∷ rest else rest

-- The error of each kill is dropped; `killing` says which there is.
terminate_each : Bytes → (Bytes → Option Bytes) → List Bytes → Manager → Manager
terminate_each owner killing [] m = m
terminate_each owner killing (id ∷ ids) m =
    terminate_each owner killing ids (terminate owner id (killing id) m).1

unfoldable pub stop_owner : Bytes → (Bytes → Option Bytes) → Manager → Manager
unfolding terminate_each
stop_owner owner killing m = terminate_each owner killing (owned_ids owner m.items) m

has_owner : Bytes → List Bytes → Bool
has_owner owner [] = false
has_owner owner (o ∷ os) = str_eq o owner || has_owner owner os

add_owner : Bytes → List Bytes → List Bytes
unfolding has_owner
add_owner owner os = if has_owner owner os then os else owner ∷ os

-- The owners of the items, each once; `close` goes over them in any order.
owners : Dict Process → List Bytes
unfolding add_owner
owners [] = []
owners ((id, p) ∷ items) = add_owner p.owner (owners items)

stop_owners : (Bytes → Option Bytes) → List Bytes → Manager → Manager
stop_owners killing [] m = m
stop_owners killing (owner ∷ os) m = stop_owners killing os (stop_owner owner killing m)

-- `close`, before it waits for the ends.
unfoldable pub close : (Bytes → Option Bytes) → Manager → Manager
unfolding stop_owners owners
close killing m = stop_owners killing (owners m.items) m
