-- ===== src/Terminal/Open.antt =====
-- New sessions of the terminal plugin: `open` and `testSettings`.
pub mod Limit
pub mod Progress
use run_pilot.Tasks.Host.{HostResult, fail, ok}
use run_pilot.Prelude.{
  Bool, List, Option, [], if◌then◌else◌, leb, length, none, not, some, true, ℕ, ◌&&◌, ◌∷◌,
}
use run_pilot.Prelude.Int.{eq_ℤ, pos, ℤ}
use run_pilot.Prelude.Bytes.{Bytes, codes, str_eq}
use run_pilot.Prelude.Dict.{Dict, put}
use run_pilot.Terminal.{
  Host, Plugin, Reply, RpcError, Session, SessionCreate, TerminalSettings, answered, called,
  host_error, is_running, refuse, refused, session_create, system_status,
}
use run_pilot.Terminal.Settings.{
  default_shell, default_shell_args, read_settings, validate_settings, wanted_settings,
}
use run_pilot.Terminal.Sessions.{close}

abbrev pub max_sessions : ℕ
max_sessions = 8

limit_reached : RpcError
limit_reached = refuse (codes "resource_limit") (codes "terminal session limit reached")

create_session : Host → SessionCreate → Plugin → HostResult Session × Plugin
create_session h c pl = let pl1 = called (session_create c) pl in (h.create_session pl1.calls, pl1)

-- PowerShell, where the default shell of Windows cannot be started.
create_or_fallback :
    Host → Bool → SessionCreate → HostResult Session × Plugin → HostResult Session × Plugin
unfolding create_session
create_or_fallback h falls c (ok s, pl) = (ok s, pl)
create_or_fallback h falls c (fail e, pl) = if falls then create_session h c pl else (fail e, pl)

abbrev with_shell : SessionCreate → Bytes → List Bytes → SessionCreate
with_shell c program args = record c { program = program; args = args }

is_windows : Bytes → Bool
is_windows os = str_eq os (codes "windows")

pub record OpenRequest : Type 0 where
  pub working_directory : Bytes
  pub rows : ℤ
  pub columns : ℤ

or_default : ℤ → ℤ → ℤ
or_default n d = if eq_ℤ n (pos 0) then d else n

-- The call that starts the program of the settings, or else the default shell, at 24 rows and 80 columns
-- where the request has no size.
create_for : TerminalSettings → Bytes → OpenRequest → SessionCreate
unfolding or_default default_shell default_shell_args
create_for s os r = record {
  program = if str_eq s.program [] then default_shell os else s.program;
  args = if str_eq s.program [] then default_shell_args os else s.args;
  working_directory = r.working_directory;
  rows = or_default r.rows (pos 24);
  columns = or_default r.columns (pos 80);
}

-- `testSettings`: the session that the host created is kept, and closed by force.
tested : Host → HostResult Session × Plugin → Reply (Unit {0}) × Plugin
tested h (fail e, pl) = (refused (host_error e), pl)
tested h (ok s, pl) = close h s.id true (record pl { sessions = put s.id s pl.sessions })

test_on : Host → TerminalSettings → HostResult Bytes → Plugin → Reply (Unit {0}) × Plugin
unfolding tested create_or_fallback create_session is_windows create_for
test_on h s (fail e) pl = (refused (host_error e), pl)
test_on h s (ok os) pl =
    let unset = str_eq s.program [] in
    let c = create_for s os (record { working_directory = []; rows = pos 0; columns = pos 0 }) in
    tested h (
      create_or_fallback h (is_windows os && unset) (with_shell c (codes "powershell.exe") [])
        (create_session h c pl))

test_valid : Host → TerminalSettings → Option RpcError → Plugin → Reply (Unit {0}) × Plugin
unfolding test_on limit_reached
test_valid h s (some e) pl = (refused e, pl)
test_valid h s none pl =
    let pl1 = called system_status pl in
    if leb max_sessions (length pl.sessions)
    then (refused limit_reached, pl)
    else test_on h s (h.os pl1.calls) pl1

-- `testSettings`, of a request that decodes.
unfoldable pub test_settings : Host → Bytes → List Bytes → Plugin → Reply (Unit {0}) × Plugin
unfolding test_valid validate_settings wanted_settings
test_settings h program args pl =
    let s = wanted_settings program args in test_valid h s (validate_settings s) pl

unfoldable pub running_only : Dict Session → Dict Session
running_only [] = []
running_only ((id, s) ∷ m) =
    let rest = running_only m in if not (is_running s) then rest else (id, s) ∷ rest

-- What the session was started by; the fallback has another program.
opened : Bytes → HostResult Session × Plugin → Reply Session × Plugin
opened program (fail e, pl) = (refused (host_error e), pl)
opened program (ok s, pl) =
    let s1 = record s { command = program } in
    (answered s1, record pl { sessions = put s1.id s1 pl.sessions })

open_fallback : Host → Bool → SessionCreate → HostResult Session × Plugin → Reply Session × Plugin
unfolding opened create_session
open_fallback h falls c (ok s, pl) = opened c.program (ok s, pl)
open_fallback h falls c (fail e, pl) =
    if falls
    then opened (codes "powershell.exe")
        (create_session h (with_shell c (codes "powershell.exe") []) pl)
    else opened c.program (fail e, pl)

open_with : Host → OpenRequest → Bytes → Reply TerminalSettings → Plugin → Reply Session × Plugin
unfolding open_fallback create_session is_windows create_for
open_with h r os (refused e) pl = (refused e, pl)
open_with h r os (answered s) pl =
    let unset = str_eq s.program [] in
    let c = create_for s os r in
    open_fallback h (is_windows os && unset && str_eq c.program (codes "cmd.exe")) c
      (create_session h c pl)

open_on : Host → OpenRequest → HostResult Bytes → Plugin → Reply Session × Plugin
unfolding open_with read_settings
open_on h r (fail e) pl = (refused (host_error e), pl)
open_on h r (ok os) pl = let (s, pl1) = read_settings h pl in open_with h r os s pl1

-- `open`, of a request that decodes.
unfoldable pub open_session : Host → OpenRequest → Plugin → Reply Session × Plugin
unfolding open_on running_only limit_reached
open_session h r pl =
    let pl1 = record pl { sessions = running_only pl.sessions } in
    let pl2 = called system_status pl1 in
    if leb max_sessions (length pl1.sessions)
    then (refused limit_reached, pl1)
    else open_on h r (h.os pl2.calls) pl2
