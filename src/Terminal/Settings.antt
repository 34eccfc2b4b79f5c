-- ===== src/Terminal/Settings.antt =====
-- The settings of the terminal plugin: `readSettings`, `validateSettings`, `getSettings`, `setSettings`
-- and the default shells.
use run_pilot.Tasks.Host.{HostResult, fail, ok}
use run_pilot.Prelude.{
  Bool, List, Option, [], arith, false, if◌then◌else◌, none, not, some, true, ◌&&◌, ◌||◌, ◌∷◌, ◌≡◌,
}
use run_pilot.Prelude.Int.{eq_ℤ, pos}
use run_pilot.Prelude.Bytes.{Bytes, codes, str_eq}
use run_pilot.Text.{contains, trim_space}
use run_pilot.Terminal.{
  Host, Plugin, Reply, RpcError, Stored, TerminalSettings, absent, answered, called, done,
  host_error, refuse, refused, storage_get, storage_set, stored, system_status, unreadable,
}

abbrev pub default_settings : TerminalSettings
default_settings = record { version = pos 1; program = []; args = [] }

any_nul : List Bytes → Bool
any_nul [] = false
any_nul (a ∷ more) = contains a 0 || any_nul more

is_empty : List Bytes → Bool
is_empty [] = true
is_empty (a ∷ more) = false

unfoldable pub validate_settings : TerminalSettings → Option RpcError
unfolding any_nul is_empty
validate_settings s =
    if contains s.program 0
    then some (
        refuse (codes "invalid_argument")
          (codes "terminal command must not contain NUL characters"))
    else if str_eq s.program [] && not (is_empty s.args)
    then some (refuse (codes "invalid_argument") (codes "terminal arguments require a command"))
    else if any_nul s.args
    then some (
        refuse (codes "invalid_argument")
          (codes "terminal arguments must not contain NUL characters"))
    else none

valid_or_refused : TerminalSettings → Option RpcError → Reply TerminalSettings
valid_or_refused s none = answered s
valid_or_refused s (some e) = refused e

settings_of : HostResult Stored → Reply TerminalSettings
unfolding valid_or_refused validate_settings
settings_of (fail e) = refused (host_error e)
settings_of (ok absent) = answered default_settings
settings_of (ok unreadable) =
    refused
      (refuse (codes "invalid_configuration") (codes "stored terminal settings are unreadable"))
settings_of (ok (stored s)) =
    if not (eq_ℤ s.version (pos 1))
    then refused
        (refuse (codes "invalid_configuration") (codes "unsupported terminal settings version"))
    else valid_or_refused s (validate_settings s)

unfoldable pub read_settings : Host → Plugin → Reply TerminalSettings × Plugin
unfolding settings_of
read_settings h pl = let pl1 = called storage_get pl in (settings_of (h.get_storage pl1.calls), pl1)

unfoldable pub default_shell : Bytes → Bytes
default_shell os = if str_eq os (codes "windows") then codes "cmd.exe" else codes "/bin/sh"

unfoldable pub default_shell_args : Bytes → List Bytes
default_shell_args os =
    if str_eq os (codes "linux")
    then codes "-c"
      ∷ codes
          "if [ -n \"$SHELL\" ] && [ -x \"$SHELL\" ]; then exec \"$SHELL\"; else exec /bin/sh; fi"
      ∷ []
    else []

-- The settings with the shell that stands in for them.
pub record SettingsView : Type 0 where
  pub settings : TerminalSettings
  pub default_command : Bytes

with_default : TerminalSettings → HostResult Bytes → Reply SettingsView
unfolding default_shell
with_default s (fail e) = refused (host_error e)
with_default s (ok os) = answered (record { settings = s; default_command = default_shell os })

get_from : Host → Reply TerminalSettings → Plugin → Reply SettingsView × Plugin
unfolding with_default
get_from h (refused e) pl = (refused e, pl)
get_from h (answered s) pl =
    let pl1 = called system_status pl in (with_default s (h.os pl1.calls), pl1)

unfoldable pub get_settings : Host → Plugin → Reply SettingsView × Plugin
unfolding read_settings get_from
get_settings h pl = let (s, pl1) = read_settings h pl in get_from h s pl1

-- The settings of a request, with the command trimmed and the version 1.
unfoldable pub wanted_settings : Bytes → List Bytes → TerminalSettings
wanted_settings program args = record { version = pos 1; program = trim_space program; args = args }

store : Host → TerminalSettings → Option RpcError → Plugin → Reply TerminalSettings × Plugin
store h s (some e) pl = (refused e, pl)
store h s none pl = let pl1 = called (storage_set s) pl in (done s (h.set_storage pl1.calls), pl1)

set_from :
    Host → Reply TerminalSettings → TerminalSettings → Plugin → Reply TerminalSettings × Plugin
unfolding store validate_settings
set_from h (refused e) s pl = (refused e, pl)
set_from h (answered old) s pl = store h s (validate_settings s) pl

-- `setSettings`, of a request that decodes.
unfoldable pub set_settings : Host → Bytes → List Bytes → Plugin → Reply TerminalSettings × Plugin
unfolding read_settings set_from wanted_settings
set_settings h program args pl =
    let (old, pl1) = read_settings h pl in set_from h old (wanted_settings program args) pl1

-- The settings are read and written beside the sessions.
pub get_settings-sessions : (h : Host) (pl : Plugin) → (get_settings h pl).1.sessions ≡ pl.sessions
unfolding get_settings get_from read_settings called
get_settings-sessions h pl = ground arith

pub set_settings-sessions :
    (h : Host) (program : Bytes) (args : List Bytes) (pl : Plugin)
    → (set_settings h program args pl).1.sessions ≡ pl.sessions
unfolding set_settings set_from store read_settings called
set_settings-sessions h program args pl = ground arith
