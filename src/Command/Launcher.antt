-- ===== src/Command/Launcher.antt =====
-- `Build` of internal/launcher/launcher.go. Whether the host is Windows and the environment that it
-- inherits are parameters; the arguments of `exec.Command`, its directory and its environment are the
-- command that is built, and the flags of the platform are left out.
pub mod Environment
pub mod Direct
use run_pilot.Prelude.{
  Bool, List, Option, [], false, if◌then◌else◌, map, none, not, reverse, some, ℕ, ◌&&◌, ◌++◌, ◌==◌,
  ◌||◌, ◌∷◌,
}
use run_pilot.Prelude.Bytes.{Bytes, codes, str_eq}
use run_pilot.Prelude.Dict.{Dict, find}
use run_pilot.Text.{contains, str_lt, to_lower, to_upper, trim_space}
use run_pilot.Command.{CommandSpec, quoted, validate_command}
use run_pilot.Prelude.Result.{Result, and_then, checked, err, ok}

-- `exec.Cmd`: the name and the arguments that it was made of, the directory if set, the environment.
pub record Cmd : Type 0 where
  pub exe : Bytes
  pub argv : List Bytes
  pub dir : Bytes
  pub env : List Bytes

pub record Host : Type 0 where
  pub windows : Bool
  pub environ : List Bytes

is_separator : Bool → ℕ → Bool
is_separator windows c = c == b'/' || windows && c == b'\\'

-- `filepath.Ext` of the path read from its end, with the part after it.
ext_back : Bool → Bytes → Bytes → Bytes
unfolding is_separator
ext_back windows after [] = []
ext_back windows after (c ∷ s) =
    let rest = ext_back windows (c ∷ after) s in
    if is_separator windows c then [] else if c == b'.' then c ∷ after else rest

infer_interpreter : Bool → Bytes → Bytes
unfolding ext_back
infer_interpreter windows path =
    let e = to_lower (ext_back windows [] (reverse path)) in
    if str_eq e (codes ".ps1")
    then codes "powershell"
    else if str_eq e (codes ".bat") || str_eq e (codes ".cmd")
    then codes "cmd"
    else if str_eq e (codes ".py")
    then codes "python"
    else if str_eq e (codes ".sh")
    then codes "sh"
    else if str_eq e (codes ".bash")
    then codes "bash"
    else codes "direct"

without_last : Bytes → Bytes
without_last [] = []
without_last (c ∷ []) = []
without_last (c ∷ d ∷ s) = c ∷ without_last (d ∷ s)

last_is : ℕ → Bytes → Bool
last_is q [] = false
last_is q (c ∷ []) = c == q
last_is q (c ∷ d ∷ s) = last_is q (d ∷ s)

unquoted : Bytes → Bytes
unfolding without_last last_is
unquoted [] = []
unquoted (c ∷ []) = c ∷ []
unquoted (c ∷ d ∷ s) =
    if c == b'"' && last_is b'"' (d ∷ s) || c == b'\'' && last_is b'\'' (d ∷ s)
    then without_last (d ∷ s)
    else c ∷ d ∷ s

trim_outer_quotes : Bytes → Bytes
unfolding unquoted
trim_outer_quotes value = unquoted (trim_space value)

contains_any : Bytes → Bytes → Bool
contains_any s [] = false
contains_any s (c ∷ chars) = contains s c || contains_any s chars

escape_quotes : Bytes → Bytes
escape_quotes [] = []
escape_quotes (c ∷ s) =
    let rest = escape_quotes s in if c == b'"' then b'\\' ∷ b'"' ∷ rest else c ∷ rest

quote_cmd : Bytes → Bytes
unfolding contains_any escape_quotes
quote_cmd s =
    if str_eq s []
    then codes "\"\""
    else if not (contains_any s (codes " \t&()[]{}^=;!'+,`~"))
    then s
    else codes "\"" ++ escape_quotes s ++ codes "\""

join_spaced : Bytes → List Bytes → Bytes
unfolding quote_cmd
join_spaced s [] = s
join_spaced s (a ∷ rest) = s ++ codes " " ++ join_spaced (quote_cmd a) rest

windows_command_line : Bytes → List Bytes → Bytes
unfolding join_spaced quote_cmd
windows_command_line path args = join_spaced (quote_cmd path) args

-- The part before the first `=` (`strings.Cut`), if there is one.
unfoldable pub entry_name : Bytes → Option Bytes
entry_name [] = none
entry_name (c ∷ s) =
    let rest = entry_name s in
    if c == b'=' then some [] else elim rest [ none ↦ none | some name ↦ some (c ∷ name) ]

unfoldable pub canonical_name : Bool → Bytes → Bytes
canonical_name insensitive name = if insensitive then to_upper name else name

-- Whether a configured variable replaces the one that has this canonical name.
overrides : Bool → Bytes → Dict Bytes → Bool
unfolding canonical_name
overrides insensitive name [] = false
overrides insensitive name ((k, v) ∷ vars) =
    str_eq (canonical_name insensitive k) name || overrides insensitive name vars

replaced : Bool → Dict Bytes → Option Bytes → Bool
unfolding overrides
replaced insensitive vars none = false
replaced insensitive vars (some name) = overrides insensitive (canonical_name insensitive name) vars

kept : Bool → Dict Bytes → List Bytes → List Bytes
unfolding replaced entry_name
kept insensitive vars [] = []
kept insensitive vars (e ∷ inherited) =
    let rest = kept insensitive vars inherited in
    if replaced insensitive vars (entry_name e) then rest else e ∷ rest

insert_key : Bytes → List Bytes → List Bytes
insert_key k [] = k ∷ []
insert_key k (j ∷ ks) = let rest = insert_key k ks in if str_lt j k then j ∷ rest else k ∷ j ∷ ks

-- The names in the order of `sort.Strings`.
sorted_keys : Dict Bytes → List Bytes
unfolding insert_key
sorted_keys [] = []
sorted_keys ((k, v) ∷ vars) = insert_key k (sorted_keys vars)

abbrev or_empty : Option Bytes → Bytes
or_empty none = []
or_empty (some s) = s

unfoldable pub entry : Bytes → Bytes → Bytes
entry name value = name ++ codes "=" ++ value

unfoldable pub merge_environment : List Bytes → Dict Bytes → Bool → List Bytes
unfolding kept sorted_keys
merge_environment inherited [] insensitive = inherited
merge_environment inherited ((k, v) ∷ vars) insensitive =
    let configured = (k, v) ∷ vars in
    kept insensitive configured inherited
    ++ map (λ name. entry name (or_empty (find name configured))) (sorted_keys configured)

abbrev chosen : Bool → Bytes → Bytes → Bytes
chosen windows a b = if windows then a else b

-- The executable and its arguments for an interpreter.
invocation : Bool → Bytes → CommandSpec → Result (Bytes × List Bytes)
unfolding windows_command_line trim_outer_quotes
invocation windows interpreter spec =
    if str_eq interpreter (codes "direct")
    then ok (spec.path, spec.args)
    else if str_eq interpreter (codes "powershell")
    then ok (
      chosen windows (codes "powershell.exe") (codes "pwsh"),
      codes "-NoLogo"
          ∷ codes "-NoProfile"
          ∷ codes "-NonInteractive"
          ∷ codes "-File"
          ∷ spec.path
          ∷ spec.args,
    )
    else if str_eq interpreter (codes "cmd")
    then if not windows
      then err (codes "cmd interpreter is only available on Windows")
      else ok (
        codes "cmd.exe",
        codes "/d" ∷ codes "/s" ∷ codes "/c" ∷ windows_command_line spec.path spec.args ∷ [],
      )
    else if str_eq interpreter (codes "sh") || str_eq interpreter (codes "bash")
    then if windows
      then err (interpreter ++ codes " interpreter is only available on Unix-like systems")
      else ok (interpreter, spec.path ∷ spec.args)
    else if str_eq interpreter (codes "sh-inline")
    then if windows
      then err (codes "inline shell commands are only available on Unix-like systems")
      else ok (codes "sh", codes "-c" ∷ trim_outer_quotes spec.path ∷ [])
    else if str_eq interpreter (codes "python")
    then ok (chosen windows (codes "python.exe") (codes "python3"), spec.path ∷ spec.args)
    else err (codes "unsupported interpreter " ++ quoted interpreter)

-- The interpreter of a command, inferred from its path where none is chosen.
interpreter_of : Bool → CommandSpec → Bytes
unfolding infer_interpreter
interpreter_of windows spec =
    let named = to_lower (trim_space spec.interpreter) in
    if str_eq named [] || str_eq named (codes "auto")
    then infer_interpreter windows spec.path
    else named

built : Host → CommandSpec → Bytes × List Bytes → Cmd
unfolding merge_environment
built host spec (exe, argv) = record {
  exe = exe;
  argv = argv;
  dir = spec.working_directory;
  env = merge_environment host.environ spec.environment host.windows;
}

unfoldable pub build : Host → CommandSpec → Result Cmd
unfolding invocation interpreter_of built
build host spec =
    if str_eq (trim_space spec.path) []
    then err (codes "command path is required")
    else checked (validate_command spec) (
        and_then (invocation host.windows (interpreter_of host.windows spec) spec)
          (λ p. ok (built host spec p)))
