-- ===== src/Processes/Run.antt =====
-- A process that a plugin runs to its end, internal/core/plugin_process_run.go: the checks of the request,
-- the captured output (`runCapture`), and the answer. The directory of a workspace and the run itself are
-- given (`workspace`, `execution`); a request that is too long or does not decode is `malformed`.
pub mod Capture
use run_pilot.Prelude.{
  Bool, List, Option, [], drop, false, if◌then◌else◌, length, ltb, none, not, some, suc, take, true,
  zero, ℕ, ◌&&◌, ◌++◌, ◌-◌, ◌||◌, ◌∷◌,
}
use run_pilot.Prelude.Int.{ltb_ℤ, negsuc, pos, ℤ}
use run_pilot.Prelude.Bytes.{Bytes, codes, str_eq}
use run_pilot.Prelude.Dict.{Dict}
use run_pilot.Command.{validate_environment}
use run_pilot.Processes.{
  Failure, any_long, any_long_variable, host_failure, invalid_process, max_args, max_environment,
  max_string,
}

abbrev max_run_timeout_seconds : ℕ
max_run_timeout_seconds = 110

abbrev max_run_output_bytes : ℕ
max_run_output_bytes = 2097152

pub record RunCapture : Type 0 where
  pub bytes : Bytes
  pub max : ℕ
  pub truncated : Bool
  pub tail : Bool

unfoldable pub new_capture : ℕ → Bool → RunCapture
new_capture max tail = record { bytes = []; max = max; truncated = false; tail = tail }

write_tail : Bytes → RunCapture → RunCapture
write_tail p c =
    let b = c.bytes ++ p in
    if ltb c.max (length b)
    then record c { bytes = drop (length b - c.max) b; truncated = true }
    else record c { bytes = b }

-- The space that is left is not negative, and at 0 nothing is taken.
write_head : Bytes → RunCapture → RunCapture
write_head p c =
    let space = c.max - length c.bytes in
    let taken = if ltb (length p) space then length p else space in
    record c {
      bytes = c.bytes ++ take taken p;
      truncated = if ltb taken (length p) then true else c.truncated;
    }

-- `Write`.
unfoldable pub write : Bytes → RunCapture → RunCapture
unfolding write_tail write_head
write p c = if c.tail then write_tail p c else write_head p c

unfoldable pub writes : List Bytes → RunCapture → RunCapture
writes [] c = c
writes (p ∷ ps) c = writes ps (write p c)

-- `pluginRunInput`.
pub record RunInput : Type 0 where
  pub command : Bytes
  pub args : List Bytes
  pub working_directory : Bytes
  pub workspace_directory : Bytes
  pub environment : Dict Bytes
  pub timeout_seconds : ℤ
  pub max_output_bytes : ℤ
  pub tail_output : Bool

pub data RunRequest : Type 0 where
  malformed : RunRequest
  decoded : RunInput → RunRequest

out_of_bounds : RunInput → Bool
out_of_bounds r =
    str_eq r.command []
    || ltb max_string (length r.command)
    || ltb max_args (length r.args)
    || ltb max_environment (length r.environment)
    || ltb max_string (length r.working_directory)
    || ltb 1024 (length r.workspace_directory)
    || ltb_ℤ r.timeout_seconds (pos 0)
    || ltb_ℤ (pos max_run_timeout_seconds) r.timeout_seconds
    || ltb_ℤ r.max_output_bytes (pos 0)
    || ltb_ℤ (pos max_run_output_bytes) r.max_output_bytes

unfoldable pub check_run : RunInput → Option Failure
unfolding out_of_bounds
check_run r =
    if out_of_bounds r
    then some (invalid_process (codes "invalid bounded process request"))
    else if any_long r.args
    then some (invalid_process (codes "argument is too long"))
    else if any_long_variable r.environment
    then some (invalid_process (codes "environment value is too long"))
    else elim (validate_environment r.environment) [
      | some e ↦ some (invalid_process e)
      | none ↦
          if not (str_eq r.workspace_directory []) && not (str_eq r.working_directory [])
          then some (invalid_process (codes "choose one working directory"))
          else none
    ]

-- What is run: with 30 seconds and 256 KiB where the request does not say.
pub record Settings : Type 0 where
  pub input : RunInput
  pub directory : Bytes
  pub timeout : ℕ
  pub max_output : ℕ

or_default : ℤ → ℕ → ℕ
or_default z d = elim z [ pos zero ↦ d | pos (suc n) ↦ suc n | negsuc n ↦ d ]

unfoldable pub settings_of : RunInput → Bytes → Settings
unfolding or_default
settings_of r directory = record {
  input = r;
  directory = directory;
  timeout = or_default r.timeout_seconds 30;
  max_output = or_default r.max_output_bytes 262144;
}

-- What the command comes to: its executable is not found, it has no state, or it ends with a code, an
-- error of `Run` or none, at the deadline or not, after these pieces of output.
pub data RunEnd : Type 0 where
  executable_missing : RunEnd
  no_state : Bytes → RunEnd
  run_ended : ℤ → Bool → Bool → List Bytes → List Bytes → RunEnd

pub record RunAnswer : Type 0 where
  pub exit_code : ℤ
  pub success : Bool
  pub timed_out : Bool
  pub stdout : Bytes
  pub stderr : Bytes
  pub stdout_truncated : Bool
  pub stderr_truncated : Bool

pub data RunReply : Type 0 where
  answered : RunAnswer → RunReply
  refused : Failure → RunReply

abbrev capture_of : Settings → List Bytes → RunCapture
capture_of s pieces = writes pieces (new_capture s.max_output s.input.tail_output)

answer : Settings → RunEnd → RunReply
answer s executable_missing =
    refused (host_failure (codes "not_found") (codes "executable not found"))
answer s (no_state e) = refused (host_failure (codes "failed") e)
answer s (run_ended code run_failed late out errors) = answered (record {
  exit_code = code;
  success = not run_failed && not late;
  timed_out = late;
  stdout = (capture_of s out).bytes;
  stderr = (capture_of s errors).bytes;
  stdout_truncated = (capture_of s out).truncated;
  stderr_truncated = (capture_of s errors).truncated;
})

pub data Directory : Type 0 where
  found : Bytes → Directory
  not_found : Failure → Directory

module _ (workspace : Bytes → Directory) (execution : Settings → RunEnd) where
  run_in : RunInput → Directory → RunReply
  unfolding answer
  run_in r (not_found e) = refused e
  run_in r (found d) = let s = settings_of r d in answer s (execution s)

  run_checked : RunInput → Option Failure → RunReply
  unfolding run_in
  run_checked r (some e) = refused e
  run_checked r none = run_in r (
      if str_eq r.workspace_directory []
      then found r.working_directory
      else workspace r.workspace_directory)

  -- `pluginProcessRun`.
  unfoldable pub process_run : RunRequest → RunReply
  unfolding run_checked
  process_run malformed = refused (invalid_process (codes "invalid bounded process request"))
  process_run (decoded r) = run_checked r (check_run r)
