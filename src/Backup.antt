-- ===== src/Backup.antt =====
-- The backup plans of internal/backup: the provider of an engine and the typed form of a specification
-- (backup.go). `windows` stands for `runtime.GOOS == "windows"`; an error is its text, with %q as plain
-- quotes.
pub mod Robocopy
pub mod Restic
pub mod RdiffBackup
pub mod Older
pub mod Build
pub mod Execute
mod Tests
use run_pilot.Jobs.{
  BackupMode, BackupSpec, ResticBackupSpec, RdiffBackupSpec, RobocopyBackupSpec, copy, is_missing,
  mirror, other_mode, unset_mode,
}
use run_pilot.Prelude.{
  Bool, List, [], false, if◌then◌else◌, none, not, some, ◌&&◌, ◌++◌, ◌||◌, ◌∷◌, ◌≡◌,
}
use run_pilot.Prelude.Int.{eq_ℤ, pos, ℤ}
use run_pilot.Prelude.Bytes.{Bytes, codes, str_eq}
use run_pilot.Text.{to_lower, trim_space}
use run_pilot.Command.{CommandSpec, quoted}
use run_pilot.Prelude.Result.{Result, err, ok}

pub record Capabilities : Type 0 where
  pub retention : Bool
  pub verification : Bool
  pub versioned : Bool
  pub direct_mirror : Bool

pub record Step : Type 0 where
  pub name : Bytes
  pub command : CommandSpec
  pub success : ℤ → Bool

pub record Plan : Type 0 where
  pub provider : Bytes
  pub steps : List Step

pub data Provider : Type 0 where
  robocopy_provider restic_provider rdiff_backup_provider : Provider

unfoldable pub provider_for : Bytes → Result Provider
provider_for engine =
    let e = to_lower (trim_space engine) in
    if str_eq e [] || str_eq e (codes "robocopy")
    then ok robocopy_provider
    else if str_eq e (codes "restic")
    then ok restic_provider
    else if str_eq e (codes "rdiff-backup") || str_eq e (codes "rdiffbackup")
    then ok rdiff_backup_provider
    else err (codes "unsupported backup provider " ++ quoted engine)

-- `strings.EqualFold`, with a text in lower case.
abbrev equal_fold : Bytes → Bytes → Bool
equal_fold s t = str_eq (to_lower s) t

canonical_mode : BackupMode → BackupMode
canonical_mode unset_mode = copy
canonical_mode copy = copy
canonical_mode mirror = mirror
canonical_mode (other_mode m) = other_mode m

unfoldable pub typed_robocopy : BackupSpec → RobocopyBackupSpec
unfolding canonical_mode
typed_robocopy spec = record {
  source = spec.source;
  destination = spec.destination;
  mode = canonical_mode spec.mode;
  exclude_dirs = spec.exclude_dirs;
  exclude_files = spec.exclude_files;
  retries = spec.retries;
  retry_wait_seconds =
      if eq_ℤ spec.retry_wait_seconds (pos 0) then pos 5 else spec.retry_wait_seconds;
  additional_args = spec.additional_args;
}

unfoldable pub typed_restic : BackupSpec → ResticBackupSpec
typed_restic spec = record {
  executable = [];
  repository = spec.destination;
  password_file = [];
  sources = spec.source ∷ [];
  excludes = spec.exclude_dirs ++ spec.exclude_files;
  tags = [];
  use_vss = false;
  retention = none;
  check_after_backup = false;
}

unfoldable pub typed_rdiff_backup : BackupSpec → RdiffBackupSpec
typed_rdiff_backup spec = record {
  executable = [];
  source = spec.source;
  destination = spec.destination;
  excludes = spec.exclude_dirs ++ spec.exclude_files;
  retention = none;
  verify_after_backup = false;
}

canonical_robocopy : BackupSpec → BackupSpec
unfolding typed_robocopy
canonical_robocopy spec =
    if (str_eq spec.engine [] || equal_fold spec.engine (codes "robocopy"))
      && is_missing spec.robocopy
    then record spec { robocopy = some (typed_robocopy spec) }
    else spec

canonical_restic : BackupSpec → BackupSpec
unfolding typed_restic
canonical_restic spec =
    if equal_fold spec.engine (codes "restic") && is_missing spec.restic
    then record spec { restic = some (typed_restic spec) }
    else spec

canonical_rdiff_backup : BackupSpec → BackupSpec
unfolding typed_rdiff_backup
canonical_rdiff_backup spec =
    if (equal_fold spec.engine (codes "rdiff-backup")
        || equal_fold spec.engine (codes "rdiffbackup"))
      && is_missing spec.rdiff_backup
    then record spec { rdiff_backup = some (typed_rdiff_backup spec) }
    else spec

unfoldable pub canonical : BackupSpec → BackupSpec
unfolding canonical_robocopy canonical_restic canonical_rdiff_backup
canonical spec = canonical_rdiff_backup (canonical_restic (canonical_robocopy spec))

unfoldable pub exit_zero : ℤ → Bool
exit_zero code = eq_ℤ code (pos 0)

-- `nonEmpty`: the texts that are not blank, trimmed.
unfoldable pub non_empty : List Bytes → List Bytes
non_empty [] = []
non_empty (v ∷ vs) =
    let rest = non_empty vs in
    let v1 = trim_space v in if not (str_eq v1 []) then v1 ∷ rest else rest

-- The command of a step, run directly.
abbrev pub direct : Bytes → List Bytes → CommandSpec
direct path args = record {
  path = path;
  args = args;
  working_directory = [];
  environment = [];
  interpreter = codes "direct";
}

abbrev pub is_blank : Bytes → Bool
is_blank s = str_eq (trim_space s) []

-- A step whose command is run directly, with nothing set in its environment.
pub record IsRunnable (s : Step) : Type 0 where
  pub has_path : is_blank s.command.path ≡ false
  pub is_direct : s.command.interpreter ≡ codes "direct"
  pub sets_nothing : s.command.environment ≡ []
