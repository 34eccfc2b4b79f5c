-- ===== src/Jobs.antt =====
-- The jobs of the host: the definitions of internal/model/model.go and `NormalizeJob` of
-- internal/model/defaults.go. A pointer is an `Option`, and `int` has 64 bits.
pub mod Runner
mod Tests
use run_pilot.Schedule.{ScheduleSpec}
use run_pilot.Prelude.{
  Bool, List, Option, [], arith, false, if◌then◌else◌, none, some, true, ◌&&◌, ◌≡◌,
}
use run_pilot.Prelude.Int.{leb_ℤ, ltb_ℤ, pos, ℤ}
use run_pilot.Prelude.Bytes.{Bytes, codes, str_eq}

pub data BackupMode : Type 0 where
  unset_mode copy mirror : BackupMode
  other_mode : Bytes → BackupMode

pub record RobocopyBackupSpec : Type 0 where
  pub source : Bytes
  pub destination : Bytes
  pub mode : BackupMode
  pub exclude_dirs : List Bytes
  pub exclude_files : List Bytes
  pub retries : ℤ
  pub retry_wait_seconds : ℤ
  pub additional_args : List Bytes

pub record ResticRetention : Type 0 where
  pub keep_last : ℤ
  pub keep_daily : ℤ
  pub keep_weekly : ℤ
  pub keep_monthly : ℤ
  pub keep_yearly : ℤ
  pub keep_within : Bytes
  pub prune : Bool

pub record ResticBackupSpec : Type 0 where
  pub executable : Bytes
  pub repository : Bytes
  pub password_file : Bytes
  pub sources : List Bytes
  pub excludes : List Bytes
  pub tags : List Bytes
  pub use_vss : Bool
  pub retention : Option ResticRetention
  pub check_after_backup : Bool

pub record RdiffBackupRetention : Type 0 where
  pub older_than : Bytes

pub record RdiffBackupSpec : Type 0 where
  pub executable : Bytes
  pub source : Bytes
  pub destination : Bytes
  pub excludes : List Bytes
  pub retention : Option RdiffBackupRetention
  pub verify_after_backup : Bool

pub record BackupSpec : Type 0 where
  pub engine : Bytes
  pub robocopy : Option RobocopyBackupSpec
  pub restic : Option ResticBackupSpec
  pub rdiff_backup : Option RdiffBackupSpec
  pub source : Bytes
  pub destination : Bytes
  pub mode : BackupMode
  pub exclude_dirs : List Bytes
  pub exclude_files : List Bytes
  pub retries : ℤ
  pub retry_wait_seconds : ℤ
  pub additional_args : List Bytes

pub data JobType : Type 0 where
  backup : JobType
  other_job : Bytes → JobType

pub record JobDefinition : Type 0 where
  pub id : Bytes
  pub name : Bytes
  pub description : Bytes
  pub enabled : Bool
  pub type : JobType
  pub schedule : ScheduleSpec
  pub overlap_policy : Bytes
  pub timeout_seconds : ℤ
  pub backup_spec : Option BackupSpec

-- The fields of the older form, gathered into the typed one and cleared.
gather : BackupSpec → BackupSpec
gather b = record b {
  robocopy = some (record {
    source = b.source;
    destination = b.destination;
    mode = b.mode;
    exclude_dirs = b.exclude_dirs;
    exclude_files = b.exclude_files;
    retries = b.retries;
    retry_wait_seconds = b.retry_wait_seconds;
    additional_args = b.additional_args;
  });
  source = [];
  destination = [];
  mode = unset_mode;
  exclude_dirs = [];
  exclude_files = [];
  additional_args = [];
  retries = pos 0;
  retry_wait_seconds = pos 0;
}

mode_or_copy : BackupMode → BackupMode
mode_or_copy unset_mode = copy
mode_or_copy copy = copy
mode_or_copy mirror = mirror
mode_or_copy (other_mode m) = other_mode m

robocopy_defaults : Option RobocopyBackupSpec → Option RobocopyBackupSpec
unfolding mode_or_copy
robocopy_defaults none = none
robocopy_defaults (some r) = some (record r {
  mode = mode_or_copy r.mode;
  retries = if ltb_ℤ r.retries (pos 0) then pos 0 else r.retries;
  retry_wait_seconds = if leb_ℤ r.retry_wait_seconds (pos 0) then pos 5 else r.retry_wait_seconds;
})

abbrev pub is_missing {ℓ} : {A : Type ℓ} → Option A → Bool
is_missing none = true
is_missing (some a) = false

normalize_backup : BackupSpec → BackupSpec
unfolding gather robocopy_defaults
normalize_backup b =
    let b1 = record b { engine = if str_eq b.engine [] then codes "robocopy" else b.engine } in
    let b2 =
      if str_eq b1.engine (codes "robocopy") && is_missing b1.robocopy then gather b1 else b1 in
    record b2 { robocopy = robocopy_defaults b2.robocopy }

normalize_job_backup : JobType → Option BackupSpec → Option BackupSpec
unfolding normalize_backup
normalize_job_backup backup none = none
normalize_job_backup backup (some b) = some (normalize_backup b)
normalize_job_backup (other_job t) b = b

unfoldable pub normalize_job : JobDefinition → JobDefinition
unfolding normalize_job_backup
normalize_job j = record j {
  overlap_policy = if str_eq j.overlap_policy [] then codes "skip" else j.overlap_policy;
  backup_spec = normalize_job_backup j.type j.backup_spec;
}

-- Normalising a normalised job changes nothing.
pub normalize_job_idem : (j : JobDefinition) → normalize_job (normalize_job j) ≡ normalize_job j
unfolding normalize_job
normalize_job_idem j = ground (arith)
