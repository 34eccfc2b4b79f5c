-- ===== src/Backup/Older.antt =====
-- Specifications in the older form, which has one source and one destination for every engine and no typed
-- configuration of its provider: what the provider is asked for, and `canonical` of them.
use run_pilot.Jobs.{BackupMode, BackupSpec, copy, mirror, other_mode, unset_mode}
use run_pilot.Prelude.{
  Bool, List, [], arith, false, if◌then◌else◌, none, some, true, ◌++◌, ◌∷◌, ◌≡◌, ◌⊎◌,
}
use run_pilot.Prelude.Int.{eq_ℤ, pos}
use run_pilot.Prelude.Bytes.{Bytes, codes}
use run_pilot.Text.{trim_space}
use run_pilot.Text.Decimal.{itoa}
use run_pilot.Backup.{
  Provider, canonical, non_empty, rdiff_backup_provider, restic_provider, robocopy_provider,
  typed_rdiff_backup, typed_restic, typed_robocopy,
}

-- The typed configuration of the provider is missing.
abbrev pub IsOlder : Provider → BackupSpec → Type 0
IsOlder robocopy_provider spec = spec.robocopy ≡ none
IsOlder restic_provider spec = spec.restic ≡ none
IsOlder rdiff_backup_provider spec = spec.rdiff_backup ≡ none

-- Each of the texts after the flag, and all of them after it once.
abbrev pub each_after : Bytes → List Bytes → List Bytes
each_after flag [] = []
each_after flag (x ∷ xs) = flag ∷ x ∷ each_after flag xs

abbrev pub all_after : Bytes → List Bytes → List Bytes
all_after flag [] = []
all_after flag (x ∷ xs) = flag ∷ x ∷ xs

abbrev pub program : Provider → Bool → Bytes
program robocopy_provider windows = codes "robocopy.exe"
program restic_provider true = codes "restic.exe"
program restic_provider false = codes "restic"
program rdiff_backup_provider true = codes "rdiff-backup.exe"
program rdiff_backup_provider false = codes "rdiff-backup"

abbrev pub copy_flag : BackupMode → Bytes
copy_flag mirror = codes "/MIR"
copy_flag copy = codes "/E"
copy_flag unset_mode = codes "/E"
copy_flag (other_mode m) = codes "/E"

-- The options of robocopy, with five seconds to wait where the specification has none.
abbrev pub robocopy_options : BackupSpec → List Bytes
robocopy_options spec =
    codes "/COPY:DAT"
    ∷ codes "/DCOPY:DAT"
    ∷ codes "/XJ"
    ∷ (codes "/R:" ++ itoa spec.retries)
    ∷ (codes "/W:"
        ++ itoa (if eq_ℤ spec.retry_wait_seconds (pos 0) then pos 5 else spec.retry_wait_seconds))
    ∷ codes "/NP"
    ∷ []

-- What the provider is to copy: the source to the destination, less what is excluded.
abbrev pub copying : Provider → BackupSpec → List Bytes
copying robocopy_provider spec =
    (spec.source ∷ spec.destination ∷ copy_flag spec.mode ∷ robocopy_options spec)
    ++ (all_after (codes "/XD") spec.exclude_dirs
        ++ (all_after (codes "/XF") spec.exclude_files ++ spec.additional_args))
copying restic_provider spec =
    codes "--repo"
      ∷ spec.destination
      ∷ codes "backup"
      ∷ each_after (codes "--exclude") (non_empty (spec.exclude_dirs ++ spec.exclude_files))
    ++ (trim_space spec.source ∷ [])
copying rdiff_backup_provider spec =
    each_after (codes "--exclude") (non_empty (spec.exclude_dirs ++ spec.exclude_files))
    ++ (spec.source ∷ spec.destination ∷ [])

pub canonical-engine : (spec : BackupSpec) → (canonical spec).engine ≡ spec.engine
unfolding canonical
canonical-engine spec = ground arith

-- A specification that passes the validation of a provider has its typed configuration, which is that of
-- the older form when it was missing.
pub canonical-robocopy :
    (spec : BackupSpec)
    → spec.robocopy ≡ none
    → ((canonical spec).robocopy ≡ none) ⊎ ((canonical spec).robocopy ≡ some (typed_robocopy spec))
unfolding canonical
canonical-robocopy spec e = ground arith

pub canonical-restic :
    (spec : BackupSpec)
    → spec.restic ≡ none
    → ((canonical spec).restic ≡ none) ⊎ ((canonical spec).restic ≡ some (typed_restic spec))
unfolding canonical
canonical-restic spec e = ground arith

pub canonical-rdiff_backup :
    (spec : BackupSpec)
    → spec.rdiff_backup ≡ none
    → ((canonical spec).rdiff_backup ≡ none)
      ⊎ ((canonical spec).rdiff_backup ≡ some (typed_rdiff_backup spec))
unfolding canonical
canonical-rdiff_backup spec e = ground arith
