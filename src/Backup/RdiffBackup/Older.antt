-- ===== src/Backup/RdiffBackup/Older.antt =====
-- The command of rdiff-backup for a specification in the older form.
use run_pilot.Jobs.{BackupSpec, RdiffBackupSpec}
use run_pilot.Backup.Older.{copying, each_after, program}
use run_pilot.Prelude.{
  Bool, List, Option, [], ap, false, inl, inr, none, refl, some, true, ◌++◌, ◌∙◌, ◌∷◌, ◌≡◌, ◌⊎◌,
}
use run_pilot.Prelude.Bytes.{Bytes, codes, str_eq}
use run_pilot.Text.{trim_space}
use run_pilot.Prelude.Result.{ok}
use run_pilot.Backup.{Plan, Step, direct, non_empty, rdiff_backup_provider, typed_rdiff_backup}
use run_pilot.Backup.RdiffBackup.{
  check, exclude_args, executable, plan, planned, retention_step, step, verify_step,
}

exclude_args-each_after : (xs : List Bytes) → exclude_args xs ≡ each_after (codes "--exclude") xs
unfolding exclude_args
exclude_args-each_after [] = refl
exclude_args-each_after (x ∷ xs) = ap (λ r. codes "--exclude" ∷ x ∷ r) (exclude_args-each_after xs)

executable-program :
    (windows : Bool) (spec : BackupSpec)
    → executable windows (typed_rdiff_backup spec) ≡ program rdiff_backup_provider windows
unfolding executable typed_rdiff_backup trim_space str_eq
executable-program true spec = refl
executable-program false spec = refl

pub rdiff_backup-copying :
    (windows : Bool) (spec : BackupSpec) (r : Option RdiffBackupSpec)
    → (r ≡ none) ⊎ (r ≡ some (typed_rdiff_backup spec))
    → check r ≡ none
    → (made : Plan) × (s : Step) × (plan windows r ≡ some (ok made))
      × (made.steps ≡ s ∷ [])
      × (s.command
          ≡ direct (program rdiff_backup_provider windows) (copying rdiff_backup_provider spec))
unfolding plan planned step retention_step verify_step check typed_rdiff_backup
rdiff_backup-copying windows spec r (inl missing) h =
    let h' : check none ≡ none = rw missing at h in cc
rdiff_backup-copying windows spec r (inr typed) h =
    let t = typed_rdiff_backup spec in
    let excludes = non_empty (spec.exclude_dirs ++ spec.exclude_files) in
    let ends = spec.source ∷ spec.destination ∷ [] in
    (
      planned windows t,
      step windows t (codes "backup") (exclude_args excludes ++ ends),
      rw typed refl,
      refl,
      ap (λ x. direct x (exclude_args excludes ++ ends)) (executable-program windows spec)
          ∙ ap (λ l. direct (program rdiff_backup_provider windows) (l ++ ends))
              (exclude_args-each_after excludes),
    )
