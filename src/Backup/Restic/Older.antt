-- ===== src/Backup/Restic/Older.antt =====
-- The command of restic for a specification in the older form.
use mathlib.Core.List.{append-nil}
use run_pilot.Jobs.{BackupSpec, ResticBackupSpec}
use run_pilot.Backup.Older.{copying, each_after, program}
use run_pilot.Prelude.{
  Bool, List, Option, [], ap, arith, false, inl, inr, none, refl, some, true, ◌++◌, ◌∙◌, ◌∷◌, ◌≡◌,
  ◌⊎◌,
}
use run_pilot.Prelude.Bytes.{Bytes, codes, str_eq}
use run_pilot.Text.{trim_space}
use run_pilot.Prelude.Result.{ok}
use run_pilot.Backup.{Plan, Step, direct, non_empty, restic_provider, typed_restic}
use run_pilot.Backup.Restic.{
  backup_args, base, check, check_step, executable, flagged, is_empty, plan, planned,
  retention_step, step,
}

flagged-each_after : (flag : Bytes) (xs : List Bytes) → flagged flag xs ≡ each_after flag xs
unfolding flagged
flagged-each_after flag [] = refl
flagged-each_after flag (x ∷ xs) = ap (λ r. flag ∷ x ∷ r) (flagged-each_after flag xs)

non_empty-source :
    (source : Bytes)
    → is_empty (non_empty (source ∷ [])) ≡ false
    → non_empty (source ∷ []) ≡ trim_space source ∷ []
unfolding is_empty non_empty
non_empty-source source h = ground arith

-- No tags and no snapshot.
append-nothing : (xs ys : List Bytes) → xs ++ [] ++ [] ++ ys ≡ xs ++ ys
append-nothing xs ys = ap (λ l. l ++ ys) (append-nil (xs ++ []) ∙ append-nil xs)

backup_args-copying :
    (spec : BackupSpec)
    → is_empty (non_empty (spec.source ∷ [])) ≡ false
    → backup_args (typed_restic spec) ≡ copying restic_provider spec
unfolding backup_args base typed_restic trim_space str_eq flagged non_empty
backup_args-copying spec h =
    let excludes = non_empty (spec.exclude_dirs ++ spec.exclude_files) in
    let head = λ (l : List Bytes). codes "--repo" ∷ spec.destination ∷ codes "backup" ∷ l in
    ap head (append-nothing (flagged (codes "--exclude") excludes) (non_empty (spec.source ∷ [])))
    ∙ ap (λ l. head (l ++ non_empty (spec.source ∷ [])))
        (flagged-each_after (codes "--exclude") excludes)
    ∙ ap (λ l. head (each_after (codes "--exclude") excludes ++ l)) (non_empty-source spec.source h)

executable-program :
    (windows : Bool) (spec : BackupSpec)
    → executable windows (typed_restic spec) ≡ program restic_provider windows
unfolding executable typed_restic trim_space str_eq
executable-program true spec = refl
executable-program false spec = refl

typed_source :
    (spec : BackupSpec)
    → check (some (typed_restic spec)) ≡ none
    → is_empty (non_empty (spec.source ∷ [])) ≡ false
unfolding check typed_restic
typed_source spec h = ground arith

pub restic-copying :
    (windows : Bool) (spec : BackupSpec) (r : Option ResticBackupSpec)
    → (r ≡ none) ⊎ (r ≡ some (typed_restic spec))
    → check r ≡ none
    → (made : Plan) × (s : Step) × (plan windows r ≡ some (ok made))
      × (made.steps ≡ s ∷ [])
      × (s.command ≡ direct (program restic_provider windows) (copying restic_provider spec))
unfolding plan planned step retention_step check_step check typed_restic
restic-copying windows spec r (inl missing) h = let h' : check none ≡ none = rw missing at h in cc
restic-copying windows spec r (inr typed) h =
    let t = typed_restic spec in
    let h' : check (some t) ≡ none = rw typed at h in
    (
      planned windows t,
      step windows t (codes "backup") (backup_args t),
      rw typed refl,
      refl,
      ap (λ x. direct x (backup_args t)) (executable-program windows spec)
          ∙ ap (λ args. direct (program restic_provider windows) args)
              (backup_args-copying spec (typed_source spec h')),
    )
