-- ===== src/Backup/Robocopy/Older.antt =====
-- The command of robocopy for a specification in the older form.
use run_pilot.Jobs.{
  BackupMode, BackupSpec, RobocopyBackupSpec, copy, mirror, other_mode, unset_mode,
}
use mathlib.Core.List.{append_assoc}
use run_pilot.Backup.Older.{all_after, copy_flag, copying, program, robocopy_options}
use run_pilot.Prelude.{
  Bool, List, Option, [], ap, inl, inr, none, refl, some, ◌++◌, ◌||◌, ◌∙◌, ◌∷◌, ◌≡◌, ◌⊎◌,
}
use run_pilot.Prelude.Bytes.{Bytes, codes}
use run_pilot.Prelude.Result.{if-eq-none, ok}
use run_pilot.Backup.{
  Plan, Step, canonical_mode, direct, is_blank, robocopy_provider, typed_robocopy,
}
use run_pilot.Backup.Robocopy.{
  check, check-known_mode, excluded, known_mode, mode_args, plan, planned,
}

excluded-all_after : (flag : Bytes) (xs : List Bytes) → excluded flag xs ≡ all_after flag xs
unfolding excluded
excluded-all_after flag [] = refl
excluded-all_after flag (x ∷ xs) = refl

mode_args-copy_flag :
    (m : BackupMode)
    → known_mode (canonical_mode m) ≡ none
    → mode_args (canonical_mode m) ≡ ok (copy_flag m ∷ [])
unfolding mode_args canonical_mode known_mode
mode_args-copy_flag unset_mode h = refl
mode_args-copy_flag copy h = refl
mode_args-copy_flag mirror h = refl
mode_args-copy_flag (other_mode m) h = cc

-- The end of the arguments.
excluded-copying :
    (dirs files more : List Bytes)
    → excluded (codes "/XD") dirs ++ excluded (codes "/XF") files ++ more
      ≡ all_after (codes "/XD") dirs ++ (all_after (codes "/XF") files ++ more)
excluded-copying dirs files more =
    append_assoc (excluded (codes "/XD") dirs) (excluded (codes "/XF") files) more
    ∙ ap (λ l. l ++ (excluded (codes "/XF") files ++ more)) (excluded-all_after (codes "/XD") dirs)
    ∙ ap (λ l. all_after (codes "/XD") dirs ++ (l ++ more)) (excluded-all_after (codes "/XF") files)

pub robocopy-copying :
    (windows : Bool) (spec : BackupSpec) (r : Option RobocopyBackupSpec)
    → (r ≡ none) ⊎ (r ≡ some (typed_robocopy spec))
    → check r ≡ none
    → (made : Plan) × (s : Step) × (plan r ≡ some (ok made))
      × (made.steps ≡ s ∷ [])
      × (s.command ≡ direct (program robocopy_provider windows) (copying robocopy_provider spec))
unfolding plan planned check typed_robocopy
robocopy-copying windows spec r (inl missing) h = let h' : check none ≡ none = rw missing at h in cc
robocopy-copying windows spec r (inr typed) h =
    let h' : check (some (typed_robocopy spec)) ≡ none = rw typed at h in
    let (_, modes) = if-eq-none (is_blank spec.source || is_blank spec.destination) _ _ h' in
    let e =
      mode_args-copy_flag spec.mode
        (check-known_mode (typed_robocopy spec) (known_mode (canonical_mode spec.mode)) modes) in
    let t = typed_robocopy spec in
    let p = planned t (copy_flag spec.mode ∷ []) in
    (
      p,
      _,
      rw (typed, plan, e) refl,
      refl,
      ap
          (λ l.
            direct (codes "robocopy.exe")
              ((spec.source ∷ spec.destination ∷ copy_flag spec.mode ∷ robocopy_options spec) ++ l))
          (excluded-copying spec.exclude_dirs spec.exclude_files spec.additional_args),
    )
