-- ===== src/Backup/Build/Older.antt =====
-- The commands of specifications in the older form, by `Build` of internal/backup/backup.go.
use run_pilot.Backup.Robocopy
use run_pilot.Jobs.{BackupSpec}
use run_pilot.Backup.Older.{
  IsOlder, canonical-engine, canonical-rdiff_backup, canonical-restic, canonical-robocopy, copying,
  program,
}
use run_pilot.Backup.Restic.Older.{restic-copying}
use run_pilot.Backup.RdiffBackup.Older.{rdiff_backup-copying}
use run_pilot.Backup.Robocopy.Older.{robocopy-copying}
use run_pilot.Prelude.{Bool, [], ap, none, refl, some, ◌∙◌, ◌∷◌, ◌≡◌}
use run_pilot.Command.{CommandSpec}
use run_pilot.Prelude.Result.{ok}
use run_pilot.Backup.{
  Plan, Provider, Step, canonical, direct, provider_for, rdiff_backup_provider, restic_provider,
  robocopy_provider,
}
use run_pilot.Backup.Build.{
  build, build_plan, only_command, plan_by, plan_if, provider_plan, provider_validate, validate,
  validate_by,
}

-- The provider accepts the specification, and its plan is one step with this command.
abbrev Commands : Provider → Bool → BackupSpec → CommandSpec → Type 0
Commands p windows c command =
    (made : Plan) × (s : Step) × (provider_plan p windows c ≡ some (ok made))
    × (made.steps ≡ s ∷ [])
    × (s.command ≡ command)

build_plan-Commands :
    (p : Provider) (windows : Bool) (spec : BackupSpec) (made : Plan)
    → provider_for (canonical spec).engine ≡ ok p
    → provider_validate p windows (canonical spec) ≡ none
    → provider_plan p windows (canonical spec) ≡ some (ok made)
    → build_plan windows spec ≡ some (ok made)
unfolding build_plan plan_by
build_plan-Commands p windows spec made e v planned = rw (e, plan_by, v, plan_if, planned) refl

only_command-single :
    (made : Plan) (s : Step) → made.steps ≡ s ∷ [] → only_command made ≡ ok s.command
unfolding only_command
only_command-single made s single = rw single refl

build-Commands :
    (p : Provider) (windows : Bool) (spec : BackupSpec) (command : CommandSpec)
    → provider_for (canonical spec).engine ≡ ok p
    → provider_validate p windows (canonical spec) ≡ none
    → Commands p windows (canonical spec) command
    → build windows spec ≡ some (ok command)
unfolding build
build-Commands p windows spec command e v (made, s, planned, single, is) =
    let bp = build_plan-Commands p windows spec made e v planned in
    rw (build, bp) (ap some (only_command-single made s single ∙ ap ok is))

typed-Commands :
    (p : Provider) (windows : Bool) (spec : BackupSpec)
    → IsOlder p spec
    → provider_validate p windows (canonical spec) ≡ none
    → Commands p windows (canonical spec) (direct (program p windows) (copying p spec))
unfolding provider_validate provider_plan
typed-Commands robocopy_provider windows spec e v =
    robocopy-copying windows spec _ (canonical-robocopy spec e)
      (Robocopy.validate-check windows (canonical spec) v)
typed-Commands restic_provider windows spec e v =
    restic-copying windows spec _ (canonical-restic spec e) v
typed-Commands rdiff_backup_provider windows spec e v =
    rdiff_backup-copying windows spec _ (canonical-rdiff_backup spec e) v

-- `Build` of a valid specification in the older form: its engine names a provider whose typed configuration
-- is missing. The answer is one command that is run directly: the program of the provider, with `.exe` on
-- Windows, and the arguments of `copying`. For robocopy these are the source, the destination, `/MIR` for
-- a mirror and else `/E`, the options with the retries and the wait (5 where it is 0), the excluded
-- directories after `/XD`, the excluded files after `/XF`, and the additional arguments. For restic they
-- are the destination as the repository and a backup of the trimmed source, and for rdiff-backup the
-- source and the destination; both leave out the excluded directories and files that are not blank.
pub build-copying :
    (p : Provider) (windows : Bool) (spec : BackupSpec)
    → provider_for spec.engine ≡ ok p
    → IsOlder p spec
    → validate windows spec ≡ none
    → build windows spec ≡ some (ok (direct (program p windows) (copying p spec)))
unfolding validate validate_by
build-copying p windows spec e o h =
    let e' : provider_for (canonical spec).engine ≡ ok p =
      ap (λ x. provider_for x) (canonical-engine spec) ∙ e in
    let v : provider_validate p windows (canonical spec) ≡ none = rw (e', validate_by) at h in
    build-Commands p windows spec _ e' v (typed-Commands p windows spec o v)
