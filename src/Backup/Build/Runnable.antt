-- ===== src/Backup/Build/Runnable.antt =====
-- The launcher builds every step of every plan, as it stands.
use run_pilot.Command.Launcher
use run_pilot.Backup.Robocopy
use run_pilot.Backup.Restic.Laws as ResticLaws
use run_pilot.Backup.RdiffBackup.Laws as RdiffLaws
use run_pilot.Jobs.{BackupSpec}
use run_pilot.Command.Launcher.{Cmd, Host}
use run_pilot.Command.Launcher.Direct.{build-direct}
use run_pilot.Prelude.{All, All-map, Bool, Option-cases, inl, inr, refl, some, ◌≡◌}
use run_pilot.Prelude.Result.{Result, err, ok}
use run_pilot.Backup.{
  IsRunnable, Plan, Provider, Step, canonical, provider_for, rdiff_backup_provider, restic_provider,
  robocopy_provider,
}
use run_pilot.Backup.Build.{build_plan, plan_by, plan_if, provider_plan, provider_validate}

provider_plan-IsRunnable :
    (p : Provider) (windows : Bool) (spec : BackupSpec) (q : Plan)
    → provider_plan p windows spec ≡ some (ok q)
    → All IsRunnable q.steps
unfolding provider_plan
provider_plan-IsRunnable robocopy_provider windows spec q e =
    Robocopy.plan-IsRunnable spec.robocopy q e
provider_plan-IsRunnable restic_provider windows spec q e =
    ResticLaws.plan-IsRunnable windows spec.restic q e
provider_plan-IsRunnable rdiff_backup_provider windows spec q e =
    RdiffLaws.plan-IsRunnable windows spec.rdiff_backup q e

plan_by-IsRunnable :
    (p : Result Provider) (windows : Bool) (spec : BackupSpec) (q : Plan)
    → plan_by p windows spec ≡ some (ok q)
    → All IsRunnable q.steps
unfolding plan_by
plan_by-IsRunnable (err e) windows spec q h = absurd (cc)
plan_by-IsRunnable (ok p) windows spec q h =
    elim (Option-cases (provider_validate p windows spec)) [
      | inr (e, v) ↦ absurd (cc (rw (v, plan_if) at h))
      | inl v ↦ provider_plan-IsRunnable p windows spec q (rw (v, plan_if) at h)
    ]

-- The command of the step as the launcher starts it: its own path and arguments, in the environment that
-- the host inherited.
pub record IsBuilt (host : Host) (s : Step) : Type 0 where
  pub cmd : Cmd
  pub is_built : Launcher.build host s.command ≡ ok cmd
  pub same_path : cmd.exe ≡ s.command.path
  pub same_args : cmd.argv ≡ s.command.args
  pub same_env : cmd.env ≡ host.environ

IsRunnable-IsBuilt : (host : Host) (s : Step) → IsRunnable s → IsBuilt host s
IsRunnable-IsBuilt host s r = record {
  cmd = _;
  is_built = build-direct host s.command r.has_path r.is_direct r.sets_nothing;
  same_path = refl;
  same_args = refl;
  same_env = refl;
}

-- The launcher builds the command of every step of every plan, whatever its executable is: it starts the
-- step's own path with the step's own arguments, in the environment of the host.
pub build_plan-IsBuilt :
    (host : Host) (windows : Bool) (spec : BackupSpec) (p : Plan)
    → build_plan windows spec ≡ some (ok p)
    → All (IsBuilt host) p.steps
unfolding build_plan
build_plan-IsBuilt host windows spec p e =
    let c = canonical spec in
    All-map IsRunnable (IsBuilt host) (IsRunnable-IsBuilt host) p.steps
      (plan_by-IsRunnable (provider_for c.engine) windows c p e)
