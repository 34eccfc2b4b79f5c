-- ===== src/Backup/Restic/Laws.antt =====
-- The steps of a restic plan: each works on the repository, and a retention step says what to keep.
use mathlib.Core.Path.{subst}
use mathlib.Core.Option.{some_inj}
use run_pilot.Jobs.{ResticBackupSpec, ResticRetention}
use run_pilot.Prelude.{
  All, All-append, Any, Any-append-left, Any-append-right, Bool, Bool-cases, List, Option, [],
  arith, false, if◌then◌else◌, inl, inr, ltb, none, refl, some, suc, true, zero, ℕ, ◌&&◌, ◌++◌, ◌∷◌,
  ◌≡◌, ◌⊎◌,
}
use run_pilot.Prelude.Int.{negsuc, pos, ℤ}
use run_pilot.Prelude.Bytes.{Bytes, codes, str_eq}
use run_pilot.Text.{has_prefix, trim_space}
use run_pilot.Prelude.Result.{if-eq-none, ok, ok-inj}
use run_pilot.Backup.{IsRunnable, Plan, Step, is_blank, non_empty}
use run_pilot.Backup.Restic.{
  all_zero, any_negative, backup_args, base, check, check_retention, check_step, executable,
  forget_args, is_empty, keep_args, keeps, plan, planned, retention_args, retention_step, step,
}

-- The first arguments name the repository.
abbrev pub Addresses : Bytes → List Bytes → Type 0
Addresses repository args = (rest : List Bytes) × (args ≡ codes "--repo" ∷ repository ∷ rest)

abbrev pub IsKeepFlag : Bytes → Type 0
IsKeepFlag a = has_prefix a (codes "--keep-") ≡ true

-- A step on the repository that, where it applies the retention, has a flag of what to keep.
pub record IsCareful (repository : Bytes) (s : Step) : Type 0 where
  pub addresses : Addresses repository s.command.args
  pub keeps_some : s.name ≡ codes "retention" → Any IsKeepFlag s.command.args

Addresses-append :
    (repository : Bytes) (xs ys : List Bytes)
    → Addresses repository xs
    → Addresses repository (xs ++ ys)
Addresses-append repository xs ys (rest, e) = (rest ++ ys, rw e refl)

base-Addresses : (r : ResticBackupSpec) → Addresses r.repository (base r)
unfolding base
base-Addresses r = elim (Bool-cases (is_blank r.password_file)) [
  | inl no_file ↦ ([], rw no_file refl)
  | inr file ↦ (codes "--password-file" ∷ r.password_file ∷ [], rw file refl)
]

ltb-suc : (n : ℕ) → ltb 0 (suc n) ≡ true
ltb-suc n = ground arith

keep_args-Any :
    (vs : List (Bytes × ℤ))
    → All (λ v. IsKeepFlag v.0) vs
    → any_negative vs ≡ false
    → all_zero vs ≡ false
    → Any IsKeepFlag (keep_args vs)
unfolding keep_args any_negative all_zero
keep_args-Any [] flags h z = cc
keep_args-Any ((f, pos zero) ∷ vs) flags h z = keep_args-Any vs flags.1 h z
keep_args-Any ((f, pos (suc n)) ∷ vs) flags h z = rw (ltb-suc n) (inl flags.0)
keep_args-Any ((f, negsuc n) ∷ vs) flags h z = cc

retention_args-Any :
    (k : ResticRetention) → check_retention (some k) ≡ none → Any IsKeepFlag (retention_args k)
unfolding retention_args check_retention has_prefix
retention_args-Any k h =
    let (fine, rest) = if-eq-none (any_negative (keeps k)) _ _ h in
    let (some_keep, _) = if-eq-none (is_blank k.keep_within && all_zero (keeps k)) _ _ rest in
    elim (Bool-cases (is_blank k.keep_within)) [
      | inr within ↦ rw within (Any-append-right _ (keep_args (keeps k)) _ (inl refl))
      | inl blank ↦ rw blank (
          Any-append-left _ (keep_args (keeps k)) _ (
            keep_args-Any (keeps k) (refl, (refl, (refl, (refl, (refl, tt))))) fine
              (rw blank at some_keep)))
    ]

retention_step-IsCareful :
    (windows : Bool) (r : ResticBackupSpec) (k : Option ResticRetention)
    → check_retention k ≡ none
    → All (IsCareful r.repository) (retention_step windows r k)
unfolding retention_step step forget_args
retention_step-IsCareful windows r none h = tt
retention_step-IsCareful windows r (some k) h = (
  record {
    addresses =
        Addresses-append _ _ _ (Addresses-append _ _ _ (Addresses-append _ _ _ (base-Addresses r)));
    keeps_some = λ _.
        Any-append-left _ ((base r ++ (codes "forget" ∷ [])) ++ retention_args k) _
          (Any-append-right _ (base r ++ (codes "forget" ∷ [])) _ (retention_args-Any k h));
  },
  tt,
)

check_step-IsCareful :
    (windows : Bool) (r : ResticBackupSpec) → All (IsCareful r.repository) (check_step windows r)
unfolding check_step step
check_step-IsCareful windows r = elim (Bool-cases r.check_after_backup) [
  | inr skipped ↦ rw skipped tt
  | inl wanted ↦ rw wanted (
    record { addresses = Addresses-append _ _ _ (base-Addresses r); keeps_some = λ e. absurd (cc) },
    tt,
  )
]

-- Every step of a plan for restic works on the repository of the specification, and the step that applies
-- the retention names at least one thing to keep, so that it cannot forget every snapshot.
pub plan-IsCareful :
    (windows : Bool) (r : ResticBackupSpec) (p : Plan)
    → check (some r) ≡ none
    → plan windows (some r) ≡ some (ok p)
    → All (IsCareful r.repository) p.steps
unfolding check plan planned step backup_args
plan-IsCareful windows r p h e =
    let (_, h1) = if-eq-none (is_blank r.repository) _ _ h in
    let (_, h2) = if-eq-none (is_empty (non_empty r.sources)) _ _ h1 in
    subst (λ q. All (IsCareful r.repository) q.steps) (ok-inj (some_inj.0 e))
      (
        record {
          addresses = Addresses-append _ _ _ (
              Addresses-append _ _ _ (
                Addresses-append _ _ _
                  (Addresses-append _ _ _ (Addresses-append _ _ _ (base-Addresses r)))));
          keeps_some = λ e. absurd (cc);
        },
        All-append _ (retention_step windows r r.retention) _
            (retention_step-IsCareful windows r r.retention h2) (check_step-IsCareful windows r),
      )

executable-is_blank :
    (windows : Bool) (r : ResticBackupSpec) → is_blank (executable windows r) ≡ false
unfolding executable trim_space str_eq
executable-is_blank windows r = elim (Bool-cases (is_blank r.executable)) [
  | inr chosen ↦ rw chosen chosen
  | inl blank ↦ rw blank (default windows)
]
  where
    default :
        (b : Bool) → is_blank (if b then codes "restic" ++ codes ".exe" else codes "restic") ≡ false
    default true = refl
    default false = refl

step-IsRunnable :
    (windows : Bool) (r : ResticBackupSpec) (name : Bytes) (args : List Bytes)
    → IsRunnable (step windows r name args)
unfolding step
step-IsRunnable windows r name args = record {
  has_path = executable-is_blank windows r;
  is_direct = refl;
  sets_nothing = refl;
}

pub plan-IsRunnable :
    (windows : Bool) (r : Option ResticBackupSpec) (p : Plan)
    → plan windows r ≡ some (ok p)
    → All IsRunnable p.steps
unfolding plan planned
plan-IsRunnable windows none p e = cc
plan-IsRunnable windows (some r) p e =
    subst (λ q. All IsRunnable q.steps) (ok-inj (some_inj.0 e))
      (
        step-IsRunnable windows r _ _,
        All-append _ (retention_step windows r r.retention) _ (retention r.retention)
            (checks (Bool-cases r.check_after_backup)),
      )
  where
    retention : (k : Option ResticRetention) → All IsRunnable (retention_step windows r k)
    retention none = tt
    retention (some k) = (step-IsRunnable windows r _ _, tt)

    checks :
        (r.check_after_backup ≡ true) ⊎ (r.check_after_backup ≡ false)
        → All IsRunnable (check_step windows r)
    checks (inl wanted) = rw (check_step, wanted) (step-IsRunnable windows r _ _, tt)
    checks (inr skipped) = rw (check_step, skipped) tt
