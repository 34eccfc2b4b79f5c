-- ===== src/Jobs/Runner/Exclusive.antt =====
-- A job is executed once at a time, in any order of runs and ends of executions.
use run_pilot.Prelude.{
  All, Any, Bool-cases, List, Option, [], arith, false, inl, inr, none, refl, some, suc, sym, true,
  zero, ℕ, ◌∙◌, ◌∷◌, ◌≡◌,
}
use run_pilot.Prelude.Bytes.{Bytes, codes, str_eq, str_eq_iff, str_eq_self, str_eq→eq}
use run_pilot.Prelude.Dict.{find, find-delete, find-put}
use run_pilot.Jobs.{JobDefinition, normalize_job}
use run_pilot.Jobs.Runner.{Outcome, Runner, finish, run, run_unless, start_run, status_of}
use run_pilot.Jobs.Runner.System.{
  Act, System, act, acts, after_finish, after_run, finishes, runs, take_out, take_out-All,
  take_out-Any, take_out_first, take_out_later, take_out_none,
}

-- No job that is run has the overlap policy `allow`.
abbrev pub IsExclusiveAct : Act → Type 0
IsExclusiveAct (runs def id) = str_eq def.overlap_policy (codes "allow") ≡ false
IsExclusiveAct (finishes n at o) = Unit {0}

abbrev pub Apart : List (JobDefinition × Bytes) → Type 0
Apart [] = Unit {0}
Apart (e ∷ es) = All (λ f. str_eq e.0.id f.0.id ≡ false) es × Apart es

-- An execution of the job under the run.
abbrev pub IsRun : Bytes → Bytes → JobDefinition × Bytes → Type 0
IsRun id c e = (str_eq e.0.id id ≡ true) × (e.1 ≡ c)

-- What `active` and `status` say of an execution is true of it.
pub record IsTracked (r : Runner) (e : JobDefinition × Bytes) : Type 0 where
  pub is_active : find e.0.id r.active ≡ some e.1
  pub is_running : (status_of e.0.id r).running ≡ true
  pub is_current : (status_of e.0.id r).current_run_id ≡ e.1

pub record IsExclusive (s : System) : Type 0 where
  pub apart : Apart s.executing
  pub tracked : All (IsTracked s.runner) s.executing
  pub idle : (id : Bytes) → find id s.runner.active ≡ none → (status_of id s.runner).running ≡ false
  pub busy : (id c : Bytes) → find id s.runner.active ≡ some c → Any (IsRun id c) s.executing

skip_allow : str_eq (codes "skip") (codes "allow") ≡ false
unfolding str_eq
skip_allow = refl

normalize_job-policy :
    (j : JobDefinition)
    → str_eq j.overlap_policy (codes "allow") ≡ false
    → str_eq (normalize_job j).overlap_policy (codes "allow") ≡ false
unfolding normalize_job
normalize_job-policy j h = ground (arith, skip_allow)

str_eq_sym : (a b : Bytes) → str_eq a b ≡ false → str_eq b a ≡ false
str_eq_sym a b h = ground (arith, str_eq_iff a b, str_eq_iff b a)

-- Starting and finishing a job, seen from an execution of another.
start_run-IsTracked :
    (def : JobDefinition) (id : Bytes) (r : Runner) (e : JobDefinition × Bytes)
    → str_eq def.id e.0.id ≡ false
    → IsTracked r e
    → IsTracked (start_run def id r).1 e
unfolding start_run status_of
start_run-IsTracked def id r e other t = grind (arith, find-put)

finish-IsTracked :
    (def : JobDefinition) (at : ℕ) (o : Outcome) (r : Runner) (e : JobDefinition × Bytes)
    → str_eq def.id e.0.id ≡ false
    → IsTracked r e
    → IsTracked (finish def at o r) e
unfolding finish status_of
finish-IsTracked def at o r e other t = grind (arith, find-put, find-delete)

started-IsTracked :
    (def : JobDefinition) (id : Bytes) (r : Runner) → IsTracked (start_run def id r).1 (def, id)
unfolding start_run status_of
started-IsTracked def id r = grind (arith, find-put, str_eq_self)

-- A job that is not active has no execution.
inactive_apart :
    (id : Bytes) (r : Runner) (es : List (JobDefinition × Bytes))
    → find id r.active ≡ none
    → All (IsTracked r) es
    → All (λ f. str_eq id f.0.id ≡ false) es
inactive_apart id r [] n t = tt
inactive_apart id r (e ∷ es) n t = (
  elim (Bool-cases (str_eq id e.0.id)) [
    | inr other ↦ other
    | inl same ↦ let q = str_eq→eq id e.0.id same in let active = t.0.is_active in cc
  ],
  inactive_apart id r es n t.1,
)

All-IsTracked :
    (r r' : Runner) (id : Bytes) (es : List (JobDefinition × Bytes))
    → ((e : JobDefinition × Bytes) → str_eq id e.0.id ≡ false → IsTracked r e → IsTracked r' e)
    → All (λ f. str_eq id f.0.id ≡ false) es
    → All (IsTracked r) es
    → All (IsTracked r') es
All-IsTracked r r' id [] keep a t = tt
All-IsTracked r r' id (e ∷ es) keep a t = (keep e a.0 t.0, All-IsTracked r r' id es keep a.1 t.1)

-- What is left when one execution is taken out, and the one that is.
take_out-Apart :
    (n : ℕ) (es rest : List (JobDefinition × Bytes)) (e : JobDefinition × Bytes)
    → take_out n es ≡ some (e, rest)
    → Apart es
    → Apart rest × All (λ f. str_eq e.0.id f.0.id ≡ false) rest
take_out-Apart n [] rest e q a = take_out_none n q
take_out-Apart zero (f ∷ es) rest e q a =
    let (same, left) = take_out_first f e es rest q in rw (same, left) (a.1, a.0)
take_out-Apart (suc n) (f ∷ es) rest e q a =
    let (zs, later, left) = take_out_later n f e es rest q in
    let (apart, others) = take_out-Apart n es zs e later a.1 in
    let (head, tail) = take_out-All (λ g. str_eq f.0.id g.0.id ≡ false) n es zs e later a.0 in
    rw left ((tail, apart), (str_eq_sym f.0.id e.0.id head, others))

-- Only the job itself becomes busy or idle.
start_run-idle :
    (def : JobDefinition) (id : Bytes) (r : Runner)
    → ((k : Bytes) → find k r.active ≡ none → (status_of k r).running ≡ false)
    → (k : Bytes) → find k (start_run def id r).1.active ≡ none
    → (status_of k (start_run def id r).1).running ≡ false
unfolding start_run status_of
start_run-idle def id r idle k n = grind (arith, find-put, idle k)

finish-idle :
    (def : JobDefinition) (at : ℕ) (o : Outcome) (r : Runner)
    → ((k : Bytes) → find k r.active ≡ none → (status_of k r).running ≡ false)
    → (k : Bytes) → find k (finish def at o r).active ≡ none
    → (status_of k (finish def at o r)).running ≡ false
unfolding finish status_of
finish-idle def at o r idle k n = grind (arith, find-put, find-delete, idle k)

start_run-busy :
    (def : JobDefinition) (id : Bytes) (s : System)
    → ((k c : Bytes) → find k s.runner.active ≡ some c → Any (IsRun k c) s.executing)
    → (k c : Bytes) → find k (start_run def id s.runner).1.active ≡ some c
    → Any (IsRun k c) ((def, id) ∷ s.executing)
unfolding start_run
start_run-busy def id s busy k c e =
    let put_is = find-put def.id k id s.runner.active in
    elim (Bool-cases (str_eq def.id k)) [
      | inl same ↦ inl (same, ground arith)
      | inr other ↦ inr (busy k c (ground arith))
    ]

finish-busy :
    (n at : ℕ) (o : Outcome) (def : JobDefinition) (id : Bytes) (s : System)
    (rest : List (JobDefinition × Bytes))
    → take_out n s.executing ≡ some ((def, id), rest)
    → ((k c : Bytes) → find k s.runner.active ≡ some c → Any (IsRun k c) s.executing)
    → (k c : Bytes) → find k (finish def at o s.runner).active ≡ some c
    → Any (IsRun k c) rest
unfolding finish
finish-busy n at o def id s rest q busy k c e =
    let delete_is = find-delete def.id k s.runner.active in
    elim (Bool-cases (str_eq def.id k)) [
      | inl same ↦ let no : none ≡ some c = ground arith in cc
      | inr other ↦
          elim (take_out-Any (IsRun k c) n s.executing rest (def, id) q (busy k c (ground arith))) [
            | inl own ↦ let no : false ≡ true = sym other ∙ own.0 in cc
            | inr left ↦ left
          ]
    ]

run_unless-IsExclusive :
    (def : JobDefinition) (id : Bytes) (s : System) (c : Option Bytes)
    → find def.id s.runner.active ≡ c
    → str_eq def.overlap_policy (codes "allow") ≡ false
    → IsExclusive s
    → IsExclusive (after_run def (run_unless c def id s.runner) s)
unfolding run_unless after_run
run_unless-IsExclusive def id s none f p x =
    let apart = inactive_apart def.id s.runner s.executing f x.tracked in
    record {
      apart = (apart, x.apart);
      tracked = (
        started-IsTracked def id s.runner,
        All-IsTracked s.runner (start_run def id s.runner).1 def.id s.executing
            (λ e. start_run-IsTracked def id s.runner e) apart x.tracked,
      );
      idle = start_run-idle def id s.runner x.idle;
      busy = start_run-busy def id s x.busy;
    }
run_unless-IsExclusive def id s (some c) f p x =
    rw p (record { apart = x.apart; tracked = x.tracked; idle = x.idle; busy = x.busy })

after_finish-IsExclusive :
    (n at : ℕ) (o : Outcome) (s : System)
    (t : Option ((JobDefinition × Bytes) × List (JobDefinition × Bytes)))
    → take_out n s.executing ≡ t
    → IsExclusive s
    → IsExclusive (after_finish t at o s)
unfolding after_finish
after_finish-IsExclusive n at o s none q x = x
after_finish-IsExclusive n at o s (some ((def, id), rest)) q x =
    let (apart, others) = take_out-Apart n s.executing rest (def, id) q x.apart in
    let (own, tracked) =
      take_out-All (IsTracked s.runner) n s.executing rest (def, id) q x.tracked in
    record {
      apart = apart;
      tracked =
          All-IsTracked s.runner (finish def at o s.runner) def.id rest
            (λ e. finish-IsTracked def at o s.runner e) others tracked;
      idle = finish-idle def at o s.runner x.idle;
      busy = finish-busy n at o def id s rest q x.busy;
    }

act-IsExclusive : (a : Act) (s : System) → IsExclusiveAct a → IsExclusive s → IsExclusive (act a s)
unfolding act run
act-IsExclusive (runs def id) s p x =
    run_unless-IsExclusive (normalize_job def) id s _ refl (normalize_job-policy def p) x
act-IsExclusive (finishes n at o) s p x = after_finish-IsExclusive n at o s _ refl x

-- Any sequence of runs and ends of executions in which no job's overlap policy is `allow` keeps this: a
-- job has at most one execution at a time; `active` and the status name its run and say that it is
-- running; a job that is not active is not running, and one that is active has an execution.
pub acts-IsExclusive :
    (as_ : List Act) (s : System)
    → All IsExclusiveAct as_
    → IsExclusive s
    → IsExclusive (acts as_ s)
unfolding acts
acts-IsExclusive [] s p x = x
acts-IsExclusive (a ∷ as_) s p x = acts-IsExclusive as_ (act a s) p.1 (act-IsExclusive a s p.0 x)
