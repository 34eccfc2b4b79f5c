-- ===== src/Tasks/Ids.antt =====
-- The identifiers of the stored tasks: no two are the same, and the number of each is below `next`, so
-- that `create` never takes one twice.
use mathlib.Core.Path.{subst}
use run_pilot.Tasks.Normalize.Laws.{id-normalize_task}
use run_pilot.Tasks.Rpc.Create.{IsCreated, create-Outcome}
use run_pilot.Prelude.{
  All, All-append, All-map, Bool-cases, List, [], ap, arith, false, inl, inr, refl, some, suc, sym,
  true, ℕ, ◌++◌, ◌<◌, ◌^◌, ◌∙◌, ◌∷◌, ◌≡◌,
}
use run_pilot.Prelude.Int.{ltb_ℤ, negsuc, pos, ℤ}
use run_pilot.Prelude.Bytes.{Bytes, str_eq, str_eq→eq}
use run_pilot.Text.{trim_prefix}
use run_pilot.Text.Decimal.{atoi-itoa}
use run_pilot.Tasks.{Task}
use run_pilot.Tasks.Host.{Host}
use run_pilot.Tasks.Plugin.{Plugin}
use run_pilot.Tasks.Rpc.{create, new_task, numbered, succ32}
use run_pilot.Tasks.Lifecycle.{id_number}

abbrev pub Below : ℤ → Bytes → Type 0
Below next id = (n : ℤ) → id_number id ≡ some n → ltb_ℤ n next ≡ true

abbrev pub AreDistinct : List Task → Type 0
AreDistinct [] = Unit {0}
AreDistinct (t ∷ ts) = All (λ u. str_eq t.id u.id ≡ false) ts × AreDistinct ts

pub record HasFreshIds (pl : Plugin) : Type 0 where
  pub below : All (λ t. Below pl.next t.id) pl.tasks
  pub distinct : AreDistinct pl.tasks

-- The number in a name that `create` makes.
id_number-numbered : (n : ℕ) → n < 2 ^ 31 → id_number (numbered (pos n)) ≡ some (pos n)
unfolding id_number trim_prefix
id_number-numbered n h = atoi-itoa 32 (pos n) h (omega arith)

ltb_ℤ_self : (n : ℤ) → ltb_ℤ n n ≡ false
ltb_ℤ_self (pos n) = ground arith
ltb_ℤ_self (negsuc n) = ground arith

-- A name below `next` is not the next name.
apart_of_Below :
    (n : ℕ) (id : Bytes) → n < 2 ^ 31 → Below (pos n) id → str_eq id (numbered (pos n)) ≡ false
apart_of_Below n id h b = elim (Bool-cases (str_eq id (numbered (pos n)))) [
  | inr other ↦ other
  | inl same ↦
      let e = str_eq→eq id (numbered (pos n)) same in
      let number = ap id_number e ∙ id_number-numbered n h in
      cc (b (pos n) number, ltb_ℤ_self (pos n))
]

Below-succ : (n : ℕ) (id : Bytes) → Below (pos n) id → Below (pos (suc n)) id
Below-succ n id b (pos k) e = ground (arith, b (pos k) e)
Below-succ n id b (negsuc k) e = refl

AreDistinct-append :
    (ts : List Task) (t : Task)
    → AreDistinct ts
    → All (λ u. str_eq u.id t.id ≡ false) ts
    → AreDistinct (ts ++ t ∷ [])
AreDistinct-append [] t d a = (tt, tt)
AreDistinct-append (u ∷ ts) t d a =
    (All-append _ ts (t ∷ []) d.0 (a.0, tt), AreDistinct-append ts t d.1 a.1)

succ32_small : (n : ℕ) → suc n < 2 ^ 31 → succ32 (pos n) ≡ pos (suc n)
succ32_small n h = ground arith

Below-succ_self : (n : ℕ) → suc n < 2 ^ 31 → Below (pos (suc n)) (numbered (pos n))
Below-succ_self n h k e =
    let same : k ≡ pos n = cc (id_number-numbered n (omega arith)) in rw same (ground arith)

appended-Below :
    (n : ℕ) (ts : List Task) (t : Task)
    → suc n < 2 ^ 31
    → t.id ≡ numbered (pos n)
    → All (λ u. Below (pos n) u.id) ts
    → All (λ u. Below (pos (suc n)) u.id) (ts ++ t ∷ [])
appended-Below n ts t h e b =
    let old =
      All-map (λ u. Below (pos n) u.id) (λ u. Below (pos (suc n)) u.id) (λ u. Below-succ n u.id) ts
        b in
    let new = subst (Below (pos (suc n))) (sym e) (Below-succ_self n h) in
    All-append (λ u. Below (pos (suc n)) u.id) ts (t ∷ []) old (new, tt)

appended_distinct :
    (n : ℕ) (ts : List Task) (t : Task)
    → suc n < 2 ^ 31
    → t.id ≡ numbered (pos n)
    → All (λ u. Below (pos n) u.id) ts
    → AreDistinct ts
    → AreDistinct (ts ++ t ∷ [])
appended_distinct n ts t h e b d = AreDistinct-append ts t d (
    All-map (λ u. Below (pos n) u.id) (λ u. str_eq u.id t.id ≡ false)
      (λ u c. rw e (apart_of_Below n u.id (omega arith) c)) ts b)

IsCreated-HasFreshIds :
    (h : Host) (t : Task) (pl pl' : Plugin) (n : ℕ)
    → pl.next ≡ pos n
    → t.id ≡ numbered (pos n)
    → suc n < 2 ^ 31
    → IsCreated h t pl pl'
    → HasFreshIds pl
    → HasFreshIds pl'
IsCreated-HasFreshIds h t pl pl' n next_is id_is small c f =
    let next' = c.numbered_next ∙ ap succ32 next_is ∙ succ32_small n small in
    let b = subst (λ z. All (λ u. Below z u.id) pl.tasks) next_is f.below in
    record {
      below = rw (next', c.appended) (appended-Below n pl.tasks t small id_is b);
      distinct = rw c.appended (appended_distinct n pl.tasks t small id_is b f.distinct);
    }

-- `create` keeps the identifiers distinct and below `next`, as long as `next` does not reach the end of
-- the 32-bit numbers.
pub create-HasFreshIds :
    (h : Host) (input : Task) (pl : Plugin) (n : ℕ)
    → pl.next ≡ pos n
    → suc n < 2 ^ 31
    → HasFreshIds pl
    → HasFreshIds (create h input pl).1
create-HasFreshIds h input pl n next_is small f = elim (create-Outcome h input pl) [
  | inl (e, r, k) ↦ record {
    below = rw (k.kept_next, k.kept_tasks) f.below;
    distinct = rw k.kept_tasks f.distinct;
  }
  | inr (v, r, done, ok_task, readable, room) ↦
      IsCreated-HasFreshIds h (new_task pl input) pl (create h input pl).1 n next_is
        (id-normalize_task _ ∙ ap numbered next_is) small done f
]
