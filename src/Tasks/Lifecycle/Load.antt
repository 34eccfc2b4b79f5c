-- ===== src/Tasks/Lifecycle/Load.antt =====
-- The identifiers after `load` of plugins/tasks/backend/plugin.go.
use run_pilot.Tasks.Normalize.Laws.{id-normalize_task}
use run_pilot.Prelude.{
  All, All-map, Bool, Bool-cases, List, Option, [], ap, arith, false, if◌then◌else◌, inl, inr, none,
  not, refl, some, suc, sym, true, zero, ◌-◌, ◌^◌, ◌||◌, ◌∙◌, ◌∷◌, ◌≡◌,
}
use run_pilot.Prelude.Int.{eq_ℤ, leb_ℤ, ltb_ℤ, negsuc, pos, ℤ}
use run_pilot.Prelude.Bytes.{Bytes, str_eq}
use run_pilot.Tasks.{Task}
use run_pilot.Tasks.Normalize.{normalize_task}
use run_pilot.Tasks.Host.{
  Host, HostResult, Stored, absent, fail, ok, state_file, storage_get, unreadable,
}
use run_pilot.Tasks.Plugin.{call, new_plugin}
use run_pilot.Tasks.Rpc.{succ32}
use run_pilot.Tasks.Lifecycle.{
  id_number, load, load_answer, load_stored, load_tasks, loaded, raise_next, seen_id, unusable,
}
use run_pilot.Tasks.Ids.{AreDistinct, Below, HasFreshIds}
use run_pilot.Prelude.Result.{ok}

-- The number of the identifier, if it has one, leaves room for a next one.
abbrev pub HasRoom : Task → Type 0
HasRoom t = (n : ℤ) → id_number t.id ≡ some n → ltb_ℤ n (pos (2 ^ 31 - 1)) ≡ true

-- The stored file, where there is one, has only such identifiers.
abbrev pub IsRoomy : HostResult Stored → Type 0
IsRoomy (fail e) = Unit {0}
IsRoomy (ok absent) = Unit {0}
IsRoomy (ok (unreadable e)) = Unit {0}
IsRoomy (ok (state_file version next ts)) = All HasRoom ts

ltb-leb : (a b c : ℤ) → ltb_ℤ a b ≡ true → leb_ℤ b c ≡ true → ltb_ℤ a c ≡ true
ltb-leb (pos a) (pos b) (pos c) h k = ground arith
ltb-leb (pos a) (pos b) (negsuc c) h k = ground arith
ltb-leb (pos a) (negsuc b) c h k = ground arith
ltb-leb (negsuc a) (pos b) (pos c) h k = ground arith
ltb-leb (negsuc a) (pos b) (negsuc c) h k = ground arith
ltb-leb (negsuc a) (negsuc b) (pos c) h k = ground arith
ltb-leb (negsuc a) (negsuc b) (negsuc c) h k = ground arith

leb_trans : (a b c : ℤ) → leb_ℤ a b ≡ true → leb_ℤ b c ≡ true → leb_ℤ a c ≡ true
leb_trans (pos a) (pos b) (pos c) h k = ground arith
leb_trans (pos a) (pos b) (negsuc c) h k = ground arith
leb_trans (pos a) (negsuc b) c h k = ground arith
leb_trans (negsuc a) (pos b) (pos c) h k = ground arith
leb_trans (negsuc a) (pos b) (negsuc c) h k = ground arith
leb_trans (negsuc a) (negsuc b) (pos c) h k = ground arith
leb_trans (negsuc a) (negsuc b) (negsuc c) h k = ground arith

succ32_above : (n : ℤ) → ltb_ℤ n (pos (2 ^ 31 - 1)) ≡ true → ltb_ℤ n (succ32 n) ≡ true
succ32_above (pos n) h = ground arith
succ32_above (negsuc zero) h = ground arith
succ32_above (negsuc (suc n)) h = ground arith

ltb_ℤ_self : (n : ℤ) → ltb_ℤ n n ≡ false
ltb_ℤ_self (pos n) = ground arith
ltb_ℤ_self (negsuc n) = ground arith

ltb-asym : (a b : ℤ) → ltb_ℤ a b ≡ true → ltb_ℤ b a ≡ false
ltb-asym (pos a) (pos b) h = ground arith
ltb-asym (pos a) (negsuc b) h = ground arith
ltb-asym (negsuc a) (pos b) h = ground arith
ltb-asym (negsuc a) (negsuc b) h = ground arith

-- The next number is at least the one before, and above the number of the identifier.
raised :
    (next n : ℤ) (b : Bool)
    → leb_ℤ next n ≡ b
    → ltb_ℤ n (pos (2 ^ 31 - 1)) ≡ true
    → (leb_ℤ next (if b then succ32 n else next) ≡ true)
      × (ltb_ℤ n (if b then succ32 n else next) ≡ true)
raised next n true e room =
    let above = succ32_above n room in
    let less = ltb-leb n (succ32 n) (succ32 n) above (ap not (ltb_ℤ_self (succ32 n))) in
    (leb_trans next n (succ32 n) e (ap not (ltb-asym n (succ32 n) above)), above)
raised next n false e room = (ap not (ltb_ℤ_self next), ground arith)

raise_next-raised :
    (r : Option ℤ) (next : ℤ)
    → ((n : ℤ) → r ≡ some n → ltb_ℤ n (pos (2 ^ 31 - 1)) ≡ true)
    → (leb_ℤ next (raise_next r next) ≡ true)
      × ((n : ℤ) → r ≡ some n → ltb_ℤ n (raise_next r next) ≡ true)
unfolding raise_next
raise_next-raised none next room = (ap not (ltb_ℤ_self next), λ n e. cc)
raise_next-raised (some m) next room =
    let (a, b) = raised next m (leb_ℤ next m) refl (room m refl) in
    (a, λ n e. let same : m ≡ n = ground arith in cc)

-- What `load_tasks` ends with.
record IsLoaded (seen : List Bytes) (next : ℤ) (kept : List Task) (last : ℤ) : Type 0 where
  reached : leb_ℤ next last ≡ true
  below : All (λ t. Below last t.id) kept
  unseen : All (λ t. seen_id t.id seen ≡ false) kept
  distinct : AreDistinct kept

IsLoaded-cons :
    (seen : List Bytes) (next : ℤ) (t : Task) (kept : List Task) (last : ℤ)
    → HasRoom t
    → seen_id t.id seen ≡ false
    → IsLoaded (t.id ∷ seen) (raise_next (id_number t.id) next) kept last
    → IsLoaded seen next (normalize_task t ∷ kept) last
unfolding seen_id
IsLoaded-cons seen next t kept last room new i =
    let (above, over) = raise_next-raised (id_number t.id) next room in
    let same = id-normalize_task t in
    record {
      reached = leb_trans next (raise_next (id_number t.id) next) last above i.reached;
      below = (
        λ n e.
            ltb-leb n (raise_next (id_number t.id) next) last (over n (ap id_number (sym same) ∙ e))
              i.reached,
        i.below,
      );
      unseen = (
        ap (λ k. seen_id k seen) same ∙ new,
        All-map (λ u. seen_id u.id (t.id ∷ seen) ≡ false) (λ u. seen_id u.id seen ≡ false)
            (λ u h. ground arith) kept i.unseen,
      );
      distinct = (
        All-map (λ u. seen_id u.id (t.id ∷ seen) ≡ false)
            (λ u. str_eq (normalize_task t).id u.id ≡ false)
            (λ u h. ap (λ k. str_eq k u.id) same ∙ ground arith) kept i.unseen,
        i.distinct,
      );
    }

-- A file whose first task is taken.
load_tasks-cons :
    (seen : List Bytes) (next : ℤ) (t : Task) (ts : List Task) (b : Bool)
    (r : Option (List Task × ℤ)) (kept : List Task) (last : ℤ)
    → (str_eq t.id [] || seen_id t.id seen) ≡ b
    → load_tasks (t.id ∷ seen) (raise_next (id_number t.id) next) ts ≡ r
    → load_tasks seen next (t ∷ ts) ≡ some (kept, last)
    → (rest : List Task) × (seen_id t.id seen ≡ false)
      × (load_tasks (t.id ∷ seen) (raise_next (id_number t.id) next) ts ≡ some (rest, last))
      × (kept ≡ normalize_task t ∷ rest)
unfolding load_tasks
load_tasks-cons seen next t ts b r kept last e q h = ground arith

load_tasks-IsLoaded :
    (seen : List Bytes) (next : ℤ) (ts kept : List Task) (last : ℤ)
    → All HasRoom ts
    → load_tasks seen next ts ≡ some (kept, last)
    → IsLoaded seen next kept last
unfolding load_tasks
load_tasks-IsLoaded seen next [] kept last room e =
    let none_kept : kept ≡ [] = ground arith in
    let same : last ≡ next = ground arith in
    rw (none_kept, same)
      (record { reached = ap not (ltb_ℤ_self next); below = tt; unseen = tt; distinct = tt })
load_tasks-IsLoaded seen next (t ∷ ts) kept last room e =
    let (rest, new, q, same) = load_tasks-cons seen next t ts _ _ kept last refl refl e in
    let i =
      load_tasks-IsLoaded (t.id ∷ seen) (raise_next (id_number t.id) next) ts rest last room.1 q in
    rw same (IsLoaded-cons seen next t rest last room.0 new i)

at_least_1 :
    (last : ℤ) (b : Bool) → ltb_ℤ last (pos 1) ≡ b → leb_ℤ last (if b then pos 1 else last) ≡ true
at_least_1 last true e = ap not (ltb-asym last (pos 1) e)
at_least_1 last false e = ap not (ltb_ℤ_self last)

loaded-HasFreshIds :
    (next : ℤ) (ts : List Task) (r : Option (List Task × ℤ))
    → All HasRoom ts
    → load_tasks [] next ts ≡ r
    → HasFreshIds (loaded r (call storage_get new_plugin))
unfolding loaded new_plugin
loaded-HasFreshIds next ts none room q = record { below = tt; distinct = tt }
loaded-HasFreshIds next ts (some (kept, last)) room q =
    let i = load_tasks-IsLoaded [] next ts kept last room q in
    let final = if ltb_ℤ last (pos 1) then pos 1 else last in
    record {
      below =
          All-map (λ t. Below last t.id) (λ t. Below final t.id)
            (λ t b n e. ltb-leb n last final (b n e) (at_least_1 last (ltb_ℤ last (pos 1)) refl))
            kept i.below;
      distinct = i.distinct;
    }

stored-HasFreshIds :
    (s : Stored) → IsRoomy (ok s) → HasFreshIds (load_stored s (call storage_get new_plugin))
unfolding load_stored unusable new_plugin
stored-HasFreshIds absent room = record { below = tt; distinct = tt }
stored-HasFreshIds (unreadable e) room = record { below = tt; distinct = tt }
stored-HasFreshIds (state_file version next ts) room =
    elim (Bool-cases (not (eq_ℤ version (pos 1)))) [
      | inl e ↦ rw e (record { below = tt; distinct = tt })
      | inr e ↦ rw e (loaded-HasFreshIds next ts (load_tasks [] next ts) room refl)
    ]

answer-HasFreshIds :
    (r : HostResult Stored) → IsRoomy r → HasFreshIds (load_answer r (call storage_get new_plugin))
unfolding load_answer new_plugin
answer-HasFreshIds (fail e) room = record { below = tt; distinct = tt }
answer-HasFreshIds (ok s) room = stored-HasFreshIds s room

-- Whatever the host's storage holds or answers, the tasks that `load` leaves in a new plugin have
-- distinct identifiers, each with a number below `next` or none, so that `create` makes new ones. The
-- numbers of the stored identifiers are to leave room for a next one on 32 bits.
pub load-HasFreshIds :
    (h : Host) → IsRoomy (h.get_storage (storage_get ∷ [])) → HasFreshIds (load h new_plugin)
unfolding load new_plugin
load-HasFreshIds h room = answer-HasFreshIds (h.get_storage (storage_get ∷ [])) room
