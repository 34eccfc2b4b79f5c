-- ===== src/Processes/Manager/Owners.antt =====
-- What the manager does to the processes of one owner, and to the others.
use mathlib.Core.Option
use mathlib.Core.Option.{some_inj}
use run_pilot.Prelude.{
  Bool, Bool-cases, List, Option, [], ap, arith, false, if◌then◌else◌, inl, inr, none, refl, some,
  true, ◌&&◌, ◌∙◌, ◌∷◌, ◌≡◌,
}
use run_pilot.Prelude.Bytes.{Bytes, str_eq, str_eq→eq}
use run_pilot.Prelude.Dict.{Dict, find, find-put}
use run_pilot.Processes.Manager.{
  Manager, Process, failed, has_owner, kill, lookup, owned_by, owned_ids, status, status_from,
  stop_owner, terminate, terminate_each, terminate_from, unknown_process,
}

-- A process as its owner's stop leaves it.
abbrev pub mark : Bytes → Process → Process
mark owner p = if str_eq p.owner owner && p.running then record p { terminated = true } else p

mark_idem : (owner : Bytes) (p : Process) → mark owner (mark owner p) ≡ mark owner p
mark_idem owner p = ground arith

map-mark_idem :
    (owner : Bytes) (o : Option Process)
    → Option.map (mark owner) (Option.map (mark owner) o) ≡ Option.map (mark owner) o
map-mark_idem owner none = refl
map-mark_idem owner (some p) = ap some (mark_idem owner p)

terminate_from-find :
    (owner id : Bytes) (killing : Option Bytes) (o : Option Process) (j : Bytes) (m : Manager)
    → find id m.items ≡ o
    → find j (terminate_from owner id killing (owned_by owner o) m).1.items
      ≡ (if str_eq id j then Option.map (mark owner) (find j m.items) else find j m.items)
unfolding terminate_from owned_by kill
terminate_from-find owner id killing none j m f = ground (arith, str_eq→eq id j)
terminate_from-find owner id killing (some p) j m f =
    ground (arith, str_eq→eq id j, find-put id j (record p { terminated = true }) m.items)

terminate-find :
    (owner id : Bytes) (killing : Option Bytes) (j : Bytes) (m : Manager)
    → find j (terminate owner id killing m).1.items
      ≡ (if str_eq id j then Option.map (mark owner) (find j m.items) else find j m.items)
unfolding terminate lookup
terminate-find owner id killing j m =
    terminate_from-find owner id killing (find id m.items) j m refl

terminate_each-find :
    (owner : Bytes) (killing : Bytes → Option Bytes) (ids : List Bytes) (j : Bytes) (m : Manager)
    → find j (terminate_each owner killing ids m).items
      ≡ (if has_owner j ids then Option.map (mark owner) (find j m.items) else find j m.items)
unfolding terminate_each has_owner
terminate_each-find owner killing [] j m = refl
terminate_each-find owner killing (id ∷ ids) j m =
    let m1 = (terminate owner id (killing id) m).1 in
    let e = terminate-find owner id (killing id) j m in
    let f = terminate_each-find owner killing ids j m1 in
    elim (Bool-cases (str_eq id j)) [
      | inr other ↦ rw other (f ∙ rw (e, other) refl)
      | inl same ↦ rw same (f ∙ rw (e, same) (both (has_owner j ids)))
    ]
  where
    both :
        (b : Bool)
        → (if b
            then Option.map (mark owner) (Option.map (mark owner) (find j m.items))
            else Option.map (mark owner) (find j m.items))
          ≡ Option.map (mark owner) (find j m.items)
    both true = map-mark_idem owner (find j m.items)
    both false = refl

owned_ids-has :
    (owner j : Bytes) (q : Process) (items : Dict Process)
    → find j items ≡ some q
    → str_eq q.owner owner ≡ true
    → has_owner j (owned_ids owner items) ≡ true
unfolding owned_ids has_owner find
owned_ids-has owner j q [] f o = cc
owned_ids-has owner j q ((id, p) ∷ items) f o = elim (Bool-cases (str_eq id j)) [
  | inl same ↦ let e : p ≡ q = some_inj.0 (rw (same, find) at f) in rw (e, o, same) refl
  | inr other ↦ let h = owned_ids-has owner j q items (rw (other, find) at f) o in ground (arith, h)
]

mark-other : (owner : Bytes) (p : Process) → str_eq p.owner owner ≡ false → mark owner p ≡ p
mark-other owner p o = rw o refl

-- Stopping an owner marks each of its running processes as terminated and leaves every other process as it
-- is, whatever becomes of the kills.
pub stop_owner-find :
    (owner : Bytes) (killing : Bytes → Option Bytes) (m : Manager) (j : Bytes)
    → find j (stop_owner owner killing m).items ≡ Option.map (mark owner) (find j m.items)
unfolding stop_owner
stop_owner-find owner killing m j =
    terminate_each-find owner killing (owned_ids owner m.items) j m ∙ by_owner (find j m.items) refl
  where
    by_owner :
        (o : Option Process)
        → find j m.items ≡ o
        → (if has_owner j (owned_ids owner m.items) then Option.map (mark owner) o else o)
          ≡ Option.map (mark owner) o
    by_owner none f = ground arith
    by_owner (some q) f = elim (Bool-cases (str_eq q.owner owner)) [
      | inl own ↦ rw (owned_ids-has owner j q m.items f own) refl
      | inr other ↦ rw other (same (has_owner j (owned_ids owner m.items)))
    ]
      where
        same : (b : Bool) → (if b then some q else some q) ≡ some q
        same true = refl
        same false = refl

-- The status and the end of a process are its owner's to ask for: to any other plugin it does not exist,
-- and nothing changes.
pub foreign_unknown :
    (owner id : Bytes) (killing : Option Bytes) (m : Manager) (p : Process)
    → find id m.items ≡ some p
    → str_eq p.owner owner ≡ false
    → (status owner id m ≡ failed unknown_process)
      × (terminate owner id killing m ≡ (failed unknown_process, m))
unfolding status terminate lookup owned_by status_from terminate_from
foreign_unknown owner id killing m p f o = rw (f, o) (refl, refl)
