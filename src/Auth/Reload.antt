-- ===== src/Auth/Reload.antt =====
-- What a start of the web server gets back of the sessions that were saved, internal/web/auth_sessions.go.
pub mod Keeps
use mathlib.Core.Path.{subst}
use run_pilot.Prelude.{
  All, Bool-cases, Option, [], ap, arith, false, if◌then◌else◌, inl, inr, length, ltb, none, refl,
  some, sym, true, ℕ, ◌∙◌, ◌∷◌, ◌≡◌, ◌≤◌,
}
use run_pilot.Prelude.Bytes.{Bytes, str_eq, str_eq→eq}
use run_pilot.Prelude.Dict.{Dict, find, find-put, put}
use run_pilot.Prelude.Result.{Result, err, ok}
use run_pilot.Auth.{
  AuthSession, Disk, Server, is_invalid, load_each, load_file, load_sessions, load_stored,
  max_sessions, max_store_bytes, new_server, read_store, save_sessions,
}

abbrev pub IsDistinct : Dict AuthSession → Type 0
IsDistinct [] = Unit {0}
IsDistinct ((id, r) ∷ m) = (find id m ≡ none) × IsDistinct m

abbrev pub IsStorable : Bytes × AuthSession → Type 0
IsStorable e = is_invalid e.0 e.1 ≡ false

-- The keys are distinct, and a store accepts every session and their number.
pub record IsValid (m : Dict AuthSession) : Type 0 where
  pub distinct : IsDistinct m
  pub storable : All IsStorable m
  pub within : length m ≤ max_sessions

-- A disk on which the file is there, is not larger than the limit and can be read.
pub record IsReadable (disk : Disk) : Type 0 where
  pub inspected : disk.inspect_error ≡ none
  pub readable : disk.read_error ≡ none
  pub small : disk.file_size ≤ max_store_bytes

-- The session, if its time has not come.
abbrev pub alive : ℕ → Option AuthSession → Option AuthSession
alive now none = none
alive now (some r) = if ltb now r.expires then some r else none

abbrev or_else : Option AuthSession → Option AuthSession → Option AuthSession
or_else none o = o
or_else (some r) o = some r

or_else-none : (o : Option AuthSession) → or_else o none ≡ o
or_else-none none = refl
or_else-none (some r) = refl

-- The start succeeds, and its session with the key is this one.
abbrev pub Gets : Bytes → Option AuthSession → Result (Dict AuthSession) → Type 0
Gets key o (ok m) = find key m ≡ o
Gets key o (err e) = ⊥

-- What a record adds to the sessions that were there.
put-alive :
    (id key : Bytes) (r : AuthSession) (now : ℕ) (o : Option AuthSession) (m : Dict AuthSession)
    → (str_eq id key ≡ true → o ≡ none)
    → or_else (alive now o) (find key (if ltb now r.expires then put id r m else m))
      ≡ or_else (alive now (if str_eq id key then some r else o)) (find key m)
put-alive id key r now o m new = elim (Bool-cases (ltb now r.expires)) [
  | inl live ↦ elim (Bool-cases (str_eq id key)) [
    | inl same ↦ rw (live, new same, same, find-put id key r m, same, live) refl
    | inr other ↦ rw (live, other, find-put id key r m, other) refl
  ]
  | inr dead ↦ elim (Bool-cases (str_eq id key)) [
    | inl same ↦ rw (dead, new same, same, dead) refl
    | inr other ↦ rw (dead, other) refl
  ]
]

load_each-Gets :
    (key : Bytes) (now : ℕ) (records m : Dict AuthSession)
    → IsDistinct records
    → All IsStorable records
    → Gets key (or_else (alive now (find key records)) (find key m)) (load_each now records m)
unfolding load_each find
load_each-Gets key now [] m d a = refl
load_each-Gets key now ((id, r) ∷ records) m (new, d) (good, a) = rw good (
    subst (λ o. Gets key o (load_each now records (if ltb now r.expires then put id r m else m)))
      (put-alive id key r now (find key records) m
        (λ same. ap (λ k. find k records) (sym (str_eq→eq id key same)) ∙ new))
      (load_each-Gets key now records (if ltb now r.expires then put id r m else m) d a))

-- Sessions that were saved come back: when the keys of the sessions are distinct, each of them may be
-- stored, and there are at most 128, a later start that can read the file succeeds, and has of each key
-- the session that was saved, unless its time has come by then.
pub save_sessions-load_sessions :
    (s : Server) (now : ℕ) (disk : Disk) (key : Bytes)
    → IsValid s.sessions
    → IsReadable disk
    → Gets key
        (alive now (find key s.sessions))
        (load_sessions now disk (new_server (save_sessions none s).0.store))
unfolding load_sessions load_file new_server read_store save_sessions load_stored find
save_sessions-load_sessions s now disk key v d =
    let small : ltb max_store_bytes disk.file_size ≡ false = ground arith in
    let few : ltb max_sessions (length s.sessions) ≡ false = ground arith in
    let e : or_else (alive now (find key s.sessions)) none ≡ alive now (find key s.sessions) =
      or_else-none (alive now (find key s.sessions)) in
    rw (d.inspected, small, d.readable, few)
      (subst (λ o. Gets key o (load_each now s.sessions [])) e
        (load_each-Gets key now s.sessions [] v.distinct v.storable))
