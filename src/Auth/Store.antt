-- ===== src/Auth/Store.antt =====
-- What a session that was ended leaves behind: the sessions that a later start of the server loads from
-- the file of internal/web/auth_sessions.go.
use run_pilot.Prelude.{
  Option, Option-cases, [], arith, if-cases, if◌then◌else◌, inl, inr, length, ltb, none, not, refl,
  some, ℕ, ◌++◌, ◌==◌, ◌||◌, ◌∙◌, ◌∷◌, ◌≡◌,
}
use run_pilot.Prelude.Bytes.{Bytes, codes, str_eq_iff}
use run_pilot.Prelude.Dict.{Dict, find, find-put, put}
use run_pilot.Prelude.Result.{Result, err, ok}
use run_pilot.Auth.{
  AuthSession, Disk, File, Server, Stored, encoded, is_invalid, load_each, load_file, load_sessions,
  load_stored, max_sessions, max_store_bytes, missing, new_server, read_store, remove_store,
  revoke_persisted, save_sessions, undecodable,
}

-- The start fails, or its sessions do not have the key.
abbrev pub Lacks : Bytes → Result (Dict AuthSession) → Type 0
Lacks key (ok m) = find key m ≡ none
Lacks key (err e) = Unit {0}

-- At no time and on no disk, a start that finds this file has a session with the key.
pub Barred : Bytes → File → Type 0
Barred key file = (now : ℕ) (disk : Disk) → Lacks key (load_sessions now disk (new_server file))

load_each-Lacks :
    (key : Bytes) (now : ℕ) (records m : Dict AuthSession)
    → find key records ≡ none
    → find key m ≡ none
    → Lacks key (load_each now records m)
unfolding load_each find
load_each-Lacks key now [] m h g = g
load_each-Lacks key now ((id, a) ∷ records) m h g =
    if-cases (Lacks key) (is_invalid id a) (λ bad. tt)
      (λ good.
        load_each-Lacks key now records (if ltb now a.expires then put id a m else m)
          (ground (arith, str_eq_iff id key))
          (if-cases (λ (x : Dict AuthSession). find key x ≡ none) (ltb now a.expires)
            (λ l. find-put id key a m ∙ ground (arith, str_eq_iff id key)) (λ l. g)))

load_stored-Lacks :
    (key : Bytes) (now : ℕ) (s : Stored)
    → find key s.stored_sessions ≡ none
    → Lacks key (load_stored now s [])
unfolding load_stored find
load_stored-Lacks key now s h =
    if-cases (Lacks key) (not (s.version == 1) || ltb max_sessions (length s.stored_sessions))
      (λ bad. tt) (λ good. load_each-Lacks key now s.stored_sessions [] h refl)

Barred-missing : (key : Bytes) → Barred key missing
unfolding Barred load_sessions load_file new_server find
Barred-missing key now disk =
    elim disk.inspect_error
      as (λ o.
        Lacks key
          (elim o [ none ↦ ok [] | some e ↦ err (codes "inspect browser session store: " ++ e) ])) [
            | none ↦ refl
            | some e ↦ tt
          ]

Barred-encoded :
    (key : Bytes) (s : Stored) → find key s.stored_sessions ≡ none → Barred key (encoded s)
unfolding Barred load_sessions load_file new_server read_store
Barred-encoded key s h now disk = elim (Option-cases disk.inspect_error) [
  | inr (e, p) ↦ rw p tt
  | inl p ↦ rw p (
      if-cases (Lacks key) (ltb max_store_bytes disk.file_size) (λ large. tt)
        (λ small. elim (Option-cases disk.read_error) [
          | inr (e, q) ↦ rw q tt
          | inl q ↦ rw q (load_stored-Lacks key now s h)
        ]))
]

remove_store-Barred :
    (key : Bytes) (removal : Option Bytes) (file : File)
    → (remove_store removal file).1 ≡ none
    → Barred key (remove_store removal file).0
unfolding remove_store
remove_store-Barred key none missing e = Barred-missing key
remove_store-Barred key (some x) missing e = Barred-missing key
remove_store-Barred key none (encoded s) e = Barred-missing key
remove_store-Barred key none (undecodable t) e = Barred-missing key
remove_store-Barred key (some x) (encoded s) e = cc
remove_store-Barred key (some x) (undecodable t) e = cc

pub revoke_persisted-sessions :
    (failure removal : Option Bytes) (s : Server)
    → (revoke_persisted failure removal s).0.sessions ≡ s.sessions
unfolding revoke_persisted save_sessions
revoke_persisted-sessions none removal s = refl
revoke_persisted-sessions (some f) removal s = refl

pub revoke_persisted-Barred :
    (key : Bytes) (failure removal : Option Bytes) (s : Server)
    → find key s.sessions ≡ none
    → (revoke_persisted failure removal s).1 ≡ none
    → Barred key (revoke_persisted failure removal s).0.store
unfolding revoke_persisted save_sessions
revoke_persisted-Barred key none removal s h e = Barred-encoded key _ h
revoke_persisted-Barred key (some f) removal s h e = remove_store-Barred key removal s.store e
