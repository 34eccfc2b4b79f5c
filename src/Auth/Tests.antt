-- ===== src/Auth/Tests.antt =====
-- Browser sessions and logins on concrete servers, with the hash that gives 43 bytes of its argument.
use run_pilot.Auth.Store.{Barred}
use run_pilot.Auth.Reload.{Gets, IsReadable, alive}
use run_pilot.Auth.Sessions.Revoked.{clear_session-Barred}
use run_pilot.Auth.Sessions.Steps.{Request, issue, look_up, serve, serve_all, serve_all-Gets}
use run_pilot.Auth.Failures.Bounds.{attempts-length, full-login_allowed}
use run_pilot.Prelude.{
  List, Option, [], arith, false, length, map, none, refl, some, suc, true, zero, ℕ, ◌∷◌, ◌≡◌, ◌≤◌,
}
use run_pilot.Prelude.Bytes.{Bytes, codes, str_eq, str_eq_iff}
use run_pilot.Prelude.Dict.{Dict, delete, find, put}
use run_pilot.Auth.{
  Disk, Server, load_sessions, missing, new_server, revoke_persisted, save_sessions,
}
use run_pilot.Auth.Sessions.{
  clear_session, close_all, close_connections, drop_expired, issue_session, purge_sessions,
  revoke_tickets, session,
}
use run_pilot.Auth.Failures.{
  Attempt, LoginFailure, attempts, fails, login_allowed, max_clients, record_failure, succeeds,
}

pad_to : ℕ → Bytes → Bytes
pad_to zero b = []
pad_to (suc n) [] = b'.' ∷ pad_to n []
pad_to (suc n) (x ∷ b) = x ∷ pad_to n b

hash : Bytes → Bytes
unfolding pad_to
hash b = pad_to 43 b

pad_to-length : (n : ℕ) (b : Bytes) → length (pad_to n b) ≡ n
unfolding pad_to
pad_to-length zero b = refl
pad_to-length (suc n) [] = omega (arith, pad_to-length n [])
pad_to-length (suc n) (x ∷ b) = omega (arith, pad_to-length n b)

hash-length : (b : Bytes) → length (hash b) ≡ 43
unfolding hash
hash-length b = pad_to-length 43 b

abbrev requests : List Request
requests =
    issue (some (codes "anna")) (some (codes "t1")) 5 none
    ∷ issue (some (codes "ben")) (some (codes "t2")) 6 none
    ∷ look_up (some (codes "anna")) 90000000000000 (some (codes "disk full"))
    ∷ []

abbrev disk : Disk
disk = record { inspect_error = none; read_error = none; file_size = 400 }

disk-IsReadable : IsReadable disk
disk-IsReadable = record { inspected = refl; readable = refl; small = omega arith }

abbrev server : Server
server = serve_all hash requests (new_server missing)

serve_all-Gets_example :
    Gets
      (hash (codes "ben"))
      (alive 7 (find (hash (codes "ben")) server.sessions))
      (load_sessions 7 disk (new_server (save_sessions none server).0.store))
serve_all-Gets_example =
    serve_all-Gets hash hash-length missing requests 7 disk (hash (codes "ben")) disk-IsReadable

-- Anna's session has expired, and Ben's is there.
who_is_left : length server.sessions ≡ 1
unfolding serve_all serve session find issue_session purge_sessions close_all drop_expired
    close_connections new_server put delete str_eq hash revoke_tickets save_sessions
who_is_left = refl

cleared : (clear_session hash (some (codes "ben")) (some (codes "disk full")) none server).1 ≡ none
unfolding clear_session revoke_persisted close_connections serve_all serve session find
    issue_session purge_sessions close_all drop_expired new_server put str_eq hash revoke_tickets
cleared = refl

clear_session-Barred_example :
    ((now : ℕ) (later : Option Bytes)
      → (session hash
          (some (codes "ben"))
          now
          later
          (clear_session hash (some (codes "ben")) (some (codes "disk full")) none server).0).1
        ≡ none)
    × Barred
        (hash (codes "ben"))
        (clear_session hash (some (codes "ben")) (some (codes "disk full")) none server).0.store
clear_session-Barred_example =
    clear_session-Barred hash (codes "ben") (some (codes "disk full")) none server cleared

abbrev guesses : List Attempt
guesses = fails (codes "a") 5 ∷ fails (codes "b") 6 ∷ succeeds (codes "a") ∷ []

attempts-length_example : length (attempts guesses []) ≤ max_clients
attempts-length_example = attempts-length guesses

clients : ℕ → Dict LoginFailure
clients zero = []
clients (suc n) = ((n ∷ []), record { start = 0; count = 1 }) ∷ clients n

clients-length : (n : ℕ) → length (clients n) ≡ n
unfolding clients
clients-length zero = refl
clients-length (suc n) = omega (arith, clients-length n)

clients-none : (key : Bytes) (n : ℕ) → length key ≡ 2 → find key (clients n) ≡ none
unfolding clients find
clients-none key zero h = refl
clients-none key (suc n) h = ground (arith, str_eq_iff (n ∷ []) key, clients-none key n h)

full-login_allowed_example :
    login_allowed
      (codes "ab")
      9
      (attempts (map (λ t. fails (codes "ab") t) (7 ∷ 8 ∷ [])) (clients max_clients))
    ≡ true
full-login_allowed_example =
    full-login_allowed (codes "ab") (7 ∷ 8 ∷ []) 9 (clients max_clients)
      (clients-length max_clients) (clients-none (codes "ab") max_clients refl)

-- Ten failures are too many for a client that is in the table.
blocked :
    login_allowed
      (codes "a")
      9
      (attempts (map (λ t. fails (codes "a") t) (0 ∷ 1 ∷ 2 ∷ 3 ∷ 4 ∷ 5 ∷ 6 ∷ 7 ∷ 8 ∷ 9 ∷ [])) [])
    ≡ false
unfolding login_allowed attempts record_failure find put str_eq
blocked = refl
