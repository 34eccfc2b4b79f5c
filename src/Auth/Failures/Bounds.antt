-- ===== src/Auth/Failures/Bounds.antt =====
-- The bound on the table of failed logins of internal/web/auth.go, and what it means for a new client.
use mathlib.Core.Path.{subst}
use run_pilot.Prelude.{
  List, Option-cases, [], ap, arith, false, if-cases, inl, inr, leb, length, ltb, map, none, not,
  refl, some, suc, sym, true, ℕ, ◌&&◌, ◌-◌, ◌∙◌, ◌∷◌, ◌≡◌, ◌≤◌,
}
use run_pilot.Prelude.Bytes.{Bytes}
use run_pilot.Prelude.Dict.{Dict, delete, find, length-delete, length-put, length-put_found}
use run_pilot.Auth.Failures.{
  Attempt, LoginFailure, attempts, count_failure, current, entry_of, fails, is_recorded,
  login_allowed, max_clients, record_failure, record_shrunk, shrink, succeeds, window,
}

shrink_small : (now : ℕ) (m : Dict LoginFailure) → length m ≤ max_clients → shrink now m ≡ m
unfolding shrink
shrink_small now m h = ground arith

count_failure-length :
    (key : Bytes) (now : ℕ) (m : Dict LoginFailure)
    → length (count_failure key now m) ≤ suc (length m)
unfolding count_failure
count_failure-length key now m = length-put key _ m

count_failure-known :
    (key : Bytes) (now : ℕ) (m : Dict LoginFailure) (f : LoginFailure)
    → find key m ≡ some f
    → length (count_failure key now m) ≡ length m
unfolding count_failure
count_failure-known key now m f h = length-put_found key _ f m h

record_shrunk-length :
    (key : Bytes) (now : ℕ) (m : Dict LoginFailure)
    → length m ≤ max_clients
    → length (record_shrunk key now m) ≤ max_clients
unfolding record_shrunk
record_shrunk-length key now m h =
    if-cases (λ (x : Dict LoginFailure). length x ≤ max_clients)
      (leb max_clients (length m) && not (is_recorded (find key m))) (λ full. h)
      (λ room. elim (Option-cases (find key m)) [
        | inl unknown ↦
            let small : leb max_clients (length m) && true ≡ false = rw unknown at room in
            let at_most : length (count_failure key now m) ≤ suc (length m) =
              count_failure-length key now m in
            ground arith
        | inr (f, known) ↦
            subst (λ n. n ≤ max_clients) (sym (count_failure-known key now m f known)) h
      ])

record_failure-length :
    (key : Bytes) (now : ℕ) (m : Dict LoginFailure)
    → length m ≤ max_clients
    → length (record_failure key now m) ≤ max_clients
unfolding record_failure
record_failure-length key now m h =
    subst (λ x. length (record_shrunk key now x) ≤ max_clients) (sym (shrink_small now m h))
      (record_shrunk-length key now m h)

attempts-bound :
    (es : List Attempt) (m : Dict LoginFailure)
    → length m ≤ max_clients
    → length (attempts es m) ≤ max_clients
unfolding attempts
attempts-bound [] m h = h
attempts-bound (fails key now ∷ es) m h =
    attempts-bound es (record_failure key now m) (record_failure-length key now m h)
attempts-bound (succeeds key ∷ es) m h =
    attempts-bound es (delete key m) (omega (arith, length-delete key m))

-- However logins fail and succeed, a table that starts empty never has more than 4096 clients.
pub attempts-length : (es : List Attempt) → length (attempts es []) ≤ max_clients
attempts-length es = attempts-bound es [] (omega arith)

login_allowed-new :
    (key : Bytes) (now : ℕ) (m : Dict LoginFailure)
    → find key m ≡ none
    → login_allowed key now m ≡ true
unfolding login_allowed current entry_of
login_allowed-new key now m new = rw new (
    if-cases (λ (f : LoginFailure). ltb f.count 10 ≡ true) (ltb window (now - 0)) (λ h. refl)
      (λ h. refl))

record_failure-full :
    (key : Bytes) (now : ℕ) (m : Dict LoginFailure)
    → length m ≡ max_clients
    → find key m ≡ none
    → record_failure key now m ≡ m
unfolding record_failure record_shrunk
record_failure-full key now m full new =
    ap (λ x. record_shrunk key now x) (shrink_small now m (omega arith))
    ∙ rw new (
        if-cases (λ (x : Dict LoginFailure). x ≡ m) (leb max_clients (length m) && true) (λ h. refl)
          (λ h. absurd (ground arith)))

-- A client whose failures find no room: while the table has 4096 clients and this one is not in it, the
-- client may try again after any number of failures, however old the entries of the others are.
pub full-login_allowed :
    (key : Bytes) (ts : List ℕ) (now : ℕ) (m : Dict LoginFailure)
    → length m ≡ max_clients
    → find key m ≡ none
    → login_allowed key now (attempts (map (λ t. fails key t) ts) m) ≡ true
unfolding attempts
full-login_allowed key [] now m full new = login_allowed-new key now m new
full-login_allowed key (t ∷ ts) now m full new =
    ap (λ x. login_allowed key now (attempts (map (λ u. fails key u) ts) x))
      (record_failure-full key t m full new)
    ∙ full-login_allowed key ts now m full new
