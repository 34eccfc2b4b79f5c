-- ===== src/Auth/Failures.antt =====
-- The failed logins of a client, `loginAllowed`, `recordLoginFailure` and `clearLoginFailures` of
-- internal/web/auth.go. A missing entry is the zero value.
pub mod Bounds
use run_pilot.Prelude.{
  Bool, List, Option, [], false, if◌then◌else◌, leb, length, ltb, none, not, some, suc, true, ℕ,
  ◌&&◌, ◌-◌, ◌∷◌,
}
use run_pilot.Prelude.Bytes.{Bytes}
use run_pilot.Prelude.Dict.{Dict, delete, find, put}

abbrev window : ℕ
window = 900000000000

abbrev pub max_clients : ℕ
max_clients = 4096

pub record LoginFailure : Type 0 where
  pub start : ℕ
  pub count : ℕ

is_old : ℕ → LoginFailure → Bool
is_old now f = ltb window (now - f.start)

entry_of : Option LoginFailure → LoginFailure
entry_of none = record { start = 0; count = 0 }
entry_of (some f) = f

current : ℕ → LoginFailure → LoginFailure
unfolding is_old
current now f = if is_old now f then record { start = now; count = 0 } else f

unfoldable pub login_allowed : Bytes → ℕ → Dict LoginFailure → Bool
unfolding entry_of current
login_allowed key now m = ltb (current now (entry_of (find key m))).count 10

drop_old : ℕ → Dict LoginFailure → Dict LoginFailure
unfolding is_old
drop_old now [] = []
drop_old now ((k, f) ∷ m) =
    let rest = drop_old now m in if is_old now f then rest else (k, f) ∷ rest

unfoldable pub shrink : ℕ → Dict LoginFailure → Dict LoginFailure
unfolding drop_old
shrink now m = if ltb max_clients (length m) then drop_old now m else m

count_failure : Bytes → ℕ → Dict LoginFailure → Dict LoginFailure
unfolding entry_of current
count_failure key now m =
    let f = current now (entry_of (find key m)) in put key (record f { count = suc f.count }) m

is_recorded : Option LoginFailure → Bool
is_recorded none = false
is_recorded (some f) = true

record_shrunk : Bytes → ℕ → Dict LoginFailure → Dict LoginFailure
unfolding is_recorded count_failure
record_shrunk key now m =
    if leb max_clients (length m) && not (is_recorded (find key m))
    then m
    else count_failure key now m

unfoldable pub record_failure : Bytes → ℕ → Dict LoginFailure → Dict LoginFailure
unfolding record_shrunk shrink
record_failure key now m = record_shrunk key now (shrink now m)

abbrev pub clear_failures : Bytes → Dict LoginFailure → Dict LoginFailure
clear_failures key m = delete key m

-- What the logins of clients do to the table.
pub data Attempt : Type 0 where
  fails : Bytes → ℕ → Attempt
  succeeds : Bytes → Attempt

unfoldable pub attempts : List Attempt → Dict LoginFailure → Dict LoginFailure
attempts [] m = m
attempts (fails key now ∷ es) m = attempts es (record_failure key now m)
attempts (succeeds key ∷ es) m = attempts es (clear_failures key m)
