-- ===== src/Schedule/Cron.antt =====
-- `parseCronField`, `parseCron`, `match` and `next` of internal/scheduler/scheduler.go.
pub mod Values
pub mod Rounds
pub mod Next
use run_pilot.Prelude.{
  Bool, List, Option, [], false, if◌then◌else◌, leb, ltb, none, not, some, suc, true, zero, ℕ, ◌*◌,
  ◌++◌, ◌+◌, ◌-◌, ◌/◌, ◌^◌, ◌||◌, ◌∷◌,
}
use run_pilot.Prelude.Int.{eq_ℤ, leb_ℤ, ltb_ℤ, negsuc, pos, ℤ}
use run_pilot.Prelude.Bytes.{Bytes, codes, str_eq}
use run_pilot.Text.{contains, fields, split, trim_space}
use run_pilot.Text.Decimal.{atoi}
use run_pilot.Prelude.Maybe.{◌>>=◌}
use run_pilot.Schedule.Calendar.{Calendar, nanos}

-- `v + n` on 64-bit integers, for n ≥ 0: it wraps.
abbrev pub add64 : ℤ → ℕ → ℤ
add64 (pos a) n = if ltb (a + n) (2 ^ 63) then pos (a + n) else negsuc (2 ^ 64 - (a + n) - 1)
add64 (negsuc a) n = if leb n a then negsuc (a - n) else pos (n - a - 1)

-- `for v := start; v <= end; v += step { out[v] = true }`.
unfoldable pub values : ℕ → ℤ → ℤ → ℕ → List ℤ
values zero v last step = []
values (suc fuel) v last step =
    let rest = v ∷ values fuel (add64 v step) last step in if leb_ℤ v last then rest else []

-- A field is the set of its values: `out[v]` is membership.
abbrev pub CronField : Type 0
CronField = List ℤ

unfoldable pub has : CronField → ℕ → Bool
has [] n = false
has (v ∷ vs) n = eq_ℤ v (pos n) || has vs n

-- The range that the base of a token stands for.
range_parts : List Bytes → Option (ℤ × ℤ)
range_parts [] = none
range_parts (a ∷ []) = none
range_parts (a ∷ b ∷ []) = do start ← atoi 64 a; last ← atoi 64 b; some (start, last)
range_parts (a ∷ b ∷ c ∷ parts) = none

token_range : ℕ → ℕ → Bytes → Option (ℤ × ℤ)
unfolding range_parts
token_range min max base =
    if str_eq base (codes "*")
    then some (pos min, pos max)
    else if contains base b'-'
    then range_parts (split base b'-')
    else atoi 64 base >>= λ n. some (n, n)

-- The base and the step: `none` where the step is invalid.
step_of : Option ℤ → Option ℕ
step_of none = none
step_of (some (pos zero)) = none
step_of (some (pos (suc n))) = some (suc n)
step_of (some (negsuc n)) = none

step_parts : List Bytes → Option (Bytes × ℕ)
unfolding step_of
step_parts [] = none
step_parts (a ∷ []) = none
step_parts (a ∷ b ∷ []) = do step ← step_of (atoi 64 b); some (a, step)
step_parts (a ∷ b ∷ c ∷ parts) = none

token_step : Bytes → Option (Bytes × ℕ)
unfolding step_parts
token_step token = if contains token b'/' then step_parts (split token b'/') else some (token, 1)

-- The fuel of the loop over the values: a range has at most 60 numbers.
abbrev pub rounds : ℕ
rounds = 64

checked_values : ℕ → ℕ → ℕ → ℤ × ℤ → Option CronField
checked_values min max step (start, last) =
    if ltb_ℤ start (pos min) || ltb_ℤ (pos max) last || ltb_ℤ last start
    then none
    else some (values rounds start last step)

-- One round of the loop over the tokens.
unfoldable pub parse_token : ℕ → ℕ → Bytes → Option CronField
unfolding token_range token_step checked_values
parse_token min max [] = none
parse_token min max (c ∷ s) = do
  (base, step) ← token_step (c ∷ s)
  range ← token_range min max base
  checked_values min max step range

parse_tokens : ℕ → ℕ → List Bytes → Option CronField
parse_tokens min max [] = some []
parse_tokens min max (token ∷ tokens) = do
  vs ← parse_token min max (trim_space token)
  rest ← parse_tokens min max tokens
  some (vs ++ rest)

unfoldable pub parse_field : ℕ → ℕ → Bytes → Option CronField
unfolding parse_tokens
parse_field min max raw = parse_tokens min max (split raw b',')

pub record CronExpr : Type 0 where
  pub second : CronField
  pub minute : CronField
  pub hour : CronField
  pub dom : CronField
  pub month : CronField
  pub dow : CronField
  pub dom_any : Bool
  pub dow_any : Bool

parse_six : Bytes → Bytes → Bytes → Bytes → Bytes → Bytes → Option CronExpr
parse_six s m h d o w = do
  second ← parse_field 0 59 s
  minute ← parse_field 0 59 m
  hour ← parse_field 0 23 h
  dom ← parse_field 1 31 d
  month ← parse_field 1 12 o
  dow ← parse_field 0 6 w
  some (record {
    second = second;
    minute = minute;
    hour = hour;
    dom = dom;
    month = month;
    dow = dow;
    dom_any = str_eq d (codes "*");
    dow_any = str_eq w (codes "*");
  })

parse_parts : List Bytes → Option CronExpr
unfolding parse_six
parse_parts (m ∷ h ∷ d ∷ o ∷ w ∷ []) = parse_six (codes "0") m h d o w
parse_parts (s ∷ m ∷ h ∷ d ∷ o ∷ w ∷ []) = parse_six s m h d o w
parse_parts _ = none

unfoldable pub parse_cron : Bytes → Option CronExpr
unfolding parse_parts
parse_cron raw = parse_parts (fields raw)

day_matches : Bool → Bool → Bool → Bool → Bool
day_matches true true dom dow = true
day_matches true false dom dow = dow
day_matches false true dom dow = dom
day_matches false false dom dow = dom || dow

-- Whether an expression fires in the second `t`.
unfoldable pub matches : Calendar → CronExpr → ℕ → Bool
unfolding day_matches
matches c e t =
    if not (has e.second (c.second t))
      || not (has e.minute (c.minute t))
      || not (has e.hour (c.hour t))
      || not (has e.month (c.month t))
    then false
    else day_matches e.dom_any e.dow_any (has e.dom (c.day t)) (has e.dow (c.weekday t))

-- `for !t.After(limit)`; the fuel is the seconds left.
search_from : Calendar → CronExpr → ℕ → ℕ → ℕ → ℕ
search_from c e limit zero t = limit
search_from c e limit (suc fuel) t =
    let rest = search_from c e limit fuel (t + 1) in
    if leb t limit then (if matches c e t then t else rest) else limit

-- The second after `now`, where the search begins, and the last one of it.
abbrev pub first_second : ℕ → ℕ
first_second now = now / nanos + 1

abbrev pub last_second : Calendar → ℕ → ℕ
last_second c now = c.add_year (first_second now)

unfoldable pub next : Calendar → CronExpr → ℕ → ℕ
unfolding search_from
next c e now =
    let t = first_second now in
    let limit = last_second c now in search_from c e limit (limit + 1 - t) t * nanos
