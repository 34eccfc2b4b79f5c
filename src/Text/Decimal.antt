-- ===== src/Text/Decimal.antt =====
-- `strconv.Itoa` and `strconv.Atoi`, for an `int` of `w` bits, and their round trip.
use run_pilot.Prelude.{
  Bool-cases, Option, [], arith, if◌then◌else◌, inl, inr, leb, ltb, none, some, suc, zero, ℕ, ◌%◌,
  ◌&&◌, ◌*◌, ◌+◌, ◌-◌, ◌/◌, ◌<◌, ◌==◌, ◌^◌, ◌∙◌, ◌∷◌, ◌≡◌, ◌≤◌,
}
use run_pilot.Prelude.Int.{neg_part, negsuc, pos, pos_part, ℤ}
use run_pilot.Prelude.Bytes.{Bytes}

-- With more fuel than the number the loop has put out every digit.
emit : ℕ → ℕ → Bytes → Bytes
emit zero n out = out
emit (suc fuel) n out =
    let rest = emit fuel (n / 10) ((b'0' + n % 10) ∷ out) in
    if ltb n 10 then (b'0' + n) ∷ out else rest

digits : ℕ → Bytes
digits n = emit (suc n) n []

unfoldable pub itoa : ℤ → Bytes
unfolding digits emit
itoa (pos n) = digits n
itoa (negsuc n) = b'-' ∷ digits (suc n)

-- The number that the digits write, after `n`.
scan : Bytes → ℕ → Option ℕ
scan [] n = some n
scan (c ∷ s) n =
    let rest = scan s (n * 10 + (c - b'0')) in if leb b'0' c && leb c b'9' then rest else none

number : Bytes → Option ℕ
number [] = none
number (c ∷ s) = scan (c ∷ s) 0

non_negative : ℕ → Option ℕ → Option ℤ
non_negative w none = none
non_negative w (some n) = if ltb n (2 ^ (w - 1)) then some (pos n) else none

negative : ℕ → Option ℕ → Option ℤ
negative w none = none
negative w (some zero) = some (pos 0)
negative w (some (suc n)) = if ltb n (2 ^ (w - 1)) then some (negsuc n) else none

unfoldable pub atoi : ℕ → Bytes → Option ℤ
unfolding scan number non_negative negative
atoi w [] = none
atoi w (c ∷ s) =
    if c == b'-'
    then negative w (number s)
    else if c == b'+'
    then non_negative w (number s)
    else non_negative w (number (c ∷ s))

scan-emit : (f n : ℕ) (out : Bytes) → n < f → scan (emit f n out) 0 ≡ scan out n
unfolding scan emit
scan-emit zero n out h = elim h [ ]
scan-emit (suc f) n out h = elim (Bool-cases (ltb n 10)) [
  | inl small ↦ rw small (ground arith)
  | inr large ↦ rw large (scan-emit f (n / 10) ((b'0' + n % 10) ∷ out) (ground arith) ∙ step)
]
  where
    step : scan ((b'0' + n % 10) ∷ out) (n / 10) ≡ scan out n
    step = ground arith

-- What is put out begins with a digit.
emit_head :
    (f n : ℕ) (out : Bytes) → n < f → (c : ℕ) × (s : Bytes) × (emit f n out ≡ c ∷ s) × (b'0' ≤ c)
unfolding emit
emit_head zero n out h = elim h [ ]
emit_head (suc f) n out h = elim (Bool-cases (ltb n 10)) [
  | inl small ↦ (b'0' + n, out, rw small, omega arith)
  | inr large ↦ rw large (emit_head f (n / 10) ((b'0' + n % 10) ∷ out) (ground arith))
]

number-digits : (n : ℕ) → number (digits n) ≡ some n
unfolding number digits scan
number-digits n =
    let (c, s, e, _) = emit_head (suc n) n [] (omega arith) in
    ground (arith, e, scan-emit (suc n) n [] (omega arith))

atoi-digits : (w n : ℕ) → n < 2 ^ (w - 1) → atoi w (digits n) ≡ some (pos n)
unfolding atoi digits
atoi-digits w n h =
    let (c, s, e, digit) = emit_head (suc n) n [] (omega arith) in
    ground (arith, e, number-digits n)

-- Reading back what was written gives the number, at every number that the width holds.
pub atoi-itoa :
    (w : ℕ) (n : ℤ) → pos_part n < 2 ^ (w - 1) → neg_part n ≤ 2 ^ (w - 1) → atoi w (itoa n) ≡ some n
unfolding atoi itoa
atoi-itoa w (pos n) h k = atoi-digits w n h
atoi-itoa w (negsuc n) h k = rw (number-digits (suc n)) (ground arith)
