-- ===== src/Gateway/Cookies.antt =====
-- The bound on the cookies of a gateway session, `boundedCookieJar` of internal/httpgateway/cookies.go.
-- A time is signed nanoseconds, none is the zero time; a cookie has the length of its `String()`. The jar
-- of the standard library, which gets the accepted cookies, is left out.
pub mod Bounds
use run_pilot.Prelude.{
  Bool, List, Option, [], false, if◌then◌else◌, leb, length, ltb, none, not, reverse, some, suc,
  true, zero, ℕ, ◌%◌, ◌&&◌, ◌*◌, ◌++◌, ◌+◌, ◌-◌, ◌==◌, ◌^◌, ◌||◌, ◌∷◌,
}
use run_pilot.Prelude.Int.{ltb_ℤ, neg_part, negsuc, pos, pos_part, ℤ}
use run_pilot.Prelude.Bytes.{Bytes, codes, str_eq}
use run_pilot.Prelude.Dict.{Dict, delete, find, put}
use run_pilot.Text.{has_prefix, to_lower, trim_prefix}

abbrev pub max_cookies : ℕ
max_cookies = 128

abbrev pub max_cookie_bytes : ℕ
max_cookie_bytes = 65536

pub record Cookie : Type 0 where
  pub name : Bytes
  pub domain : Bytes
  pub path : Bytes
  pub max_age : ℤ
  pub expires : Option ℤ
  pub text_length : ℕ

-- `u.Hostname()` and `u.Path`.
pub record Url : Type 0 where
  pub hostname : Bytes
  pub url_path : Bytes

pub record CookieRecord : Type 0 where
  pub size : ℕ
  pub expires : Option ℤ

-- `bytes` is an `int`.
pub record Jar : Type 0 where
  pub records : Dict CookieRecord
  pub total_bytes : ℤ
  pub overflow : Bool

unfoldable pub new_jar : Jar
new_jar = record { records = []; total_bytes = pos 0; overflow = false }

-- `m - n`.
unfoldable pub sub_nat : ℕ → ℕ → ℤ
sub_nat m n = if leb n m then pos (m - n) else negsuc (n - m - 1)

abbrev pub minus : ℤ → ℕ → ℤ
minus a n = sub_nat (pos_part a) (neg_part a + n)

abbrev pub plus : ℤ → ℕ → ℤ
plus a n = sub_nat (pos_part a + n) (neg_part a)

-- `!expires.IsZero() && !now.Before(expires)`.
unfoldable pub has_expired : ℤ → Option ℤ → Bool
has_expired now none = false
has_expired now (some e) = not (ltb_ℤ now e)

-- The expired records are deleted, in the order of the map.
unfoldable pub purge : ℤ → Dict CookieRecord → ℤ → Dict CookieRecord × ℤ
purge now [] bytes = ([], bytes)
purge now ((key, r) ∷ m) bytes =
    let gone = purge now m (minus bytes r.size) in
    let (kept, after) = purge now m bytes in
    if has_expired now r.expires then gone else ((key, r) ∷ kept, after)

-- The text before the last slash, of a text read from its end.
cut_back : Bytes → Option Bytes
cut_back [] = none
cut_back (c ∷ s) = let rest = cut_back s in if c == b'/' then some s else rest

directory : Option Bytes → Bytes
directory none = codes "/"
directory (some []) = codes "/"
directory (some (c ∷ s)) = reverse (c ∷ s)

cookie_path : Url → Cookie → Bytes
unfolding cut_back directory
cookie_path u c =
    if not (has_prefix c.path (codes "/"))
    then directory (cut_back (reverse u.url_path))
    else c.path

cookie_domain : Url → Cookie → Bytes
cookie_domain u c =
    let d = to_lower (trim_prefix c.domain (codes ".")) in if str_eq d [] then u.hostname else d

unfoldable pub cookie_key : Url → Cookie → Bytes
unfolding cookie_path cookie_domain
cookie_key u c = cookie_domain u c ++ 0 ∷ cookie_path u c ++ 0 ∷ c.name

abbrev pub record_size : Option CookieRecord → ℕ
record_size none = 0
record_size (some r) = r.size

-- `now.Add(time.Duration(MaxAge) * time.Second)`, where the product has 64 bits.
signed64 : ℕ → ℤ
signed64 n = let m = n % 2 ^ 64 in if ltb m (2 ^ 63) then pos m else negsuc (2 ^ 64 - m - 1)

later : ℤ → ℕ → ℤ
unfolding signed64
later now seconds =
    let d = signed64 (seconds * 1000000000) in
    sub_nat (pos_part now + pos_part d) (neg_part now + neg_part d)

expiry : ℤ → Cookie → Option ℤ
unfolding later
expiry now c = elim c.max_age [
  | pos zero ↦ c.expires
  | pos (suc n) ↦ some (later now (suc n))
  | negsuc n ↦ c.expires
]

cookie_size : Bytes → Cookie → ℕ
cookie_size key c = length key + c.text_length

is_full : Jar → ℕ → ℕ → Bool
is_full j previous size =
    ltb_ℤ (pos max_cookie_bytes) (plus (minus j.total_bytes previous) size)
    || previous == 0 && leb max_cookies (length j.records)

-- One cookie: whether it is accepted, and the jar.
unfoldable pub set_cookie : ℤ → Url → Cookie → Jar → Bool × Jar
unfolding cookie_size is_full expiry
set_cookie now u c j =
    let key = cookie_key u c in
    let previous = record_size (find key j.records) in
    let size = cookie_size key c in
    if ltb_ℤ c.max_age (pos 0) || has_expired now c.expires
    then (
      true,
      record j { records = delete key j.records; total_bytes = minus j.total_bytes previous },
    )
    else if is_full j previous size
    then (false, record j { overflow = true })
    else (
      true,
      record j {
        records = put key (record { size = size; expires = expiry now c }) j.records;
        total_bytes = plus j.total_bytes size;
      },
    )

-- The cookies that are accepted, with the jar.
unfoldable pub set_each : ℤ → Url → List Cookie → Jar → List Cookie × Jar
set_each now u [] j = ([], j)
set_each now u (c ∷ cs) j =
    let (accepted, j1) = set_cookie now u c j in
    let (rest, j2) = set_each now u cs j1 in (if accepted then c ∷ rest else rest, j2)

purged : ℤ → Jar → Jar
purged now j =
    let (records, bytes) = purge now j.records j.total_bytes in
    record j { records = records; total_bytes = bytes }

unfoldable pub set_cookies : ℤ → Url → List Cookie → Jar → List Cookie × Jar
unfolding purged
set_cookies now u cookies j = set_each now u cookies (purged now j)
