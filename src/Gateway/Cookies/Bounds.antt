-- ===== src/Gateway/Cookies/Bounds.antt =====
-- The cookies of a session stay below the bounds, whatever the server of the site sets.
use mathlib.Core.Path.{subst}
use run_pilot.Prelude.{
  Bool, List, [], ap, arith, false, if-cases, inl, inr, leb, length, ltb, refl, sym, true, ℕ,
  ℕ-cases, ◌&&◌, ◌*◌, ◌+◌, ◌-◌, ◌<◌, ◌==◌, ◌||◌, ◌∙◌, ◌∷◌, ◌≡◌, ◌≤◌,
}
use run_pilot.Prelude.Int.{ltb_ℤ, pos, ℤ}
use run_pilot.Prelude.Bytes.{Bytes}
use run_pilot.Prelude.Dict.{Dict, delete, find, length-delete, length-put, put}
use run_pilot.Gateway.Cookies.{
  Cookie, CookieRecord, Jar, Url, cookie_key, cookie_size, expiry, has_expired, is_full,
  max_cookie_bytes, max_cookies, minus, new_jar, plus, purge, purged, record_size, set_cookie,
  set_cookies, set_each, sub_nat,
}

-- The bytes of the records.
unfoldable pub total : Dict CookieRecord → ℕ
total [] = 0
total ((key, r) ∷ m) = r.size + total m

-- At most 128 records of 65536 bytes together. `bytes` counts them all, and perhaps more, but less than
-- would be twice the bound.
pub record IsBounded (j : Jar) : Type 0 where
  pub few : length j.records ≤ max_cookies
  pub small : total j.records ≤ max_cookie_bytes
  pub count : ℕ
  pub is_count : j.total_bytes ≡ pos count
  pub counted : total j.records ≤ count
  pub limited : count ≤ 2 * max_cookie_bytes

total-put :
    (k : Bytes) (r : CookieRecord) (m : Dict CookieRecord)
    → total (put k r m) + record_size (find k m) ≡ total m + r.size
unfolding total put find
total-put k r [] = omega arith
total-put k r ((i, q) ∷ m) = ground (arith, total-put k r m)

total-delete :
    (k : Bytes) (m : Dict CookieRecord) → total (delete k m) + record_size (find k m) ≤ total m
unfolding total delete find
total-delete k [] = omega arith
total-delete k ((i, q) ∷ m) = ground (arith, total-delete k m)

size-le-total : (k : Bytes) (m : Dict CookieRecord) → record_size (find k m) ≤ total m
size-le-total k m = omega (arith, total-delete k m)

length-put_sized :
    (k : Bytes) (r : CookieRecord) (m : Dict CookieRecord)
    → 0 < record_size (find k m)
    → length (put k r m) ≡ length m
unfolding put find
length-put_sized k r [] h = absurd (omega arith)
length-put_sized k r ((i, q) ∷ m) h = ground (arith, length-put_sized k r m)

le_of_ltb : (a b : ℕ) → ltb a b ≡ false → b ≤ a
le_of_ltb a b h = ground arith

minus-pos : (n p : ℕ) → p ≤ n → minus (pos n) p ≡ pos (n - p)
unfolding sub_nat
minus-pos n p h = ground arith

plus-pos : (n p : ℕ) → plus (pos n) p ≡ pos (n + p)
unfolding sub_nat
plus-pos n p = ground arith

-- The count falls by what is purged.
record IsPurged (m : Dict CookieRecord) (n : ℕ) (after : Dict CookieRecord × ℤ) : Type 0 where
  count : ℕ
  is_count : after.1 ≡ pos count
  same : count + total m ≡ n + total after.0
  smaller : total after.0 ≤ total m
  fewer : length after.0 ≤ length m

purge-IsPurged :
    (now : ℤ) (m : Dict CookieRecord) (n : ℕ) → total m ≤ n → IsPurged m n (purge now m (pos n))
unfolding purge total
purge-IsPurged now [] n h = record {
  count = n;
  is_count = refl;
  same = refl;
  smaller = omega arith;
  fewer = omega arith;
}
purge-IsPurged now ((key, r) ∷ m) n h =
    if-cases (IsPurged ((key, r) ∷ m) n) (has_expired now r.expires)
      (λ gone.
        let p = purge-IsPurged now m (n - r.size) (omega arith) in
        subst (λ z. IsPurged ((key, r) ∷ m) n (purge now m z))
          (sym (minus-pos n r.size (omega arith)))
          (record {
            count = p.count;
            is_count = p.is_count;
            same = omega (arith, p.same, h);
            smaller = omega (arith, p.smaller);
            fewer = omega (arith, p.fewer);
          }))
      (λ kept.
        let p = purge-IsPurged now m n (omega arith) in
        record {
          count = p.count;
          is_count = p.is_count;
          same = omega (arith, p.same);
          smaller = omega (arith, p.smaller);
          fewer = omega (arith, p.fewer);
        })

purged-IsBounded : (now : ℤ) (j : Jar) → IsBounded j → IsBounded (purged now j)
unfolding purged
purged-IsBounded now j b =
    let p =
      subst (λ z. IsPurged j.records b.count (purge now j.records z)) (sym b.is_count)
        (purge-IsPurged now j.records b.count b.counted) in
    record {
      few = omega (arith, p.fewer, b.few);
      small = omega (arith, p.smaller, b.small);
      count = p.count;
      is_count = p.is_count;
      counted = omega (arith, p.same, b.counted);
      limited = omega (arith, p.same, p.smaller, b.limited);
    }

or-eq-false : (a b : Bool) → (a || b) ≡ false → (a ≡ false) × (b ≡ false)
or-eq-false true b h = cc
or-eq-false false b h = (refl, h)

length-put_below :
    (k : Bytes) (r : CookieRecord) (m : Dict CookieRecord)
    → length m ≤ max_cookies
    → (record_size (find k m) == 0 && leb max_cookies (length m)) ≡ false
    → length (put k r m) ≤ max_cookies
length-put_below k r m few room = elim (ℕ-cases (record_size (find k m))) [
  | inl absent ↦
      let l : length m < max_cookies = ground (arith, rw absent at room) in
      omega (arith, length-put k r m)
  | inr (n, found) ↦ omega (arith, length-put_sized k r m (omega (arith, found)), few)
]

-- The outcomes of one cookie that is taken.
module _ (j : Jar) (b : IsBounded j) (key : Bytes) where
  delete-IsBounded : IsBounded (record j {
    records = delete key j.records;
    total_bytes = minus j.total_bytes (record_size (find key j.records));
  })
  delete-IsBounded =
      let d = total-delete key j.records in
      let s = size-le-total key j.records in
      record {
        few = omega (arith, length-delete key j.records, b.few);
        small = omega (arith, d, b.small);
        count = b.count - record_size (find key j.records);
        is_count =
            ap (λ z. minus z (record_size (find key j.records))) b.is_count
            ∙ minus-pos b.count (record_size (find key j.records)) (omega (arith, s, b.counted));
        counted = omega (arith, d, b.counted);
        limited = omega (arith, b.limited);
      }

  put-IsBounded :
      (r : CookieRecord)
      → is_full j (record_size (find key j.records)) r.size ≡ false
      → IsBounded
          (record j { records = put key r j.records; total_bytes = plus j.total_bytes r.size })
  unfolding is_full
  put-IsBounded r fits =
      let previous = record_size (find key j.records) in
      let t = total-put key r j.records in
      let s = size-le-total key j.records in
      let size : plus (minus j.total_bytes previous) r.size ≡ pos (b.count - previous + r.size) =
        ap (λ z. plus (minus z previous) r.size) b.is_count
        ∙ (ap (λ z. plus z r.size) (minus-pos b.count previous (omega (arith, s, b.counted)))
            ∙ plus-pos (b.count - previous) r.size) in
      let (below, room) = or-eq-false _ _ (rw size at fits) in
      let bytes = le_of_ltb max_cookie_bytes (b.count - previous + r.size) below in
      record {
        few = length-put_below key r j.records b.few room;
        small = omega (arith, t, s, b.counted, bytes);
        count = b.count + r.size;
        is_count = ap (λ z. plus z r.size) b.is_count ∙ plus-pos b.count r.size;
        counted = omega (arith, t, b.counted);
        limited = omega (arith, s, b.small, b.counted, bytes);
      }

set_cookie-IsBounded :
    (now : ℤ) (u : Url) (c : Cookie) (j : Jar) → IsBounded j → IsBounded (set_cookie now u c j).1
unfolding set_cookie
set_cookie-IsBounded now u c j b =
    let key = cookie_key u c in
    let previous = record_size (find key j.records) in
    if-cases (λ (r : Bool × Jar). IsBounded r.1)
      (ltb_ℤ c.max_age (pos 0) || has_expired now c.expires) (λ gone. delete-IsBounded j b key)
      (λ stays.
        if-cases (λ (r : Bool × Jar). IsBounded r.1) (is_full j previous (cookie_size key c))
          (λ full. record {
            few = b.few;
            small = b.small;
            count = b.count;
            is_count = b.is_count;
            counted = b.counted;
            limited = b.limited;
          })
          (λ fits.
            put-IsBounded j b key (record { size = cookie_size key c; expires = expiry now c })
              fits))

set_each-IsBounded :
    (now : ℤ) (u : Url) (cs : List Cookie) (j : Jar)
    → IsBounded j
    → IsBounded (set_each now u cs j).1
unfolding set_each
set_each-IsBounded now u [] j b = b
set_each-IsBounded now u (c ∷ cs) j b =
    set_each-IsBounded now u cs (set_cookie now u c j).1 (set_cookie-IsBounded now u c j b)

-- A response that sets cookies: the time, the address and the cookies.
pub record Response : Type 0 where
  pub now : ℤ
  pub address : Url
  pub cookies : List Cookie

unfoldable pub responses : List Response → Jar → Jar
responses [] j = j
responses (r ∷ rs) j = responses rs (set_cookies r.now r.address r.cookies j).1

responses_from-IsBounded : (rs : List Response) (j : Jar) → IsBounded j → IsBounded (responses rs j)
unfolding responses set_cookies
responses_from-IsBounded [] j b = b
responses_from-IsBounded (r ∷ rs) j b =
    responses_from-IsBounded rs _
      (set_each-IsBounded r.now r.address r.cookies _ (purged-IsBounded r.now j b))

-- Whatever cookies the responses of a session set, its jar counts at most 128 cookies of at most 65536
-- bytes together. The number of bytes that it goes by is never less than that sum, nor more than twice the
-- bound.
pub responses-IsBounded : (rs : List Response) → IsBounded (responses rs new_jar)
unfolding new_jar total
responses-IsBounded rs = responses_from-IsBounded rs new_jar (record {
  few = omega arith;
  small = omega arith;
  count = 0;
  is_count = refl;
  counted = omega arith;
  limited = omega arith;
})
