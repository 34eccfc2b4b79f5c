-- ===== src/Schedule/Cron/Next.antt =====
-- What `next` finds, for every calendar.
use run_pilot.Prelude.{
  Bool-cases, ap, arith, dec_lt, false, inl, inr, leb, refl, suc, true, zero, ℕ, ◌*◌, ◌+◌, ◌-◌, ◌<◌,
  ◌≡◌, ◌≤◌,
}
use run_pilot.Schedule.Calendar.{Calendar, nanos}
use run_pilot.Schedule.Cron.{CronExpr, first_second, last_second, matches, next, search_from}

-- `r` is the first second from `t` on in which the expression fires.
pub record IsFirst (c : Calendar) (e : CronExpr) (t r : ℕ) : Type 0 where
  pub from : t ≤ r
  pub fires : matches c e r ≡ true
  pub none_before : (v : ℕ) → t ≤ v → v < r → matches c e v ≡ false

IsFirst-earlier :
    {c : Calendar} {e : CronExpr} {t r : ℕ}
    → IsFirst c e (t + 1) r
    → matches c e t ≡ false
    → IsFirst c e t r
IsFirst-earlier {c} {e} {t} {r} f miss = record {
  from = omega arith;
  fires = f.fires;
  none_before = λ v a b. elim (dec_lt t v) [
    | yes above ↦ f.none_before v (omega arith) b
    | no not_above ↦ rw (the_same v a not_above) miss
  ];
}
  where
    the_same : (v : ℕ) → t ≤ v → ¬ (t < v) → v ≡ t
    the_same v a n = omega arith

module _ (c : Calendar) (e : CronExpr) (limit : ℕ) where
  search-IsFirst :
      (fuel t u : ℕ)
      → limit < t + fuel
      → t ≤ u
      → u ≤ limit
      → matches c e u ≡ true
      → IsFirst c e t (search_from c e limit fuel t) × (search_from c e limit fuel t ≤ u)
  unfolding search_from
  search-IsFirst zero t u h p q m = absurd (omega arith)
  search-IsFirst (suc fuel) t u h p q m =
      let within : leb t limit ≡ true = ground arith in
      elim (Bool-cases (matches c e t)) [
        | inl hit ↦
            rw (within, hit)
              (
                record {
                  from = omega arith;
                  fires = hit;
                  none_before = λ v a b. absurd (omega arith);
                },
                p,
              )
        | inr miss ↦
            let later : t < u = grind arith in
            let (first, bound) = search-IsFirst fuel (t + 1) u (omega arith) (omega arith) q m in
            rw (within, miss) (IsFirst-earlier first miss, bound)
      ]

  le-search_from : (lo fuel t : ℕ) → lo ≤ t → lo ≤ limit → lo ≤ search_from c e limit fuel t
  unfolding search_from
  le-search_from lo zero t p q = q
  le-search_from lo (suc fuel) t p q =
      ground (arith, le-search_from lo fuel (t + 1) (omega arith) q)

  search_none :
      (fuel t : ℕ)
      → ((v : ℕ) → t ≤ v → v ≤ limit → matches c e v ≡ false)
      → search_from c e limit fuel t ≡ limit
  unfolding search_from
  search_none zero t h = refl
  search_none (suc fuel) t h = elim (Bool-cases (leb t limit)) [
    | inl within ↦
        rw (within, h t (omega (arith)) (ground arith))
          (search_none fuel (t + 1) (λ v p q. h v (omega arith) q))
    | inr past ↦ rw past
  ]

module _ (c : Calendar) (e : CronExpr) (now : ℕ) where
  -- If a cron expression fires at some second after `now`, not beyond a year, then `next` is the first
  -- such second.
  pub next-IsFirst :
      (u : ℕ)
      → first_second now ≤ u
      → u ≤ last_second c now
      → matches c e u ≡ true
      → (r : ℕ) × (next c e now ≡ r * nanos) × IsFirst c e (first_second now) r × (r ≤ u)
  unfolding next
  next-IsFirst u p q m =
      let t = first_second now in
      let limit = last_second c now in
      let fuel = limit + 1 - t in
      let (first, bound) = search-IsFirst c e limit fuel t u (omega arith) p q m in
      (search_from c e limit fuel t, refl, first, bound)

  -- If a cron expression fires at no second of the year after `now`, then `next` is the end of that year, a second in
  -- which the expression does not fire either.
  pub next_unmatched :
      first_second now ≤ last_second c now
      → ((u : ℕ) → first_second now ≤ u → u ≤ last_second c now → matches c e u ≡ false)
      → (next c e now ≡ last_second c now * nanos) × (matches c e (last_second c now) ≡ false)
  unfolding next
  next_unmatched w h = (
    ap (λ r. r * nanos)
        (search_none c e (last_second c now) (last_second c now + 1 - first_second now)
          (first_second now) h),
    h (last_second c now) w (omega arith),
  )

  -- `next` of a cron expression is later than `now`, whether it is a match or not, as long as adding a
  -- year to a time gives no earlier time.
  pub next_after : first_second now ≤ last_second c now → now < next c e now
  unfolding next
  next_after h =
      let t = first_second now in
      let limit = last_second c now in
      omega (arith, le-search_from c e limit t (limit + 1 - t) t (omega arith) h)
