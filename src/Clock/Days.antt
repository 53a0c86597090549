-- ===== src/Clock/Days.antt =====
-- Which day numbers src/bios/rtc900.c takes for dates.
use commodore_900_cpm.Base.{ℕ, zero, suc, ◌+◌, ◌-◌, ◌≤◌, ◌<◌, Bool, true, false}
use commodore_900_cpm.Base.{
  leb, if◌then◌else◌, some, ◌≡◌, refl, ap, ◌∙◌, sym, arith, Bool-cases, inl, inr, leb→le,
}
use commodore_900_cpm.Clock.{isleap, ymd2day, year_length, day2ymd}
use commodore_900_cpm.Clock.Months.{month_days, days_before, month_next, mlen_lem}
use commodore_900_cpm.Clock.Calendar.{
  year_base, year_next, IsDate, ymd2day_lem, day2ymd-ymd2day, base_zero,
}

-- Every day number has its year.
year_at :
    (left j n : ℕ)
    → 1978 ≤ j
    → 1 ≤ n
    → year_base j + n ≤ year_base (j + left + 1)
    → (y : ℕ) × (r : ℕ) × (j ≤ y)
      × (y ≤ j + left)
      × (1 ≤ r)
      × (r ≤ year_length y)
      × (year_base y + r ≡ year_base j + n)
year_at zero j n from some_day room =
    let last : year_base (j + 0 + 1) ≡ year_base (j + 1) = ap year_base (omega arith) in
    (j, n, omega arith, omega arith, some_day, omega (arith, room, last, year_next j from), refl)
year_at (suc left) j n from some_day room = elim (Bool-cases (leb n (year_length j))) [
  | inl here ↦ (j, n, omega arith, omega arith, some_day, leb→le n (year_length j) here, refl)
  | inr more ↦
      let next = year_next j from in
      let k = n - year_length j in
      let over : year_length j < n = ground (arith, more) in
      let last : year_base (j + suc left + 1) ≡ year_base (j + 1 + left + 1) =
        ap year_base (omega arith) in
      let a =
        year_at left (j + 1) k (omega (arith, from)) (omega (arith, over))
          (omega (arith, room, next, last, over)) in
      (a.0, a.1, omega (arith, a.2), omega (arith, a.3), a.4, a.5, omega (arith, a.6, next, over))
]

-- Every day of a year has its month.
month_at :
    (leap : Bool) (left j n : ℕ)
    → 1 ≤ j
    → j + left ≡ 12
    → 1 ≤ n
    → days_before leap j + n ≤ days_before leap 12 + month_days leap 12
    → (m : ℕ) × (d : ℕ) × (1 ≤ m)
      × (m ≤ 12)
      × (1 ≤ d)
      × (d ≤ month_days leap m)
      × (days_before leap m + d ≡ days_before leap j + n)
month_at leap zero j n one top some_day room =
    let e : j ≡ 12 = omega (arith, top) in
    (
      j,
      n,
      one,
      omega (arith, top),
      some_day,
      omega (arith, room, ap (days_before leap) e, ap (month_days leap) e),
      refl,
    )
month_at leap (suc left) j n one top some_day room = elim (Bool-cases (leb n (month_days leap j))) [
  | inl here ↦ (j, n, one, omega (arith, top), some_day, leb→le n (month_days leap j) here, refl)
  | inr more ↦
      let next = month_next leap j one (omega (arith, top)) in
      let k = n - month_days leap j in
      let over : month_days leap j < n = ground (arith, more) in
      let a =
        month_at leap left (j + 1) k (omega arith) (omega (arith, top)) (omega (arith, over))
          (omega (arith, room, next, over)) in
      (a.0, a.1, a.2, a.3, a.4, a.5, omega (arith, a.6, next, over))
]

year_ends : (leap : Bool) → days_before leap 12 + month_days leap 12 ≡ (if leap then 366 else 365)
unfolding days_before month_days
year_ends true = refl
year_ends false = refl

last_day : year_base 2078 ≡ 36525
unfolding year_base
last_day = refl

-- Every number from 1 to 36525 is the day number of a date from 1978-01-01 to 2077-12-31, and
-- day2ymd gives that date.
pub day2ymd-total :
    (day : ℕ)
    → 1 ≤ day
    → day ≤ 36525
    → (y : ℕ) × (m : ℕ) × (d : ℕ) × IsDate y m d
      × (ymd2day y m d ≡ day)
      × (day2ymd day ≡ some (record { year = y; month = m; day = d }))
unfolding year_length IsDate
day2ymd-total day one le =
    let a = year_at 99 1978 day (omega arith) one (omega (arith, last_day, base_zero.0, le)) in
    let leap = isleap a.0 in
    let b =
      month_at leap 11 1 a.1 (omega arith) (omega arith) a.4
        (omega (arith, a.5, year_ends leap, base_zero.1 leap)) in
    let valid : IsDate a.0 b.0 b.1 =
      (a.2, omega (arith, a.3), b.2, b.3, b.4, omega (arith, b.5, mlen_lem b.0 a.0)) in
    let number : ymd2day a.0 b.0 b.1 ≡ day =
      omega (arith, ymd2day_lem a.0 b.0 b.1 valid, b.6, a.6, base_zero.0, base_zero.1 leap) in
    (a.0, b.0, b.1, valid, number, ap day2ymd (sym number) ∙ day2ymd-ymd2day a.0 b.0 b.1 valid)
