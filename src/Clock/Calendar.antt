-- ===== src/Clock/Calendar.antt =====
-- The two conversions of src/bios/rtc900.c between dates and day numbers.
use commodore_900_cpm.Base.{ℕ, zero, suc, ◌+◌, ◌-◌, ◌*◌, ◌/◌, ◌≤◌, ◌<◌, Bool, false, ◌&&◌}
use commodore_900_cpm.Base.{
  ◌==◌, ltb, get_or, some, ◌≡◌, refl, ap, ◌∙◌, sym, arith, Bool-cases, inl, inr,
}
use native.Mathlib.Decide.{ℕ_discrete}
use commodore_900_cpm.Clock.{
  cum, isleap, mlen, ymd2day, year_length, find_year, find_month, month_of, day2ymd,
}
use commodore_900_cpm.Clock.Months.{leap_year, days_before, month_room, mlen_lem, find_month_lem}

-- The days before a year.
unfoldable pub year_base : ℕ → ℕ
year_base y = 365 * (y - 1978) + ((y - 1) / 4 - 494)

pub year_next : (y : ℕ) → 1978 ≤ y → year_base (y + 1) ≡ year_base y + year_length y
unfolding year_base year_length
year_next y from = let l = leap_year y in ground (arith, l, from)

year_grow : (j y : ℕ) → 1978 ≤ j → j ≤ y → year_base j ≤ year_base y
unfolding year_base
year_grow j y from le = omega (arith, from, le)

pub find_year_stop :
    (left j n y r : ℕ) → n ≤ year_length j → j ≡ y → n ≡ r → find_year left j n ≡ some (y, r)
unfolding find_year
find_year_stop zero j n y r le e f = ground (arith, le, e, f)
find_year_stop (suc left) j n y r le e f = ground (arith, le, e, f)

pub find_year_next :
    (left j n k : ℕ)
    → year_length j < n
    → n - year_length j ≡ k
    → find_year (suc left) j n ≡ find_year left (j + 1) k
unfolding find_year
find_year_next left j n k lt e = ground (arith, lt, ap (find_year left (j + 1)) e)

find_year_lem :
    (left j y r : ℕ)
    → 1978 ≤ j
    → j ≤ y
    → y ≤ j + left
    → 1 ≤ r
    → r ≤ year_length y
    → find_year left j (year_base y - year_base j + r) ≡ some (y, r)
find_year_lem zero j y r from le top some_day room =
    let e : j ≡ y = omega (arith, le, top) in
    find_year_stop 0 j (year_base y - year_base j + r) y r
      (omega (arith, ap year_base e, ap year_length e, room)) e (omega (arith, ap year_base e))
find_year_lem (suc left) j y r from le top some_day room = elim (ℕ_discrete j y) [
  | yes e ↦
      find_year_stop (suc left) j (year_base y - year_base j + r) y r
        (omega (arith, ap year_base e, ap year_length e, room)) e (omega (arith, ap year_base e))
  | no ne ↦
      let next = year_next j from in
      let grows = year_grow (j + 1) y (omega (arith, from)) (omega (arith, le, ne)) in
      find_year_next left j (year_base y - year_base j + r) (year_base y - year_base (j + 1) + r)
        (omega (arith, next, grows, some_day)) (omega (arith, next, grows, some_day))
      ∙ find_year_lem left (j + 1) y r (omega (arith, from)) (omega (arith, le, ne))
          (omega (arith, top)) some_day room
]

-- A date from 1978 to 2077.
unfoldable pub IsDate : ℕ → ℕ → ℕ → Type 0
IsDate y m d = (1978 ≤ y) × (y ≤ 2077) × (1 ≤ m) × (m ≤ 12) × (1 ≤ d) × (d ≤ mlen m y)

cum_bound : (leap : Bool) (m : ℕ) → days_before leap m ≤ 366 → get_or cum (m - 1) 0 ≤ 366
unfolding days_before
cum_bound leap m le = omega (arith, le)

bounds :
    (y m d : ℕ)
    → IsDate y m d
    → (get_or cum (m - 1) 0 ≤ 366) × (d ≤ 366) × (days_before (isleap y) m + d ≤ 366)
unfolding IsDate
bounds y m d v =
    let room = month_room (isleap y) m v.2 v.3 in
    let length = mlen_lem m y in
    let all : days_before (isleap y) m + d ≤ 366 = ground (arith, room, length, v.5) in
    (cum_bound (isleap y) m (omega (arith, all)), omega (arith, all), all)

pub ymd2day_lem :
    (y m d : ℕ) → IsDate y m d → ymd2day y m d ≡ year_base y + (days_before (isleap y) m + d)
unfolding ymd2day IsDate year_base days_before
ymd2day_lem y m d v =
    let b = bounds y m d v in
    let low = v.0 in
    let high = v.1 in
    elim (Bool-cases (ltb 2 m && isleap y)) [
      | inl more ↦ simp more (omega (arith, low, high, b))
      | inr same ↦ simp same (omega (arith, low, high, b))
    ]

pub base_zero : (year_base 1978 ≡ 0) × ((leap : Bool) → days_before leap 1 ≡ 0)
unfolding year_base days_before
base_zero = (refl, λ leap. refl)

-- The day number of a date from 1978-01-01 to 2077-12-31 converts back to that date.
pub day2ymd-ymd2day :
    (y m d : ℕ)
    → IsDate y m d
    → day2ymd (ymd2day y m d) ≡ some (record { year = y; month = m; day = d })
unfolding day2ymd month_of IsDate year_length
day2ymd-ymd2day y m d v =
    let leap = isleap y in
    let length = mlen_lem m y in
    let room = month_room leap m v.2 v.3 in
    let r = days_before leap m + d in
    let year =
      find_year_lem 99 1978 y r (omega arith) v.0 (omega (arith, v.1)) (omega (arith, v.4))
        (omega (arith, room, length, v.5)) in
    let month =
      find_month_lem 12 y 1 m d (omega arith) v.2 v.3 (omega (arith, v.3)) v.4
        (omega (arith, length, v.5)) in
    let start : year_base y - year_base 1978 + r ≡ ymd2day y m d =
      omega (arith, ymd2day_lem y m d v, base_zero.0) in
    let first : days_before leap m - days_before leap 1 + d ≡ r = omega (arith, base_zero.1 leap) in
    let nonzero : (ymd2day y m d == 0) ≡ false = ground (arith, ymd2day_lem y m d v, v.4) in
    simp (nonzero, ap (find_year 99 1978) (sym start) ∙ year)
      (ap (find_month 12 y 1) (sym first) ∙ month)
