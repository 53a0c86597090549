-- ===== src/Clock/Months.antt =====
-- The months of a year in src/bios/rtc900.c: the tables dpm and cum, and the loop of day2ymd over
-- them.
use commodore_900_cpm.Base.{
  ℕ, zero, suc, ◌+◌, ◌-◌, ◌/◌, ◌%◌, ◌≤◌, ◌<◌, Bool, true, false, ◌&&◌, ◌||◌,
}
use commodore_900_cpm.Base.{
  ◌==◌, ltb, leb, if◌then◌else◌, bit_and, get_or, some, ◌≡◌, refl, ap, ap₂, ◌∙◌, sym, arith, leb→le,
  ==_iff,
}
use commodore_900_cpm.Base.Bits.{bit_and_step, bit_and-bit0, every_below, every_below_lem}
use native.Mathlib.Decide.{ℕ_discrete}
use commodore_900_cpm.Clock.{dpm, cum, isleap, mlen, find_month}

two_bits : (y : ℕ) → bit_and y 3 ≡ y % 4
two_bits y = omega (arith, bit_and_step y 3, bit_and-bit0 (y / 2))

pub leap_year : (y : ℕ) → isleap y ≡ (y % 4 == 0)
unfolding isleap
leap_year y = ground (arith, two_bits y)

-- The days of a month, and those before it, in a leap year or another.
unfoldable pub month_days : Bool → ℕ → ℕ
month_days leap m = if (m == 2) && leap then 29 else get_or dpm (m - 1) 0

unfoldable pub days_before : Bool → ℕ → ℕ
days_before leap m = get_or cum (m - 1) 0 + (if ltb 2 m && leap then 1 else 0)

-- One month after the other: `days_before` is the sum of the months, and grows.
all_months :
    (leap : Bool)
    → every_below
        (λ k. days_before leap (k + 2) == days_before leap (k + 1) + month_days leap (k + 1))
        11
      ≡ true
unfolding every_below days_before month_days
all_months true = refl
all_months false = refl

all_pairs :
    (leap : Bool)
    → every_below
        (λ j.
          every_below
            (λ k. leb (12 - j) k || leb (days_before leap (j + 1)) (days_before leap (j + 1 + k)))
            12)
        12
      ≡ true
unfolding every_below days_before
all_pairs true = refl
all_pairs false = refl

all_years :
    (leap : Bool)
    → every_below
        (λ k. leb (days_before leap (k + 1) + month_days leap (k + 1)) (if leap then 366 else 365))
        12
      ≡ true
unfolding every_below days_before month_days
all_years true = refl
all_years false = refl

module _ (leap : Bool) where
  pub month_next :
      (m : ℕ) → 1 ≤ m → m < 12 → days_before leap (m + 1) ≡ days_before leap m + month_days leap m
  month_next m one lt =
      let here : m - 1 + 1 ≡ m = omega (arith, one) in
      let there : m - 1 + 2 ≡ m + 1 = omega (arith, one) in
      let fact = (==_iff _ _).0 (
        every_below_lem
          (λ k. days_before leap (k + 2) == days_before leap (k + 1) + month_days leap (k + 1))
          (m - 1) 11 (omega (arith, one, lt)) (all_months leap)) in
      ap (days_before leap) (sym there)
      ∙ fact
      ∙ ap₂ (λ (a b : ℕ). a + b) (ap (days_before leap) here) (ap (month_days leap) here)

  month_grow : (j m : ℕ) → 1 ≤ j → j ≤ m → m ≤ 12 → days_before leap j ≤ days_before leap m
  month_grow j m one le top =
      let from : j - 1 + 1 ≡ j = omega (arith, one) in
      let to : j - 1 + 1 + (m - j) ≡ m = omega (arith, one, le) in
      let row =
        every_below_lem
          (λ j.
            every_below
              (λ k. leb (12 - j) k || leb (days_before leap (j + 1)) (days_before leap (j + 1 + k)))
              12)
          (j - 1) 12 (omega (arith, one, le, top)) (all_pairs leap) in
      let cell =
        every_below_lem
          (λ k.
            leb (12 - (j - 1)) k
            || leb (days_before leap (j - 1 + 1)) (days_before leap (j - 1 + 1 + k)))
          (m - j) 12 (omega (arith, one, le, top)) row in
      let e = ap (days_before leap) from in
      let f = ap (days_before leap) to in ground (arith, cell, e, f, one, le, top)

  pub month_room :
      (m : ℕ)
      → 1 ≤ m
      → m ≤ 12
      → days_before leap m + month_days leap m ≤ (if leap then 366 else 365)
  month_room m one top =
      let here : m - 1 + 1 ≡ m = omega (arith, one) in
      let fact = leb→le _ _ (
        every_below_lem
          (λ k.
            leb (days_before leap (k + 1) + month_days leap (k + 1)) (if leap then 366 else 365))
          (m - 1) 12 (omega (arith, one, top)) (all_years leap)) in
      let e = ap (days_before leap) here in
      let f = ap (month_days leap) here in omega (arith, fact, e, f)

pub mlen_lem : (m y : ℕ) → mlen m y ≡ month_days (isleap y) m
unfolding mlen month_days
mlen_lem m y = refl

find_month_stop :
    (left y j n m d : ℕ)
    → n ≤ mlen j y
    → j ≡ m
    → n ≡ d
    → find_month (suc left) y j n ≡ some (record { year = y; month = m; day = d })
unfolding find_month
find_month_stop left y j n m d le e f = ground (arith, le, e, f)

find_month_next :
    (left y j n k : ℕ)
    → mlen j y < n
    → n - mlen j y ≡ k
    → find_month (suc left) y j n ≡ find_month left y (j + 1) k
unfolding find_month
find_month_next left y j n k lt e = ground (arith, lt, ap (find_month left y (j + 1)) e)

pub find_month_lem :
    (left y j m d : ℕ)
    → 1 ≤ j
    → j ≤ m
    → m ≤ 12
    → m < j + left
    → 1 ≤ d
    → d ≤ month_days (isleap y) m
    → find_month left y j (days_before (isleap y) m - days_before (isleap y) j + d)
      ≡ some (record { year = y; month = m; day = d })
find_month_lem zero y j m d one le top lt some_day room = absurd (omega (arith, le, lt))
find_month_lem (suc left) y j m d one le top lt some_day room =
    let leap = isleap y in
    let length = mlen_lem j y in
    elim (ℕ_discrete j m) [
      | yes e ↦
          let same = ap (days_before leap) e in
          let long = ap (month_days leap) e in
          find_month_stop left y j (days_before leap m - days_before leap j + d) m d
            (omega (arith, same, long, length, room)) e (omega (arith, same))
      | no ne ↦
          let next = month_next leap j one (omega (arith, le, top, ne)) in
          let grows = month_grow leap (j + 1) m (omega arith) (omega (arith, le, ne)) top in
          find_month_next left y j (days_before leap m - days_before leap j + d)
            (days_before leap m - days_before leap (j + 1) + d)
            (omega (arith, next, grows, length, some_day))
            (omega (arith, next, grows, length, some_day))
          ∙ find_month_lem left y (j + 1) m d (omega arith) (omega (arith, le, ne)) top
              (omega (arith, lt)) some_day room
    ]
