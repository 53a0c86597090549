-- ===== src/Clock.antt =====
-- The calendar of the clock driver src/bios/rtc900.c, and the register image that it writes to the
-- chip and reads back. Dates are from 1978 to 2077, so that no subtraction of the source is below 0.
-- The pins of the chip are not modelled: a register image is the list of its thirteen registers.
pub mod Months
pub mod Calendar
pub mod Days
pub mod Registers
pub mod RoundTrip
mod Tests
use commodore_900_cpm.Base.{
  ℕ, zero, suc, ◌+◌, ◌-◌, ◌*◌, ◌/◌, ◌%◌, ◌^◌, Bool, true, false, not, ◌&&◌, ◌||◌,
}
use commodore_900_cpm.Base.{
  ◌==◌, ltb, leb, if◌then◌else◌, u16, u8, has, bit_and, bit_or, List, [], ◌∷◌, get_or, Option, none,
  some,
}

abbrev pub baseyear : ℕ
baseyear = 1978

abbrev pub dpm : List ℕ
dpm = 31 ∷ 28 ∷ 31 ∷ 30 ∷ 31 ∷ 30 ∷ 31 ∷ 31 ∷ 30 ∷ 31 ∷ 30 ∷ 31 ∷ []

abbrev pub cum : List ℕ
cum = 0 ∷ 31 ∷ 59 ∷ 90 ∷ 120 ∷ 151 ∷ 181 ∷ 212 ∷ 243 ∷ 273 ∷ 304 ∷ 334 ∷ []

unfoldable pub isleap : ℕ → Bool
isleap y = bit_and y 3 == 0

unfoldable pub bcdok : ℕ → Bool
bcdok b = ltb (bit_and (b / 2 ^ 4) 0x0f) 10 && ltb (bit_and b 0x0f) 10

unfoldable pub mlen : ℕ → ℕ → ℕ
mlen m y = if (m == 2) && isleap y then 29 else get_or dpm (m - 1) 0

unfoldable pub ymd2day : ℕ → ℕ → ℕ → ℕ
ymd2day y m d =
    let n = u16 (365 * u16 (y - baseyear)) in
    let n1 = u16 (n + u16 ((y - 1) / 4 - 494)) in
    let n2 = u16 (n1 + get_or cum (m - 1) 0) in
    let n3 = if ltb 2 m && isleap y then u16 (n2 + 1) else n2 in u16 (n3 + u16 d)

pub record Date : Type 0 where
  pub year : ℕ
  pub month : ℕ
  pub day : ℕ

unfoldable pub year_length : ℕ → ℕ
year_length y = if isleap y then 366 else 365

-- The loop over the years from `y`, with `left` more that the driver knows.
unfoldable pub find_year : ℕ → ℕ → ℕ → Option (ℕ × ℕ)
find_year zero y n = if leb n (year_length y) then some (y, n) else none
find_year (suc left) y n =
    let rest = find_year left (y + 1) (n - year_length y) in
    if leb n (year_length y) then some (y, n) else rest

-- The loop over the months from `m`; twelve rounds are enough.
unfoldable pub find_month : ℕ → ℕ → ℕ → ℕ → Option Date
find_month zero y m n = none
find_month (suc left) y m n =
    let rest = find_month left y (m + 1) (n - mlen m y) in
    if ltb (mlen m y) n then rest else some (record { year = y; month = m; day = n })

unfoldable pub month_of : Option (ℕ × ℕ) → Option Date
month_of none = none
month_of (some (y, n)) = find_month 12 y 1 n

unfoldable pub day2ymd : ℕ → Option Date
day2ymd day = if day == 0 then none else month_of (find_year 99 baseyear day)
