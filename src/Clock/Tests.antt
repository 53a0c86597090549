-- ===== src/Clock/Tests.antt =====
-- The properties of the clock driver, applied to the leap day of 2000 and to a time on it.
use commodore_900_cpm.Base.{ℕ, List, [], ◌∷◌, some, ◌≡◌, refl, arith}
use commodore_900_cpm.Clock.{
  isleap, mlen, ymd2day, day2ymd, year_length, find_year, find_month, month_of, bcdok,
}
use commodore_900_cpm.Clock.Calendar.{IsDate, day2ymd-ymd2day}
use commodore_900_cpm.Clock.Days.{day2ymd-total}
use commodore_900_cpm.Clock.Registers.{Tod, decode, put_image, image_of, image, bcd_value}
use commodore_900_cpm.Clock.RoundTrip.{decode-put_image}

leap_day-IsDate : IsDate 2000 2 29
unfolding IsDate mlen isleap
leap_day-IsDate = (omega arith, omega arith, omega arith, omega arith, omega arith, omega arith)

day2ymd-ymd2day_example :
    day2ymd (ymd2day 2000 2 29) ≡ some (record { year = 2000; month = 2; day = 29 })
day2ymd-ymd2day_example = day2ymd-ymd2day 2000 2 29 leap_day-IsDate

day2ymd-total_example :
    (y : ℕ) × (m : ℕ) × (d : ℕ) × IsDate y m d
    × (ymd2day y m d ≡ 8095)
    × (day2ymd 8095 ≡ some (record { year = y; month = m; day = d }))
day2ymd-total_example = day2ymd-total 8095 (omega arith) (omega arith)

-- 2000-02-29, 23:59:08
abbrev leap_time : Tod
leap_time = record { datehi = 31; datelo = 159; hour = 0x23; minute = 0x59; second = 0x08 }

abbrev leap_registers : List ℕ
leap_registers = 8 ∷ 0 ∷ 9 ∷ 5 ∷ 3 ∷ 10 ∷ 2 ∷ 9 ∷ 2 ∷ 2 ∷ 0 ∷ 0 ∷ 0 ∷ []

leap_image : put_image leap_time ≡ some leap_registers
unfolding put_image image_of image bcd_value bcdok day2ymd month_of find_year find_month year_length
    mlen isleap
leap_image = refl

decode-put_image_example : decode leap_registers ≡ some leap_time
decode-put_image_example =
    decode-put_image leap_time leap_registers (omega arith) (omega arith) (omega arith)
      (omega arith) (omega arith) (omega arith) (omega arith) leap_image
