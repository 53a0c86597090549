-- ===== src/Clock/RoundTrip.antt =====
-- A time of day set and read back through the registers of src/bios/rtc900.c.
use commodore_900_cpm.Base.{
  ℕ, ◌+◌, ◌-◌, ◌*◌, ◌/◌, ◌%◌, ◌^◌, ◌≤◌, ◌<◌, Bool, true, false, not, ◌&&◌, ◌||◌,
}
use commodore_900_cpm.Base.{
  ◌==◌, ltb, leb, if◌then◌else◌, u8, has, bit_and, bit_or, List, some, ◌≡◌, refl, ap, ◌∙◌, sym,
  arith, &&-both, ==_iff, leb→le,
}
use commodore_900_cpm.Base.Bits.{every_below, every_below_lem}
use commodore_900_cpm.Base.Masks.{byte-mask, bit_and_le}
use commodore_900_cpm.Clock.{Date, mlen, bcdok, ymd2day, isleap}
use commodore_900_cpm.Clock.Months.{month_days, mlen_lem}
use commodore_900_cpm.Clock.Calendar.{IsDate}
use commodore_900_cpm.Clock.Days.{day2ymd-total}
use commodore_900_cpm.Clock.Registers.{
  Tod, digits_valid, decode_hour, decode_day, bcd, decode_with, decode, bcd_value, image, image_of,
  put_image,
}

-- A BCD byte is written again from the number that it writes.
bcd_test : ℕ → Bool
bcd_test b =
    not (bcdok b) || ((bcd (bcd_value b / 10) (bcd_value b % 10) == b) && leb (bcd_value b) 99)

all_bcd : every_below bcd_test 256 ≡ true
unfolding every_below bcd_test bcdok bcd_value
all_bcd = refl

bcd_lem :
    (b : ℕ)
    → b < 256
    → bcdok b ≡ true
    → (bcd (bcd_value b / 10) (bcd_value b % 10) ≡ b) × (bcd_value b ≤ 99)
unfolding bcd_test
bcd_lem b lt ok =
    let t = every_below_lem bcd_test b 256 lt all_bcd in
    let e = (==_iff (bcd (bcd_value b / 10) (bcd_value b % 10)) b).0 in ground (arith, t, ok, e)

-- The codes beside the tens of the hour and of the day do not touch them.
hour_code : (a : ℕ) → a < 3 → (bit_and (bit_or a 8) 3 ≡ a) × (has (bit_or a 8) 8 ≡ true)
unfolding every_below
hour_code a lt =
    let t =
      every_below_lem (λ a. (bit_and (bit_or a 8) 3 == a) && has (bit_or a 8) 8) a 3 lt refl in
    let both = &&-both (bit_and (bit_or a 8) 3 == a) (has (bit_or a 8) 8) t in
    ((==_iff (bit_and (bit_or a 8) 3) a).0 both.0, both.1)

day_code : (a x : ℕ) → a < 4 → x < 4 → bit_and (bit_or a (x * 4)) 3 ≡ a
unfolding every_below
day_code a x la lx =
    let t =
      every_below_lem (λ a. every_below (λ x. bit_and (bit_or a (x * 4)) 3 == a) 4) a 4 la refl in
    (==_iff (bit_and (bit_or a (x * 4)) 3) a).0
      (every_below_lem (λ x. bit_and (bit_or a (x * 4)) 3 == a) x 4 lx t)

short_months : (leap : Bool) → every_below (λ m. leb (month_days leap m) 31) 13 ≡ true
unfolding every_below month_days
short_months true = refl
short_months false = refl

month_length : (m y : ℕ) → m ≤ 12 → mlen m y ≤ 31
month_length m y le =
    let short = leb→le (month_days (isleap y) m) 31 (
      every_below_lem (λ m. leb (month_days (isleap y) m) 31) m 13 (omega (arith, le))
        (short_months (isleap y))) in
    omega (arith, short, mlen_lem m y)

module _ (day : ℕ) (t : Date) (h mi s : ℕ) (date : IsDate t.year t.month t.day) where
  image_day : decode_day (image day t h mi s) ≡ some (ymd2day t.year t.month t.day)
  unfolding decode_day image IsDate
  image_day =
      let x = bit_and (4 - bit_and t.year 3) 3 in
      let code =
        day_code (t.day / 10) x (omega (arith, month_length t.month t.year date.3, date.5))
          (omega (arith, bit_and_le (4 - bit_and t.year 3) 3)) in
      let month : t.month / 10 * 10 + t.month % 10 ≡ t.month = omega arith in
      let day_back : t.day / 10 * 10 + t.day % 10 ≡ t.day = omega arith in
      let yy : t.year % 100 / 10 * 10 + t.year % 100 % 10 ≡ t.year % 100 = omega arith in
      let year : t.year % 100 + (if ltb (t.year % 100) 78 then 2000 else 1900) ≡ t.year =
        ground (arith, date) in
      simp (code, month, day_back, yy, year) (ground (arith, date))

  image_hour : h ≤ 23 → decode_hour (image day t h mi s) ≡ some h
  unfolding decode_hour image
  image_hour le =
      let code = hour_code (h / 10) (omega (arith, le)) in
      let back : h / 10 * 10 + h % 10 ≡ h = omega arith in
      simp (code.0, code.1, back) (ground (arith, le))

  image_digits : mi ≤ 59 → s ≤ 59 → digits_valid (image day t h mi s) ≡ true
  unfolding digits_valid image IsDate
  image_digits lm ls = ground (arith, date.3, lm, ls)

decoded :
    (buf : List ℕ) (h day : ℕ)
    → digits_valid buf ≡ true
    → decode_hour buf ≡ some h
    → decode_day buf ≡ some day
    → decode buf ≡ decode_with buf (some h) (some day)
unfolding decode
decoded buf h day v e f = simp (v, e, f) refl

-- What rtcput has checked when it writes.
image_of-parts :
    (tod : Tod) (day : ℕ) (t : Date) (regs : List ℕ)
    → image_of tod day (some t) ≡ some regs
    → (bcdok tod.hour ≡ true)
      × (bcdok tod.minute ≡ true)
      × (bcdok tod.second ≡ true)
      × (bcd_value tod.hour ≤ 23)
      × (bcd_value tod.minute ≤ 59)
      × (bcd_value tod.second ≤ 59)
      × (image day t (bcd_value tod.hour) (bcd_value tod.minute) (bcd_value tod.second) ≡ regs)
unfolding image_of
image_of-parts tod day t regs e = ground (arith, e)

-- The bytes that decode puts together.
together :
    (tod : Tod) (day : ℕ) (t : Date) (h mi s n : ℕ)
    → n / 256 ≡ tod.datehi
    → n % 256 ≡ tod.datelo
    → tod.datehi < 256
    → tod.datelo < 256
    → bcd (h / 10) (h % 10) ≡ tod.hour
    → bcd (mi / 10) (mi % 10) ≡ tod.minute
    → bcd (s / 10) (s % 10) ≡ tod.second
    → decode_with (image day t h mi s) (some h) (some n) ≡ some tod
unfolding decode_with image
together tod day t h mi s n hi lo small_hi small_lo hour minute second =
    let high : u8 (n / 2 ^ 8) ≡ tod.datehi = omega (arith, hi, small_hi) in
    let low : u8 (bit_and n 0xff) ≡ tod.datelo = omega (arith, byte-mask n, lo, small_lo) in
    simp (high, low, hour, minute, second) refl

-- A time of day that rtcput takes is read back from its register image as it was: five bytes with a
-- day number from 1 to 36525, BCD hours to 23, and BCD minutes and seconds to 59.
pub decode-put_image :
    (tod : Tod) (regs : List ℕ)
    → tod.datehi < 256
    → tod.datelo < 256
    → tod.hour < 256
    → tod.minute < 256
    → tod.second < 256
    → 1 ≤ tod.datehi * 256 + tod.datelo
    → tod.datehi * 256 + tod.datelo ≤ 36525
    → put_image tod ≡ some regs
    → decode regs ≡ some tod
unfolding put_image
decode-put_image tod regs hi lo hour minute second one le put =
    let day = tod.datehi * 256 + tod.datelo in
    let date = day2ymd-total day one le in
    let t : Date = record { year = date.0; month = date.1; day = date.2 } in
    let parts = image_of-parts tod day t regs (ap (image_of tod day) (sym date.5) ∙ put) in
    let h = bcd_value tod.hour in
    let mi = bcd_value tod.minute in
    let s = bcd_value tod.second in
    let digits = image_digits day t h mi s date.3 parts.4 parts.5 in
    let hours = image_hour day t h mi s date.3 parts.3 in
    let days = image_day day t h mi s date.3 ∙ ap some date.4 in
    let whole =
      together tod day t h mi s day (omega (arith, lo)) (omega (arith, lo)) hi lo
        (bcd_lem tod.hour hour parts.0).0 (bcd_lem tod.minute minute parts.1).0
        (bcd_lem tod.second second parts.2).0 in
    ap decode (sym parts.6) ∙ decoded (image day t h mi s) h day digits hours days ∙ whole
