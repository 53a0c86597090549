-- ===== src/Clock/Registers.antt =====
-- The thirteen time registers of the clock chip: decode() of src/bios/rtc900.c, and the register
-- image that rtcput() builds. The bytes of a time of day and of an image are from 0 to 255.
use commodore_900_cpm.Base.{ℕ, ◌+◌, ◌-◌, ◌*◌, ◌/◌, ◌%◌, ◌^◌, Bool, not, ◌&&◌, ◌||◌}
use commodore_900_cpm.Base.{
  ◌==◌, ltb, if◌then◌else◌, u8, has, bit_and, bit_or, List, [], ◌∷◌, get_or, Option, none, some,
}
use commodore_900_cpm.Clock.{Date, mlen, bcdok, ymd2day, day2ymd}

-- the five bytes TOD_DATEHI to TOD_SEC
pub record Tod : Type 0 where
  pub datehi : ℕ
  pub datelo : ℕ
  pub hour : ℕ
  pub minute : ℕ
  pub second : ℕ

-- `buf[i]`
abbrev pub reg : List ℕ → ℕ → ℕ
reg buf i = get_or buf i 0

-- The first tests of decode, each on decimal digits.
unfoldable pub digits_valid : List ℕ → Bool
digits_valid buf =
    not (ltb 9 (reg buf 0) || ltb 5 (reg buf 1))
    && (not (ltb 9 (reg buf 2) || ltb 5 (reg buf 3))
        && (not (ltb 9 (reg buf 4) || ltb 6 (reg buf 6))
            && (not (ltb 9 (reg buf 7) || (ltb 9 (reg buf 9) || ltb 1 (reg buf 10)))
                && not (ltb 9 (reg buf 11) || ltb 9 (reg buf 12)))))

-- The hour, from a chip in its 24-hour or 12-hour mode.
unfoldable pub decode_hour : List ℕ → Option ℕ
decode_hour buf =
    let h = bit_and (reg buf 5) 0x03 * 10 + reg buf 4 in
    let twelve = if h == 12 then 0 else h in
    if not (has (reg buf 5) 0x08)
    then if ltb h 1 || ltb 12 h
      then none
      else some (if has (reg buf 5) 0x04 then twelve + 12 else twelve)
    else if ltb 23 h
    then none
    else some h

unfoldable pub decode_day : List ℕ → Option ℕ
decode_day buf =
    let m = reg buf 10 * 10 + reg buf 9 in
    let yy = reg buf 12 * 10 + reg buf 11 in
    let y = yy + (if ltb yy 78 then 2000 else 1900) in
    let d = bit_and (reg buf 8) 0x03 * 10 + reg buf 7 in
    if ltb m 1 || ltb 12 m
    then none
    else if ltb d 1 || ltb (mlen m y) d
    then none
    else some (ymd2day y m d)

-- `(tens << 4) | ones`
abbrev pub bcd : ℕ → ℕ → ℕ
bcd tens ones = u8 (bit_or (tens * 2 ^ 4) ones)

unfoldable pub decode_with : List ℕ → Option ℕ → Option ℕ → Option Tod
decode_with buf none o = none
decode_with buf (some h) none = none
decode_with buf (some h) (some day) = some (record {
  datehi = u8 (day / 2 ^ 8);
  datelo = u8 (bit_and day 0xff);
  hour = bcd (h / 10) (h % 10);
  minute = bcd (reg buf 3) (reg buf 2);
  second = bcd (reg buf 1) (reg buf 0);
})

unfoldable pub decode : List ℕ → Option Tod
decode buf = if digits_valid buf then decode_with buf (decode_hour buf) (decode_day buf) else none

-- The number that a BCD byte writes.
unfoldable pub bcd_value : ℕ → ℕ
bcd_value b = bit_and (b / 2 ^ 4) 0x0f * 10 + bit_and b 0x0f

-- The image for a time that has passed the tests.
unfoldable pub image : ℕ → Date → ℕ → ℕ → ℕ → List ℕ
image day t h mi s =
    s % 10
    ∷ s / 10
    ∷ mi % 10
    ∷ mi / 10
    ∷ h % 10
    ∷ bit_or (h / 10) 0x08
    ∷ (day - 1) % 7
    ∷ t.day % 10
    ∷ bit_or (t.day / 10) (bit_and (4 - bit_and t.year 3) 3 * 2 ^ 2)
    ∷ t.month % 10
    ∷ t.month / 10
    ∷ t.year % 100 % 10
    ∷ t.year % 100 / 10
    ∷ []

unfoldable pub image_of : Tod → ℕ → Option Date → Option (List ℕ)
image_of tod day none = none
image_of tod day (some t) =
    let h = bcd_value tod.hour in
    let mi = bcd_value tod.minute in
    let s = bcd_value tod.second in
    if not (bcdok tod.hour) || (not (bcdok tod.minute) || not (bcdok tod.second))
    then none
    else if ltb 23 h || (ltb 59 mi || ltb 59 s)
    then none
    else some (image day t h mi s)

-- rtcput up to the transfer to the chip; `none` stands for RTC_NONE. The date bytes are disjoint, so
-- their `|` is a sum.
unfoldable pub put_image : Tod → Option (List ℕ)
put_image tod = let day = tod.datehi * 2 ^ 8 + tod.datelo in image_of tod day (day2ymd day)
