-- ===== src/Position/Random.antt =====
-- setran() of src/bdos/fileio.c against the way back, the start of new_ext() of bdosrw.c.
use commodore_900_cpm.Base.{
  ℕ, ◌+◌, ◌*◌, ◌/◌, ◌%◌, ◌^◌, ◌≤◌, ◌<◌, bit_and, bit_or, Bool, true, false, not, ◌==◌, ltb,
  if◌then◌else◌, u8, ◌≡◌, ◌≢◌, refl, ap, ap₂, sym, ◌∙◌, inl, inr, arith, Bool-cases, ==_iff, same,
  same-eq, ltb→lt, lt→ltb,
}
use commodore_900_cpm.Base.Bits.{every_below, every_below_lem}
use commodore_900_cpm.Position.{
  Fcb, Target, extent_off, s2_off, cur_rec_off, ran_off, sar4, at_least, extsize, put_random,
  setran, random_module, random_extent, carried, target,
}

-- The record that an FCB stands at: 128 to an extent, 32 extents to a module, 64 modules.
abbrev pub record_no : Fcb → ℕ
record_no f = f cur_rec_off + f extent_off % 32 * 128 + f s2_off % 64 * 4096

-- An FCB of bytes that stands in its extent.
pub record IsBytes (f : Fcb) : Type 0 where
  pub extent_byte : f extent_off < 256
  pub s2_byte : f s2_off < 256
  pub record_byte : f cur_rec_off < 128

low_five : (x : ℕ) → x < 256 → bit_and x 0x1f ≡ x % 32
unfolding every_below
low_five x h = (==_iff _ _).0 (every_below_lem (λ n. bit_and n 0x1f == n % 32) x 256 h refl)

low_six : (x : ℕ) → x < 256 → bit_and x 0x3f ≡ x % 64
unfolding every_below
low_six x h = (==_iff _ _).0 (every_below_lem (λ n. bit_and n 0x3f == n % 64) x 256 h refl)

joined :
    (x : ℕ) → x < 2048 → bit_or (x % 32 * 2 ^ 7) (x / 32 * 2 ^ 12) ≡ x % 32 * 128 + x / 32 * 4096
unfolding every_below
joined x h = (==_iff _ _).0 (
    every_below_lem (λ n. bit_or (n % 32 * 2 ^ 7) (n / 32 * 2 ^ 12) == n % 32 * 128 + n / 32 * 4096)
      x 2048 h refl)

pub extsize_lem : (e m : ℕ) → e < 256 → m < 256 → extsize e m ≡ e % 32 * 128 + m % 64 * 4096
unfolding extsize
extsize_lem e m he hm =
    let x = e % 32 + m % 64 * 32 in
    let low : x % 32 ≡ e % 32 = omega arith in
    let high : x / 32 ≡ m % 64 = omega arith in
    let both = joined x (omega arith) in
    ap₂ (λ a b. bit_or (a * 2 ^ 7) (b * 2 ^ 12)) (low_five e he ∙ sym low) (low_six m hm ∙ sym high)
    ∙ both
    ∙ ap₂ (λ a b. a * 128 + b * 4096) low high

setran_lem : (f : Fcb) → IsBytes f → setran f ≡ put_random (record_no f) f
unfolding setran
setran_lem f v =
    let e = extsize_lem (f extent_off) (f s2_off) v.extent_byte v.s2_byte in
    ap (λ r. put_random r f) (omega (arith, e, v.record_byte))

low_four : (x : ℕ) → x < 256 → bit_and x 0x0f ≡ x % 16
unfolding every_below
low_four x h = (==_iff _ _).0 (every_below_lem (λ n. bit_and n 0x0f == n % 16) x 256 h refl)

top_bit : (x : ℕ) → x < 256 → (bit_and x 0x80 == 0) ≡ ltb x 0x80
unfolding every_below
top_bit x h =
    same-eq _ _ (every_below_lem (λ n. same (bit_and n 0x80 == 0) (ltb n 0x80)) x 256 h refl)

odd_extent : (x : ℕ) → x < 16 → bit_or (x * 2) 1 ≡ x * 2 + 1
unfolding every_below
odd_extent x h = (==_iff _ _).0 (every_below_lem (λ n. bit_or (n * 2) 1 == n * 2 + 1) x 16 h refl)

-- The module byte of record `n`, which has module `n / 4096`.
module_low : (m : ℕ) → m < 64 → (if ltb (m % 16) 8 then bit_or (m / 16 * 16) (m % 16) else m) ≡ m
unfolding every_below
module_low m h = (==_iff _ _).0 (
    every_below_lem (λ k. (if ltb (k % 16) 8 then bit_or (k / 16 * 16) (k % 16) else k) == k) m 64 h
      refl)

module_high :
    (m : ℕ)
    → m < 64
    → (if ltb (m % 16) 8 then m else bit_or (m / 16 * 16) (0xf0 + m % 16))
      ≡ (if ltb (m % 16) 8 then m else 0xf0 + m % 16)
unfolding every_below
module_high m h = (==_iff _ _).0 (
    every_below_lem
      (λ k.
        (if ltb (k % 16) 8 then k else bit_or (k / 16 * 16) (0xf0 + k % 16))
        == (if ltb (k % 16) 8 then k else 0xf0 + k % 16))
      m 64 h refl)

below_thirty_two : (x : ℕ) → x < 32 → at_least x 32 ≡ false
unfolding at_least
below_thirty_two x h = ground arith

carried_not : (t : Target) → at_least t.extent_no 32 ≡ false → carried t ≡ t
unfolding carried
carried_not t e =
    ap (λ (b : Bool). if b then record { module_no = u8 (t.module_no + 1); extent_no = 0 } else t) e

-- The bytes that a record number is stored in.
module _ (n : ℕ) (f : Fcb) (h : n < 64 * 4096) where
  high_byte : put_random n f ran_off ≡ n / 65536
  unfolding put_random
  high_byte = omega arith

  middle_byte : put_random n f (ran_off + 1) ≡ n / 256 % 256
  unfolding put_random
  middle_byte = omega arith

  pub low_byte : put_random n f (ran_off + 2) ≡ n % 256
  unfolding put_random
  low_byte = omega arith

  -- What new_ext() takes for the module: the right one, or one with four bits too many.
  pub module_of :
      random_module (put_random n f)
      ≡ (if ltb (n % 65536) 32768 then n / 4096 else 0xf0 + n / 4096 % 16)
  unfolding random_module sar4
  module_of =
      let m = n / 4096 in
      let small : m < 64 = omega arith in
      let top : u8 (put_random n f ran_off * 16) ≡ m / 16 * 16 = omega (arith, high_byte) in
      elim (Bool-cases (ltb (n % 65536) 32768)) [
        | inl e ↦
            let few : ltb (m % 16) 8 ≡ true = ground arith in
            let part : sar4 (put_random n f (ran_off + 1)) ≡ m % 16 = ground (arith, middle_byte) in
            let whole = module_low m small in rw e (ap₂ bit_or top part ∙ rw few at whole)
        | inr e ↦
            let many : ltb (m % 16) 8 ≡ false = ground arith in
            let part : sar4 (put_random n f (ran_off + 1)) ≡ 0xf0 + m % 16 =
              ground (arith, middle_byte) in
            let whole = module_high m small in rw e (ap₂ bit_or top part ∙ rw many at whole)
      ]

  pub extent_of : random_extent (put_random n f) ≡ n / 128 % 32
  unfolding random_extent
  extent_of =
      let mid = put_random n f (ran_off + 1) in
      let four = low_four mid (omega (arith, middle_byte)) in
      let top = top_bit (put_random n f (ran_off + 2)) (omega (arith, low_byte)) in
      let odd = odd_extent (mid % 16) (omega arith) in
      let even : u8 (bit_and mid 0x0f * 2) ≡ mid % 16 * 2 = omega (arith, four) in
      ap₂ (λ (b : Bool) (e : ℕ). if not b then bit_or e 1 else e) top even
      ∙ elim (Bool-cases (ltb (put_random n f (ran_off + 2)) 0x80)) [
        | inl e ↦ rw e (omega (arith, middle_byte, low_byte, ltb→lt _ _ e))
        | inr e ↦ rw e (odd ∙ ground (arith, middle_byte, low_byte))
      ]

  pub target_of : target true (put_random n f) ≡ record {
    module_no = if ltb (n % 65536) 32768 then n / 4096 else 0xf0 + n / 4096 % 16;
    extent_no = n / 128 % 32;
  }
  unfolding target
  target_of =
      let small : at_least (n / 128 % 32) 32 ≡ false =
        below_thirty_two (n / 128 % 32) (omega arith) in
      ap₂ (λ a b. carried (record { module_no = a; extent_no = b })) module_of extent_of
      ∙ carried_not
          (record {
            module_no = if ltb (n % 65536) 32768 then n / 4096 else 0xf0 + n / 4096 % 16;
            extent_no = n / 128 % 32;
          })
          small

low_seven : (x : ℕ) → x < 256 → bit_and x 0x7f ≡ x % 128
unfolding every_below
low_seven x h = (==_iff _ _).0 (every_below_lem (λ n. bit_and n 0x7f == n % 128) x 256 h refl)

-- Where the module is below 8 in its group of sixteen: new_ext() on the random record that setran()
-- stores goes to the module and extent at which the FCB stands, and bdosrw() then takes the same
-- record of it. The FCB's fields are bytes and its record is below 128.
pub random_there :
    (f : Fcb)
    → IsBytes f
    → f s2_off % 16 < 8
    → (target true (setran f) ≡ record { module_no = f s2_off % 64; extent_no = f extent_off % 32 })
      × (bit_and (setran f (ran_off + 2)) 0x7f ≡ f cur_rec_off)
random_there f v h =
    let n = record_no f in
    let fits : n < 64 * 4096 = omega (arith, v.record_byte) in
    let e = setran_lem f v in
    let low : ltb (n % 65536) 32768 ≡ true = lt→ltb _ _ (omega (arith, v.record_byte)) in
    let m : n / 4096 ≡ f s2_off % 64 = omega (arith, v.record_byte) in
    let x : n / 128 % 32 ≡ f extent_off % 32 = omega (arith, v.record_byte) in
    (
      ap (target true) e
          ∙ target_of n f fits
          ∙ ap₂ (λ a b. record { module_no = a; extent_no = b })
              (ap (λ (b : Bool). if b then n / 4096 else 0xf0 + n / 4096 % 16) low ∙ m) x,
      ap (λ (g : Fcb). bit_and (g (ran_off + 2)) 0x7f) e
          ∙ low_seven (put_random n f (ran_off + 2)) (omega (arith, low_byte n f fits))
          ∙ omega (arith, low_byte n f fits, v.record_byte),
    )

-- Where the module is 8 or more in its group of sixteen, and below 56: the module byte that
-- new_ext() computes from the random record that setran() stores has its upper four bits set. It is
-- not refused as past the maximum size, and the six bits that a scan compares are not the module at
-- which the FCB stands. The FCB's fields are bytes and its record is below 128.
pub random_astray :
    (f : Fcb)
    → IsBytes f
    → 8 ≤ f s2_off % 16
    → f s2_off % 64 < 56
    → ((target true (setran f)).module_no ≡ 0xf0 + f s2_off % 16)
      × (at_least (target true (setran f)).module_no 64 ≡ false)
      × (bit_and (target true (setran f)).module_no 0x3f ≢ f s2_off % 64)
unfolding at_least
random_astray f v h few =
    let n = record_no f in
    let fits : n < 64 * 4096 = omega (arith, v.record_byte) in
    let high : ltb (n % 65536) 32768 ≡ false = ground (arith, v.record_byte) in
    let m : n / 4096 % 16 ≡ f s2_off % 16 = omega (arith, v.record_byte) in
    let there : (target true (setran f)).module_no ≡ 0xf0 + f s2_off % 16 =
      ap (λ (g : Fcb). (target true g).module_no) (setran_lem f v)
      ∙ ap (λ (t : Target). t.module_no) (target_of n f fits)
      ∙ ap (λ (b : Bool). if b then n / 4096 else 0xf0 + n / 4096 % 16) high
      ∙ ap (λ k. 0xf0 + k) m in
    (
      there,
      ground arith,
      λ same.
          let six = low_six (0xf0 + f s2_off % 16) (omega arith) in
          absurd (omega (arith, six, ap (λ k. bit_and k 0x3f) there)),
    )
