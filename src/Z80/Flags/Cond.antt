-- ===== src/Z80/Flags/Cond.antt =====
-- z80lcond() of shim/z80exec.c against z80cond() on the materialised flags.
use commodore_900_cpm.Base.{
  ℕ, ◌%◌, ◌/◌, ◌<◌, Bool, true, false, not, ◌≡◌, ◌≢◌, arith, refl, sym, ap, ◌==◌,
}
use commodore_900_cpm.Base.{if◌then◌else◌, has, or_if, bit_and, bit_or, u8}
use commodore_900_cpm.Base.Bits.{bit_and-bit0, bit_or-zero}
use commodore_900_cpm.Z80.State.{Z80, Lz}
use commodore_900_cpm.Z80.Flags.{f_cy, f_one, f_pa, f_ze, f_si, clear_z80x, half}
use commodore_900_cpm.Z80.Flags.{
  z80flags, z80cond, z80lcond, lazy_test, cond_of_class, lazy_carry, lazy_parity,
}
use commodore_900_cpm.Z80.Flags.{common_flags, class_flags, materialise}
use commodore_900_cpm.Z80.Flags.Assembled.{assembled, Shows, assembled-Shows}

-- What lazy() leaves: the record's fields are bytes.
pub record HasByteRecord (m : Z80) : Type 0 where
  pub la_byte : m.la < 256
  pub lb_byte : m.lb < 256
  pub lr_byte : m.lr < 256

-- The half carry of each class.
unfoldable pub lazy_half : Lz → Z80 → Bool
unfolding half
lazy_half Lz.add m = half m.la m.lb m.lr
lazy_half Lz.sub m = not (half m.la m.lb m.lr)
lazy_half Lz.and m = has (bit_or m.la m.lb) 0x08
lazy_half Lz.inr m = half m.la m.lb m.lr
lazy_half Lz.dcr m = not (half m.la m.lb m.lr)
lazy_half Lz.bit m = true
lazy_half Lz.cpblk m = not (half m.la m.lb m.lr)
lazy_half _ m = false

-- The value that z80flags() assembles for a class.
abbrev pub folded : Lz → Z80 → ℕ
folded k m = clear_z80x (class_flags k m (u8 m.la) (u8 m.lb) (u8 m.lr) (common_flags (u8 m.lr)))

abbrev pub expected : Lz → Z80 → ℕ
expected k m =
    assembled (m.lr == 0) (has m.lr 0x80) (lazy_parity k m) (lazy_carry k m) (lazy_half k m)

pub u8-byte : (x : ℕ) → x < 256 → u8 x ≡ x
u8-byte x h = omega arith

-- Reading the preserved carry.
kept_carry : (f x : ℕ) → bit_or f (bit_and x f_cy) ≡ or_if (has x f_cy) f_cy f
kept_carry f x = ground (arith, bit_and-bit0 x, bit_or-zero f)

-- The block compare overwrites the parity.
replaced_parity :
    (z s p p' : Bool)
    → or_if p' f_pa (bit_and (or_if p f_pa (or_if s f_si (or_if z f_ze f_one))) 0xfb)
      ≡ or_if p' f_pa (or_if s f_si (or_if z f_ze f_one))
replaced_parity z s p p' = ground arith

module _ (m : Z80) (v : HasByteRecord m) where
  folded-eq : (k : Lz) → k ≢ Lz.none → k ≢ Lz.ldblk → folded k m ≡ expected k m
  unfolding class_flags common_flags lazy_parity lazy_carry lazy_half
  folded-eq Lz.none p q = absurd (p refl)
  folded-eq Lz.ldblk p q = absurd (q refl)
  folded-eq Lz.add p q = rw (u8-byte m.la v.la_byte, u8-byte m.lb v.lb_byte, u8-byte m.lr v.lr_byte)
  folded-eq Lz.sub p q = rw (u8-byte m.la v.la_byte, u8-byte m.lb v.lb_byte, u8-byte m.lr v.lr_byte)
  folded-eq Lz.and p q = rw (u8-byte m.la v.la_byte, u8-byte m.lb v.lb_byte, u8-byte m.lr v.lr_byte)
  folded-eq Lz.log p q = rw (u8-byte m.lr v.lr_byte)
  folded-eq Lz.inr p q =
      rw (u8-byte m.la v.la_byte, u8-byte m.lb v.lb_byte, u8-byte m.lr v.lr_byte, kept_carry)
  folded-eq Lz.dcr p q =
      rw (u8-byte m.la v.la_byte, u8-byte m.lb v.lb_byte, u8-byte m.lr v.lr_byte, kept_carry)
  folded-eq Lz.rot p q = rw (u8-byte m.lr v.lr_byte)
  folded-eq Lz.bit p q = rw (u8-byte m.lr v.lr_byte, kept_carry)
  folded-eq Lz.cpblk p q = rw (
    u8-byte m.la v.la_byte,
    u8-byte m.lb v.lb_byte,
    u8-byte m.lr v.lr_byte,
    kept_carry,
    replaced_parity,
  )

  -- Every pending class but LZ_LDBLK: the flags that z80flags() leaves show the tests that
  -- z80lcond() makes.
  pub folded-Shows :
      (k : Lz)
      → k ≢ Lz.none
      → k ≢ Lz.ldblk
      → Shows
          (folded k m)
          (m.lr == 0)
          (has m.lr 0x80)
          (lazy_parity k m)
          (lazy_carry k m)
          (lazy_half k m)
  folded-Shows k p q = rw (folded-eq k p q) (assembled-Shows _ _ _ _ _)

-- z80cond() on a flag byte that shows the five tests.
z80cond-Shows :
    (f n : ℕ) {z s p c h : Bool}
    → Shows f z s p c h
    → z80cond f n ≡ (
        let t = if n / 2 == 0 then z else if n / 2 == 1 then c else if n / 2 == 2 then p else s in
        if n % 2 == 1 then t else not t)
unfolding z80cond
z80cond-Shows f n w = rw (w.zero_flag, w.carry_flag, w.parity_flag, w.sign_flag)

folded-lcond :
    (k : Lz) (m : Z80) (n : ℕ)
    → HasByteRecord m
    → k ≢ Lz.none
    → k ≢ Lz.ldblk
    → z80cond (folded k m) n ≡ lazy_test k m n
unfolding lazy_test
folded-lcond k m n v p q = z80cond-Shows (folded k m) n (folded-Shows m v k p q)

cond_of_class-eq :
    (k : Lz) (m : Z80) (n : ℕ)
    → HasByteRecord m
    → (cond_of_class k m n).0 ≡ z80cond (materialise k m).f n
unfolding cond_of_class materialise
cond_of_class-eq Lz.none m n v = refl
cond_of_class-eq Lz.ldblk m n v = refl
cond_of_class-eq k m n v = sym (folded-lcond k m n v (λ e. cc) (λ e. cc))

state_of_class :
    (k : Lz) (m : Z80) (n : ℕ) → m.lz ≡ k → (z80flags (cond_of_class k m n).1).f ≡ (z80flags m).f
unfolding cond_of_class materialise z80flags
state_of_class Lz.ldblk m n e = ap (λ k. (materialise k m).f) (sym e)
state_of_class k m n e = refl

-- For a pending record of bytes, z80lcond() answers what z80cond() answers on the materialised
-- flags, for every class and condition, and the flags that z80flags() gives afterwards are those
-- that it would have given before.
pub z80lcond-eq :
    (m : Z80) (n : ℕ)
    → HasByteRecord m
    → ((z80lcond m n).0 ≡ z80cond (z80flags m).f n)
      × ((z80flags (z80lcond m n).1).f ≡ (z80flags m).f)
unfolding z80lcond z80flags
z80lcond-eq m n v = (cond_of_class-eq m.lz m n v, state_of_class m.lz m n refl)
