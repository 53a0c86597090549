-- ===== src/Z80/Alu/Arith.antt =====
-- What alu() of shim/z80exec.c computes for ADD, ADC, SUB, SBB and CMP, the flags included.
use commodore_900_cpm.Base.{
  ℕ, zero, suc, ◌+◌, ◌-◌, ◌%◌, ◌<◌, Bool, true, false, not, ◌≡◌, refl, ap, arith, ◌==◌,
}
use commodore_900_cpm.Base.{ltb, leb, ◌⊎◌, inl, inr, if◌then◌else◌, u8, has, bit}
use native.Mathlib.Nat.{add-zero}
use commodore_900_cpm.Z80.State.{Z80, Lz}
use commodore_900_cpm.Z80.Flags.{f_cy, par8, z80flags, materialise, lazy}
use commodore_900_cpm.Z80.Flags.{lazy_carry, lazy_parity}
use commodore_900_cpm.Z80.Flags.Assembled.{Shows, Shows-cong}
use commodore_900_cpm.Z80.Flags.Cond.{HasByteRecord, folded-Shows, lazy_half, u8-byte}
use commodore_900_cpm.Z80.Alu.{alu, carry_in}
use commodore_900_cpm.Z80.Alu.Carries.{carry_add-eq, carry_sub-eq, half-add, half-sub}

-- What lazy() records is a record of bytes.
lazy-HasByteRecord : (m : Z80) (k : Lz) (a b r c : ℕ) → HasByteRecord (lazy m k a b r c)
unfolding lazy
lazy-HasByteRecord m k a b r c = record {
  la_byte = omega arith;
  lb_byte = omega arith;
  lr_byte = omega arith;
}

-- Records of class LZ_ADD and LZ_SUB over bytes, with the carries as arithmetic.
module _ (m : Z80) (a b c : ℕ) (ha : a < 256) (hb : b < 256) (hc : c < 2) where
  lazy_add-Shows :
      let r = u8 (a + b + c) in
      Shows
        (z80flags (lazy m Lz.add a b r c)).f
        (r == 0)
        (has r 0x80)
        (par8 r)
        (leb 256 (a + b + c))
        (leb 16 (a % 16 + b % 16 + c))
  unfolding z80flags materialise lazy lazy_carry lazy_parity lazy_half
  lazy_add-Shows =
      let r = u8 (a + b + c) in
      let er = u8-byte r (omega arith) in
      Shows-cong
        (folded-Shows (lazy m Lz.add a b r c) (lazy-HasByteRecord m Lz.add a b r c) Lz.add (λ e. cc)
          (λ e. cc))
        (ap (λ t. t == 0) er) (ap (λ t. has t 0x80) er) (ap par8 er)
        (rw (u8-byte a ha, u8-byte c (omega arith), er) (carry_add-eq a b c ha hb hc))
        (rw (u8-byte a ha, u8-byte b hb, er) (half-add a b c ha hb hc))

  lazy_sub-Shows :
      let r = u8 (a + 512 - b - c) in
      Shows
        (z80flags (lazy m Lz.sub a b r c)).f
        (r == 0)
        (has r 0x80)
        (par8 r)
        (ltb a (b + c))
        (not (ltb (a % 16) (b % 16 + c)))
  unfolding z80flags materialise lazy lazy_carry lazy_parity lazy_half
  lazy_sub-Shows =
      let r = u8 (a + 512 - b - c) in
      let er = u8-byte r (omega arith) in
      Shows-cong
        (folded-Shows (lazy m Lz.sub a b r c) (lazy-HasByteRecord m Lz.sub a b r c) Lz.sub (λ e. cc)
          (λ e. cc))
        (ap (λ t. t == 0) er) (ap (λ t. has t 0x80) er) (ap par8 er)
        (rw (u8-byte a ha, u8-byte b hb, u8-byte c (omega arith)) (carry_sub-eq a b c ha hb hc))
        (ap not (rw (u8-byte a ha, u8-byte b hb, er) (half-sub a b c ha hb hc)))

bit-lt : (t : Bool) → bit t < 2
bit-lt true = omega arith
bit-lt false = omega arith

-- ADD (`op` 0) and ADC (`op` 1) return the byte of the sum `s` of accumulator, operand and, for
-- ADC, the carry flag; the flags afterwards show zero, sign and parity of that byte, a carry
-- exactly when `s` needs a ninth bit, and a half carry exactly when the low digits reach 16.
pub alu_add :
    (m : Z80) (op b : ℕ)
    → op < 2
    → let c = if op == 0 then 0 else carry_in (z80flags m) in
      let s = u8 m.a + u8 b + c in
      ((alu m op b).0 ≡ u8 s)
      × Shows
          (z80flags (alu m op b).1).f
          (u8 s == 0)
          (has (u8 s) 0x80)
          (par8 (u8 s))
          (leb 256 s)
          (leb 16 (u8 m.a % 16 + u8 b % 16 + c))
unfolding alu
alu_add m zero b h =
    let base = lazy_add-Shows m (u8 m.a) (u8 b) 0 (omega arith) (omega arith) (omega arith) in
    (omega arith, rw (add-zero, add-zero) (rw (add-zero, add-zero) at base))
alu_add m (suc zero) b h = (
  refl,
  lazy_add-Shows (z80flags m) (u8 m.a) (u8 b) (carry_in (z80flags m)) (omega arith) (omega arith)
      (bit-lt (has (z80flags m).f f_cy)),
)
alu_add m (suc (suc n)) b h = absurd (omega arith)

wider : (m : Z80) (b : ℕ) → u8 (u8 m.a + 512 - u8 b - 0) ≡ u8 (u8 m.a + 256 - u8 b)
wider m b = omega arith

without_borrow :
    (m : Z80) (b : ℕ)
    → let r = u8 (u8 m.a + 512 - u8 b - 0) in
      Shows
        (z80flags (lazy m Lz.sub (u8 m.a) (u8 b) r 0)).f
        (r == 0)
        (has r 0x80)
        (par8 r)
        (ltb (u8 m.a) (u8 b + 0))
        (not (ltb (u8 m.a % 16) (u8 b % 16 + 0)))
without_borrow m b = lazy_sub-Shows m (u8 m.a) (u8 b) 0 (omega arith) (omega arith) (omega arith)

-- SUB (`op` 2), SBB (3) and CMP (7) return the byte of the difference, SBB less the carry flag
-- too; the flags afterwards show zero, sign and parity of that byte, a carry exactly when the
-- operand and borrow exceed the accumulator, and, inverted as the 8080 has it, the half borrow.
pub alu_sub :
    (m : Z80) (op b : ℕ)
    → (op ≡ 2) ⊎ (op ≡ 3) ⊎ (op ≡ 7)
    → let c = if op == 3 then carry_in (z80flags m) else 0 in
      let r = u8 (u8 m.a + 512 - u8 b - c) in
      ((alu m op b).0 ≡ r)
      × Shows
          (z80flags (alu m op b).1).f
          (r == 0)
          (has r 0x80)
          (par8 r)
          (ltb (u8 m.a) (u8 b + c))
          (not (ltb (u8 m.a % 16) (u8 b % 16 + c)))
unfolding alu
alu_sub m op b (inl e) = rw e (omega arith, rw (← wider m b) (without_borrow m b))
alu_sub m op b (inr (inl e)) = rw e (
  refl,
  lazy_sub-Shows (z80flags m) (u8 m.a) (u8 b) (carry_in (z80flags m)) (omega arith) (omega arith)
      (bit-lt (has (z80flags m).f f_cy)),
)
alu_sub m op b (inr (inr e)) = rw e (omega arith, rw (← wider m b) (without_borrow m b))
