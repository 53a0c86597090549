-- ===== src/Z80/Alu/Carries.antt =====
-- The carry and half-carry tests of z80flags() in shim/z80exec.c as arithmetic on the operands.
use commodore_900_cpm.Base.{ℕ, ◌+◌, ◌-◌, ◌/◌, ◌%◌, ◌<◌, ◌≡◌, arith, ◌==◌, ltb, leb}
use commodore_900_cpm.Base.{u8, bit_xor}
use commodore_900_cpm.Base.Bits.{bit_and-bit4, bit_xor-bit4}
use commodore_900_cpm.Z80.Flags.{half, carry_add, carry_sub}

module _ (a b c : ℕ) (ha : a < 256) (hb : b < 256) (hc : c < 2) where
  pub carry_add-eq : carry_add c a (u8 (a + b + c)) ≡ leb 256 (a + b + c)
  unfolding carry_add
  carry_add-eq = ground arith

  pub carry_sub-eq : carry_sub c a b ≡ ltb a (b + c)
  unfolding carry_sub
  carry_sub-eq = ground arith

-- Bit 4 of `a ^ b ^ r`.
half-bit : (a b r : ℕ) → half a b r ≡ ((a / 16 + b / 16 + r / 16) % 2 == 1)
unfolding half
half-bit a b r =
    ground (
      arith,
      bit_and-bit4 (bit_xor (bit_xor a b) r),
      bit_xor-bit4 (bit_xor a b) r,
      bit_xor-bit4 a b,
    )

module _ (a b c : ℕ) (ha : a < 256) (hb : b < 256) (hc : c < 2) where
  pub half-add : half a b (u8 (a + b + c)) ≡ leb 16 (a % 16 + b % 16 + c)
  half-add = rw (half-bit a b (u8 (a + b + c))) (ground arith)

  pub half-sub : half a b (u8 (a + 512 - b - c)) ≡ ltb (a % 16) (b % 16 + c)
  half-sub = rw (half-bit a b (u8 (a + 512 - b - c))) (ground arith)
