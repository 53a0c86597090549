-- ===== src/Base/Bits.antt =====
-- The native bit operations digit by digit, the tests that the program makes of single bits, and
-- facts about a small range by evaluation.
use Prim.Native.Nat.{ℕ, zero, suc, ◌+◌, ◌*◌, ◌/◌, ◌%◌, ◌≤◌, ◌<◌, min, max}
use Prim.Native.Nat.{bit_and, bit_or, bit_xor, bitwise, digits, differ}
use Prim.Native.Nat.{bit_and-bitwise, bit_or-bitwise, bit_xor-bitwise}
use mathlib.Core.Path.{◌≡◌, refl, sym, ◌∙◌}
use mathlib.Core.Bool.{Bool, true, ◌&&◌}
use native.Mathlib.Omega.{arith}

-- A test of every number below a bound.
unfoldable pub every_below : (ℕ → Bool) → ℕ → Bool
every_below test zero = true
every_below test (suc n) = every_below test n && test n

pub every_below_lem :
    (test : ℕ → Bool) (x n : ℕ) → x < n → every_below test n ≡ true → test x ≡ true
unfolding every_below
every_below_lem test x zero lt e = absurd (omega arith)
every_below_lem test x (suc n) lt e = ground (arith, every_below_lem test x n)

-- `digits` with any fuel that reaches the last digit of `a`.
module _ (last : ℕ → ℕ) (op : ℕ → ℕ → ℕ) where
  digits-zero : (i b : ℕ) → digits last op i zero b ≡ digits last op 0 zero b
  digits-zero zero b = refl
  digits-zero (suc i) b = refl

  enough_digits : (a b i j : ℕ) → a ≤ i → a ≤ j → digits last op i a b ≡ digits last op j a b
  enough_digits zero b i j p q = digits-zero i b ∙ sym (digits-zero j b)
  enough_digits (suc a) b zero j p q = absurd (omega arith)
  enough_digits (suc a) b (suc i) zero p q = absurd (omega arith)
  enough_digits (suc a) b (suc i) (suc j) p q =
      omega (arith, enough_digits (suc a / 2) (b / 2) i j (omega arith) (omega arith))

  lowest_digit :
      (a b : ℕ)
      → bitwise last op (suc a) b ≡ op (suc a % 2) (b % 2) + 2 * bitwise last op (suc a / 2) (b / 2)
  lowest_digit a b =
      omega (arith, enough_digits (suc a / 2) (b / 2) a (suc a / 2) (omega arith) (omega arith))

pub bit_and_step : (a b : ℕ) → bit_and a b ≡ min (a % 2) (b % 2) + 2 * bit_and (a / 2) (b / 2)
bit_and_step zero b = simp bit_and-bitwise (omega arith)
bit_and_step (suc a) b = simp bit_and-bitwise (lowest_digit (λ _. 0) min a b)

pub bit_or_step : (a b : ℕ) → bit_or a b ≡ max (a % 2) (b % 2) + 2 * bit_or (a / 2) (b / 2)
bit_or_step zero b = simp bit_or-bitwise (omega arith)
bit_or_step (suc a) b = simp bit_or-bitwise (lowest_digit (λ y. y) max a b)

differ-digits : (x y : ℕ) → x < 2 → y < 2 → differ x y ≡ (x + y) % 2
differ-digits zero y p q = omega arith
differ-digits (suc x) zero p q = omega arith
differ-digits (suc zero) (suc y) p q = omega arith
differ-digits (suc (suc x)) (suc y) p q = absurd (omega arith)

differ-eq : (a b : ℕ) → differ (a % 2) (b % 2) ≡ (a + b) % 2
differ-eq a b = omega (arith, differ-digits (a % 2) (b % 2) (omega arith) (omega arith))

pub bit_xor_step : (a b : ℕ) → bit_xor a b ≡ bit_xor (a / 2) (b / 2) * 2 + (a + b) % 2
bit_xor_step zero b = simp bit_xor-bitwise (omega arith)
bit_xor_step (suc a) b =
    simp bit_xor-bitwise (omega (arith, lowest_digit (λ y. y) differ a b, differ-eq (suc a) b))

-- No common digits with zero.
with_zero : (a n : ℕ) → a ≤ n → (bit_and a 0 ≡ 0) × (bit_or a 0 ≡ a)
with_zero zero n h = (refl, refl)
with_zero (suc a) zero h = absurd (omega arith)
with_zero (suc a) (suc n) h =
    let halves = with_zero (suc a / 2) n (omega arith) in
    (
      omega (arith, bit_and_step (suc a) 0, halves.0),
      omega (arith, bit_or_step (suc a) 0, halves.1),
    )

pub bit_and-zero : (a : ℕ) → bit_and a 0 ≡ 0
bit_and-zero a = (with_zero a a (omega arith)).0

pub bit_or-zero : (a : ℕ) → bit_or a 0 ≡ a
bit_or-zero a = (with_zero a a (omega arith)).1

-- Single bits, as the masks of the flag byte and of the carries read them.
pub bit_and-bit0 : (a : ℕ) → bit_and a 1 ≡ a % 2
bit_and-bit0 a = omega (arith, bit_and_step a 1, bit_and-zero (a / 2))

bit_and-bit1 : (a : ℕ) → bit_and a 2 ≡ a / 2 % 2 * 2
bit_and-bit1 a = omega (arith, bit_and_step a 2, bit_and-bit0 (a / 2))

pub bit_and-bit2 : (a : ℕ) → bit_and a 4 ≡ a / 4 % 2 * 4
bit_and-bit2 a = omega (arith, bit_and_step a 4, bit_and-bit1 (a / 2))

pub bit_and-bit3 : (a : ℕ) → bit_and a 8 ≡ a / 8 % 2 * 8
bit_and-bit3 a = omega (arith, bit_and_step a 8, bit_and-bit2 (a / 2))

pub bit_and-bit4 : (a : ℕ) → bit_and a 16 ≡ a / 16 % 2 * 16
bit_and-bit4 a = omega (arith, bit_and_step a 16, bit_and-bit3 (a / 2))

bit_and-bit5 : (a : ℕ) → bit_and a 32 ≡ a / 32 % 2 * 32
bit_and-bit5 a = omega (arith, bit_and_step a 32, bit_and-bit4 (a / 2))

bit_and-bit6 : (a : ℕ) → bit_and a 64 ≡ a / 64 % 2 * 64
bit_and-bit6 a = omega (arith, bit_and_step a 64, bit_and-bit5 (a / 2))

pub bit_and-bit7 : (a : ℕ) → bit_and a 128 ≡ a / 128 % 2 * 128
bit_and-bit7 a = omega (arith, bit_and_step a 128, bit_and-bit6 (a / 2))

-- Exclusive or is addition without carries on each digit.
bit_xor-bit1 : (a b : ℕ) → bit_xor a b / 2 % 2 ≡ (a / 2 + b / 2) % 2
bit_xor-bit1 a b = omega (arith, bit_xor_step a b, bit_xor_step (a / 2) (b / 2))

bit_xor-bit2 : (a b : ℕ) → bit_xor a b / 4 % 2 ≡ (a / 4 + b / 4) % 2
bit_xor-bit2 a b = omega (arith, bit_xor_step a b, bit_xor-bit1 (a / 2) (b / 2))

bit_xor-bit3 : (a b : ℕ) → bit_xor a b / 8 % 2 ≡ (a / 8 + b / 8) % 2
bit_xor-bit3 a b = omega (arith, bit_xor_step a b, bit_xor-bit2 (a / 2) (b / 2))

pub bit_xor-bit4 : (a b : ℕ) → bit_xor a b / 16 % 2 ≡ (a / 16 + b / 16) % 2
bit_xor-bit4 a b = omega (arith, bit_xor_step a b, bit_xor-bit3 (a / 2) (b / 2))
