-- ===== src/Base/Masks.antt =====
-- Masked comparison of words: `(a ^ b) & mask` is zero when and only when `a & mask` equals
-- `b & mask`, and what a mask sees of a word put together from two bytes.
use Prim.Native.Nat.{ℕ, zero, suc, ◌+◌, ◌*◌, ◌/◌, ◌%◌, ◌≤◌, bit_and, bit_xor}
use mathlib.Core.Path.{◌≡◌, refl, sym, ◌∙◌, ap, ap₂}
use mathlib.Core.Logic.{◌⊎◌}
use native.Mathlib.Omega.{arith}
use commodore_900_cpm.Base.Bits.{
  bit_and_step, bit_xor_step, bit_and-zero, every_below, every_below_lem,
}
use commodore_900_cpm.Base.Tests.{◌==◌, ==_iff}

-- `bit_and` with no digits left in the mask.
zero-mask : (a m : ℕ) → m ≡ 0 → bit_and a m ≡ 0
zero-mask a m e = ap (λ (x : ℕ). bit_and a x) e ∙ bit_and-zero a

-- On the lowest digit, and above it.
masked_digits :
    (a b m : ℕ)
    → bit_and (bit_xor a b) m ≡ 0
    → (bit_and (bit_xor (a / 2) (b / 2)) (m / 2) ≡ 0) × ((m % 2 ≡ 0) ⊎ (a % 2 ≡ b % 2))
masked_digits a b m h =
    let x = bit_xor_step a b in
    let s = bit_and_step (bit_xor a b) m in
    let half : bit_xor a b / 2 ≡ bit_xor (a / 2) (b / 2) = omega (arith, x) in
    (ap (λ (y : ℕ). bit_and y (m / 2)) (sym half) ∙ omega (arith, s, h), omega (arith, x, s, h))

masked_above : (a b m n : ℕ) → m ≤ n → bit_and (bit_xor a b) m ≡ 0 → bit_and a m ≡ bit_and b m
masked_above a b m zero le h = zero-mask a m (omega arith) ∙ sym (zero-mask b m (omega arith))
masked_above a b zero (suc n) le h = bit_and-zero a ∙ sym (bit_and-zero b)
masked_above a b (suc m) (suc n) le h =
    let d = masked_digits a b (suc m) h in
    omega (
      arith,
      d.1,
      bit_and_step a (suc m),
      bit_and_step b (suc m),
      masked_above (a / 2) (b / 2) (suc m / 2) n (omega arith) d.0,
    )

pub masked_zero : (a b m : ℕ) → bit_and (bit_xor a b) m ≡ 0 → bit_and a m ≡ bit_and b m
masked_zero a b m h = masked_above a b m m (omega arith) h

same_digits :
    (a b m : ℕ)
    → bit_and a m ≡ bit_and b m
    → (bit_and (a / 2) (m / 2) ≡ bit_and (b / 2) (m / 2)) × ((m % 2 ≡ 0) ⊎ (a % 2 ≡ b % 2))
same_digits a b m e =
    let p = bit_and_step a m in
    let q = bit_and_step b m in (omega (arith, p, q, e), omega (arith, p, q, e))

same_above : (a b m n : ℕ) → m ≤ n → bit_and a m ≡ bit_and b m → bit_and (bit_xor a b) m ≡ 0
same_above a b m zero le e = zero-mask (bit_xor a b) m (omega arith)
same_above a b zero (suc n) le e = bit_and-zero (bit_xor a b)
same_above a b (suc m) (suc n) le e =
    let d = same_digits a b (suc m) e in
    let x = bit_xor_step a b in
    let half : bit_xor a b / 2 ≡ bit_xor (a / 2) (b / 2) = omega (arith, x) in
    let rest =
      ap (λ (y : ℕ). bit_and y (suc m / 2)) half
      ∙ same_above (a / 2) (b / 2) (suc m / 2) n (omega arith) d.0 in
    omega (arith, d.1, x, bit_and_step (bit_xor a b) (suc m), rest)

pub masked_same : (a b m : ℕ) → bit_and a m ≡ bit_and b m → bit_and (bit_xor a b) m ≡ 0
masked_same a b m e = same_above a b m m (omega arith) e

-- The lowest digits of a number, and what is left above them.
low : ℕ → ℕ → ℕ
low zero a = 0
low (suc k) a = a % 2 + 2 * low k (a / 2)

high : ℕ → ℕ → ℕ
high zero a = a
high (suc k) a = high k (a / 2)

bit_and-half : (a m : ℕ) → bit_and a m / 2 ≡ bit_and (a / 2) (m / 2)
bit_and-half a m = omega (arith, bit_and_step a m)

low-bit_and : (k a m : ℕ) → low k (bit_and a m) ≡ bit_and (low k a) (low k m)
unfolding low
low-bit_and zero a m = refl
low-bit_and (suc k) a m =
    let x = a % 2 + 2 * low k (a / 2) in
    let y = m % 2 + 2 * low k (m / 2) in
    let above : bit_and (x / 2) (y / 2) ≡ bit_and (low k (a / 2)) (low k (m / 2)) =
      ap₂ bit_and (omega arith) (omega arith) in
    let half = ap (low k) (bit_and-half a m) ∙ low-bit_and k (a / 2) (m / 2) in
    omega (arith, bit_and_step a m, bit_and_step x y, above, half)

high-bit_and : (k a m : ℕ) → high k (bit_and a m) ≡ bit_and (high k a) (high k m)
unfolding high
high-bit_and zero a m = refl
high-bit_and (suc k) a m = ap (high k) (bit_and-half a m) ∙ high-bit_and k (a / 2) (m / 2)

low_byte : (a : ℕ) → low 8 a ≡ a % 256
unfolding low
low_byte a = omega arith

high_byte : (a : ℕ) → high 8 a ≡ a / 256
unfolding high
high_byte a = omega arith

pub bit_and-low : (a m : ℕ) → bit_and a m % 256 ≡ bit_and (a % 256) (m % 256)
bit_and-low a m =
    sym (low_byte (bit_and a m)) ∙ low-bit_and 8 a m ∙ ap₂ bit_and (low_byte a) (low_byte m)

pub bit_and-high : (a m : ℕ) → bit_and a m / 256 ≡ bit_and (a / 256) (m / 256)
bit_and-high a m =
    sym (high_byte (bit_and a m)) ∙ high-bit_and 8 a m ∙ ap₂ bit_and (high_byte a) (high_byte m)

-- A masked comparison of words is one of their bytes.
pub masked_bytes :
    (a b m : ℕ)
    → bit_and (a % 256) (m % 256) ≡ bit_and (b % 256) (m % 256)
    → bit_and (a / 256) (m / 256) ≡ bit_and (b / 256) (m / 256)
    → bit_and a m ≡ bit_and b m
masked_bytes a b m lo hi =
    omega (arith, lo, hi, bit_and-low a m, bit_and-low b m, bit_and-high a m, bit_and-high b m)

pub byte-mask : (x : ℕ) → bit_and x 0xff ≡ x % 256
unfolding every_below
byte-mask x =
    let keeps = every_below_lem (λ n. bit_and n 0xff == n) (x % 256) 256 (omega arith) refl in
    omega (
      arith,
      bit_and-low x 0xff,
      bit_and-high x 0xff,
      bit_and-zero (x / 256),
      (==_iff (bit_and (x % 256) 0xff) (x % 256)).0 keeps,
    )

-- A mask on bytes is its low byte.
pub mask-low :
    (x y m : ℕ)
    → bit_and (x % 256) m ≡ bit_and (y % 256) m
    → bit_and (x % 256) (m % 256) ≡ bit_and (y % 256) (m % 256)
mask-low x y m e =
    let again : (z : ℕ) → bit_and (z % 256 % 256) (m % 256) ≡ bit_and (z % 256) (m % 256) =
      λ z. ap (λ (w : ℕ). bit_and w (m % 256)) (omega arith) in
    omega (arith, bit_and-low (x % 256) m, bit_and-low (y % 256) m, again x, again y, e)

-- The low byte of a mask compares the low bytes.
pub low-mask :
    (x y m : ℕ)
    → bit_and (x % 256) (m % 256) ≡ bit_and (y % 256) (m % 256)
    → bit_and x (m % 256) ≡ bit_and y (m % 256)
low-mask x y m e =
    let lows : (z : ℕ) → bit_and (z % 256) (m % 256 % 256) ≡ bit_and (z % 256) (m % 256) =
      λ z. ap (bit_and (z % 256)) (omega arith) in
    let highs : (z : ℕ) → bit_and (z / 256) (m % 256 / 256) ≡ 0 =
      λ z. ap (bit_and (z / 256)) (omega arith) ∙ bit_and-zero (z / 256) in
    masked_bytes x y (m % 256) (lows x ∙ e ∙ sym (lows y)) (highs x ∙ sym (highs y))

bit_and_below : (a m n : ℕ) → m ≤ n → bit_and a m ≤ m
bit_and_below a m zero le = omega (arith, zero-mask a m (omega arith))
bit_and_below a zero (suc n) le = omega (arith, bit_and-zero a)
bit_and_below a (suc m) (suc n) le =
    omega (arith, bit_and_step a (suc m), bit_and_below (a / 2) (suc m / 2) n (omega arith))

pub bit_and_le : (a m : ℕ) → bit_and a m ≤ m
bit_and_le a m = bit_and_below a m m (omega arith)
