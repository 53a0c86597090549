-- ===== src/Base/Words.antt =====
-- C words: casts to the widths of the program, a bit test, and memory as a function of its
-- address.
use Prim.Native.Nat.{ℕ, ◌%◌, ◌^◌, bit_and, bit_or}
use mathlib.Core.Path.{◌≡◌}
use mathlib.Core.Logic.{◌≢◌}
use mathlib.Core.Bool.{Bool, not}
use native.Mathlib.Omega.{arith}
use commodore_900_cpm.Base.Tests.{◌==◌, if◌then◌else◌}

abbrev pub u8 : ℕ → ℕ
u8 n = n % 2 ^ 8

abbrev pub u16 : ℕ → ℕ
u16 n = n % 2 ^ 16

abbrev pub u32 : ℕ → ℕ
u32 n = n % 2 ^ 32

-- `(x & mask) != 0`
abbrev pub has : ℕ → ℕ → Bool
has x mask = not (bit_and x mask == 0)

-- `if (b) f |= mask;`
abbrev pub or_if : Bool → ℕ → ℕ → ℕ
or_if b mask f = if b then bit_or f mask else f

-- A C truth value.
abbrev pub bit : Bool → ℕ
bit b = if b then 1 else 0

-- `f[a] = v`
abbrev pub store {ℓ} : {A : Type ℓ} → (ℕ → A) → ℕ → A → ℕ → A
store f a v b = if b == a then v else f b

module _ {ℓ} {A : Type ℓ} (f : ℕ → A) (a : ℕ) (v : A) where
  pub store_self : store f a v a ≡ v
  store_self = ground arith

  pub store_ne : (b : ℕ) → b ≢ a → store f a v b ≡ f b
  store_ne b h = ground arith
