-- ===== src/Scb/Image.antt =====
-- Stores into the image, and the words of src/bdos/scb.c.
use mathlib.Core.Path.{subst}
use native.Mathlib.Decide.{ℕ_discrete}
use commodore_900_cpm.Base.{
  ℕ, zero, suc, ◌+◌, ◌*◌, ◌/◌, ◌%◌, ◌^◌, ◌<◌, bit_or, Bool, true, false, ◌==◌, ◌||◌, List, [], ◌∷◌,
  ◌≤◌, store, u8, ◌≡◌, refl, ap, sym, arith,
}
use commodore_900_cpm.Base.Bits.{bit_or_step}
use commodore_900_cpm.Scb.{Image, put_all, scbword}

-- A store at `off` is among the list's.
unfoldable pub covers : List (ℕ × ℕ) → ℕ → Bool
covers [] o = false
covers ((off, _) ∷ ws) o = (o == off) || covers ws o

pub put_all-uncovered :
    (ws : List (ℕ × ℕ)) (m : Image) (o : ℕ) → covers ws o ≡ false → put_all ws m o ≡ m o
unfolding put_all covers
put_all-uncovered [] m o e = refl
put_all-uncovered ((off, v) ∷ ws) m o e =
    let rest = put_all-uncovered ws (store m off v) o in ground (arith, rest)

zero_bit_or : (n k : ℕ) → n ≤ k → bit_or 0 n ≡ n
zero_bit_or zero k h = refl
zero_bit_or (suc n) zero h = absurd (omega arith)
zero_bit_or (suc n) (suc k) h =
    let half = zero_bit_or (suc n / 2) k (omega arith) in omega (arith, bit_or_step 0 (suc n), half)

none_below : (a : ℕ) → a < 1 → a ≡ 0
none_below a h = omega arith

bit_or-even : (a c : ℕ) → bit_or a (2 * c) ≡ a % 2 + 2 * bit_or (a / 2) c
bit_or-even a c =
    let half : 2 * c / 2 ≡ c = omega arith in
    omega (arith, bit_or_step a (2 * c), ap (bit_or (a / 2)) half)

doubled : (b q p : ℕ) → q ≡ 2 * p → b * q ≡ 2 * (b * p)
doubled b q p e = rw e (omega arith)

-- Disjoint bits add up.
pub bit_or-shifted : (k a b : ℕ) → a < 2 ^ k → bit_or a (b * 2 ^ k) ≡ a + b * 2 ^ k
bit_or-shifted zero a b h =
    let whole = zero_bit_or (b * 2 ^ 0) (b * 2 ^ 0) (omega arith) in
    subst (λ n. bit_or n (b * 2 ^ 0) ≡ n + b * 2 ^ 0) (sym (none_below a h)) (omega (arith, whole))
bit_or-shifted (suc k) a b h =
    let double : b * 2 ^ suc k ≡ 2 * (b * 2 ^ k) = doubled b (2 ^ suc k) (2 ^ k) (omega arith) in
    let ih = bit_or-shifted k (a / 2) b (omega arith) in
    rw double (omega (arith, ih, bit_or-even a (b * 2 ^ k)))

-- Reading the two bytes back.
pub scbword-bytes :
    (off : ℕ) (m : Image)
    → m off < 256
    → m (off + 1) < 256
    → (u8 (scbword off m) ≡ m off) × (u8 (scbword off m / 2 ^ 8) ≡ m (off + 1))
unfolding scbword
scbword-bytes off m lo hi =
    let e = bit_or-shifted 8 (m off) (m (off + 1)) lo in (omega (arith, e), omega (arith, e))

-- A property of every place of a store.
unfoldable pub Everywhere : (ℕ → Type 0) → List (ℕ × ℕ) → Type 0
Everywhere P [] = ℕ
Everywhere P ((off, _) ∷ ws) = P off × Everywhere P ws

pub covered :
    (P : ℕ → Type 0) (ws : List (ℕ × ℕ)) (o : ℕ) → Everywhere P ws → covers ws o ≡ true → P o
unfolding Everywhere covers
covered P [] o all e = absurd (ground arith)
covered P ((off, v) ∷ ws) o (here, rest) e = elim (ℕ_discrete o off) [
  | yes same ↦ subst P (sym same) here
  | no other ↦ covered P ws o rest (ground arith)
]

infixr 20 ◌&◌
abbrev pub ◌&◌ : {A B : Type 0} → A → B → A × B
a & b = (a, b)
