-- ===== src/Z80/Flags/Survive.antt =====
-- The carry that lazy() of shim/z80exec.c lets survive an instruction that does not write it.
use commodore_900_cpm.Base.{
  ℕ, ◌≡◌, inl, inr, refl, sym, ◌∙◌, Bool, true, false, Bool-cases, has, arith,
}
use commodore_900_cpm.Z80.State.{Z80, Lz}
use commodore_900_cpm.Z80.Flags.{f_cy, z80flags, materialise, keeps, lazy, lazy_carry}
use commodore_900_cpm.Z80.Flags.Cond.{HasByteRecord, folded-Shows}

-- The classes of INR, DCR, BIT and the block compares.
unfoldable pub leaves_carry : Lz → Bool
leaves_carry Lz.inr = true
leaves_carry Lz.dcr = true
leaves_carry Lz.bit = true
leaves_carry Lz.cpblk = true
leaves_carry _ = false

-- A pending record of such a class has the carry in the flag byte.
pending_carry :
    (k : Lz) (m : Z80)
    → leaves_carry k ≡ true
    → HasByteRecord m
    → has (materialise k m).f f_cy ≡ has m.f f_cy
unfolding leaves_carry materialise lazy_carry
pending_carry Lz.inr m e v = (folded-Shows m v Lz.inr (λ e. cc) (λ e. cc)).carry_flag
pending_carry Lz.dcr m e v = (folded-Shows m v Lz.dcr (λ e. cc) (λ e. cc)).carry_flag
pending_carry Lz.bit m e v = (folded-Shows m v Lz.bit (λ e. cc) (λ e. cc)).carry_flag
pending_carry Lz.cpblk m e v = (folded-Shows m v Lz.cpblk (λ e. cc) (λ e. cc)).carry_flag
pending_carry _ m e v = cc

kept_class : (k l : Lz) → leaves_carry k ≡ true → keeps k l ≡ true → leaves_carry l ≡ true
unfolding leaves_carry keeps
kept_class Lz.inr Lz.inr e h = refl
kept_class Lz.inr Lz.dcr e h = refl
kept_class Lz.dcr Lz.inr e h = refl
kept_class Lz.dcr Lz.dcr e h = refl
kept_class Lz.bit Lz.bit e h = refl
kept_class Lz.cpblk Lz.cpblk e h = refl
kept_class _ _ e h = cc

-- After an instruction of one of these classes, whatever was pending before, provided that it was a
-- record of bytes, the materialised flags have the carry that they would have had before it.
pub lazy-carry :
    (m : Z80) (k : Lz) (a b r c : ℕ)
    → HasByteRecord m
    → leaves_carry k ≡ true
    → has (z80flags (lazy m k a b r c)).f f_cy ≡ has (z80flags m).f f_cy
unfolding z80flags lazy
lazy-carry m k a b r c v e =
    let w : HasByteRecord (lazy m k a b r c) = record {
      la_byte = omega arith;
      lb_byte = omega arith;
      lr_byte = omega arith;
    } in
    pending_carry k (lazy m k a b r c) e w ∙ elim (Bool-cases (keeps k m.lz)) [
      | inl h ↦ rw (h, lazy) (sym (pending_carry m.lz m (kept_class k m.lz e h) v))
      | inr h ↦ rw (h, lazy) refl
    ]
