-- ===== src/Z80/Flags/Parity.antt =====
-- The parity table of shim/z80exec.c against a count of the bits.
use commodore_900_cpm.Base.{ℕ, zero, suc, ◌+◌, ◌/◌, ◌%◌, ◌≡◌, refl, true, ◌==◌, u8, arith}
use commodore_900_cpm.Base.Bits.{every_below, every_below_lem}
use commodore_900_cpm.Z80.Flags.{par8, partab}
use commodore_900_cpm.Base.{not, ap, ◌∙◌, get_or, same, same-eq}

-- How many of the low `w` bits of `v` are set.
unfoldable pub bit_count : ℕ → ℕ → ℕ
bit_count zero v = 0
bit_count (suc w) v = v % 2 + bit_count w (v / 2)

parity_table : every_below (λ v. same (par8 v) (bit_count 8 v % 2 == 0)) 256 ≡ true
unfolding every_below par8 partab bit_count
parity_table = refl

cut_twice : (v : ℕ) → u8 v ≡ u8 (u8 v)
cut_twice v = omega arith

par8-u8 : (v : ℕ) → par8 v ≡ par8 (u8 v)
unfolding par8
par8-u8 v = ap (λ (w : ℕ). not (get_or partab w 0 == 0)) (cut_twice v)

-- The parity flag that the table gives for any value is set exactly when the number of set bits in
-- its low byte is even.
pub par8-eq : (v : ℕ) → par8 v ≡ (bit_count 8 (u8 v) % 2 == 0)
par8-eq v = par8-u8 v ∙ same-eq _ _ (every_below_lem _ (u8 v) 256 (omega arith) parity_table)
