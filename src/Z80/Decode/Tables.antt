-- ===== src/Z80/Decode/Tables.antt =====
-- The base map of shim/z80dec.c against the encoding rules that its comments state.
use commodore_900_cpm.Base.{
  same, same-eq, ℕ, ◌/◌, ◌%◌, ◌<◌, ◌≡◌, refl, Bool, true, false, not, ◌&&◌, ◌||◌,
}
use commodore_900_cpm.Base.{◌==◌, leb, if◌then◌else◌, has, get_or, ==_iff}
use commodore_900_cpm.Base.Bits.{every_below, every_below_lem}
use commodore_900_cpm.Z80.Tables.{Op, blen, bop, bx, by, bfl}
use commodore_900_cpm.Z80.Decode.{usesm}

-- The length that the encoding gives, from the opcode's fields of two, three and three bits: a
-- 16-bit operand for LXI, the direct loads and stores, jumps and calls; an 8-bit one for MVI, the
-- ALU immediates, IN, OUT and the relative branches; else none.
abbrev pub encoding_length : ℕ → ℕ
encoding_length op =
    let x = op / 64 in
    let y = op / 8 % 8 in
    let z = op % 8 in
    let word =
      (x == 0 && ((z == 1 && y % 2 == 0) || (z == 2 && leb 4 y)))
      || (x == 3 && (z == 2 || z == 4 || (z == 3 && y == 0) || (z == 5 && y == 1))) in
    let byte =
      (x == 0 && (z == 6 || (z == 0 && leb 2 y)))
      || (x == 3 && (z == 6 || (z == 3 && (y == 2 || y == 3)))) in
    if word then 3 else if byte then 2 else 1

lengths_table : every_below (λ op. get_or blen op 0 == encoding_length op) 256 ≡ true
unfolding every_below blen
lengths_table = refl

-- Every entry of the length table is the length that the encoding rules give.
pub blen-eq : (op : ℕ) → op < 256 → get_or blen op 0 ≡ encoding_length op
blen-eq op h = (==_iff _ _).0 (every_below_lem _ op 256 h lengths_table)

-- Does a decoded base instruction take register field 6, the byte at (HL)?
abbrev pub operand_is_memory : Op → ℕ → ℕ → ℕ → Bool
operand_is_memory Op.ldrr x y fl = x == 6 || y == 6
operand_is_memory Op.ldri x y fl = x == 6
operand_is_memory Op.inr x y fl = x == 6
operand_is_memory Op.dcr x y fl = x == 6
operand_is_memory Op.alu x y fl = y == 6 && not (has fl 0x01)
operand_is_memory _ x y fl = false

memory_table :
    every_below
      (λ op. same (usesm op) (
        operand_is_memory
          (get_or bop op Op.bad)
          (get_or bx op 0)
          (get_or by op 0)
          (get_or bfl op 0)))
      256
    ≡ true
unfolding every_below usesm bop bx by bfl
memory_table = refl

-- usesm(), which decides whether a DD or FD prefix adds a displacement, answers exactly for the
-- opcodes whose decoded operand fields name the byte at (HL).
pub usesm-eq :
    (op : ℕ)
    → op < 256
    → usesm op
      ≡ operand_is_memory (get_or bop op Op.bad) (get_or bx op 0) (get_or by op 0) (get_or bfl op 0)
usesm-eq op h = same-eq _ _ (every_below_lem _ op 256 h memory_table)
