-- ===== src/Z80/Groups.antt =====
-- The CB and ED groups of shim/z80exec.c: cbop() and edop().
use commodore_900_cpm.Base.{ℕ, ◌+◌, ◌-◌, ◌*◌, ◌/◌, ◌%◌, ◌^◌, Bool, not, ◌&&◌, ◌||◌, ◌==◌, ltb}
use commodore_900_cpm.Base.{if◌then◌else◌, u8, u16, u32, has, or_if, bit, bit_and, bit_or, bit_xor}
use commodore_900_cpm.Z80.State.{Z80, Lz, get_pair, set_pair, z80rb, z80wb, z80rw, z80ww}
use commodore_900_cpm.Z80.State.{z80getr, z80setr}
use commodore_900_cpm.Z80.Flags.{f_cy, f_one, f_pa, f_ac, f_ze, f_si, clear_z80x, z80flags, lazy}
use commodore_900_cpm.Z80.Alu.{carry_in}
use commodore_900_cpm.Z80.Decode.{Instr}

-- The answers of the executor, X_OK to X_HALT.
pub data Exit : Type 0 where
  ok unimp bad hook halted : Exit

-- The rotated byte and the carry out of the CB rotates RLC RRC RL RR SLA SRA SLL SRL, with carry
-- `c` in.
unfoldable pub shift : ℕ → ℕ → ℕ → ℕ
shift b v c =
    if b == 0
    then u8 (v * 2 + v / 128 % 2)
    else if b == 1
    then v / 2 + v % 2 * 128
    else if b == 2
    then u8 (v * 2 + c)
    else if b == 3
    then v / 2 + c * 128
    else if b == 4
    then u8 (v * 2)
    else if b == 5
    then v / 2 + v / 128 % 2 * 128
    else if b == 6
    then u8 (v * 2 + 1)
    else v / 2

unfoldable pub shift_carry : ℕ → ℕ → ℕ
shift_carry b v = if b == 0 || b == 2 || b == 4 || b == 6 then v / 128 % 2 else v % 2

-- RL and RR fold the pending flags to read the carry; the others leave them.
unfoldable pub cbop : Z80 → Instr → Z80
cbop m i =
    let v = u8 (z80getr m i.y) in
    let b = i.imm % 8 in
    let m' = if b == 2 || b == 3 then z80flags m else m in
    if i.x == 0
    then lazy (z80setr m' i.y (shift b v (carry_in m'))) Lz.rot v 0 (shift b v (carry_in m'))
        (shift_carry b v)
    else if i.x == 1
    then lazy m Lz.bit v b (bit_and v (2 ^ b)) 0
    else if i.x == 2
    then z80setr m i.y (v - bit_and v (2 ^ b))
    else z80setr m i.y (bit_or v (2 ^ b))

abbrev pub with_pairs : Z80 → ℕ → ℕ → ℕ → Z80
with_pairs m bc de hl = let p = m.rp in record m { rp = record p { bc = bc; de = de; hl = hl } }

-- `hl + 1` or `hl - 1`, as a word.
abbrev pub towards : Bool → ℕ → ℕ
towards up w = if up then u16 (w + 1) else u16 (w + 65535)

-- LDI, LDD, LDIR, LDDR: one byte is moved in a step.
unfoldable pub load_block : Z80 → ℕ → Z80
load_block m sub =
    let up = not (has sub 8) in
    let again = has sub 0x10 in
    let hl = m.rp.hl in
    let de = m.rp.de in
    let bc = u16 (m.rp.bc + 65535) in
    let m1 = with_pairs (z80wb m de (z80rb m hl)) bc (towards up de) (towards up hl) in
    let m2 = lazy m1 Lz.ldblk 0 0 0 (bit (not (bc == 0))) in
    if again && not (bc == 0) then record m2 { pc = u16 (m2.pc + 65534) } else m2

-- CPI, CPD, CPIR, CPDR.
unfoldable pub compare_block : Z80 → ℕ → Z80
compare_block m sub =
    let up = not (has sub 8) in
    let again = has sub 0x10 in
    let hl = m.rp.hl in
    let v = z80rb m hl in
    let a = u8 m.a in
    let r = u8 (a + 256 - v) in
    let bc = u16 (m.rp.bc + 65535) in
    let m1 = with_pairs m bc m.rp.de (towards up hl) in
    let m2 = lazy m1 Lz.cpblk a v r (bit (not (bc == 0))) in
    if again && not (bc == 0) && not (r == 0) then record m2 { pc = u16 (m2.pc + 65534) } else m2

-- The word flags of ADC HL,ss and SBC HL,ss from the 32-bit result `w`.
unfoldable pub word_flags : Bool → ℕ → ℕ → ℕ → ℕ
word_flags adding hl ss w =
    let r = u16 w in
    let f = or_if (has w 0x10000) f_cy (or_if (has r 0x8000) f_si (or_if (r == 0) f_ze f_one)) in
    let half = has (bit_xor (bit_xor hl ss) r) 0x1000 in
    if adding
    then or_if half f_ac (or_if (has (bit_and (bit_xor hl r) (bit_xor ss r)) 0x8000) f_pa f)
    else or_if (not half) f_ac (or_if (has (bit_and (bit_xor hl ss) (bit_xor hl r)) 0x8000) f_pa f)

unfoldable pub word_arith : Z80 → ℕ → Z80
word_arith m' sub =
    let m = z80flags m' in
    let hl = m.rp.hl in
    let ss = get_pair m.rp (sub / 16 % 4) in
    let v = carry_in m in
    let adding = has sub 8 in
    let w = if adding then hl + ss + v else u32 (hl + 2 ^ 32 - ss - v) in
    let p = m.rp in
    record m {
      rp = record p { hl = u16 w };
      f = clear_z80x (word_flags adding hl ss w);
      lz = Lz.none;
    }

-- NEG.
unfoldable pub neg : Z80 → Z80
neg m = let v = u8 m.a in let r = u8 (256 - v) in lazy (record m { a = r }) Lz.sub 0 v r 0

unfoldable pub edop : Z80 → Instr → Exit × Z80
edop m i =
    let sub = i.sub in
    let low = sub % 16 in
    if sub == 0xa0 || sub == 0xa8 || sub == 0xb0 || sub == 0xb8
    then (Exit.ok, load_block m sub)
    else if sub == 0xa1 || sub == 0xa9 || sub == 0xb1 || sub == 0xb9
    then (Exit.ok, compare_block m sub)
    else if ltb sub 0x40 || ltb 0x7f sub
    then (Exit.unimp, m)
    else if low == 2 || low == 0x0a
    then (Exit.ok, word_arith m sub)
    else if low == 3
    then (Exit.ok, z80ww m i.imm (get_pair m.rp i.x))
    else if low == 0x0b
    then (Exit.ok, record m { rp = set_pair m.rp i.x (z80rw m i.imm) })
    else if low == 4 || low == 0x0c
    then (Exit.ok, neg m)
    else (Exit.unimp, m)
