-- ===== src/Z80/Alu.antt =====
-- The stack, the ALU eight, DAA and the four rotates of shim/z80exec.c.
pub mod Carries
pub mod Arith
pub mod Decimal
use commodore_900_cpm.Base.{ℕ, ◌+◌, ◌-◌, ◌*◌, ◌/◌, ◌%◌, Bool, ◌||◌, ◌==◌, ltb}
use commodore_900_cpm.Base.{if◌then◌else◌, u8, u16, has, or_if, bit, bit_and, bit_or, bit_xor}
use commodore_900_cpm.Z80.State.{Z80, Lz, z80rw, z80ww}
use commodore_900_cpm.Z80.Flags.{f_cy, f_one, f_pa, f_ac, f_ze, f_si, clear_z80x, par8}
use commodore_900_cpm.Z80.Flags.{z80flags, lazy}

abbrev pub with_sp : Z80 → ℕ → Z80
with_sp m v = let p = m.rp in record m { rp = record p { sp = v } }

unfoldable pub push : Z80 → ℕ → Z80
push m v = let s = u16 (m.rp.sp + 65536 - 2) in z80ww (with_sp m s) s v

-- The word popped, and the state after it.
unfoldable pub pop : Z80 → ℕ × Z80
pop m = (z80rw m m.rp.sp, with_sp m (u16 (m.rp.sp + 2)))

abbrev pub carry_in : Z80 → ℕ
carry_in m = bit (has m.f f_cy)

-- alu(m, aop, b): ADD ADC SUB SBB ANA XRA ORA CMP; the result, and the state with its record.
unfoldable pub alu : Z80 → ℕ → ℕ → ℕ × Z80
alu m aop b' =
    let a = u8 m.a in
    let b = u8 b' in
    let c = carry_in (z80flags m) in
    if aop == 0
    then (u8 (a + b), lazy m Lz.add a b (u8 (a + b)) 0)
    else if aop == 1
    then (u8 (a + b + c), lazy (z80flags m) Lz.add a b (u8 (a + b + c)) c)
    else if aop == 2
    then (u8 (a + 256 - b), lazy m Lz.sub a b (u8 (a + 256 - b)) 0)
    else if aop == 3
    then (u8 (a + 512 - b - c), lazy (z80flags m) Lz.sub a b (u8 (a + 512 - b - c)) c)
    else if aop == 4
    then (bit_and a b, lazy m Lz.and a b (bit_and a b) 0)
    else if aop == 5
    then (bit_xor a b, lazy m Lz.log a b (bit_xor a b) 0)
    else if aop == 6
    then (bit_or a b, lazy m Lz.log a b (bit_or a b) 0)
    else (u8 (a + 256 - b), lazy m Lz.sub a b (u8 (a + 256 - b)) 0)

-- The correction of DAA: 06h for the low digit, 60h for the high one.
unfoldable pub daa_low : ℕ → ℕ → ℕ
daa_low a f = if ltb 9 (a % 16) || has f f_ac then 0x06 else 0

unfoldable pub daa_carry : ℕ → ℕ → Bool
daa_carry a f = ltb 0x99 a || has f f_cy

unfoldable pub daa_add : ℕ → ℕ → ℕ
daa_add a f = daa_low a f + (if daa_carry a f then 0x60 else 0)

unfoldable pub daa_flags : ℕ → ℕ → ℕ
daa_flags a f =
    let add = daa_add a f in
    let r = u8 (a + add) in
    or_if (par8 r) f_pa (
      or_if (has r 0x80) f_si (
        or_if (r == 0) f_ze
          (or_if (daa_carry a f) f_cy (or_if (ltb 0x0f (a % 16 + add % 16)) f_ac f_one))))

unfoldable pub daa : Z80 → Z80
daa m =
    let m' = z80flags m in
    let a = u8 m'.a in
    record m' { a = u8 (a + daa_add a m'.f); f = clear_z80x (daa_flags a m'.f); lz = Lz.none }

-- `m->f & ~(F_CY | F_Z80X) | F_ONE`, then CY if `cy`.
abbrev pub edit_carry : ℕ → Bool → ℕ
edit_carry f cy = or_if cy f_cy (bit_or (bit_and f 0xd6) f_one)

-- rot(m, which): RLC RRC RAL RAR. The bit that a shift brings in falls on a zero, so `|` is a sum.
unfoldable pub rot : Z80 → ℕ → Z80
rot m which =
    let m' = z80flags m in
    let a = u8 m'.a in
    let top = a / 128 % 2 == 1 in
    let low = a % 2 == 1 in
    let cy = has m'.f f_cy in
    if which == 0
    then record m' { a = u8 (a * 2 + bit top); f = edit_carry m'.f top }
    else if which == 1
    then record m' { a = u8 (a / 2 + bit low * 128); f = edit_carry m'.f low }
    else if which == 2
    then record m' { a = u8 (a * 2 + bit cy); f = edit_carry m'.f top }
    else record m' { a = u8 (a / 2 + bit cy * 128); f = edit_carry m'.f low }
