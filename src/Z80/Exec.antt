-- ===== src/Z80/Exec.antt =====
-- The executor of shim/z80exec.c: z80delay(), z80exec() and z80step(), and z80run() of
-- shim/z80run.c.
pub mod Register
pub mod Loop
pub mod Spins
pub mod Delay
pub mod Step
pub mod Run
pub mod Stack
pub mod Block
pub mod Carry
pub mod Time
use commodore_900_cpm.Base.{ℕ, zero, suc, ◌+◌, ◌-◌, ◌*◌, ◌/◌, Bool, true, false, not, ◌&&◌}
use commodore_900_cpm.Base.{◌||◌, ◌==◌, ltb, if◌then◌else◌, u8, u16, u32, has, or_if}
use commodore_900_cpm.Base.{bit_and, bit_or, bit_xor, ◌∷◌}
use commodore_900_cpm.Z80.State.{Z80, Lz, AltPairs, Pairs, get_pair, set_pair, z80rb, z80wb, z80rw}
use commodore_900_cpm.Z80.State.{z80ww, z80getr, z80setr}
use commodore_900_cpm.Z80.Flags.{f_cy, f_one, clear_z80x, z80flags, lazy, z80lcond}
use commodore_900_cpm.Z80.Alu.{push, pop, alu, daa, rot, edit_carry, with_sp}
use commodore_900_cpm.Z80.Tables.{Op}
use commodore_900_cpm.Z80.Decode.{Instr, z80dec}
use commodore_900_cpm.Z80.Groups.{Exit, cbop, edop}

abbrev pub z80tick : ℕ
z80tick = 40000

-- The length of the jump that closes a delay loop, or 0 where there is none: JNZ pc0, or JR NZ
-- with displacement -3.
unfoldable pub loop_len : Z80 → ℕ → ℕ
loop_len m pc0 =
    if z80rb m (pc0 + 1) == 0xc2 && z80rw m (pc0 + 2) == pc0
    then 3
    else if z80rb m (pc0 + 1) == 0x20 && z80rb m (pc0 + 2) == 0xfd
    then 2
    else 0

-- Its time on the part, in T-states, from the first DCR on.
unfoldable pub loop_time : ℕ → ℕ → ℕ
loop_time len r = if len == 3 then (r + 1) * 14 else (r + 1) * 4 + r * 12 + 7

-- Charge `t` T-states: whole ticks are slept, one more than they are.
unfoldable pub charge : Z80 → ℕ → Z80
charge m t =
    let owed' = u32 (m.owed + t) in
    if not m.can_wait
    then m
    else if ltb owed' z80tick
    then record m { owed = owed' }
    else record m {
      owed = owed' - owed' / z80tick * z80tick;
      sleeps = (owed' / z80tick + 1) ∷ m.sleeps;
    }

-- z80delay(m, x, pc0, r).
unfoldable pub z80delay : Z80 → ℕ → ℕ → ℕ → Z80
z80delay m x pc0 r =
    let len = loop_len m pc0 in
    let m1 = lazy (z80setr m x 0) Lz.dcr 1 1 0 0 in
    let m2 = record m1 {
      ninsn = u32 (m1.ninsn + (2 * r + 1));
      nskip = u32 (m1.nskip + (2 * r + 1));
      pc = u16 (pc0 + 1 + len);
    } in
    if len == 0 then m else charge m2 (loop_time len r)

unfoldable pub inr : Z80 → ℕ → Z80
inr m x = let v = z80getr m x in let r = u8 (v + 1) in z80setr (lazy m Lz.inr v 1 r 0) x r

unfoldable pub dcr : Z80 → ℕ → Z80
dcr m x = let v = z80getr m x in let r = u8 (v + 255) in z80setr (lazy m Lz.dcr v 1 r 0) x r

-- The test behind a DCR that left `r`, where a delay loop may be finished in one step.
unfoldable pub finish_dcr : Z80 → ℕ → ℕ → ℕ → Z80
finish_dcr m x pc0 r = if not (r == 0) && not (x == 6) && m.fast then z80delay m x pc0 r else m

unfoldable pub dad : Z80 → ℕ → Z80
dad m' x =
    let m = z80flags m' in
    let s = m.rp.hl + get_pair m.rp x in
    let p = m.rp in record m { rp = record p { hl = u16 s }; f = edit_carry m.f (has s 0x10000) }

unfoldable pub call : Z80 → ℕ → Z80
call m target = let m' = push m m.pc in record m' { pc = target }

unfoldable pub ret : Z80 → Z80
ret m = let (v, m') = pop m in record m' { pc = v }

unfoldable pub xthl : Z80 → Z80
xthl m =
    let m' = z80ww m m.rp.sp m.rp.hl in
    let p = m'.rp in record m' { rp = record p { hl = z80rw m m.rp.sp } }

-- PUSH PSW: the accumulator over the materialised flags.
unfoldable pub push_psw : Z80 → Z80
push_psw m = let m' = z80flags m in push m' (u8 m'.a * 256 + u8 m'.f)

unfoldable pub pop_psw : Z80 → Z80
pop_psw m =
    let (v, m') = pop m in
    record m' { a = u8 (v / 256); f = clear_z80x (bit_or (u8 v) f_one); lz = Lz.none }

unfoldable pub exaf : Z80 → Z80
exaf m' =
    let m = z80flags m' in
    record m { a = m.aa; aa = m.a; f = clear_z80x (bit_or m.af f_one); af = m.f }

unfoldable pub exx : Z80 → Z80
exx m =
    let p = m.rp in
    let q = m.arp in
    record m {
      rp = record p { bc = q.bc; de = q.de; hl = q.hl };
      arp = record { bc = p.bc; de = p.de; hl = p.hl };
    }

unfoldable pub djnz : Z80 → ℕ → Z80
djnz m target =
    let v = u8 (z80getr m 0 + 255) in
    let m' = z80setr m 0 v in if v == 0 then m' else record m' { pc = target }

-- `if (z80lcond(m, cc)) …`
unfoldable pub when_cond : Z80 → ℕ → (Z80 → Z80) → Z80
when_cond m cc act = let (t, m') = z80lcond m cc in if t then act m' else m'

abbrev pub jump : ℕ → Z80 → Z80
jump target m = record m { pc = target }

-- z80exec(m, in, pc0), the switch on in->op; PC is already past the instruction.
unfoldable pub execute : Op → Z80 → Instr → ℕ → Exit × Z80
execute Op.nop m i pc0 = (Exit.ok, m)
execute Op.ldrr m i pc0 = (Exit.ok, z80setr m i.x (z80getr m i.y))
execute Op.ldri m i pc0 = (Exit.ok, z80setr m i.x (u8 i.imm))
execute Op.alu m i pc0 =
    let v = if has i.fl 0x01 then u8 i.imm else z80getr m i.y in
    let (r, m') = alu m i.x v in (Exit.ok, if i.x == 7 then m' else record m' { a = r })
execute Op.inr m i pc0 = (Exit.ok, inr m i.x)
execute Op.dcr m i pc0 = (Exit.ok, finish_dcr (dcr m i.x) i.x pc0 (u8 (z80getr m i.x + 255)))
execute Op.lxi m i pc0 = (Exit.ok, record m { rp = set_pair m.rp i.x i.imm })
execute Op.inx m i pc0 =
    (Exit.ok, record m { rp = set_pair m.rp i.x (u16 (get_pair m.rp i.x + 1)) })
execute Op.dcx m i pc0 =
    (Exit.ok, record m { rp = set_pair m.rp i.x (u16 (get_pair m.rp i.x + 65535)) })
execute Op.dad m i pc0 = (Exit.ok, dad m i.x)
execute Op.ldax m i pc0 = (Exit.ok, record m { a = z80rb m (get_pair m.rp i.x) })
execute Op.stax m i pc0 = (Exit.ok, z80wb m (get_pair m.rp i.x) (u8 m.a))
execute Op.lda m i pc0 = (Exit.ok, record m { a = z80rb m i.imm })
execute Op.sta m i pc0 = (Exit.ok, z80wb m i.imm (u8 m.a))
execute Op.lhld m i pc0 = (Exit.ok, record m { rp = set_pair m.rp 2 (z80rw m i.imm) })
execute Op.shld m i pc0 = (Exit.ok, z80ww m i.imm m.rp.hl)
execute Op.rot m i pc0 = (Exit.ok, rot m i.x)
execute Op.daa m i pc0 = (Exit.ok, daa m)
execute Op.cma m i pc0 = (Exit.ok, record m { a = 255 - u8 m.a })
execute Op.stc m i pc0 =
    let m' = z80flags m in (Exit.ok, record m' { f = clear_z80x (bit_or (bit_or m'.f f_cy) f_one) })
execute Op.cmc m i pc0 =
    let m' = z80flags m in
    (Exit.ok, record m' { f = clear_z80x (bit_or (bit_xor m'.f f_cy) f_one) })
execute Op.jmp m i pc0 = (Exit.ok, jump i.imm m)
execute Op.jcc m i pc0 = (Exit.ok, when_cond m i.x (jump i.imm))
execute Op.call m i pc0 = (Exit.ok, call m i.imm)
execute Op.ccc m i pc0 = (Exit.ok, when_cond m i.x (λ s. call s i.imm))
execute Op.ret m i pc0 = (Exit.ok, ret m)
execute Op.rcc m i pc0 = (Exit.ok, when_cond m i.x ret)
execute Op.rst m i pc0 = (Exit.ok, call m (u16 (i.x * 8)))
execute Op.pchl m i pc0 = (Exit.ok, jump m.rp.hl m)
execute Op.sphl m i pc0 = (Exit.ok, with_sp m m.rp.hl)
execute Op.xchg m i pc0 =
    let p = m.rp in (Exit.ok, record m { rp = record p { de = p.hl; hl = p.de } })
execute Op.xthl m i pc0 = (Exit.ok, xthl m)
execute Op.push m i pc0 = (Exit.ok, if i.x == 3 then push_psw m else push m (get_pair m.rp i.x))
execute Op.pop m i pc0 =
    let (v, m') = pop m in
    (Exit.ok, if i.x == 3 then pop_psw m else record m' { rp = set_pair m'.rp i.x v })
execute Op.ei m i pc0 = (Exit.ok, record m { iff = 1 })
execute Op.di m i pc0 = (Exit.ok, record m { iff = 0 })
execute Op.jr m i pc0 = (Exit.ok, if i.x == 4 then jump i.imm m else when_cond m i.x (jump i.imm))
execute Op.djnz m i pc0 = (Exit.ok, djnz m i.imm)
execute Op.exaf m i pc0 = (Exit.ok, exaf m)
execute Op.cb m i pc0 = (Exit.ok, cbop m i)
execute Op.exx m i pc0 = (Exit.ok, exx m)
execute Op.hook m i pc0 = (Exit.hook, record m { hookno = i.x })
execute Op.hlt m i pc0 = (Exit.halted, record m { halt = 1; pc = pc0 })
execute Op.ed m i pc0 =
    let (e, m') = edop m i in
    elim e [ Exit.ok ↦ (Exit.ok, m') | _ ↦ (Exit.unimp, record m' { pc = pc0 }) ]
execute _ m i pc0 = (Exit.unimp, record m { pc = pc0 })

-- z80exec(m, in, pc0).
unfoldable pub z80exec : Z80 → Instr → ℕ → Exit × Z80
z80exec m i pc0 = execute i.op m i pc0

unfoldable pub is_bad : Op → Bool
is_bad Op.bad = true
is_bad _ = false

-- z80step(m, in): a byte that is no instruction leaves the state alone.
unfoldable pub z80step : Z80 → Exit × Z80
z80step m =
    let i = z80dec m.mem m.pc in
    let m' = record m { ninsn = u32 (m.ninsn + 1); pc = u16 (m.pc + i.len) } in
    if is_bad i.op then (Exit.bad, m) else z80exec m' i m.pc

-- z80run(m, n, k): the last answer, the number of X_OK steps that are added to *k, the state.
unfoldable pub z80run : ℕ → Z80 → Exit × ℕ × Z80
z80run zero m = (Exit.ok, 0, m)
z80run (suc n) m =
    let (e, m') = z80step m in
    elim e [ Exit.ok ↦ (let (e', k, s) = z80run n m' in (e', k + 1, s)) | other ↦ (other, 0, m') ]
