-- ===== src/Z80/Tests.antt =====
-- The theorems on shim/z80exec.c and shim/z80dec.c at concrete machines.
use commodore_900_cpm.Base.{ℕ, ◌+◌, ◌≡◌, inl, inr, refl, arith, true, false, []}
use commodore_900_cpm.Base.{◌==◌, if◌then◌else◌, u8, has}
use commodore_900_cpm.Z80.State.{Z80, Lz, z80getr, get_pair, z80rb, z80rw}
use commodore_900_cpm.Z80.Flags.{f_cy, par8, z80flags, z80cond, z80lcond, materialise, class_flags}
use commodore_900_cpm.Z80.Flags.{common_flags, half, carry_sub, partab}
use commodore_900_cpm.Z80.Flags.Assembled.{Shows}
use commodore_900_cpm.Z80.Flags.Cond.{HasByteRecord, z80lcond-eq}
use commodore_900_cpm.Z80.Alu.{alu, daa}
use commodore_900_cpm.Z80.Alu.Arith.{alu_add, alu_sub}
use commodore_900_cpm.Z80.Alu.Decimal.{bcd, daa-alu}
use commodore_900_cpm.Z80.Decode.{Instr, z80dec}
use commodore_900_cpm.Z80.Tables.{Op}
use commodore_900_cpm.Z80.Exec.Carry.{z80exec-carry}
use commodore_900_cpm.Z80.Decode.Bounds.{IsDecoded, z80dec-IsDecoded}
use commodore_900_cpm.Z80.Groups.{Exit}
use commodore_900_cpm.Z80.Exec.{z80step, z80exec, z80run, loop_len}
use commodore_900_cpm.Z80.Exec.Delay.{Agree, z80delay-Agree}
use commodore_900_cpm.Z80.Exec.Block.{IsCopied, ldir-IsCopied}

-- DCR B; JNZ 0100 at 0100, and a byte that is refused behind it.
abbrev program : ℕ → ℕ
program a =
    if a == 0x100
    then 0x05
    else if a == 0x101
    then 0xc2
    else if a == 0x102
    then 0x00
    else if a == 0x103
    then 0x01
    else if a == 0x104
    then 0xdb
    else 0

-- At 0100 with B = 3, SP = 0 and a pending subtraction of 5 from 3.
abbrev machine : Z80
machine = record {
  rp = record { bc = 0x0300; de = 0; hl = 0x2000; sp = 0 };
  a = 0x47;
  f = 0x02;
  pc = 0x100;
  ix = 0;
  iy = 0;
  arp = record { bc = 0; de = 0; hl = 0 };
  aa = 0;
  af = 0;
  iff = 0;
  lz = Lz.sub;
  lc = 0;
  la = 3;
  lb = 5;
  lr = 0xfe;
  halt = 0;
  mem = program;
  hookno = 0;
  ninsn = 0;
  nflag = 0;
  fast = false;
  nskip = 0;
  owed = 39990;
  can_wait = true;
  sleeps = [];
}

z80delay-Agree_example :
    let (e, s) = z80step (record machine { fast = true }) in
    let (e', n, t) = z80run 6 (record machine { fast = false }) in
    (e ≡ Exit.ok) × (e' ≡ Exit.ok) × (n ≡ 6) × Agree s t
unfolding z80getr get_pair loop_len z80rb z80rw
z80delay-Agree_example =
    z80delay-Agree machine 0 (omega arith) (omega arith) (λ e. omega arith) refl (λ e. omega arith)
      (λ e. omega arith)

z80lcond-eq_example :
    ((z80lcond machine 3).0 ≡ z80cond (z80flags machine).f 3)
    × ((z80flags (z80lcond machine 3).1).f ≡ (z80flags machine).f)
z80lcond-eq_example =
    z80lcond-eq machine 3
      (record { la_byte = omega arith; lb_byte = omega arith; lr_byte = omega arith })

daa-alu_example :
    let r = alu machine 0 (bcd 55) in
    let d = daa (record r.1 { a = r.0 }) in (d.a ≡ bcd 2) × (has d.f f_cy ≡ true)
daa-alu_example = daa-alu machine 0 47 55 (omega arith) (omega arith) (omega arith) refl

alu_add_example :
    ((alu machine 0 0xc9).0 ≡ u8 (0x47 + 0xc9 + 0))
    × Shows (z80flags (alu machine 0 0xc9).1).f (0x10 == 0) (has 0x10 0x80) (par8 0x10) true true
alu_add_example = alu_add machine 0 0xc9 (omega arith)

alu_sub_example :
    ((alu machine 7 0x48).0 ≡ 0xff)
    × Shows (z80flags (alu machine 7 0x48).1).f (0xff == 0) (has 0xff 0x80) (par8 0xff) true false
alu_sub_example = alu_sub machine 7 0x48 (inr (inr refl))

z80dec-IsDecoded_example : IsDecoded (z80dec program 0x101)
z80dec-IsDecoded_example = z80dec-IsDecoded program 0x101

machine_flags : (z80flags machine).f ≡ 0x83
unfolding z80flags materialise class_flags common_flags half carry_sub par8 partab
machine_flags = refl

-- LDIR at 0100, two bytes from 0200 to 0201.
abbrev mover : Z80
mover = record machine {
  mem = λ a. if a == 0x100 then 0xed else if a == 0x101 then 0xb0 else a;
  rp = record { bc = 2; de = 0x201; hl = 0x200; sp = 0 };
}

ldir-IsCopied_example : IsCopied mover 2 (z80run 2 mover)
ldir-IsCopied_example =
    ldir-IsCopied 1 mover (omega arith) (omega arith) refl (record { first = refl; second = refl })
      (λ k q z. omega arith) (λ k q z. omega arith)

machine-HasByteRecord : HasByteRecord machine
machine-HasByteRecord = record {
  la_byte = omega arith;
  lb_byte = omega arith;
  lr_byte = omega arith;
}

-- BIT 0,A with a pending subtraction that has borrowed.
abbrev bit_0_a : Instr
bit_0_a = record {
  len = 2;
  op = Op.cb;
  fl = 0;
  x = 1;
  y = 7;
  pfx = 0xcb;
  sub = 0x47;
  imm = 0;
  disp = 0;
}

z80exec-carry_example :
    has (z80flags (z80exec machine bit_0_a 0x100).1).f f_cy ≡ has (z80flags machine).f f_cy
z80exec-carry_example =
    z80exec-carry machine bit_0_a 0x100 machine-HasByteRecord (inr (inr (inl (refl, refl))))
