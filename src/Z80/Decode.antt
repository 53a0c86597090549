-- ===== src/Z80/Decode.antt =====
-- The decoder z80dec() of shim/z80dec.c and its helpers. `m` is the guest memory.
pub mod Tables
pub mod Bounds
use commodore_900_cpm.Base.{ℕ, ◌+◌, ◌*◌, ◌/◌, ◌%◌, Bool, true, false, not, ◌&&◌, ◌||◌, ◌==◌, ltb}
use commodore_900_cpm.Base.{leb, if◌then◌else◌, u8, u16, has, bit, get_or}
use commodore_900_cpm.Z80.Tables.{Op, blen, bop, bx, by, bfl}

-- struct z80in.
pub record Instr : Type 0 where
  pub len : ℕ
  pub op : Op
  pub fl : ℕ
  pub x : ℕ
  pub y : ℕ
  pub pfx : ℕ
  pub sub : ℕ
  pub imm : ℕ
  pub disp : ℕ

unfoldable pub fb : (ℕ → ℕ) → ℕ → ℕ → ℕ
fb m pc k = u8 (m (u16 (pc + k)))

-- Sign extension of a byte to a word.
unfoldable pub sx : ℕ → ℕ
sx b = if ltb (u8 b) 0x80 then u8 b else 0xff00 + u8 b

unfoldable pub iw : (ℕ → ℕ) → ℕ → ℕ → ℕ
iw m pc k = fb m pc k + fb m pc (k + 1) * 256

unfoldable pub baselen : ℕ → ℕ
baselen op = get_or blen (u8 op) 0

unfoldable pub is_jr : Op → Bool
is_jr Op.jr = true
is_jr Op.djnz = true
is_jr _ = false

unfoldable pub usesm : ℕ → Bool
usesm op =
    if op == 0x34 || op == 0x35 || op == 0x36
    then true
    else if leb 0x70 op && leb op 0x77
    then not (op == 0x76)
    else if leb 0x40 op && leb op 0x7f
    then op % 8 == 6
    else if leb 0x80 op && leb op 0xbf
    then op % 8 == 6
    else false

unfoldable pub edlen : ℕ → ℕ
edlen sub =
    if sub == 0x43
      || sub == 0x4b
      || sub == 0x53
      || sub == 0x5b
      || sub == 0x63
      || sub == 0x6b
      || sub == 0x73
      || sub == 0x7b
    then 4
    else 2

-- What the base map answers, an operand fetched by the length.
unfoldable pub dec_base : (ℕ → ℕ) → ℕ → ℕ → Instr
dec_base m pc op =
    let n = get_or blen op 0 in
    let o = get_or bop op Op.bad in
    record {
      len = n;
      op = o;
      fl = get_or bfl op 0;
      x = get_or bx op 0;
      y = get_or by op 0;
      pfx = 0;
      sub = 0;
      imm =
          if n == 1
          then 0
          else if n == 3
          then iw m pc 1
          else if is_jr o
          then u16 (sx (fb m pc 1) + pc + 2)
          else fb m pc 1;
      disp = 0;
    }

-- The CB group: `x` the group, `y` the register, `imm` the rotate or the bit.
unfoldable pub dec_cb : ℕ → Instr
dec_cb sub = record {
  len = 2;
  op = Op.cb;
  fl = 0x08 + bit (sub % 8 == 6) * 0x02;
  x = sub / 64 % 4;
  y = sub % 8;
  pfx = 0xcb;
  sub = sub;
  imm = sub / 8 % 8;
  disp = 0;
}

-- The ED group; ED FE nn is the shim's hook, with a number of at most HOOK_MAX.
unfoldable pub dec_ed : (ℕ → ℕ) → ℕ → ℕ → Instr
dec_ed m pc sub =
    let long = edlen sub == 4 in
    if sub == 0xfe
    then record {
      len = 3;
      op = if ltb 63 (fb m pc 2) then Op.bad else Op.hook;
      fl = 0x08;
      x = fb m pc 2;
      y = 0;
      pfx = 0xed;
      sub = sub;
      imm = 0;
      disp = 0;
    }
    else record {
      len = edlen sub;
      op = Op.ed;
      fl = if long then 0x0f else 0x08;
      x = if long then sub / 16 % 4 else 0;
      y = 0;
      pfx = 0xed;
      sub = sub;
      imm = if long then iw m pc 2 else 0;
      disp = 0;
    }

-- The DD and FD groups: a prefix before a prefix has length one.
unfoldable pub dec_ix : (ℕ → ℕ) → ℕ → ℕ → ℕ → Instr
dec_ix m pc op sub =
    let prefix = sub == 0xdd || sub == 0xfd || sub == 0xed in
    let n = if prefix then 1 else if sub == 0xcb then 4 else 1 + baselen sub + bit (usesm sub) in
    record {
      len = n;
      op = if prefix then Op.ix else if sub == 0xcb then Op.ixcb else Op.ix;
      fl = 0x08;
      x = 0;
      y = 0;
      pfx = op;
      sub = sub;
      imm = 0;
      disp = if prefix then 0 else if sub == 0xcb || usesm sub then sx (fb m pc 2) else 0;
    }

unfoldable pub z80dec : (ℕ → ℕ) → ℕ → Instr
z80dec m pc =
    let op = u8 (m pc) in
    let sub = fb m pc 1 in
    if not (has (get_or bfl op 0) 0x08)
    then dec_base m pc op
    else if op == 0xcb
    then dec_cb sub
    else if op == 0xed
    then dec_ed m pc sub
    else dec_ix m pc op sub
