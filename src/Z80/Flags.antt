-- ===== src/Z80/Flags.antt =====
-- The lazy flags of shim/z80exec.c (par8, z80flags, lazy, z80lcond) and z80cond of
-- shim/z80mnem.c.
pub mod Assembled
pub mod Cond
pub mod Survive
pub mod Parity
use commodore_900_cpm.Base.{ℕ, ◌+◌, ◌/◌, ◌%◌, Bool, true, false, not, List, [], ◌∷◌, ◌==◌, ltb}
use commodore_900_cpm.Base.{leb, if◌then◌else◌, u8, u32, has, or_if, bit_and, bit_or, bit_xor}
use commodore_900_cpm.Base.{get_or}
use commodore_900_cpm.Z80.State.{Z80, Lz}

abbrev pub f_cy : ℕ
f_cy = 0x01

abbrev pub f_one : ℕ
f_one = 0x02

abbrev pub f_pa : ℕ
f_pa = 0x04

abbrev pub f_ac : ℕ
f_ac = 0x10

abbrev pub f_ze : ℕ
f_ze = 0x40

abbrev pub f_si : ℕ
f_si = 0x80

-- `x & ~F_Z80X` of a byte.
abbrev pub clear_z80x : ℕ → ℕ
clear_z80x x = bit_and x 0xd7

unfoldable pub partab : List ℕ
partab =
    1 ∷ 0 ∷ 0 ∷ 1 ∷ 0 ∷ 1 ∷ 1 ∷ 0 ∷ 0 ∷ 1 ∷ 1 ∷ 0 ∷ 1 ∷ 0 ∷ 0 ∷ 1 ∷ 0 ∷ 1 ∷ 1 ∷ 0 ∷ 1 ∷ 0 ∷ 0 ∷ 1
    ∷ 1 ∷ 0 ∷ 0 ∷ 1 ∷ 0 ∷ 1 ∷ 1 ∷ 0 ∷ 0 ∷ 1 ∷ 1 ∷ 0 ∷ 1 ∷ 0 ∷ 0 ∷ 1 ∷ 1 ∷ 0 ∷ 0 ∷ 1 ∷ 0 ∷ 1 ∷ 1 ∷ 0
    ∷ 1 ∷ 0 ∷ 0 ∷ 1 ∷ 0 ∷ 1 ∷ 1 ∷ 0 ∷ 0 ∷ 1 ∷ 1 ∷ 0 ∷ 1 ∷ 0 ∷ 0 ∷ 1 ∷ 0 ∷ 1 ∷ 1 ∷ 0 ∷ 1 ∷ 0 ∷ 0 ∷ 1
    ∷ 1 ∷ 0 ∷ 0 ∷ 1 ∷ 0 ∷ 1 ∷ 1 ∷ 0 ∷ 1 ∷ 0 ∷ 0 ∷ 1 ∷ 0 ∷ 1 ∷ 1 ∷ 0 ∷ 0 ∷ 1 ∷ 1 ∷ 0 ∷ 1 ∷ 0 ∷ 0 ∷ 1
    ∷ 1 ∷ 0 ∷ 0 ∷ 1 ∷ 0 ∷ 1 ∷ 1 ∷ 0 ∷ 0 ∷ 1 ∷ 1 ∷ 0 ∷ 1 ∷ 0 ∷ 0 ∷ 1 ∷ 0 ∷ 1 ∷ 1 ∷ 0 ∷ 1 ∷ 0 ∷ 0 ∷ 1
    ∷ 1 ∷ 0 ∷ 0 ∷ 1 ∷ 0 ∷ 1 ∷ 1 ∷ 0 ∷ 0 ∷ 1 ∷ 1 ∷ 0 ∷ 1 ∷ 0 ∷ 0 ∷ 1 ∷ 1 ∷ 0 ∷ 0 ∷ 1 ∷ 0 ∷ 1 ∷ 1 ∷ 0
    ∷ 1 ∷ 0 ∷ 0 ∷ 1 ∷ 0 ∷ 1 ∷ 1 ∷ 0 ∷ 0 ∷ 1 ∷ 1 ∷ 0 ∷ 1 ∷ 0 ∷ 0 ∷ 1 ∷ 1 ∷ 0 ∷ 0 ∷ 1 ∷ 0 ∷ 1 ∷ 1 ∷ 0
    ∷ 0 ∷ 1 ∷ 1 ∷ 0 ∷ 1 ∷ 0 ∷ 0 ∷ 1 ∷ 0 ∷ 1 ∷ 1 ∷ 0 ∷ 1 ∷ 0 ∷ 0 ∷ 1 ∷ 1 ∷ 0 ∷ 0 ∷ 1 ∷ 0 ∷ 1 ∷ 1 ∷ 0
    ∷ 1 ∷ 0 ∷ 0 ∷ 1 ∷ 0 ∷ 1 ∷ 1 ∷ 0 ∷ 0 ∷ 1 ∷ 1 ∷ 0 ∷ 1 ∷ 0 ∷ 0 ∷ 1 ∷ 0 ∷ 1 ∷ 1 ∷ 0 ∷ 1 ∷ 0 ∷ 0 ∷ 1
    ∷ 1 ∷ 0 ∷ 0 ∷ 1 ∷ 0 ∷ 1 ∷ 1 ∷ 0 ∷ 0 ∷ 1 ∷ 1 ∷ 0 ∷ 1 ∷ 0 ∷ 0 ∷ 1 ∷ 1 ∷ 0 ∷ 0 ∷ 1 ∷ 0 ∷ 1 ∷ 1 ∷ 0
    ∷ 1 ∷ 0 ∷ 0 ∷ 1 ∷ 0 ∷ 1 ∷ 1 ∷ 0 ∷ 0 ∷ 1 ∷ 1 ∷ 0 ∷ 1 ∷ 0 ∷ 0 ∷ 1 ∷ []

-- The entry of the table as the truth value that its readers take it for.
unfoldable pub par8 : ℕ → Bool
par8 v = not (get_or partab (u8 v) 0 == 0)

-- `(a ^ b ^ r) & 0x10`
unfoldable pub half : ℕ → ℕ → ℕ → Bool
half a b r = has (bit_xor (bit_xor a b) r) 0x10

-- The carry out of `r = a + b + lc` and the borrow of `r = a - b - lc`, as the code compares.
unfoldable pub carry_add : ℕ → ℕ → ℕ → Bool
carry_add lc a r = if lc == 0 then ltb r a else leb r a

unfoldable pub carry_sub : ℕ → ℕ → ℕ → Bool
carry_sub lc a b = if lc == 0 then ltb a b else leb a b

-- S, Z and P of a result, and the bit that is always one.
unfoldable pub common_flags : ℕ → ℕ
common_flags r = or_if (par8 r) f_pa (or_if (has r 0x80) f_si (or_if (r == 0) f_ze f_one))

-- The switch on m->lz: `a`, `b`, `r` are the record's masked bytes, `f` the common flags.
unfoldable pub class_flags : Lz → Z80 → ℕ → ℕ → ℕ → ℕ → ℕ
class_flags Lz.add m a b r f = or_if (half a b r) f_ac (or_if (carry_add m.lc a r) f_cy f)
class_flags Lz.sub m a b r f = or_if (not (half a b r)) f_ac (or_if (carry_sub m.lc a b) f_cy f)
class_flags Lz.and m a b r f = or_if (has (bit_or a b) 0x08) f_ac f
class_flags Lz.log m a b r f = f
class_flags Lz.inr m a b r f = or_if (half a b r) f_ac (bit_or f (bit_and m.f f_cy))
class_flags Lz.dcr m a b r f = or_if (not (half a b r)) f_ac (bit_or f (bit_and m.f f_cy))
class_flags Lz.rot m a b r f = or_if (not (m.lc == 0)) f_cy f
class_flags Lz.bit m a b r f = bit_or (bit_or f (bit_and m.f f_cy)) f_ac
class_flags Lz.ldblk m a b r f = or_if (not (m.lc == 0)) f_pa (bit_or (bit_and m.f 0xc1) f_one)
class_flags Lz.cpblk m a b r f =
    or_if (not (half a b r)) f_ac
      (bit_or (or_if (not (m.lc == 0)) f_pa (bit_and f 0xfb)) (bit_and m.f f_cy))
class_flags Lz.none m a b r f = f

-- The body of z80flags() at a pending record of class `k`.
unfoldable pub materialise : Lz → Z80 → Z80
materialise Lz.none m = m
materialise k m = record m {
  f = clear_z80x (class_flags k m (u8 m.la) (u8 m.lb) (u8 m.lr) (common_flags (u8 m.lr)));
  lz = Lz.none;
  nflag = u32 (m.nflag + 1);
}

-- z80flags(); what it returns is the `f` of the new state.
unfoldable pub z80flags : Z80 → Z80
z80flags m = materialise m.lz m

-- Does a pending record of the second class leave the bits that the first one preserves in `f`?
unfoldable pub keeps : Lz → Lz → Bool
keeps Lz.inr Lz.inr = true
keeps Lz.inr Lz.dcr = true
keeps Lz.inr _ = false
keeps Lz.dcr Lz.inr = true
keeps Lz.dcr Lz.dcr = true
keeps Lz.dcr _ = false
keeps Lz.bit Lz.bit = true
keeps Lz.bit _ = false
keeps Lz.ldblk Lz.ldblk = true
keeps Lz.ldblk _ = false
keeps Lz.cpblk Lz.cpblk = true
keeps Lz.cpblk _ = false
keeps _ _ = true

-- lazy(m, cls, a, b, r, c): fold the pending record first where the class preserves bits of it.
unfoldable pub lazy : Z80 → Lz → ℕ → ℕ → ℕ → ℕ → Z80
lazy m cls a b r c =
    let m' = if keeps cls m.lz then m else z80flags m in
    record m' { lz = cls; la = u8 a; lb = u8 b; lr = u8 r; lc = u8 c }

-- z80cond(f, n): NZ Z NC C PO PE P M.
unfoldable pub z80cond : ℕ → ℕ → Bool
z80cond f n =
    let t =
      if n / 2 == 0
      then has f f_ze
      else if n / 2 == 1
      then has f f_cy
      else if n / 2 == 2
      then has f f_pa
      else has f f_si in
    if n % 2 == 1 then t else not t

-- The carry of z80lcond()'s inner switch.
unfoldable pub lazy_carry : Lz → Z80 → Bool
lazy_carry Lz.add m = carry_add m.lc m.la m.lr
lazy_carry Lz.sub m = carry_sub m.lc m.la m.lb
lazy_carry Lz.and m = false
lazy_carry Lz.log m = false
lazy_carry Lz.rot m = not (m.lc == 0)
lazy_carry _ m = has m.f f_cy

unfoldable pub lazy_parity : Lz → Z80 → Bool
lazy_parity Lz.cpblk m = not (m.lc == 0)
lazy_parity _ m = par8 m.lr

-- The flag that z80lcond() takes straight from a record of class `k`.
unfoldable pub lazy_test : Lz → Z80 → ℕ → Bool
lazy_test k m n =
    let t =
      if n / 2 == 0
      then m.lr == 0
      else if n / 2 == 1
      then lazy_carry k m
      else if n / 2 == 2
      then lazy_parity k m
      else has m.lr 0x80 in
    if n % 2 == 1 then t else not t

unfoldable pub cond_of_class : Lz → Z80 → ℕ → Bool × Z80
cond_of_class Lz.none m c = (z80cond m.f c, m)
cond_of_class Lz.ldblk m c = let m' = materialise Lz.ldblk m in (z80cond m'.f c, m')
cond_of_class k m c = (lazy_test k m c, m)

-- z80lcond(m, cc): the condition, and the state, which only LZ_LDBLK changes.
unfoldable pub z80lcond : Z80 → ℕ → Bool × Z80
z80lcond m c = cond_of_class m.lz m c
