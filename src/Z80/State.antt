-- ===== src/Z80/State.antt =====
-- struct z80 of src/shim/z80.h, with the module-level counters of shim/z80exec.c beside it, and
-- the memory and register accessors of that file.
-- Guest memory is a function of the address; a stored byte is cut to 8 bits and a read is masked,
-- as the casts and masks of the source do.
use commodore_900_cpm.Base.{ℕ, ◌+◌, ◌*◌, ◌/◌, ◌%◌, Bool, List, ◌==◌}
use commodore_900_cpm.Base.{if◌then◌else◌, u8, u16, store}

-- The LZ_ classes: which operation the pending lazy flag record describes.
pub data Lz : Type 0 where
  none add sub and log inr dcr rot bit ldblk cpblk : Lz

-- rp[4]: BC, DE, HL, SP, the high byte of a pair in the high half.
pub record Pairs : Type 0 where
  pub bc : ℕ
  pub de : ℕ
  pub hl : ℕ
  pub sp : ℕ

-- arp[3]: BC', DE', HL'.
pub record AltPairs : Type 0 where
  pub bc : ℕ
  pub de : ℕ
  pub hl : ℕ

-- The fields from `hookno` on are the module's variables z80hookno, z80ninsn, z80nflag, z80fast,
-- z80nskip and owed. `can_wait` is `z80wait != 0`, and `sleeps` lists the arguments of the calls
-- made through that pointer, the latest first.
pub record Z80 : Type 0 where
  pub rp : Pairs
  pub a : ℕ
  pub f : ℕ
  pub pc : ℕ
  pub ix : ℕ
  pub iy : ℕ
  pub arp : AltPairs
  pub aa : ℕ
  pub af : ℕ
  pub iff : ℕ
  pub lz : Lz
  pub lc : ℕ
  pub la : ℕ
  pub lb : ℕ
  pub lr : ℕ
  pub halt : ℕ
  pub mem : ℕ → ℕ
  pub hookno : ℕ
  pub ninsn : ℕ
  pub nflag : ℕ
  pub fast : Bool
  pub nskip : ℕ
  pub owed : ℕ
  pub can_wait : Bool
  pub sleeps : List ℕ

-- `rp[i]`. The index is 0 to 3; what a larger one reads is not defined by the source, and is SP.
unfoldable pub get_pair : Pairs → ℕ → ℕ
get_pair p i = if i == 0 then p.bc else if i == 1 then p.de else if i == 2 then p.hl else p.sp

-- `rp[i] = v`.
unfoldable pub set_pair : Pairs → ℕ → ℕ → Pairs
set_pair p i v =
    if i == 0
    then record p { bc = v }
    else if i == 1
    then record p { de = v }
    else if i == 2
    then record p { hl = v }
    else record p { sp = v }

unfoldable pub z80rb : Z80 → ℕ → ℕ
z80rb m a = u8 (m.mem (u16 a))

unfoldable pub z80wb : Z80 → ℕ → ℕ → Z80
z80wb m a v = record m { mem = store m.mem (u16 a) (u8 v) }

-- Little-endian: `lo | hi << 8`.
unfoldable pub z80rw : Z80 → ℕ → ℕ
z80rw m a = z80rb m a + z80rb m (a + 1) * 256

unfoldable pub z80ww : Z80 → ℕ → ℕ → Z80
z80ww m a v = z80wb (z80wb m a v) (a + 1) (v / 256)

unfoldable pub z80getr : Z80 → ℕ → ℕ
z80getr m r =
    if r == 7
    then u8 m.a
    else if r == 6
    then z80rb m m.rp.hl
    else if r % 2 == 1
    then u8 (get_pair m.rp (r / 2))
    else u8 (get_pair m.rp (r / 2) / 256)

-- `(w & 0xff00) | (v & 0xff)` for an odd register, `(w & 0x00ff) | ((v & 0xff) << 8)` for an
-- even one: the fields are disjoint, so each is a sum.
unfoldable pub replace_byte : ℕ → ℕ → ℕ → ℕ
replace_byte r w v = if r % 2 == 1 then w / 256 % 256 * 256 + u8 v else u8 w + u8 v * 256

unfoldable pub z80setr : Z80 → ℕ → ℕ → Z80
z80setr m r v =
    if r == 7
    then record m { a = u8 v }
    else if r == 6
    then z80wb m m.rp.hl v
    else record m { rp = set_pair m.rp (r / 2) (replace_byte r (get_pair m.rp (r / 2)) v) }
