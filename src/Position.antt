-- ===== src/Position.antt =====
-- Positions in a file: the extent, module and record fields of an FCB and its random record, in
-- src/bdos/bdosrw.c and fileio.c.
-- An FCB is its bytes. UBYTE is a signed char in the compiler's dialect (src/bdos/stdio.h), which
-- shows where the source shifts or compares a byte without UBWORD: `sar4` and `at_least` below.
pub mod Random
pub mod Extents
pub mod Records
pub mod Tests
use commodore_900_cpm.Base.{
  ℕ, zero, suc, ◌+◌, ◌-◌, ◌*◌, ◌/◌, ◌%◌, ◌^◌, bit_and, bit_or, bit_xor, Bool, true, false, not,
  ◌&&◌, ◌||◌, ◌==◌, ltb, leb, if◌then◌else◌, bit, store, u8, u16, u32,
}

abbrev pub Fcb : Type 0
Fcb = ℕ → ℕ

-- Offsets in struct fcb.
abbrev pub extent_off : ℕ
extent_off = 12

abbrev pub s2_off : ℕ
s2_off = 14

abbrev pub rcdcnt_off : ℕ
rcdcnt_off = 15

abbrev pub map_off : ℕ
map_off = 16

abbrev pub cur_rec_off : ℕ
cur_rec_off = 32

abbrev pub ran_off : ℕ
ran_off = 33

-- The fields of struct dpb that positions depend on.
pub record Shape : Type 0 where
  pub bsh : ℕ
  pub blm : ℕ
  pub exm : ℕ
  pub dsm : ℕ

-- The low byte of `b >> 4` for a signed char `b`.
unfoldable pub sar4 : ℕ → ℕ
sar4 b = if ltb b 0x80 then b / 16 else 0xf0 + b / 16

-- `b >= n` for a signed char `b` and `n` below 128.
unfoldable pub at_least : ℕ → ℕ → Bool
at_least b n = ltb b 0x80 && leb n b

-- A signed char as an unsigned word.
abbrev pub widened : ℕ → ℕ
widened b = if ltb b 0x80 then b else 0xff00 + b

-- extsize(fcbp), on the two bytes.
unfoldable pub extsize : ℕ → ℕ → ℕ
extsize extent s2 = bit_or (bit_and extent 0x1f * 2 ^ 7) (bit_and s2 0x3f * 2 ^ 12)

-- Storing a record number in the three bytes, high byte first.
unfoldable pub put_random : ℕ → Fcb → Fcb
put_random r f =
    store (store (store f ran_off (u8 (r / 2 ^ 16))) (ran_off + 1) (u8 (r / 2 ^ 8))) (ran_off + 2)
      (u8 r)

unfoldable pub setran : Fcb → Fcb
unfolding put_random extsize
setran f = put_random (u32 (f cur_rec_off + extsize (f extent_off) (f s2_off))) f

-- The bytes as getsize() reads them back.
unfoldable pub get_random : Fcb → ℕ
get_random f = bit_or (bit_or (f ran_off * 2 ^ 16) (f (ran_off + 1) * 2 ^ 8)) (f (ran_off + 2))

unfoldable pub incr_rr : Fcb → Fcb
incr_rr f =
    let f2 = store f (ran_off + 2) (u8 (f (ran_off + 2) + 1)) in
    let f1 = store f2 (ran_off + 1) (u8 (f2 (ran_off + 1) + 1)) in
    if not (f2 (ran_off + 2) == 0)
    then f2
    else if not (f1 (ran_off + 1) == 0)
    then f1
    else store f1 ran_off (u8 (f1 ran_off + 1))

-- The target of new_ext(): module and extent bytes, before an extent past 31 is carried.
unfoldable pub random_module : Fcb → ℕ
unfolding sar4
random_module f = bit_or (u8 (f ran_off * 16)) (sar4 (f (ran_off + 1)))

unfoldable pub random_extent : Fcb → ℕ
random_extent f =
    let e = u8 (bit_and (f (ran_off + 1)) 0x0f * 2) in
    if not (bit_and (f (ran_off + 2)) 0x80 == 0) then bit_or e 1 else e

unfoldable pub next_module : Fcb → ℕ
next_module f = bit_and (f s2_off) 0x3f

unfoldable pub next_extent : Fcb → ℕ
next_extent f = u8 (f extent_off + 1)

pub record Target : Type 0 where
  pub module_no : ℕ
  pub extent_no : ℕ

unfoldable pub carried : Target → Target
unfolding at_least
carried t =
    if at_least t.extent_no 32
    then record { module_no = u8 (t.module_no + 1); extent_no = 0 }
    else t

unfoldable pub target : Bool → Fcb → Target
unfolding random_module random_extent next_module next_extent carried
target ran f = carried (
    if ran
    then record { module_no = random_module f; extent_no = random_extent f }
    else record { module_no = next_module f; extent_no = next_extent f })

-- The target lies in the logical extent that the FCB's disk map is of.
unfoldable pub same_extent : Shape → Target → Fcb → Bool
same_extent d t f =
    (t.module_no == bit_and (f s2_off) 0x3f)
    && (bit_and (bit_and (bit_xor t.extent_no (f extent_off)) (0xffff - d.exm)) 0x1f == 0)

abbrev pub put_target : Target → Fcb → Fcb
put_target t f = store (store f s2_off t.module_no) extent_off t.extent_no

-- The calls of new_ext(), on the rest of the state: close_fi(), and dirscan() with openfile and with
-- create.
pub record Calls (S : Type 0) : Type 0 where
  pub close_fi : Fcb → S → ℕ × Fcb × S
  pub open_scan : Fcb → S → ℕ × Fcb × S
  pub create_scan : Fcb → S → ℕ × Fcb × S

module _ {S : Type 0} (calls : Calls S) where
  -- The end of new_ext() where there is no entry of the target: `reading` or the result of `create`.
  unfoldable pub no_extent : Bool → ℕ → ℕ → Fcb → S → ℕ × Fcb × S
  no_extent reading old_mod old_ext f s =
      if reading
      then (4, store (store f s2_off old_mod) extent_off old_ext, s)
      else let (r, g, t) = calls.create_scan f s in
        if leb 255 r then (5, store (store g s2_off old_mod) extent_off old_ext, t) else (0, g, t)

  unfoldable pub open_target : Bool → Target → Fcb → S → ℕ × Fcb × S
  unfolding no_extent
  open_target reading t f s =
      let (r, g, u) = calls.open_scan (put_target t f) s in
      if leb 255 r then no_extent reading (f s2_off) (f extent_off) g u else (0, g, u)

  -- new_ext(fcbp, reading, ran): its answer, the FCB and the state.
  unfoldable pub new_ext : Shape → Bool → Bool → Fcb → S → ℕ × Fcb × S
  unfolding target same_extent open_target
  new_ext d reading ran f s =
      let t = target ran f in
      if at_least t.module_no 64
      then (6, f, s)
      else if same_extent d t f
      then (0, store f extent_off t.extent_no, s)
      else let (r, g, u) = calls.close_fi f s in
        if leb 255 r then (3, g, u) else open_target reading t g u

-- blkindx(fcbp)
unfoldable pub blkindx : Shape → Fcb → ℕ
blkindx d f = bit_and (f extent_off) d.exm * 2 ^ (7 - d.bsh) + f cur_rec_off / 2 ^ d.bsh

-- The sector of do_io().
unfoldable pub sector : Shape → ℕ → ℕ → ℕ
sector d block rcrd = block * 2 ^ d.bsh + bit_and rcrd d.blm

-- The loop of calcext() from byte `i` of the disk map down.
unfoldable pub last_used : Fcb → ℕ → ℕ
last_used f zero = 0
last_used f (suc i) = let rest = last_used f i in if f (map_off + suc i) == 0 then rest else suc i

unfoldable pub calcext : Shape → Fcb → ℕ
unfolding last_used
calcext d f =
    let i = if ltb 255 d.dsm then last_used f 15 / 2 else last_used f 15 in
    bit_or (bit_and (bit_and (f extent_off) (0xffff - d.exm)) 0x1f) (i / 2 ^ (7 - d.bsh))

unfoldable pub get_rc : Shape → Fcb → ℕ
unfolding calcext
get_rc d f =
    let ext = calcext d f in
    let here = widened (f extent_off) in
    if ext == here then f rcdcnt_off else if ltb here ext then 128 else 0
