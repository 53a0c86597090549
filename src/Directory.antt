-- ===== src/Directory.antt =====
-- The directory signature table, src/bdos/dskhash.c, with struct dhq of dskhash.h, and the file
-- name matcher match() of src/bdos/fileio.c.
-- A `struct fcb` or `struct dirent` is its bytes by their offset; the two structures have the same
-- first sixteen. A table of signatures is a function of the directory index, and one system-wide
-- table is in a `Hash` with the words dhok, dhbld and dhdrv. DHC_NAM is always set with mode 1, so
-- the word chk is the two Booleans that dhcand tests.
pub mod Sound
pub mod Filter
pub mod Table
pub mod Keep
mod Tests
pub mod Unread
pub mod Runs
use commodore_900_cpm.Base.{
  ℕ, zero, suc, ◌+◌, ◌-◌, ◌*◌, ◌/◌, ◌%◌, ◌^◌, Bool, true, false, not, ◌&&◌,
}
use commodore_900_cpm.Base.{
  ◌||◌, ◌==◌, ltb, if◌then◌else◌, u16, has, store, bit_and, bit_or, bit_xor, ◌≡◌,
}

abbrev pub dhmax : ℕ
dhmax = 512

abbrev pub Bytes : Type 0
Bytes = ℕ → ℕ

-- offsets of drvcode or entry, extent and s2
abbrev pub entry_at : ℕ
entry_at = 0

abbrev pub fname_at : ℕ
fname_at = 1

abbrev pub extent_at : ℕ
extent_at = 12

abbrev pub s2_at : ℕ
s2_at = 14

-- What dskhash.c and match() read of the process's globals and of its drive's `struct dpb`.
pub record Gbl : Type 0 where
  pub curdsk : ℕ
  pub cks : ℕ
  pub exm : ℕ

-- the three signature arrays, and dhok, dhbld and dhdrv
pub record Hash : Type 0 where
  pub nam : ℕ → ℕ
  pub ext : ℕ → ℕ
  pub usr : ℕ → ℕ
  pub dhok : Bool
  pub dhbld : Bool
  pub dhdrv : ℕ

-- `struct dhq`
pub record Dhq : Type 0 where
  pub mode : ℕ
  pub chk_usr : Bool
  pub chk_ext : Bool
  pub drv : ℕ
  pub usr : ℕ
  pub nam : ℕ
  pub ext : ℕ
  pub exmask : ℕ

-- The functions that dirscan is called with; `other` is any that dhstart does not name.
pub data ScanFunc : Type 0 where
  matchit openfile close delete rename set_attr fsize create other : ScanFunc

-- The loop of dhname, at byte `i` with `left` bytes to go.
unfoldable pub hash_bytes : Bytes → ℕ → ℕ → ℕ → ℕ
hash_bytes p i zero h = h
hash_bytes p i (suc left) h =
    hash_bytes p (i + 1) left
      (bit_xor (bit_xor (u16 (h * 2 ^ 4)) (h / 2 ^ 12)) (bit_and (p i) 0x7f))

unfoldable pub dhname : Bytes → ℕ
dhname d = hash_bytes d fname_at 11 0

-- `(s2 << 8) | extent`, on two bytes.
unfoldable pub extent_word : Bytes → ℕ
extent_word d = u16 (d s2_at * 2 ^ 8) + d extent_at

unfoldable pub dhset : ℕ → Bytes → Hash → Hash
dhset indx d t =
    if ltb indx dhmax
    then record t {
      usr = store t.usr indx (d entry_at);
      nam = store t.nam indx (dhname d);
      ext = store t.ext indx (extent_word d);
    }
    else t

-- The loop of dhrec; `dirp` is the four entries of the record.
unfoldable pub record_entries : ℕ → (ℕ → Bytes) → ℕ → Hash → Hash
record_entries indx dirp zero t = t
record_entries indx dirp (suc i) t = dhset (u16 (indx + i)) (dirp i) (record_entries indx dirp i t)

unfoldable pub dhrec : Gbl → ℕ → (ℕ → Bytes) → Hash → Hash
dhrec g dirsec dirp t =
    if not (t.dhok || t.dhbld)
    then t
    else if not (t.dhdrv == g.curdsk)
    then t
    else record_entries (u16 (dirsec * 2 ^ 2)) dirp 4 t

-- `hashen` is the table of per-drive switches, which may be patched.
unfoldable pub dhopen : (ℕ → ℕ) → Gbl → ℕ → ℕ → Hash → Hash
dhopen hashen g dsknum drm t =
    if not (g.cks == 0)
    then record t { dhok = false; dhbld = false }
    else if t.dhok && (t.dhdrv == dsknum)
    then t
    else record t {
      dhok = false;
      dhdrv = dsknum;
      dhbld = ltb drm dhmax && not (hashen dsknum == 0);
    }

unfoldable pub dhadd : ℕ → Bytes → Hash → Hash
dhadd indx d t = if t.dhbld then dhset indx d t else t

unfoldable pub dhdone : Hash → Hash
dhdone t = if t.dhbld then record t { dhok = true; dhbld = false } else t

-- `matches_with_extent` and `matches_name_only` are the two tests of `funcp` that set chkext.
unfoldable pub matches_with_extent : ScanFunc → Bool
matches_with_extent ScanFunc.matchit = true
matches_with_extent ScanFunc.openfile = true
matches_with_extent ScanFunc.close = true
matches_with_extent _ = false

unfoldable pub matches_name_only : ScanFunc → Bool
matches_name_only ScanFunc.delete = true
matches_name_only ScanFunc.rename = true
matches_name_only ScanFunc.set_attr = true
matches_name_only ScanFunc.fsize = true
matches_name_only _ = false

unfoldable pub is_create : ScanFunc → Bool
is_create ScanFunc.create = true
is_create _ = false

-- Is one of the `left` bytes from offset `i` a '?'
unfoldable pub has_wildcard : Bytes → ℕ → ℕ → Bool
has_wildcard p i zero = false
has_wildcard p i (suc left) = if p i == 0x3f then true else has_wildcard p (i + 1) left

abbrev pub no_filter : Dhq
no_filter = record {
  mode = 0;
  chk_usr = false;
  chk_ext = false;
  drv = 0;
  usr = 0;
  nam = 0;
  ext = 0;
  exmask = 0;
}

-- The part of dhstart that fills in a filter by name.
unfoldable pub name_filter : Gbl → Hash → Bool → Bytes → Dhq
name_filter g t chkext fcbp = record {
  mode = 1;
  chk_usr = not (fcbp entry_at == 0x3f);
  chk_ext = chkext && not (fcbp extent_at == 0x3f);
  drv = t.dhdrv;
  usr = fcbp entry_at;
  nam = dhname fcbp;
  ext = extent_word fcbp;
  exmask = bit_and (0xffff - g.exm) 0xff;
}

-- `log_dsk & (1 << dhdrv)` is a test of bit `dhdrv`. The fields that dhstart leaves unset on its
-- way out are zero. dirscan, which alone calls it, never passes a null FCB.
unfoldable pub dhstart : Gbl → ℕ → Hash → ScanFunc → Bytes → Dhq
dhstart g log_dsk t funcp fcbp =
    if not t.dhok
    then no_filter
    else if not (t.dhdrv == g.curdsk)
    then no_filter
    else if not (has log_dsk (2 ^ t.dhdrv))
    then no_filter
    else if not (g.cks == 0)
    then no_filter
    else if is_create funcp
    then record no_filter { mode = 2; drv = t.dhdrv }
    else if has_wildcard fcbp fname_at 11
    then no_filter
    else if matches_with_extent funcp
    then name_filter g t true fcbp
    else if matches_name_only funcp
    then name_filter g t false fcbp
    else no_filter

unfoldable pub dhcand : Hash → Dhq → ℕ → Bool
dhcand t q indx =
    if not t.dhok || not (t.dhdrv == q.drv)
    then true
    else if q.mode == 2
    then t.usr indx == 0xe5
    else if not (t.nam indx == q.nam)
    then false
    else if q.chk_usr && has (bit_xor (t.usr indx) q.usr) 0x7f
    then false
    else if q.chk_ext && has (bit_xor (t.ext indx) q.ext) q.exmask
    then false
    else if q.chk_ext && has (bit_xor (t.ext indx) q.ext) 0x3f00
    then false
    else true

-- The loop of match over the entry byte and the name, at offset `i`.
unfoldable pub match_bytes : Bytes → Bytes → ℕ → ℕ → Bool
match_bytes p1 p2 i zero = true
match_bytes p1 p2 i (suc left) =
    if has (bit_xor (p1 i) (p2 i)) 0x7f && not (p1 i == 0x3f)
    then false
    else match_bytes p1 p2 (i + 1) left

unfoldable pub match : Gbl → Bytes → Bytes → Bool → Bool
match g p1 p2 chk_ext =
    if not (match_bytes p1 p2 0 12)
    then false
    else if not chk_ext
    then true
    else if not (p1 extent_at == 0x3f)
        && has (bit_xor (p1 extent_at) (p2 extent_at)) (0xffff - g.exm)
    then false
    else if has (bit_xor (p1 s2_at) (p2 s2_at)) 0x3f
    then false
    else true

-- What each function asks of an entry before it does anything with it: matchit, openfile and close
-- call match with the extent fields, delete, rename, set_attr and fsize without, and create wants
-- an empty slot.
unfoldable pub wanted : Gbl → ScanFunc → Bytes → Bytes → Bool
wanted g funcp fcbp dirp =
    if is_create funcp
    then dirp entry_at == 0xe5
    else if matches_with_extent funcp
    then match g fcbp dirp true
    else if matches_name_only funcp
    then match g fcbp dirp false
    else true

-- The head of dirscan: its filter for the scan.
unfoldable pub scan_filter : Gbl → ℕ → Hash → ScanFunc → Bytes → Dhq
scan_filter g log_dsk t funcp fcbp =
    if fcbp fname_at == 0x3f then no_filter else dhstart g log_dsk t funcp fcbp

-- `q.mode && ! dhcand(&q, i)`, on which dirscan passes over entry `i`.
unfoldable pub passes_over : Hash → Dhq → ℕ → Bool
passes_over t q i = not (q.mode == 0) && not (dhcand t q i)

-- The calls of dhadd in a login: the scan calls alloc, which calls dhadd, for every entry from 0
-- whose record `dirget` could read.
unfoldable pub add_entries : (ℕ → Bytes) → (ℕ → Bool) → ℕ → Hash → Hash
add_entries dir got zero t = t
add_entries dir got (suc n) t =
    let u = add_entries dir got n t in if got n then dhadd n (dir n) u else u

-- What seldsk does to the table when it logs a drive in.
unfoldable pub login_hash : (ℕ → ℕ) → Gbl → ℕ → ℕ → (ℕ → Bytes) → (ℕ → Bool) → Hash → Hash
login_hash hashen g dsknum drm dir got t =
    dhdone (add_entries dir got (drm + 1) (dhopen hashen g dsknum drm t))
