-- ===== src/Scb.antt =====
-- The system control block of function 49, in src/bdos/scb.c and scb.h: an image of bytes in which
-- some are mirrors of BDOS variables (src/bdos/bdosdef.h, struct stvars).
pub mod Image
pub mod Mirrors
pub mod Calls
pub mod Sound
pub mod Tests
use commodore_900_cpm.Base.{
  ℕ, zero, suc, ◌+◌, ◌*◌, ◌/◌, ◌%◌, ◌^◌, bit_or, Bool, true, false, ◌==◌, leb, ltb, if◌then◌else◌,
  List, [], ◌∷◌, ◌++◌, store, u8, u16, u32,
}

abbrev pub Image : Type 0
Image = ℕ → ℕ

-- The variables of struct stvars that the image mirrors, and tpa_ht.
pub record Globals : Type 0 where
  pub delim : ℕ
  pub column : ℕ
  pub curdsk : ℕ
  pub srchpos : ℕ
  pub dmaadr : ℕ
  pub srchp : ℕ
  pub multcnt : ℕ
  pub errmode : ℕ
  pub user : ℕ
  pub curfx : ℕ
  pub conmode : ℕ
  pub retcode : ℕ
  pub conpage : ℕ
  pub conline : ℕ
  pub pagemode : ℕ
  pub pmdefault : ℕ
  pub tpa_ht : ℕ

pub record Scb : Type 0 where
  pub scbimg : Image
  pub gbl : Globals

-- SCBMAX
abbrev pub scb_max : ℕ
scb_max = 99

-- scbword(off)
unfoldable pub scbword : ℕ → Image → ℕ
scbword off m = bit_or (m off) (m (off + 1) * 2 ^ 8)

-- The bytes that scbputw(off, val) stores.
abbrev pub word_at : ℕ → ℕ → List (ℕ × ℕ)
word_at off v = (off, u8 v) ∷ (off + 1, u8 (v / 2 ^ 8)) ∷ []

-- Stores one after the other.
unfoldable pub put_all : List (ℕ × ℕ) → Image → Image
put_all [] m = m
put_all ((off, v) ∷ ws) m = put_all ws (store m off v)

-- The stores of scbsync(), in its order.
unfoldable pub mirrors : ℕ → Globals → List (ℕ × ℕ)
mirrors info g =
    word_at 0x3a 0
    ++ word_at 0x3c (u16 g.dmaadr)
    ++ ((0x3e, g.curdsk) ∷ [])
    ++ word_at 0x3f info
    ++ ((0x43, g.curfx) ∷ (0x44, g.user) ∷ [])
    ++ word_at 0x45 g.srchpos
    ++ word_at 0x47 (u16 g.srchp)
    ++ word_at 0x62 (u16 (g.tpa_ht + 0xffffffff))
    ++ ((0x1b, u8 g.column)
        ∷ (0x1c, g.conpage)
        ∷ (0x1d, g.conline)
        ∷ (0x2c, g.pagemode)
        ∷ (0x2d, g.pmdefault)
        ∷ [])
    ++ word_at 0x33 g.conmode
    ++ ((0x37, g.delim) ∷ (0x4a, g.multcnt) ∷ (0x4b, g.errmode) ∷ [])
    ++ word_at 0x10 g.retcode

unfoldable pub scbsync : ℕ → Scb → Scb
unfolding mirrors put_all
scbsync info s = record s { scbimg = put_all (mirrors info s.gbl) s.scbimg }

-- What scbpost() makes of the multi-sector count.
unfoldable pub clamp : ℕ → ℕ
clamp n = if n == 0 then 1 else if ltb 128 n then 128 else n

unfoldable pub scbpost : Scb → Scb
unfolding scbword clamp
scbpost s =
    let m = s.scbimg in
    let n = clamp (m 0x4a) in
    record {
      scbimg = store m 0x4a n;
      gbl = record s.gbl {
        column = m 0x1b;
        conpage = m 0x1c;
        conline = m 0x1d;
        pagemode = m 0x2c;
        pmdefault = m 0x2d;
        conmode = scbword 0x33 m;
        delim = m 0x37;
        errmode = m 0x4b;
        retcode = scbword 0x10 m;
        multcnt = n;
      };
    }

-- The image that a set leaves for scbpost().
abbrev pub set_byte : ℕ → ℕ → Scb → Scb
set_byte off v s = record s { scbimg = store s.scbimg off v }

abbrev pub set_word : ℕ → ℕ → ℕ → Scb → Scb
set_word off lo hi s = record s { scbimg = store (store s.scbimg off lo) (off + 1) hi }

-- scb_fn(pbp, info) on the four bytes of the parameter block.
unfoldable pub scb_fn : ℕ → ℕ → ℕ → ℕ → ℕ → Scb → ℕ × Scb
unfolding scbsync scbpost scbword
scb_fn off set lo hi info s =
    if leb scb_max off
    then (0xffff, s)
    else let t = scbsync info s in
      if set == 0xff
      then (0, scbpost (set_byte off lo t))
      else if set == 0xfe
      then (0, scbpost (set_word off lo hi t))
      else (scbword off t.scbimg, t)

-- scbccpflg(bits)
unfoldable pub scbccpflg : ℕ → Scb → Scb
scbccpflg bits s = record s { scbimg = store s.scbimg 0x17 (bit_or (s.scbimg 0x17) bits) }

-- The bytes other than zero of the image as the program is linked with it.
abbrev pub initial : List (ℕ × ℕ)
initial =
    (0x05, 0x31)
    ∷ (0x1a, 80)
    ∷ (0x37, 0x24)
    ∷ (0x3c, 0x80)
    ∷ (0x4a, 1)
    ∷ (0x4d, 0xff)
    ∷ (0x4e, 0xff)
    ∷ (0x4f, 0xff)
    ∷ (0x57, 0x80)
    ∷ (0x58, 0xff)
    ∷ (0x59, 0xff)
    ∷ (0x5a, 0xff)
    ∷ (0x5b, 0xff)
    ∷ (0x5c, 0xff)
    ∷ []

unfoldable pub linked : Image
unfolding put_all
linked = put_all initial (λ i. 0)
