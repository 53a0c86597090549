-- ===== src/Scb/Mirrors.antt =====
-- What the image holds after scbsync() and after scbpost(), byte by byte.
use mathlib.Core.Path.{subst}
use commodore_900_cpm.Base.{
  ℕ, ◌<◌, Bool, true, false, not, ◌==◌, ◌||◌, ◌&&◌, leb, if◌then◌else◌, ◌≡◌, refl, arith, ◌∙◌, inl,
  inr, Bool-cases, ◌≢◌,
}
use commodore_900_cpm.Base.Bits.{every_below, every_below_lem}
use commodore_900_cpm.Scb.{Image, Globals, Scb, put_all, mirrors, scbsync, scbpost, clamp}
use commodore_900_cpm.Scb.Image.{covers, put_all-uncovered, scbword-bytes, Everywhere, covered, ◌&◌}

-- The mirrors that function 49 does not write back: the block's own address, the DMA address, the
-- drive, INFO, the function and user numbers, the search's position and FCB, and the TPA's top.
unfoldable pub is_read_only : ℕ → Bool
is_read_only o =
    (leb 0x3a o && leb o 0x40) || (leb 0x43 o && leb o 0x48) || (leb 0x62 o && leb o 0x63)

-- What a byte shows after a set that stored `new` there where it had shown `old`.
unfoldable pub settled : ℕ → ℕ → ℕ → ℕ
unfolding is_read_only clamp
settled o old new = if is_read_only o then old else if o == 0x4a then clamp new else new

-- The byte that a call with parameter word `info` finds at `o`.
unfoldable pub shown : ℕ → Scb → ℕ → ℕ
unfolding scbsync
shown info s o = (scbsync info s).scbimg o

abbrev pub IsImage : Image → Type 0
IsImage m = (o : ℕ) → m o < 256

-- The stores of scbsync() are at the same places whatever the variables hold.
same_places :
    (info1 info2 : ℕ) (g1 g2 : Globals) (o : ℕ)
    → covers (mirrors info1 g1) o ≡ covers (mirrors info2 g2) o
unfolding covers mirrors
same_places info1 info2 g1 g2 o = refl

abbrev no_globals : Globals
no_globals = record {
  delim = 0;
  column = 0;
  curdsk = 0;
  srchpos = 0;
  dmaadr = 0;
  srchp = 0;
  multcnt = 0;
  errmode = 0;
  user = 0;
  curfx = 0;
  conmode = 0;
  retcode = 0;
  conpage = 0;
  conline = 0;
  pagemode = 0;
  pmdefault = 0;
  tpa_ht = 1;
}

below_100 : (o : ℕ) → is_read_only o ≡ true → o < 100
unfolding is_read_only
below_100 o e = ground arith

read_only_mirrors :
    every_below (λ o. not (is_read_only o) || covers (mirrors 0 no_globals) o) 100 ≡ true
unfolding is_read_only covers mirrors every_below
read_only_mirrors = refl

-- Other bytes are not read-only.
not_read_only :
    (info : ℕ) (g : Globals) (o : ℕ) → covers (mirrors info g) o ≡ false → is_read_only o ≡ false
not_read_only info g o e = elim (Bool-cases (is_read_only o)) [
  | inl ro ↦
      let mirror =
        every_below_lem (λ n. not (is_read_only n) || covers (mirrors 0 no_globals) n) o 100
          (below_100 o ro) read_only_mirrors in
      absurd (ground (arith, same_places 0 info no_globals g o))
  | inr writable ↦ writable
]

not_count : (info : ℕ) (g : Globals) (o : ℕ) → covers (mirrors info g) o ≡ false → o ≢ 0x4a
unfolding covers mirrors
not_count info g o e same =
    let here : true ≡ false = subst (λ n. covers (mirrors info g) n ≡ false) same e in
    absurd (ground arith)

module _ (info : ℕ) (s : Scb) (m : Image) (bytes : IsImage m) where
  abbrev posted : Scb
  posted = scbpost (record s { scbimg = m })

  abbrev At : ℕ → Type 0
  At o = shown info posted o ≡ settled o (shown info s o) (m o)

  kept :
      (o : ℕ)
      → is_read_only o ≡ false
      → o ≢ 0x4a
      → posted.scbimg o ≡ settled o (shown info s o) (m o)
  unfolding settled scbpost
  kept o writable other = ground arith

  mirrors_kept : Everywhere At (mirrors info s.gbl)
  unfolding shown scbsync scbpost settled is_read_only mirrors put_all Everywhere
  mirrors_kept =
      let code = scbword-bytes 0x10 m (bytes 0x10) (bytes 0x11) in
      let mode = scbword-bytes 0x33 m (bytes 0x33) (bytes 0x34) in
      refl
      & refl
      & refl
      & refl
      & refl
      & refl
      & refl
      & refl
      & refl
      & refl
      & refl
      & refl
      & refl
      & refl
      & refl
      & omega (arith, bytes 0x1b)
      & refl
      & refl
      & refl
      & refl
      & mode.0
      & mode.1
      & refl
      & refl
      & refl
      & code.0
      & code.1
      & 0

  others_kept : (o : ℕ) → covers (mirrors info s.gbl) o ≡ false → At o
  unfolding shown scbsync settled scbpost covers
  others_kept o e =
      put_all-uncovered (mirrors info posted.gbl) posted.scbimg o e
      ∙ kept o (not_read_only info s.gbl o e) (not_count info s.gbl o e)

  -- Whatever bytes stand in the image, scbpost() settles each of them.
  pub scbpost-settled : (o : ℕ) → At o
  scbpost-settled o = elim (Bool-cases (covers (mirrors info s.gbl) o)) [
    | inl e ↦ covered At (mirrors info s.gbl) o mirrors_kept e
    | inr e ↦ others_kept o e
  ]
