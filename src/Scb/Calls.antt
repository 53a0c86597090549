-- ===== src/Scb/Calls.antt =====
-- Function 49 as its callers see it: a set shows at the byte it names, and nowhere else.
use native.Mathlib.Decide.{ℕ_discrete}
use mathlib.Core.Path.{subst}
use commodore_900_cpm.Base.{
  ℕ, ◌+◌, ◌*◌, ◌<◌, ◌≤◌, Bool, false, ◌==◌, leb, if◌then◌else◌, store, ◌≡◌, ◌≢◌, refl, arith, ap,
  sym, ◌∙◌, inl, inr, Bool-cases,
}
use commodore_900_cpm.Scb.{
  Image, Scb, scb_max, scbword, scb_fn, mirrors, put_all, scbsync, scbpost, clamp, set_byte,
  set_word,
}
use commodore_900_cpm.Scb.Image.{
  covers, covered, Everywhere, put_all-uncovered, bit_or-shifted, ◌&◌,
}
use commodore_900_cpm.Scb.Mirrors.{IsImage, shown, settled, scbpost-settled}

-- What every call finds are bytes.
unfoldable pub IsScb : Scb → Type 0
IsScb s = (info : ℕ) → IsImage (shown info s)

-- The answer is `answer`, and what every later call finds is, byte by byte, what a set of `new`
-- leaves of what it would have found.
pub record HasSet (new : Image) (s : Scb) (result : ℕ × Scb) : Type 0 where
  pub answers : result.0 ≡ 0
  pub shows : (info o : ℕ) → shown info result.1 o ≡ settled o (shown info s o) (new o)
  pub bytes : IsScb result.1

-- The answer is the word at `off`, and nothing that a call can find has changed.
pub record HasRead (off info : ℕ) (s : Scb) (result : ℕ × Scb) : Type 0 where
  pub answers : result.0 ≡ shown info s off + shown info s (off + 1) * 256
  pub shows : (later o : ℕ) → shown later result.1 o ≡ shown later s o

-- The ways in which function 49 ends.
pub data Outcome (off set lo hi info : ℕ) (s : Scb) (result : ℕ × Scb) : Type 0 where
  refused : scb_max ≤ off → result ≡ (0xffff, s) → Outcome off set lo hi info s result
  byte_set :
      off < scb_max
      → set ≡ 0xff
      → HasSet (store (shown info s) off lo) s result
      → Outcome off set lo hi info s result
  word_set :
      off < scb_max
      → set ≡ 0xfe
      → HasSet (store (store (shown info s) off lo) (off + 1) hi) s result
      → Outcome off set lo hi info s result
  word_read :
      off < scb_max
      → set ≢ 0xff
      → set ≢ 0xfe
      → HasRead off info s result
      → Outcome off set lo hi info s result

pub store-IsImage : (m : Image) (off v : ℕ) → IsImage m → v < 256 → IsImage (store m off v)
store-IsImage m off v bytes h o = let here = bytes o in ground arith

settled_byte : (o old new : ℕ) → old < 256 → new < 256 → settled o old new < 256
unfolding settled clamp
settled_byte o old new h k = ground arith

-- scbpost() after any set.
post-HasSet :
    (m : Image) (s : Scb) → IsImage m → IsScb s → HasSet m s (0, scbpost (record s { scbimg = m }))
unfolding IsScb
post-HasSet m s bytes scb = record {
  answers = refl;
  shows = λ info o. scbpost-settled info s m bytes o;
  bytes = λ info o.
      subst (λ v. v < 256) (sym (scbpost-settled info s m bytes o))
        (settled_byte o (shown info s o) (m o) (scb info o) (bytes o));
}

-- A read leaves its mirrors in the image, where the next one overwrites them.
module _ (info later : ℕ) (s : Scb) where
  abbrev Synced : ℕ → Type 0
  Synced o = shown later (scbsync info s) o ≡ shown later s o

  resync_mirrors : Everywhere Synced (mirrors later s.gbl)
  unfolding shown scbsync mirrors put_all Everywhere
  resync_mirrors =
      refl & refl & refl & refl & refl & refl & refl & refl & refl & refl & refl & refl & refl
      & refl & refl & refl & refl & refl & refl & refl & refl & refl & refl & refl & refl & refl
      & refl & 0

  resync_others : (o : ℕ) → covers (mirrors later s.gbl) o ≡ false → Synced o
  unfolding shown scbsync covers mirrors
  resync_others o e =
      put_all-uncovered (mirrors later s.gbl) (scbsync info s).scbimg o e
      ∙ put_all-uncovered (mirrors info s.gbl) s.scbimg o e
      ∙ sym (put_all-uncovered (mirrors later s.gbl) s.scbimg o e)

  synced : (o : ℕ) → Synced o
  synced o = elim (Bool-cases (covers (mirrors later s.gbl) o)) [
    | inl e ↦ covered Synced (mirrors later s.gbl) o resync_mirrors e
    | inr e ↦ resync_others o e
  ]

in_range : (off : ℕ) → off < scb_max → leb scb_max off ≡ false
in_range off h = ground arith

module _ (lo hi info off : ℕ) (s : Scb) (here : off < scb_max) (scb : IsScb s) where
  after : ℕ → ℕ × Scb → ℕ × Scb
  after set other =
      let t = scbsync info s in
      if set == 0xff
      then (0, scbpost (set_byte off lo t))
      else if set == 0xfe
      then (0, scbpost (set_word off lo hi t))
      else other

  answered :
      (set : ℕ)
      → scb_fn off set lo hi info s ≡ after set (scbword off (shown info s), scbsync info s)
  unfolding scb_fn after shown
  answered set =
      ap
        (λ (b : Bool).
          if b then (0xffff, s) else after set (scbword off (shown info s), scbsync info s))
        (in_range off here)

  scb_fn-set_byte : lo < 256 → HasSet (store (shown info s) off lo) s (scb_fn off 0xff lo hi info s)
  unfolding shown scbsync IsScb after
  scb_fn-set_byte h = subst (HasSet (store (shown info s) off lo) s) (sym (answered 0xff)) (
      post-HasSet (store (shown info s) off lo) s (store-IsImage (shown info s) off lo (scb info) h)
        scb)

  scb_fn-set_word :
      lo < 256
      → hi < 256
      → HasSet (store (store (shown info s) off lo) (off + 1) hi) s (scb_fn off 0xfe lo hi info s)
  unfolding shown scbsync IsScb after
  scb_fn-set_word h k =
      subst (HasSet (store (store (shown info s) off lo) (off + 1) hi) s) (sym (answered 0xfe)) (
        post-HasSet (store (store (shown info s) off lo) (off + 1) hi) s
          (store-IsImage (store (shown info s) off lo) (off + 1) hi
            (store-IsImage (shown info s) off lo (scb info) h) k)
          scb)

  by_flag :
      (set : ℕ)
      → set ≢ 0xff
      → set ≢ 0xfe
      → after set (scbword off (shown info s), scbsync info s)
        ≡ (scbword off (shown info s), scbsync info s)
  unfolding after
  by_flag set one two = ground arith

  word_shown : scbword off (shown info s) ≡ shown info s off + shown info s (off + 1) * 256
  unfolding scbword IsScb
  word_shown = bit_or-shifted 8 (shown info s off) (shown info s (off + 1)) (scb info off)

  scb_fn-read :
      (set : ℕ) → set ≢ 0xff → set ≢ 0xfe → HasRead off info s (scb_fn off set lo hi info s)
  unfolding IsScb
  scb_fn-read set one two =
      subst (HasRead off info s) (sym (answered set ∙ by_flag set one two))
        (record { answers = word_shown; shows = λ later o. synced info later s o })

module _ (off set lo hi info : ℕ) (s : Scb) where
  refusal : scb_max ≤ off → scb_fn off set lo hi info s ≡ (0xffff, s)
  unfolding scb_fn
  refusal h = ground arith

  flagged :
      off < scb_max
      → lo < 256
      → hi < 256
      → IsScb s
      → Outcome off set lo hi info s (scb_fn off set lo hi info s)
  flagged h low high scb = elim (ℕ_discrete set 0xff) [
    | yes one ↦ byte_set h one (
        subst (λ n. HasSet (store (shown info s) off lo) s (scb_fn off n lo hi info s)) (sym one)
          (scb_fn-set_byte lo hi info off s h scb low))
    | no one ↦ elim (ℕ_discrete set 0xfe) [
      | yes two ↦ word_set h two (
          subst
            (λ n.
              HasSet (store (store (shown info s) off lo) (off + 1) hi) s
                (scb_fn off n lo hi info s))
            (sym two) (scb_fn-set_word lo hi info off s h scb low high))
      | no two ↦ word_read h one two (scb_fn-read lo hi info off s h scb set one two)
    ]
  ]

  -- Function 49 refuses an offset of 99 and above; below, a set of one or two bytes (flags FF and FE)
  -- answers 0 and shows to every later call exactly at those bytes, as stored, but for the read-only
  -- mirrors, which do not change, and the multi-sector count, which is brought into 1 to 128; and
  -- every other flag answers the word at the offset and changes nothing that shows.
  pub scb_fn-Outcome :
      lo < 256 → hi < 256 → IsScb s → Outcome off set lo hi info s (scb_fn off set lo hi info s)
  scb_fn-Outcome low high scb = elim (Bool-cases (leb scb_max off)) [
    | inl e ↦ let past : scb_max ≤ off = ground arith in refused past (refusal past)
    | inr e ↦ flagged (ground arith) low high scb
  ]
