-- ===== src/ParseName/Fields.antt =====
-- The loops of src/bdos/parsefn.c: gfc() on every kind of character, and the end of a field.
use commodore_900_cpm.Base.{ℕ, zero, suc, ◌+◌, ◌≤◌, ◌<◌, Bool, false}
use commodore_900_cpm.Base.{store, ◌≡◌, ◌≢◌, ◌⊎◌, inl, refl, arith}
use commodore_900_cpm.ParseName.{Memory, Scan, Stop, pupper, fill, take_char, gfc, scan_field}
use commodore_900_cpm.Base.Masks.{bit_and_le}

-- A character is at most seven bits wide once it is upper-cased.
pub pupper_bound : (c : ℕ) → pupper c < 0x80
unfolding pupper
pupper_bound c = let a = bit_and_le c 0x5f in let b = bit_and_le c 0x7f in ground (arith, a, b)

-- A state of the scan of the field from `lo` to `hi`, which started with the FCB `old`.
unfoldable pub InField : ℕ → ℕ → (ℕ → ℕ) → Scan → Type 0
InField lo hi old s =
    (s.outp + s.room ≡ hi)
    × (lo ≤ s.outp)
    × ((i : ℕ) → (s.fcb i ≡ old i) ⊎ ((lo ≤ i) × (i < hi) × (0x20 ≤ s.fcb i) × (s.fcb i < 0x80)))

fill_lem :
    (outp room : ℕ) (fcb : ℕ → ℕ) (i : ℕ)
    → (fill outp room fcb i ≡ fcb i)
      ⊎ ((outp ≤ i) × (i < outp + room) × (fill outp room fcb i ≡ 0x3f))
unfolding fill
fill_lem outp zero fcb i = inl refl
fill_lem outp (suc room) fcb i =
    let rest = fill_lem (outp + 1) room (store fcb outp 0x3f) i in ground (arith, rest)

module _ (lo hi : ℕ) (old : ℕ → ℕ) where
  take_char-InField :
      (stars : Bool) (c : ℕ) (s : Scan)
      → c < 0x80
      → InField lo hi old s
      → InField lo hi old (take_char stars c s).1
  unfolding take_char InField
  take_char-InField stars c s seven f = (
    ground arith,
    ground arith,
    λ i. let a = fill_lem s.outp s.room s.fcb i in let b = f.2 i in ground (arith, a, b),
  )

  moved : (s : Scan) → InField lo hi old s → InField lo hi old (record s { pos = s.pos + 1 })
  unfolding InField
  moved s f = f

  pub gfc-InField :
      (mem : Memory) (stars : Bool) (s : Scan)
      → InField lo hi old s
      → InField lo hi old (gfc mem stars s).1
  unfolding gfc
  gfc-InField mem stars s f =
      let on =
        take_char-InField stars (pupper (mem s.pos)) (record s { pos = s.pos + 1 })
          (pupper_bound (mem s.pos)) (moved s f) in
      ground (arith, on, f)

  pub scan_field-InField :
      (mem : Memory) (dots semis stars : Bool) (fuel : ℕ) (s : Scan)
      → InField lo hi old s
      → InField lo hi old (scan_field mem dots semis stars fuel s).1
  unfolding scan_field
  scan_field-InField mem dots semis stars zero s f = f
  scan_field-InField mem dots semis stars (suc fuel) s f =
      let rest =
        scan_field-InField mem dots semis stars fuel (gfc mem stars s).1
          (gfc-InField mem stars s f) in
      let here = gfc-InField mem stars s f in ground (arith, rest, here, f)

-- No more than room + 1 rounds are needed, of which the last one finds the end.
gfc_progress :
    (mem : Memory) (stars : Bool) (s : Scan)
    → ((gfc mem stars s).0 ≡ false) ⊎ ((gfc mem stars s).1.room < s.room)
unfolding gfc take_char
gfc_progress mem stars s = ground arith

pub scan_field-ends :
    (mem : Memory) (dots semis stars : Bool) (fuel : ℕ) (s : Scan)
    → s.room < fuel
    → (scan_field mem dots semis stars fuel s).0 ≢ Stop.unfinished
unfolding scan_field
scan_field-ends mem dots semis stars zero s lt u = absurd (omega (arith, lt))
scan_field-ends mem dots semis stars (suc fuel) s lt u =
    let p = gfc_progress mem stars s in
    let rest = scan_field-ends mem dots semis stars fuel (gfc mem stars s).1 in
    ground (arith, p, rest, u)
