-- ===== src/ParseName/Shape.antt =====
-- The FCB that parsefn() of src/bdos/parsefn.c leaves, whatever the caller's string.
use commodore_900_cpm.Base.{ℕ, ◌+◌, ◌-◌, ◌≤◌, ◌<◌, Bool, true, false}
use commodore_900_cpm.Base.{u8, store, ◌≡◌, ◌≢◌, ◌⊎◌, inl, inr, refl, arith, Bool-cases}
use commodore_900_cpm.ParseName.{
  Memory, Scan, Stop, pdelim, pupper, scan_field, rounds, blank_fcb, parse_password, after_type,
  parse_type, after_name, parse_name, parse_fields,
}
use commodore_900_cpm.ParseName.Fields.{InField, scan_field-InField}

-- A seven-bit character that is no control character.
unfoldable pub IsPrintable : ℕ → Type 0
IsPrintable c = (0x20 ≤ c) × (c < 0x80)

-- The offsets of neither the drive, the name, the type, the password nor its length.
abbrev Elsewhere : ℕ → Type 0
Elsewhere i = ((12 ≤ i) × (i ≤ 15)) ⊎ (((24 ≤ i) × (i ≤ 25)) ⊎ (27 ≤ i))

-- The drive byte is at most 16, the bytes of the name, the type and the password are printable, the
-- byte after the password and its reserve is a length of at most 8, and all others are 0.
unfoldable pub IsFcb : (ℕ → ℕ) → Type 0
IsFcb f =
    (i : ℕ)
    → ((i ≡ 0) × (f i ≤ 16))
      ⊎ (((1 ≤ i) × (i ≤ 11) × IsPrintable (f i))
          ⊎ (((16 ≤ i) × (i ≤ 23) × IsPrintable (f i))
              ⊎ (((i ≡ 26) × (f i ≤ 8)) ⊎ (Elsewhere i × (f i ≡ 0)))))

blank_fcb-IsFcb : IsFcb blank_fcb
unfolding blank_fcb IsFcb IsPrintable
blank_fcb-IsFcb i = ground arith

-- A field inside the name and type, or the password, keeps the shape.
field-IsFcb :
    (lo hi : ℕ) (old : ℕ → ℕ) (s : Scan)
    → ((1 ≤ lo) × (hi ≤ 12)) ⊎ ((16 ≤ lo) × (hi ≤ 24))
    → IsFcb old
    → InField lo hi old s
    → IsFcb s.fcb
unfolding IsFcb InField IsPrintable
field-IsFcb lo hi old s place shape f i =
    let a = shape i in let b = f.2 i in ground (arith, place, a, b)

length_byte-IsFcb : (f : ℕ → ℕ) (n : ℕ) → IsFcb f → IsFcb (store f 26 (u8 (8 - n)))
unfolding IsFcb IsPrintable
length_byte-IsFcb f n shape i = let a = shape i in ground (arith, a)

drive_byte-IsFcb : (n : ℕ) → n ≤ 16 → IsFcb (store blank_fcb 0 (u8 n))
unfolding IsFcb IsPrintable
drive_byte-IsFcb n le i = let a = blank_fcb-IsFcb i in ground (arith, a)

-- The scan starts with the name, or after a drive letter, or it stops before either.
pub parse_fields-cases :
    (mem : Memory) (pos : ℕ)
    → (parse_fields mem pos
        ≡ parse_name mem (record { pos = pos; outp = 1; room = 8; bad = false; fcb = blank_fcb }))
      ⊎ (((pupper (mem pos) - 0x41 + 1 ≤ 16)
            × (parse_fields mem pos
                ≡ parse_name mem (record {
                  pos = pos + 2;
                  outp = 1;
                  room = 8;
                  bad = false;
                  fcb = store blank_fcb 0 (u8 (pupper (mem pos) - 0x41 + 1));
                }))
            × (mem pos ≢ 0)
            × (mem (pos + 1) ≡ 0x3a))
          ⊎ (((parse_fields mem pos).fcb ≡ blank_fcb) × ((parse_fields mem pos).pos ≡ pos)))
unfolding parse_fields
parse_fields-cases mem pos = ground arith

module _ (mem : Memory) where
  scan-IsFcb :
      (dots semis stars : Bool) (s : Scan)
      → ((1 ≤ s.outp) × (s.outp + s.room ≤ 12)) ⊎ ((16 ≤ s.outp) × (s.outp + s.room ≤ 24))
      → IsFcb s.fcb
      → IsFcb (scan_field mem dots semis stars rounds s).1.fcb
  unfolding InField
  scan-IsFcb dots semis stars s place shape =
      field-IsFcb s.outp (s.outp + s.room) s.fcb (scan_field mem dots semis stars rounds s).1 place
        shape
        (scan_field-InField s.outp (s.outp + s.room) s.fcb mem dots semis stars rounds s
          (refl, omega arith, λ i. inl refl))

  password-IsFcb : (s : Scan) → IsFcb s.fcb → IsFcb (parse_password mem s).fcb
  unfolding parse_password
  password-IsFcb s shape =
      let start = record s { pos = s.pos + 1; outp = 16; room = 8 } in
      let p = (scan_field mem false false false rounds start).1 in
      length_byte-IsFcb p.fcb p.room
        (scan-IsFcb false false false start (inr (omega arith, omega arith)) shape)

  after_type-IsFcb : (r : Stop × Scan) → IsFcb r.1.fcb → IsFcb (after_type mem r).fcb
  unfolding after_type
  after_type-IsFcb (Stop.semicolon, s) shape = password-IsFcb s shape
  after_type-IsFcb (Stop.dot, s) shape = shape
  after_type-IsFcb (Stop.ended, s) shape = shape
  after_type-IsFcb (Stop.unfinished, s) shape = shape

  type-IsFcb : (s : Scan) → IsFcb s.fcb → IsFcb (parse_type mem s).fcb
  unfolding parse_type
  type-IsFcb s shape =
      let start = record s { pos = s.pos + 1; outp = 9; room = 3 } in
      after_type-IsFcb (scan_field mem false true true rounds start)
        (scan-IsFcb false true true start (inl (omega arith, omega arith)) shape)

  after_name-IsFcb : (r : Stop × Scan) → IsFcb r.1.fcb → IsFcb (after_name mem r).fcb
  unfolding after_name
  after_name-IsFcb (Stop.semicolon, s) shape = password-IsFcb s shape
  after_name-IsFcb (Stop.dot, s) shape = type-IsFcb s shape
  after_name-IsFcb (Stop.ended, s) shape = shape
  after_name-IsFcb (Stop.unfinished, s) shape = shape

  name-IsFcb : (s : Scan) → IsFcb s.fcb → IsFcb (parse_name mem s).fcb
  unfolding parse_name
  name-IsFcb s shape =
      let start = record s { outp = 1; room = 8 } in
      let n =
        after_name-IsFcb (scan_field mem true true true rounds start)
          (scan-IsFcb true true true start (inl (omega arith, omega arith)) shape) in
      elim (Bool-cases (pdelim (mem s.pos))) [ inl here ↦ simp here shape | inr more ↦ simp more n ]

  pub fields-IsFcb : (pos : ℕ) → IsFcb (parse_fields mem pos).fcb
  fields-IsFcb pos = elim (parse_fields-cases mem pos) [
    | inl plain ↦ simp plain (name-IsFcb _ blank_fcb-IsFcb)
    | inr r ↦ elim r [
      | inl drive ↦
          simp (drive.1) (name-IsFcb _ (drive_byte-IsFcb (pupper (mem pos) - 0x41 + 1) drive.0))
      | inr stopped ↦ simp (stopped.0) blank_fcb-IsFcb
    ]
  ]
