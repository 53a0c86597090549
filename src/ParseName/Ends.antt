-- ===== src/ParseName/Ends.antt =====
-- parsefn() of src/bdos/parsefn.c comes to an end on every string that ends, and never reads on
-- past its NUL.
use commodore_900_cpm.Base.{ℕ, zero, suc, ◌+◌, ◌≤◌, ◌<◌, Bool, true, false, ◌||◌}
use commodore_900_cpm.Base.{◌==◌, ◌≡◌, ◌⊎◌, inl, inr, refl, ap, ◌∙◌, arith, Bool-cases, some}
use native.Mathlib.Decide.{ℕ_discrete}
use commodore_900_cpm.ParseName.{
  Memory, Scan, Stop, Parsed, pdelim, is_in, take_char, gfc, scan_field, rounds, parse_password,
  after_type, parse_type, after_name, parse_name, parse_fields, finish, parsefn, skip_blanks,
  ok_value, tab,
}
use commodore_900_cpm.ParseName.Shape.{IsFcb, fields-IsFcb, parse_fields-cases}

pdelim_nul : (c : ℕ) → c ≡ 0 → pdelim c ≡ true
unfolding pdelim is_in
pdelim_nul c e = ground (arith, e)

-- Does the parse go on after this end of a field?
goes_on : Stop → Bool
goes_on Stop.dot = true
goes_on Stop.semicolon = true
goes_on Stop.ended = false
goes_on Stop.unfinished = false

-- A string whose NUL is at `z`.
module _ (mem : Memory) (z : ℕ) (nul : mem z ≡ 0) where
  before_nul : (pos : ℕ) → pos ≤ z → (mem pos ≡ 0) ⊎ (pos < z)
  before_nul pos le = elim (ℕ_discrete pos z) [
    | yes e ↦ inl (ap mem e ∙ nul)
    | no ne ↦ inr (omega (arith, le, ne))
  ]

  skip_blanks-ends :
      (fuel pos : ℕ)
      → pos ≤ z
      → z < pos + fuel
      → (q : ℕ) × (skip_blanks mem fuel pos ≡ some q) × (pos ≤ q) × (q ≤ z)
  unfolding skip_blanks
  skip_blanks-ends zero pos le lt = absurd (omega (arith, le, lt))
  skip_blanks-ends (suc fuel) pos le lt =
      let b = before_nul pos le in
      elim (Bool-cases ((mem pos == 0x20) || (mem pos == tab))) [
        | inl blank ↦
            let on : pos < z = ground (arith, b, blank) in
            let rest = skip_blanks-ends fuel (pos + 1) (omega (arith, on)) (omega (arith, lt)) in
            (rest.0, simp blank rest.1, omega (arith, rest.2), rest.3)
        | inr other ↦ (pos, simp other refl, omega arith, le)
      ]

  gfc_within : (stars : Bool) (s : Scan) → s.pos ≤ z → (gfc mem stars s).1.pos ≤ z
  unfolding gfc take_char
  gfc_within stars s le =
      let b = before_nul s.pos le in let d = pdelim_nul (mem s.pos) in ground (arith, le, b, d)

  -- A field ends at the NUL, or before it at the character that it stopped at.
  scan_within :
      (dots semis stars : Bool) (fuel : ℕ) (s : Scan)
      → s.pos ≤ z
      → ((scan_field mem dots semis stars fuel s).1.pos ≤ z)
        × ((goes_on (scan_field mem dots semis stars fuel s).0 ≡ false)
            ⊎ ((scan_field mem dots semis stars fuel s).1.pos < z))
  unfolding scan_field goes_on
  scan_within dots semis stars zero s le = (le, inl refl)
  scan_within dots semis stars (suc fuel) s le =
      let b = before_nul s.pos le in
      let on = gfc_within stars s le in
      let rest = scan_within dots semis stars fuel (gfc mem stars s).1 on in
      ground (arith, le, b, on, rest)

  password_within : (s : Scan) → s.pos < z → (parse_password mem s).pos ≤ z
  unfolding parse_password
  password_within s lt =
      (scan_within false false false rounds (record s { pos = s.pos + 1; outp = 16; room = 8 })
        (omega (arith, lt))).0

  after_type_within :
      (r : Stop × Scan)
      → r.1.pos ≤ z
      → (goes_on r.0 ≡ false) ⊎ (r.1.pos < z)
      → (after_type mem r).pos ≤ z
  unfolding after_type goes_on
  after_type_within (Stop.semicolon, s) le on = password_within s (ground (arith, on))
  after_type_within (Stop.dot, s) le on = le
  after_type_within (Stop.ended, s) le on = le
  after_type_within (Stop.unfinished, s) le on = le

  type_within : (s : Scan) → s.pos < z → (parse_type mem s).pos ≤ z
  unfolding parse_type
  type_within s lt =
      let r =
        scan_within false true true rounds (record s { pos = s.pos + 1; outp = 9; room = 3 })
          (omega (arith, lt)) in
      after_type_within _ r.0 r.1

  after_name_within :
      (r : Stop × Scan)
      → r.1.pos ≤ z
      → (goes_on r.0 ≡ false) ⊎ (r.1.pos < z)
      → (after_name mem r).pos ≤ z
  unfolding after_name goes_on
  after_name_within (Stop.semicolon, s) le on = password_within s (ground (arith, on))
  after_name_within (Stop.dot, s) le on = type_within s (ground (arith, on))
  after_name_within (Stop.ended, s) le on = le
  after_name_within (Stop.unfinished, s) le on = le

  name_within : (s : Scan) → s.pos ≤ z → (parse_name mem s).pos ≤ z
  unfolding parse_name
  name_within s le =
      let start = record s { outp = 1; room = 8 } in
      let r = scan_within true true true rounds start le in
      let n = after_name_within (scan_field mem true true true rounds start) r.0 r.1 in
      ground (arith, le, n)

  fields_within : (pos : ℕ) → pos ≤ z → (parse_fields mem pos).pos ≤ z
  fields_within pos le = elim (parse_fields-cases mem pos) [
    | inl plain ↦ simp plain (name_within _ le)
    | inr r ↦ elim r [
      | inl drive ↦
          let b = before_nul pos le in
          let first : pos < z = ground (arith, b, drive.2) in
          let c = before_nul (pos + 1) (omega (arith, first)) in
          let second : pos + 1 < z = ground (arith, c, drive.3) in
          simp (drive.1) (name_within _ (omega (arith, second)))
      | inr stopped ↦ simp (stopped.1) le
    ]
  ]

-- The parse of a string in memory whose NUL is at address z: with more fuel than z it
-- gives a result, and in the result, be it an error or not, the drive byte is at most 16, the bytes
-- of the name, the type and the password are seven-bit and no control characters, the password's
-- length byte is at most 8, and every other byte is 0.
pub parsefn-total :
    (mem : Memory) (fuel fname z : ℕ)
    → mem z ≡ 0
    → fname ≤ z
    → z < fuel
    → (r : Parsed) × (parsefn mem fuel fname ≡ some r) × IsFcb r.fcb
unfolding parsefn finish
parsefn-total mem fuel fname z nul le lt =
    let first = skip_blanks-ends mem z nul fuel fname le (omega (arith, lt)) in
    let s = parse_fields mem first.0 in
    let within = fields_within mem z nul first.0 first.3 in
    let shape = fields-IsFcb mem first.0 in
    elim (Bool-cases s.bad) [
      | inl bad ↦ (record { fcb = s.fcb; value = 0xffff }, simp (first.1, bad) refl, shape)
      | inr good ↦
          let last = skip_blanks-ends mem z nul fuel s.pos within (omega (arith, lt)) in
          (
            record { fcb = s.fcb; value = ok_value mem s.pos last.0 },
            simp (first.1, good, last.1) refl,
            shape,
          )
    ]
