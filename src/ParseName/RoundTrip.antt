-- ===== src/ParseName/RoundTrip.antt =====
-- parsefn() of src/bdos/parsefn.c on a name written out: the FCB has the name back.
use commodore_900_cpm.Base.{ℕ, zero, suc, ◌+◌, ◌-◌, ◌%◌, ◌≤◌, ◌<◌, Bool, true, false}
use commodore_900_cpm.Base.{◌==◌, store, ◌≡◌, ◌≢◌, refl, ap, ◌∙◌, sym, arith}
use commodore_900_cpm.Base.{List, [], ◌∷◌, ◌++◌, length}
use commodore_900_cpm.ParseName.{
  Memory, Scan, Stop, pdelim, is_in, pupper, take_char, gfc, scan_field, rounds, parse_type,
  after_type, after_name, parse_name,
}

-- The characters at an address.
unfoldable pub Holds : Memory → ℕ → List ℕ → Type 0
Holds mem pos [] = true ≡ true
Holds mem pos (c ∷ cs) = (mem pos ≡ c) × Holds mem (pos + 1) cs

-- A character that stands for itself in a field of a name.
unfoldable pub IsPlain : ℕ → Type 0
IsPlain c = (pdelim c ≡ false) × (0x20 ≤ c) × (c < 0x61) × (c ≢ 0x2a)

unfoldable pub ArePlain : List ℕ → Type 0
ArePlain [] = true ≡ true
ArePlain (c ∷ cs) = IsPlain c × ArePlain cs

-- The characters `cs` in the FCB from offset `outp`.
unfoldable pub put_chars : (ℕ → ℕ) → ℕ → List ℕ → ℕ → ℕ
put_chars fcb outp [] = fcb
put_chars fcb outp (c ∷ cs) = put_chars (store fcb outp c) (outp + 1) cs

-- The state after the plain characters `cs`.
after_char : ℕ → Scan → Scan
after_char c s = record s {
  pos = s.pos + 1;
  outp = s.outp + 1;
  room = s.room - 1;
  fcb = store s.fcb s.outp c;
}

after_chars : List ℕ → Scan → Scan
after_chars [] s = s
after_chars (c ∷ cs) s = after_chars cs (after_char c s)

after_chars_lem :
    (cs : List ℕ) (s : Scan)
    → ((after_chars cs s).pos ≡ s.pos + length cs)
      × ((after_chars cs s).room ≡ s.room - length cs)
      × ((after_chars cs s).bad ≡ s.bad)
      × ((after_chars cs s).fcb ≡ put_chars s.fcb s.outp cs)
unfolding after_chars after_char put_chars
after_chars_lem [] s = (omega arith, omega arith, refl, refl)
after_chars_lem (c ∷ cs) s =
    let r = after_chars_lem cs (after_char c s) in
    (omega (arith, r.0), omega (arith, r.1), r.2, r.3)

gfc_plain :
    (mem : Memory) (stars : Bool) (c : ℕ) (s : Scan)
    → mem s.pos ≡ c
    → IsPlain c
    → 1 ≤ s.room
    → gfc mem stars s ≡ (true, after_char c s)
unfolding gfc take_char pupper IsPlain after_char
gfc_plain mem stars c s at plain room =
    let low : c % 256 ≡ c = omega (arith, plain.2) in
    simp (at, plain.0) (ground (arith, plain, room, low))

pub plain_stops :
    (c : ℕ) → IsPlain c → (c ≢ 0x2e) × (c ≢ 0x3b) × (c ≢ 0x3a) × (c ≢ 0x20) × (c ≢ 9) × (c ≢ 0)
unfolding IsPlain pdelim is_in
plain_stops c plain = ground (arith, plain.0)

module _ (mem : Memory) (dots semis stars : Bool) where
  step_plain :
      (c k : ℕ) (s : Scan)
      → mem s.pos ≡ c
      → IsPlain c
      → 1 ≤ s.room
      → scan_field mem dots semis stars (suc k) s
        ≡ scan_field mem dots semis stars k (after_char c s)
  unfolding scan_field
  step_plain c k s at plain room =
      let n = plain_stops c plain in
      let g = gfc_plain mem stars c s at plain room in
      let first : (mem s.pos == 0x2e) ≡ false = ground (arith, at, n) in
      let second : (mem s.pos == 0x3b) ≡ false = ground (arith, at, n) in
      simp (g, first, second) (ground arith)

  scan_plain :
      (cs : List ℕ) (fuel : ℕ) (s : Scan)
      → Holds mem s.pos cs
      → ArePlain cs
      → length cs ≤ s.room
      → scan_field mem dots semis stars (length cs + fuel) s
        ≡ scan_field mem dots semis stars fuel (after_chars cs s)
  unfolding after_chars after_char Holds ArePlain
  scan_plain [] fuel s at plain room =
      ap (λ (k : ℕ). scan_field mem dots semis stars k s) (omega arith)
  scan_plain (c ∷ cs) fuel s at plain room =
      ap (λ (k : ℕ). scan_field mem dots semis stars k s) (omega arith)
      ∙ step_plain c (length cs + fuel) s at.0 plain.0 (omega (arith, room))
      ∙ scan_plain cs fuel (after_char c s) at.1 plain.1 (omega (arith, room))

-- The whole of a field: its characters, and what stopped it.
scan_at_dot :
    (mem : Memory) (k : ℕ) (s : Scan)
    → mem s.pos ≡ 0x2e
    → scan_field mem true true true (suc k) s ≡ (Stop.dot, s)
unfolding scan_field
scan_at_dot mem k s at = ground (arith, at)

scan_at_nul :
    (mem : Memory) (dots semis stars : Bool) (k : ℕ) (s : Scan)
    → mem s.pos ≡ 0
    → scan_field mem dots semis stars (suc k) s ≡ (Stop.ended, s)
unfolding scan_field gfc pdelim is_in
scan_at_nul mem dots semis stars k s at = simp at (ground arith)

name_field :
    (mem : Memory) (dots semis stars : Bool) (cs : List ℕ) (s : Scan)
    → Holds mem s.pos cs
    → ArePlain cs
    → length cs ≤ s.room
    → s.room ≤ 8
    → scan_field mem dots semis stars rounds s
      ≡ scan_field mem dots semis stars (suc (9 - length cs)) (after_chars cs s)
name_field mem dots semis stars cs s at plain room small =
    ap (λ (k : ℕ). scan_field mem dots semis stars k s) (omega (arith, room, small))
    ∙ scan_plain mem dots semis stars cs (suc (9 - length cs)) s at plain room

-- The text of a type: nothing, or a dot and the characters. Then the NUL.
unfoldable pub type_text : List ℕ → List ℕ
type_text [] = 0 ∷ []
type_text (c ∷ cs) = 0x2e ∷ c ∷ (cs ++ (0 ∷ []))

-- The text of a drive from 1 to 16, or of none.
unfoldable pub drive_text : ℕ → List ℕ → List ℕ
drive_text zero rest = rest
drive_text (suc n) rest = (0x41 + n) ∷ 0x3a ∷ rest

unfoldable pub file_text : ℕ → List ℕ → List ℕ → List ℕ
file_text drive name kind = drive_text drive (name ++ type_text kind)

pub move_text : (mem : Memory) (p q : ℕ) (cs : List ℕ) → p ≡ q → Holds mem p cs → Holds mem q cs
move_text mem p q cs e h = rw⁻¹ e h

pub split_text :
    (mem : Memory) (pos : ℕ) (cs ds : List ℕ)
    → Holds mem pos (cs ++ ds)
    → Holds mem pos cs × Holds mem (pos + length cs) ds
unfolding Holds
split_text mem pos [] ds h = (refl, move_text mem pos (pos + 0) ds (omega arith) h)
split_text mem pos (c ∷ cs) ds h =
    let r = split_text mem (pos + 1) cs ds h.1 in
    ((h.0, r.0), move_text mem (pos + 1 + length cs) (pos + suc (length cs)) ds (omega arith) r.1)

module _ (mem : Memory) where
  -- The type, from the dot, to the NUL.
  type_read :
      (kind : List ℕ) (s : Scan)
      → Holds mem (s.pos + 1) (kind ++ (0 ∷ []))
      → ArePlain kind
      → length kind ≤ 3
      → (mem (parse_type mem s).pos ≡ 0)
        × ((parse_type mem s).bad ≡ s.bad)
        × ((parse_type mem s).fcb ≡ put_chars s.fcb 9 kind)
  unfolding parse_type after_type Holds
  type_read kind s at plain short =
      let start = record s { pos = s.pos + 1; outp = 9; room = 3 } in
      let text = split_text mem (s.pos + 1) kind (0 ∷ []) at in
      let e = after_chars kind start in
      let facts = after_chars_lem kind start in
      let stop : mem e.pos ≡ 0 = ap mem facts.0 ∙ text.1.0 in
      let field =
        name_field mem false true true kind start text.0 plain short (omega arith)
        ∙ scan_at_nul mem false true true (9 - length kind) e stop in
      simp field (stop, facts.2, facts.3)

  -- From the end of the name.
  tail_read :
      (kind : List ℕ) (k : ℕ) (e : Scan)
      → Holds mem e.pos (type_text kind)
      → ArePlain kind
      → length kind ≤ 3
      → (mem (after_name mem (scan_field mem true true true (suc k) e)).pos ≡ 0)
        × ((after_name mem (scan_field mem true true true (suc k) e)).bad ≡ e.bad)
        × ((after_name mem (scan_field mem true true true (suc k) e)).fcb ≡ put_chars e.fcb 9 kind)
  unfolding after_name type_text Holds put_chars
  tail_read [] k e at plain short =
      simp (scan_at_nul mem true true true k e at.0) (at.0, refl, refl)
  tail_read (d ∷ ds) k e at plain short =
      simp (scan_at_dot mem k e at.0) (type_read (d ∷ ds) e at.1 plain short)

  pub name_read :
      (name kind : List ℕ) (s : Scan)
      → Holds mem s.pos (name ++ type_text kind)
      → ArePlain name
      → ArePlain kind
      → 1 ≤ length name
      → length name ≤ 8
      → length kind ≤ 3
      → (mem (parse_name mem s).pos ≡ 0)
        × ((parse_name mem s).bad ≡ s.bad)
        × ((parse_name mem s).fcb ≡ put_chars (put_chars s.fcb 1 name) 9 kind)
  unfolding parse_name Holds ArePlain IsPlain
  name_read [] kind s at plain plain_kind some_name short short_kind =
      absurd (omega (arith, some_name))
  name_read (c ∷ cs) kind s at plain plain_kind some_name short short_kind =
      let name = c ∷ cs in
      let start = record s { outp = 1; room = 8 } in
      let text = split_text mem s.pos name (type_text kind) at in
      let e = after_chars name start in
      let facts = after_chars_lem name start in
      let tail_at =
        move_text mem (s.pos + length name) e.pos (type_text kind) (sym facts.0) text.1 in
      let tail = tail_read kind (9 - length name) e tail_at plain_kind short_kind in
      let field = name_field mem true true true name start text.0 plain short (omega arith) in
      let more : pdelim (mem s.pos) ≡ false = ap pdelim at.0 ∙ plain.0.0 in
      simp (more, field)
        (tail.0, tail.1 ∙ facts.2, tail.2 ∙ ap (λ (f : ℕ → ℕ). put_chars f 9 kind) facts.3)
