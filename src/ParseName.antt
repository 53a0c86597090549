-- ===== src/ParseName.antt =====
-- The file name parser, BDOS function 152, src/bdos/parsefn.c.
-- The caller's memory is a function of the address, and cpy_bi() reads it. The module data pos, outp,
-- room and bad and the FCB under construction are a `Scan`; outp is the offset in the FCB. The two
-- loops over blanks stop only at another character, so they run on fuel and answer `none` without
-- it; the loops over a field stop by themselves, and ten rounds are always enough.
use commodore_900_cpm.Base.{
  ℕ, zero, suc, ◌+◌, ◌-◌, ◌*◌, ◌/◌, ◌%◌, ◌^◌, Bool, true, false, not, ◌&&◌, ◌||◌,
}
use commodore_900_cpm.Base.{◌==◌, ltb, leb, if◌then◌else◌, u16, u8, store, bit_and}
use commodore_900_cpm.Base.{List, [], ◌∷◌, Option, none, some}
pub mod Fields
pub mod Shape
pub mod Ends
pub mod RoundTrip
pub mod Names
mod Tests

infixl 1 ◌>>=◌
abbrev ◌>>=◌ : {A B : Type 0} → Option A → (A → Option B) → Option B
none >>= f = none
some a >>= f = f a

abbrev pub Memory : Type 0
Memory = ℕ → ℕ

abbrev pub tab : ℕ
tab = 9

abbrev pub cr : ℕ
cr = 13

-- CR TAB blank . , : ; [ ] = < > | NUL
abbrev pub delims : List ℕ
delims =
    cr ∷ tab ∷ 0x20 ∷ 0x2e ∷ 0x2c ∷ 0x3a ∷ 0x3b ∷ 0x5b ∷ 0x5d ∷ 0x3d ∷ 0x3c ∷ 0x3e ∷ 0x7c ∷ 0 ∷ []

unfoldable pub is_in : List ℕ → ℕ → Bool
is_in [] c = false
is_in (d ∷ ds) c = if c == d then true else is_in ds c

unfoldable pub pdelim : ℕ → Bool
pdelim c = is_in delims c

unfoldable pub pupper : ℕ → ℕ
pupper c = if ltb c 0x61 then c else if leb c 0x7a then bit_and c 0x5f else bit_and c 0x7f

pub record Scan : Type 0 where
  pub pos : ℕ
  pub outp : ℕ
  pub room : ℕ
  pub bad : Bool
  pub fcb : ℕ → ℕ

-- `*outp++ = '?'` while there is room
unfoldable pub fill : ℕ → ℕ → (ℕ → ℕ) → ℕ → ℕ
fill outp zero fcb = fcb
fill outp (suc room) fcb = fill (outp + 1) room (store fcb outp 0x3f)

-- The rest of gfc, on a character that is no delimiter: pos is past it.
unfoldable pub take_char : Bool → ℕ → Scan → Bool × Scan
take_char stars c s =
    if ltb c 0x20
    then (false, record s { bad = true })
    else if s.room == 0
    then (false, record s { bad = true })
    else if stars && (c == 0x2a)
    then (true, record s { outp = s.outp + s.room; room = 0; fcb = fill s.outp s.room s.fcb })
    else (true, record s { outp = s.outp + 1; room = s.room - 1; fcb = store s.fcb s.outp (u8 c) })

-- The answer of gfc, and the state it leaves.
unfoldable pub gfc : Memory → Bool → Scan → Bool × Scan
gfc mem stars s =
    if pdelim (mem s.pos)
    then (false, s)
    else take_char stars (pupper (mem s.pos)) (record s { pos = s.pos + 1 })

-- How the loop over a field came to its end.
pub data Stop : Type 0 where
  dot semicolon ended unfinished : Stop

-- The loop over the name (`dots` and `semis`), the type (`semis`) or the password (neither).
unfoldable pub scan_field : Memory → Bool → Bool → Bool → ℕ → Scan → Stop × Scan
scan_field mem dots semis stars zero s = (Stop.unfinished, s)
scan_field mem dots semis stars (suc fuel) s =
    let g = gfc mem stars s in
    let rest = scan_field mem dots semis stars fuel g.1 in
    if dots && (mem s.pos == 0x2e)
    then (Stop.dot, s)
    else if semis && (mem s.pos == 0x3b)
    then (Stop.semicolon, s)
    else if not g.0
    then (Stop.ended, g.1)
    else rest

abbrev pub rounds : ℕ
rounds = 10

-- `while (blank or tab) pos++`
unfoldable pub skip_blanks : Memory → ℕ → ℕ → Option ℕ
skip_blanks mem zero pos = none
skip_blanks mem (suc fuel) pos =
    let rest = skip_blanks mem fuel (pos + 1) in
    if (mem pos == 0x20) || (mem pos == tab) then rest else some pos

-- parse0: blanks in the name, the type and the password, and zeros.
unfoldable pub blank_fcb : ℕ → ℕ
blank_fcb i = if leb 1 i && leb i 11 then 0x20 else if leb 16 i && leb i 23 then 0x20 else 0

unfoldable pub parse_password : Memory → Scan → Scan
parse_password mem s =
    let start = record s { pos = s.pos + 1; outp = 16; room = 8 } in
    let p = (scan_field mem false false false rounds start).1 in
    record p { fcb = store p.fcb 26 (u8 (8 - p.room)) }

unfoldable pub after_type : Memory → Stop × Scan → Scan
after_type mem (Stop.semicolon, s) = parse_password mem s
after_type mem (_, s) = s

unfoldable pub parse_type : Memory → Scan → Scan
parse_type mem s =
    after_type mem
      (scan_field mem false true true rounds (record s { pos = s.pos + 1; outp = 9; room = 3 }))

unfoldable pub after_name : Memory → Stop × Scan → Scan
after_name mem (Stop.dot, s) = parse_type mem s
after_name mem (Stop.semicolon, s) = parse_password mem s
after_name mem (_, s) = s

-- A delimiter right here ends the whole parse.
unfoldable pub parse_name : Memory → Scan → Scan
parse_name mem s =
    let n = record s { outp = 1; room = 8 } in
    if pdelim (mem s.pos) then n else after_name mem (scan_field mem true true true rounds n)

-- From the first character that is not a blank, up to `done`.
unfoldable pub parse_fields : Memory → ℕ → Scan
parse_fields mem pos =
    let s : Scan = record { pos = pos; outp = 1; room = 8; bad = false; fcb = blank_fcb } in
    let c = mem pos in
    let d = pupper c in
    if not (c == 0) && (mem (pos + 1) == 0x3a)
    then if pdelim c
      then s
      else if ltb d 0x41 || ltb (0x41 + 15) d
      then record s { bad = true }
      else parse_name mem (record s { pos = pos + 2; fcb = store blank_fcb 0 (u8 (d - 0x41 + 1)) })
    else parse_name mem s

-- What the caller gets: the FCB and the value.
pub record Parsed : Type 0 where
  pub fcb : ℕ → ℕ
  pub value : ℕ

-- parse$ok, when the blanks after the name end at `q`
unfoldable pub ok_value : Memory → ℕ → ℕ → ℕ
ok_value mem stop q =
    if pdelim (mem q) then if (mem q == 0) || (mem q == cr) then 0 else u16 q else u16 stop

unfoldable pub finish : Memory → ℕ → Scan → Option Parsed
finish mem fuel s = if s.bad then some (record { fcb = s.fcb; value = 0xffff }) else do
  q ← skip_blanks mem fuel s.pos
  some (record { fcb = s.fcb; value = ok_value mem s.pos q })

unfoldable pub parsefn : Memory → ℕ → ℕ → Option Parsed
parsefn mem fuel fname = do pos ← skip_blanks mem fuel fname; finish mem fuel (parse_fields mem pos)
