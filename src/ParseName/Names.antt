-- ===== src/ParseName/Names.antt =====
-- parsefn() of src/bdos/parsefn.c on the text of a file name.
use commodore_900_cpm.Base.{ℕ, zero, suc, ◌+◌, ◌-◌, ◌≤◌, ◌<◌, false}
use commodore_900_cpm.Base.{u8, store, ◌≡◌, ◌≢◌, refl, ap, ◌∙◌, arith, some}
use commodore_900_cpm.Base.{List, [], ◌∷◌, ◌++◌, length}
use commodore_900_cpm.ParseName.{
  Memory, Scan, pdelim, is_in, pupper, parse_name, parse_fields, finish, parsefn, skip_blanks,
  ok_value, blank_fcb,
}
use commodore_900_cpm.ParseName.RoundTrip.{
  Holds, ArePlain, put_chars, type_text, drive_text, file_text, name_read, plain_stops, move_text,
}

-- The FCB that the name's characters are put into.
unfoldable pub drive_fcb : ℕ → ℕ → ℕ
drive_fcb zero = blank_fcb
drive_fcb (suc d) = store blank_fcb 0 (suc d)

-- Where the name starts: not at a blank, and with no colon in the second place.
no_drive :
    (mem : Memory) (pos c : ℕ) (cs kind : List ℕ)
    → Holds mem pos ((c ∷ cs) ++ type_text kind)
    → ArePlain (c ∷ cs)
    → parse_fields mem pos
      ≡ parse_name mem (record { pos = pos; outp = 1; room = 8; bad = false; fcb = blank_fcb })
unfolding parse_fields Holds ArePlain type_text
no_drive mem pos c [] [] at plain = ground (arith, at)
no_drive mem pos c [] (k ∷ ks) at plain = ground (arith, at)
no_drive mem pos c (d ∷ ds) kind at plain =
    let other = plain_stops d plain.1.0 in ground (arith, at, other)

drive_letter : (n : ℕ) → n < 16 → (pdelim (0x41 + n) ≡ false) × (pupper (0x41 + n) ≡ 0x41 + n)
unfolding pdelim is_in pupper
drive_letter n lt = (ground arith, ground arith)

with_drive :
    (mem : Memory) (pos n : ℕ)
    → mem pos ≡ 0x41 + n
    → n < 16
    → mem (pos + 1) ≡ 0x3a
    → parse_fields mem pos
      ≡ parse_name mem (record {
        pos = pos + 2;
        outp = 1;
        room = 8;
        bad = false;
        fcb = store blank_fcb 0 (n + 1);
      })
unfolding parse_fields
with_drive mem pos n at lt colon =
    let letter = drive_letter n lt in
    let byte : u8 (0x41 + n - 0x41 + 1) ≡ n + 1 = omega (arith, lt) in
    simp (at, colon, letter.0, letter.1) (ground (arith, byte, lt))

starts_here :
    (mem : Memory) (fuel pos c : ℕ)
    → mem pos ≡ c
    → c ≢ 0x20
    → c ≢ 9
    → skip_blanks mem (suc fuel) pos ≡ some pos
unfolding skip_blanks
starts_here mem fuel pos c at blank tab = ground (arith, at, blank, tab)

nul_value : (mem : Memory) (stop q : ℕ) → mem q ≡ 0 → ok_value mem stop q ≡ 0
unfolding ok_value pdelim is_in
nul_value mem stop q at = simp at refl

read_out :
    (mem : Memory) (fuel : ℕ) (f : ℕ → ℕ) (s : Scan)
    → mem s.pos ≡ 0
    → s.bad ≡ false
    → s.fcb ≡ f
    → finish mem (suc fuel) s ≡ some (record { fcb = f; value = 0 })
unfolding finish
read_out mem fuel f s at good same =
    let stop =
      starts_here mem fuel s.pos 0 at (λ e. absurd (omega (arith, e)))
        (λ e. absurd (omega (arith, e))) in
    simp (good, stop, nul_value mem s.pos s.pos at, same) refl

-- The text of a file name, with no drive or a drive from A to P, a name of one to eight characters
-- and a type of none to three, ended by a NUL, is read back: the parse returns 0 and an FCB that has
-- the drive's number and the characters, with blanks and zeros in every other place. The characters
-- are any from blank to 5Fh and the grave accent that are neither delimiters nor '*'.
pub parsefn-file_text :
    (mem : Memory) (fuel fname drive : ℕ) (name kind : List ℕ)
    → Holds mem fname (file_text drive name kind)
    → drive ≤ 16
    → ArePlain name
    → ArePlain kind
    → 1 ≤ length name
    → length name ≤ 8
    → length kind ≤ 3
    → parsefn mem (suc fuel) fname
      ≡ some (record { fcb = put_chars (put_chars (drive_fcb drive) 1 name) 9 kind; value = 0 })
unfolding parsefn file_text drive_text drive_fcb Holds ArePlain
parsefn-file_text mem fuel fname drive [] kind at le plain plain_kind some_name short short_kind =
    absurd (omega (arith, some_name))
parsefn-file_text mem fuel fname zero (c ∷ cs) kind at le plain plain_kind some_name short
      short_kind =
    let n = plain_stops c plain.0 in
    let r =
      name_read mem (c ∷ cs) kind
        (record { pos = fname; outp = 1; room = 8; bad = false; fcb = blank_fcb }) at plain
        plain_kind some_name short short_kind in
    simp (starts_here mem fuel fname c at.0 n.3 n.4, no_drive mem fname c cs kind at plain)
      (read_out mem fuel (put_chars (put_chars blank_fcb 1 (c ∷ cs)) 9 kind) _ r.0 r.1 r.2)
parsefn-file_text mem fuel fname (suc d) (c ∷ cs) kind at le plain plain_kind some_name short
      short_kind =
    let text =
      move_text mem (fname + 1 + 1) (fname + 2) ((c ∷ cs) ++ type_text kind) (omega arith) at.1.1 in
    let start : Scan = record {
      pos = fname + 2;
      outp = 1;
      room = 8;
      bad = false;
      fcb = store blank_fcb 0 (d + 1);
    } in
    let r = name_read mem (c ∷ cs) kind start text plain plain_kind some_name short short_kind in
    let number : d + 1 ≡ suc d = omega arith in
    simp
      (
        starts_here mem fuel fname (0x41 + d) at.0 (λ e. absurd (omega (arith, e)))
            (λ e. absurd (omega (arith, e))),
        with_drive mem fname d at.0 (omega (arith, le)) at.1.0,
      )
      (read_out mem fuel (put_chars (put_chars (store blank_fcb 0 (suc d)) 1 (c ∷ cs)) 9 kind)
        (parse_name mem start) r.0 r.1
        (r.2
          ∙ ap (λ (n : ℕ). put_chars (put_chars (store blank_fcb 0 n) 1 (c ∷ cs)) 9 kind) number))
