-- ===== src/ParseName/Tests.antt =====
-- The properties of the file name parser, applied to `B:PIP.COM`.
use commodore_900_cpm.Base.{ℕ, List, [], ◌∷◌, get_or}
use commodore_900_cpm.Base.{◌≡◌, refl, arith, some}
use commodore_900_cpm.ParseName.{Memory, Parsed, pdelim, is_in, parsefn}
use commodore_900_cpm.ParseName.Shape.{IsFcb}
use commodore_900_cpm.ParseName.Ends.{parsefn-total}
use commodore_900_cpm.ParseName.RoundTrip.{
  Holds, IsPlain, ArePlain, put_chars, type_text, drive_text, file_text,
}
use commodore_900_cpm.ParseName.Names.{drive_fcb, parsefn-file_text}

abbrev pip : List ℕ
pip = 80 ∷ 73 ∷ 80 ∷ []

abbrev command : List ℕ
command = 67 ∷ 79 ∷ 77 ∷ []

abbrev text : Memory
text i = get_or (66 ∷ 58 ∷ 80 ∷ 73 ∷ 80 ∷ 46 ∷ 67 ∷ 79 ∷ 77 ∷ 0 ∷ []) i 0

text-Holds : Holds text 0 (file_text 2 pip command)
unfolding Holds file_text drive_text type_text
text-Holds = (refl, (refl, (refl, (refl, (refl, (refl, (refl, (refl, (refl, (refl, refl))))))))))

pip-ArePlain : ArePlain pip
unfolding ArePlain IsPlain pdelim is_in
pip-ArePlain = (
  (refl, omega arith, omega arith, λ e. absurd (omega (arith, e))),
  (
    (refl, omega arith, omega arith, λ e. absurd (omega (arith, e))),
    ((refl, omega arith, omega arith, λ e. absurd (omega (arith, e))), refl),
  ),
)

command-ArePlain : ArePlain command
unfolding ArePlain IsPlain pdelim is_in
command-ArePlain = (
  (refl, omega arith, omega arith, λ e. absurd (omega (arith, e))),
  (
    (refl, omega arith, omega arith, λ e. absurd (omega (arith, e))),
    ((refl, omega arith, omega arith, λ e. absurd (omega (arith, e))), refl),
  ),
)

parsefn-file_text_example :
    parsefn text 1 0
    ≡ some (record { fcb = put_chars (put_chars (drive_fcb 2) 1 pip) 9 command; value = 0 })
parsefn-file_text_example =
    parsefn-file_text text 0 0 2 pip command text-Holds (omega arith) pip-ArePlain command-ArePlain
      (omega arith) (omega arith) (omega arith)

parsefn-total_example : (r : Parsed) × (parsefn text 20 0 ≡ some r) × IsFcb r.fcb
parsefn-total_example = parsefn-total text 20 0 9 refl (omega arith) (omega arith)
