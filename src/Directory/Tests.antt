-- ===== src/Directory/Tests.antt =====
-- The properties of the directory signatures, applied to a directory with one file.
use commodore_900_cpm.Base.{ℕ, Bool, true, false, not, [], ◌∷◌, get_or, ◌==◌, u8}
use commodore_900_cpm.Base.{◌≡◌, refl, inl, arith, if◌then◌else◌}
use commodore_900_cpm.Directory.{
  Bytes, Gbl, Hash, ScanFunc, dhset, dhadd, dhopen, dhdone, dhname, hash_bytes, extent_word,
  add_entries, login_hash, wanted, match, match_bytes, is_create, matches_with_extent, scan_filter,
  dhstart, dhcand, name_filter, has_wildcard, passes_over,
}
use commodore_900_cpm.Directory.Filter.{Signs, IsBytes, passes_over-wanted}
use commodore_900_cpm.Directory.Runs.{System, Step, Reachable, Reachable-passes_over, selected}
use commodore_900_cpm.Directory.Unread.{login_hash_unread}

-- user 0, `PIP.COM`, with the read-only attribute, extent 0
abbrev file : Bytes
file i = u8 (get_or (0 ∷ 80 ∷ 73 ∷ 80 ∷ 32 ∷ 32 ∷ 32 ∷ 32 ∷ 32 ∷ 195 ∷ 79 ∷ 77 ∷ []) i 0)

abbrev wanted_file : Bytes
wanted_file i = u8 (get_or (0 ∷ 80 ∷ 73 ∷ 80 ∷ 32 ∷ 32 ∷ 32 ∷ 32 ∷ 32 ∷ 67 ∷ 79 ∷ 77 ∷ []) i 0)

abbrev empty_slot : Bytes
empty_slot i = 0xe5

abbrev directory : ℕ → Bytes
directory i = if i == 5 then file else empty_slot

abbrev drive : Gbl
drive = record { curdsk = 0; cks = 0; exm = 1 }

abbrev blank : Hash
blank = record { nam = λ _. 0; ext = λ _. 0; usr = λ _. 0; dhok = false; dhbld = false; dhdrv = 0 }

abbrev on : ℕ → ℕ
on d = 1

file-IsBytes : IsBytes file
unfolding IsBytes
file-IsBytes i = omega arith

wanted_file-IsBytes : IsBytes wanted_file
unfolding IsBytes
wanted_file-IsBytes i = omega arith

file-wanted : wanted drive ScanFunc.openfile wanted_file file ≡ true
unfolding wanted is_create matches_with_extent match match_bytes
file-wanted = refl

abbrev seven : ℕ → ℕ
seven d = 7

abbrev zeros : ℕ → ℕ
zeros d = 0

abbrev ones : ℕ → ℕ
ones d = 1

-- The drives before the login, and after a record is written.
abbrev booted : System
booted = record { dirs = λ d. directory; table = blank }

abbrev logged_in : System
logged_in = record booted {
  table = login_hash on (selected on seven zeros ones 0) 0 7 directory (λ _. true) blank;
}

logged_in-Reachable : Reachable on seven zeros ones logged_in
logged_in-Reachable = Reachable.step (Reachable.start booted refl) (Step.login booted 0)

Reachable-passes_over_example :
    passes_over logged_in.table
      (scan_filter (selected on seven zeros ones 0) 1 logged_in.table ScanFunc.openfile wanted_file)
      5
    ≡ false
unfolding selected
Reachable-passes_over_example =
    Reachable-passes_over on seven zeros ones 0 1 5 logged_in.table ScanFunc.openfile wanted_file
      logged_in-Reachable (omega arith) wanted_file-IsBytes file-IsBytes (omega arith) (omega arith)
      file-wanted

logged_in-on : logged_in.table.dhok ≡ true
unfolding login_hash dhopen dhdone add_entries dhadd dhset selected
logged_in-on = refl

-- The filter of the same scan passes over the empty slot beside the file.
unwanted_slot :
    passes_over logged_in.table
      (scan_filter drive 1 logged_in.table ScanFunc.openfile wanted_file)
      4
    ≡ true
unfolding passes_over scan_filter dhstart dhcand name_filter has_wildcard is_create
    matches_with_extent login_hash dhopen dhdone add_entries dhadd dhset dhname hash_bytes
    extent_word selected
unwanted_slot = refl

file-Signs : Signs (dhset 5 file blank) 5 file
unfolding Signs dhset
file-Signs = (refl, refl, refl)

passes_over-wanted_example :
    passes_over (dhset 5 file blank) (scan_filter drive 1 blank ScanFunc.openfile wanted_file) 5
    ≡ false
passes_over-wanted_example =
    passes_over-wanted drive 1 blank (dhset 5 file blank) ScanFunc.openfile wanted_file file 5
      (omega arith) wanted_file-IsBytes file-IsBytes (λ _ _. file-Signs) file-wanted

abbrev not_five : ℕ → Bool
not_five i = not (i == 5)

login_hash_unread_example :
    ((login_hash on drive 0 7 directory not_five blank).dhok ≡ true)
    × ((login_hash on drive 0 7 directory not_five blank).dhdrv ≡ 0)
    × ((login_hash on drive 0 7 directory not_five blank).usr 5 ≡ 0)
    × ((login_hash on drive 0 7 directory not_five blank).nam 5 ≡ 0)
    × ((login_hash on drive 0 7 directory not_five blank).ext 5 ≡ 0)
login_hash_unread_example =
    login_hash_unread on drive 0 7 5 directory not_five blank refl (omega arith)
      (λ e. absurd (omega (arith, e))) (inl refl) refl
