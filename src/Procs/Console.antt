-- ===== src/Procs/Console.antt =====
-- Consoles and their owners in src/bdos/proc.c. Ownership is the bits of `pd_catt`.
use commodore_900_cpm.Base.{
  ℕ, zero, suc, ◌+◌, Bool, true, false, not, ◌&&◌, ◌||◌, ◌==◌, leb, if◌then◌else◌, store, Option,
  none, some,
}
use commodore_900_cpm.Procs.{
  Sched, Proc, put_proc, pnproc, is_live, pw_catt, padopt, next_from, wake_proc,
}

unfoldable pub pconget : Sched → ℕ × Sched
unfolding padopt
pconget s = let t = padopt s in ((t.pd t.cur).con, t)

unfoldable pub pconset : ℕ → Sched → Sched
unfolding padopt
pconset con s =
    let t = padopt s in
    record (put_proc t.cur (record (t.pd t.cur) { con = con }) t) { concur = con }

-- A loop over `rounds` descriptors from `i` on: the first that passes the test.
unfoldable pub find_from : (ℕ → Bool) → ℕ → ℕ → Option ℕ
find_from test zero i = none
find_from test (suc rounds) i =
    let rest = find_from test rounds (i + 1) in if test i then some i else rest

-- The comparison of `rounds` name bytes from `j` on.
unfoldable pub same_name : (ℕ → ℕ) → (ℕ → ℕ) → ℕ → ℕ → Bool
same_name a b zero j = true
same_name a b (suc rounds) j = (a j == b j) && same_name a b rounds (j + 1)

unfoldable pub pconname : (ℕ → ℕ) → ℕ → Sched → Bool × Sched
unfolding padopt find_from same_name
pconname name con s =
    let t = padopt s in
    elim (find_from (λ i. is_live (t.pd i).state && same_name (t.pd i).name name 8 0) pnproc 0) [
      | none ↦ (false, t)
      | some i ↦ (
        true,
        (let u = put_proc i (record (t.pd i) { con = con }) t in
            if i == u.cur then record u { concur = con } else u),
      )
    ]

-- pconown(con): none for -1.
unfoldable pub pconown : ℕ → Sched → Option ℕ
unfolding find_from
pconown con s = find_from (λ i. is_live (s.pd i).state && (s.pd i).catt con) pnproc 0

unfoldable pub pconmine : ℕ → Sched → Bool
unfolding pconown
pconmine con s =
    if s.nlive == 0 then true else elim (pconown con s) [ none ↦ true | some o ↦ o == s.cur ]

-- `pd_catt |= (1 << con)`
abbrev pub attached : ℕ → Proc → Proc
attached con p = record p { catt = store p.catt con true }

abbrev pub detached : ℕ → Proc → Proc
detached con p = record p { catt = store p.catt con false }

-- The test of pconhand() on one descriptor.
unfoldable pub wants : ℕ → Proc → Bool
wants con p = is_live p.state && (p.wait == pw_catt) && (p.wobj == con)

unfoldable pub pconhand : ℕ → Sched → Sched
unfolding next_from wants wake_proc
pconhand con s = elim (next_from (λ j. wants con (s.pd j)) pnproc s.cur) [
  | none ↦ s
  | some j ↦ wake_proc j (put_proc j (attached con (s.pd j)) s)
]

-- pconatt(con) up to the answer, or to the wait for the console's owner. `ncon` is PNCON.
pub data Attach : Type 0 where
  refused : Attach
  granted : Attach
  waits : Attach

unfoldable pub pconatt : ℕ → ℕ → Sched → Attach × Sched
unfolding padopt pconown
pconatt ncon con s =
    let t = padopt s in
    if leb ncon con
    then (refused, t)
    else if (t.pd t.cur).catt con
    then (granted, t)
    else elim (pconown con t) [
      | none ↦ (granted, put_proc t.cur (attached con (t.pd t.cur)) t)
      | some o ↦ (waits, t)
    ]

unfoldable pub pcondet : ℕ → ℕ → Sched → Bool × Sched
unfolding padopt pconhand
pcondet ncon con s =
    let t = padopt s in
    if leb ncon con || not ((t.pd t.cur).catt con)
    then (false, t)
    else (true, pconhand con (put_proc t.cur (detached con (t.pd t.cur)) t))

-- The loop of pconrel() over the bits of the mask `m`.
unfoldable pub hand_from : (ℕ → Bool) → ℕ → ℕ → Sched → Sched
unfolding pconhand
hand_from m zero c s = s
hand_from m (suc rounds) c s = hand_from m rounds (c + 1) (if m c then pconhand c s else s)

-- pconrel(): a short has sixteen bits.
unfoldable pub pconrel : Sched → Sched
unfolding hand_from
pconrel s =
    let me = s.pd s.cur in
    let m = λ (c : ℕ). me.catt c && not (c == me.chome) in
    if s.nlive == 0
    then s
    else hand_from m 16 0
        (put_proc s.cur (record me { catt = λ c. me.catt c && (c == me.chome) }) s)
