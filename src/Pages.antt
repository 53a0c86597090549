-- ===== src/Pages.antt =====
-- The 64 KB segment allocator, src/bios/pgalloc.c, with the constants of bios/c900cfg.h and the
-- descriptor write of bios/crt.s.
-- The tables pgown, pghld and pgpg are functions of the slot number; every loop of the file stops
-- at `pgnslot`, which is at most PGNSLOT. An `int` that the code uses as a truth value is a Bool.
pub mod Segments
pub mod Invariant
pub mod Keep
pub mod Exchange
pub mod Alloc
pub mod Release
pub mod Reach
pub mod Twice
pub mod Mine
pub mod Tests
use commodore_900_cpm.Base.{
  ℕ, zero, suc, ◌+◌, ◌-◌, ◌*◌, ◌/◌, ◌%◌, ◌^◌, Bool, true, false, not, ◌&&◌,
}
use commodore_900_cpm.Base.{◌||◌, ◌==◌, ltb, leb, if◌then◌else◌, u8, store, bit}
use commodore_900_cpm.Base.{Option, none, some}

abbrev pub tpaseg : ℕ
tpaseg = 0x32

abbrev pub tpaphyspage : ℕ
tpaphyspage = 0x0a

abbrev pub sysphyspage : ℕ
sysphyspage = 0x08

abbrev pub pgseglo : ℕ
pgseglo = 0x28

abbrev pub pgnup : ℕ
pgnup = 8

abbrev pub max_slots : ℕ
max_slots = 38

abbrev pub pgpglo : ℕ
pgpglo = 0x10

-- PGSEG(i).
abbrev pub pgseg : ℕ → ℕ
pgseg i = if ltb i pgnup then pgseglo + i else pgseglo - 1 - (i - pgnup)

-- One MMU descriptor: the base page, in units of 256 bytes, and the attribute.
pub record Descriptor : Type 0 where
  pub base : ℕ
  pub attr : ℕ

abbrev pub normal : ℕ
normal = 0x00

abbrev pub system_only : ℕ
system_only = 0x02

-- The module's variables, and the descriptors of the MMU.
pub record Pool : Type 0 where
  pub own : ℕ → ℕ
  pub held : ℕ → Bool
  pub page : ℕ → ℕ
  pub cur : ℕ
  pub tpaphys : ℕ
  pub nslot : ℕ
  pub bram : ℕ
  pub eram : ℕ
  pub mmu : ℕ → Descriptor

-- mapseg(seg, base, attr).
abbrev pub mapseg : ℕ → ℕ → ℕ → Pool → Pool
mapseg seg b t p = record p { mmu = store p.mmu seg (record { base = b; attr = t }) }

-- pgslot(seg): `none` is the negative answer. The callers refuse a slot past the end as well.
unfoldable pub pgslot : ℕ → Option ℕ
pgslot seg =
    if leb pgseglo seg
    then (if ltb (seg - pgseglo) pgnup then some (seg - pgseglo) else none)
    else some (pgnup + (pgseglo - 1 - seg))

unfoldable pub pgsize : ℕ → ℕ → ℕ
pgsize bram eram =
    let lo = bram / 64 in
    let hi = eram / 64 in
    let n = hi - 1 - pgpglo in
    if ltb sysphyspage lo || leb hi pgpglo
    then 0
    else if leb (hi - 1) pgpglo
    then 0
    else if ltb max_slots n
    then max_slots
    else n

-- pginit(): `pp` is the long at ROMCONF_PP, `bram` and `eram` the words that it leads to, and `old`
-- the descriptors as crt.s left them.
unfoldable pub pginit : ℕ → ℕ → ℕ → (ℕ → Descriptor) → Pool
pginit pp bram eram old =
    let ours = pp / 2 ^ 24 % 128 == 1 in
    record {
      own = λ _. 0;
      held = λ _. false;
      page = λ i. pgpglo + i;
      cur = 0;
      tpaphys = tpaphyspage;
      nslot = if ours then pgsize bram eram else 0;
      bram = if ours then bram else 0;
      eram = if ours then eram else 0;
      mmu = old;
    }

-- The slot that pgalloc() takes, of `rounds` slots from `i` on: the first with no owner.
unfoldable pub first_free : (ℕ → ℕ) → ℕ → ℕ → Option ℕ
first_free own zero i = none
first_free own (suc rounds) i =
    let rest = first_free own rounds (i + 1) in if own i == 0 then some i else rest

-- pgalloc(): the segment, 0 on failure, and the pool.
unfoldable pub take_slot : Pool → ℕ → ℕ × Pool
take_slot p i = (
  pgseg i,
  mapseg (pgseg i) (p.page i * 256) normal (record p { own = store p.own i (u8 (p.cur + 1)) }),
)

unfoldable pub pgalloc : Pool → ℕ × Pool
pgalloc p = elim (first_free p.own p.nslot 0) [ none ↦ (0, p) | some i ↦ take_slot p i ]

-- `i < 0 || i >= pgnslot || !pgown[i]`, negated, at the slot of a segment.
unfoldable pub valid_slot : Pool → ℕ → Option ℕ
valid_slot p seg = elim (pgslot seg) [
  | none ↦ none
  | some i ↦ if ltb i p.nslot && not (p.own i == 0) then some i else none
]

unfoldable pub free_slot : Pool → ℕ → ℕ → Pool
free_slot p seg i =
    mapseg seg (p.page i * 256) system_only
      (record p { own = store p.own i 0; held = store p.held i false })

unfoldable pub pgfree : Pool → ℕ → Bool × Pool
pgfree p seg = elim (valid_slot p seg) [ none ↦ (false, p) | some i ↦ (true, free_slot p seg i) ]

-- pgmine(seg, off, len, lo); `top` is the variable sysstk of the stack code.
unfoldable pub pgmine : Pool → ℕ → ℕ → ℕ → ℕ → ℕ → Bool
pgmine p top seg off len lo =
    if seg == tpaseg
    then true
    else if seg == 0x3f
    then leb lo off && leb off top && leb len (top - off)
    else elim (pgslot seg) [ none ↦ false | some i ↦ ltb i p.nslot && (p.own i == p.cur + 1) ]

unfoldable pub pghold : Pool → ℕ → Bool → Bool × Pool
pghold p seg on = elim (valid_slot p seg) [
  | none ↦ (false, p)
  | some i ↦ (true, record p { held = store p.held i on })
]

-- The loop of pgheld().
unfoldable pub any_held : Pool → ℕ → ℕ → Bool
any_held p zero i = false
any_held p (suc rounds) i = (not (p.own i == 0) && p.held i) || any_held p rounds (i + 1)

unfoldable pub pgheld : Pool → Bool
pgheld p = any_held p p.nslot 0

unfoldable pub swap_slot : Pool → ℕ → ℕ → Pool
swap_slot p seg i =
    let old = p.tpaphys in
    mapseg seg (old * 256) normal (
      mapseg tpaseg (p.page i * 256) normal
        (record p { tpaphys = p.page i; page = store p.page i old }))

unfoldable pub pgtpaswap : Pool → ℕ → Bool × Pool
pgtpaswap p seg = elim (valid_slot p seg) [ none ↦ (false, p) | some i ↦ (true, swap_slot p seg i) ]

-- The slot that pgtparest() finds: the first on the boot page of the TPA.
unfoldable pub home_slot : (ℕ → ℕ) → ℕ → ℕ → Option ℕ
home_slot page zero i = none
home_slot page (suc rounds) i =
    let rest = home_slot page rounds (i + 1) in if page i == tpaphyspage then some i else rest

unfoldable pub restore_slot : Pool → ℕ → Pool
restore_slot p i =
    let attr = if p.own i == 0 then system_only else normal in
    mapseg (pgseg i) (p.tpaphys * 256) attr (
      mapseg tpaseg (tpaphyspage * 256) normal
        (record p { page = store p.page i p.tpaphys; tpaphys = tpaphyspage }))

unfoldable pub pgtparest : Pool → Bool × Pool
pgtparest p =
    if p.tpaphys == tpaphyspage
    then (false, p)
    else elim (home_slot p.page p.nslot 0) [ none ↦ (false, p) | some i ↦ (true, restore_slot p i) ]

-- The loop of pgcount().
unfoldable pub count_free : (ℕ → ℕ) → ℕ → ℕ → ℕ
count_free own zero i = 0
count_free own (suc rounds) i = bit (own i == 0) + count_free own rounds (i + 1)

unfoldable pub pgcount : Pool → ℕ
pgcount p = count_free p.own p.nslot 0

-- The loop of pgrelproc(), over `rounds` slots from `i` on.
unfoldable pub release_from : Pool → ℕ → ℕ → Pool
release_from p zero i = p
release_from p (suc rounds) i =
    release_from
      (if (p.own i == u8 (p.cur + 1)) && not (p.held i) then (pgfree p (pgseg i)).1 else p) rounds
      (i + 1)

unfoldable pub pgrelproc : Pool → Pool
pgrelproc p = release_from p p.nslot 0

unfoldable pub pgrelall : Pool → Pool
pgrelall p = pgrelproc (if pgheld p then p else (pgtparest p).1)
