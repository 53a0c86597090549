-- ===== src/Pages/Reach.antt =====
-- Every order of calls into src/bios/pgalloc.c after pginit(), with the change of the running
-- process that PCUR of src/bdos/proc.c makes between them.
use commodore_900_cpm.Base.{ℕ, ◌*◌, ◌<◌, ◌≡◌, ◌≢◌, ◌⊎◌, inl, inr, refl, sym, ◌∙◌, ap, arith, Bool}
use commodore_900_cpm.Pages.{Pool, Descriptor, pgseg, tpaseg, tpaphyspage, normal}
use commodore_900_cpm.Pages.{
  pginit, pgalloc, pgfree, pghold, pgtpaswap, pgtparest, pgrelproc, pgrelall,
}
use commodore_900_cpm.Pages.Segments.{pgsize_bounds}
use commodore_900_cpm.Pages.Invariant.{InPool, IsWell, initial-IsPermuted}
use commodore_900_cpm.Pages.Keep.{pgalloc-IsWell, pgfree-IsWell, pghold-IsWell}
use commodore_900_cpm.Pages.Exchange.{pgtpaswap-IsWell, pgtparest-home}
use commodore_900_cpm.Pages.Release.{pgrelproc-IsWell, pgrelall-IsWell}

-- PCUR(x).
unfoldable pub run_process : ℕ → Pool → Pool
run_process x p = record p { cur = x }

-- One call, with any argument.
pub data Step : Pool → Pool → Type 0 where
  alloc : (p : Pool) → Step p (pgalloc p).1
  free : (p : Pool) (seg : ℕ) → Step p (pgfree p seg).1
  hold : (p : Pool) (seg : ℕ) (on : Bool) → Step p (pghold p seg on).1
  exchange : (p : Pool) (seg : ℕ) → Step p (pgtpaswap p seg).1
  restore : (p : Pool) → Step p (pgtparest p).1
  release : (p : Pool) → Step p (pgrelproc p)
  release_all : (p : Pool) → Step p (pgrelall p)
  schedule : (x : ℕ) (p : Pool) → Step p (run_process x p)

pub data Steps : Pool → Pool → Type 0 where
  start : (p : Pool) → Steps p p
  then : (p q r : Pool) → Steps p q → Step q r → Steps p r

Step-IsWell : (p q : Pool) → Step p q → IsWell p → IsWell q
unfolding run_process
Step-IsWell p _ (alloc _) w = pgalloc-IsWell p w
Step-IsWell p _ (free _ seg) w = pgfree-IsWell p seg w
Step-IsWell p _ (hold _ seg on) w = pghold-IsWell p seg on w
Step-IsWell p _ (exchange _ seg) w = pgtpaswap-IsWell p seg w
Step-IsWell p _ (restore _) w = (pgtparest-home p w).2
Step-IsWell p _ (release _) w = pgrelproc-IsWell p w
Step-IsWell p _ (release_all _) w = pgrelall-IsWell p w
Step-IsWell p _ (schedule x _) w = record {
  fits = w.fits;
  pages = w.pages;
  maps = record { tpa_mapped = w.maps.tpa_mapped; slot_mapped = w.maps.slot_mapped };
}

Steps-IsWell : (p q : Pool) → Steps p q → IsWell p → IsWell q
Steps-IsWell p _ (start _) w = w
Steps-IsWell p r (then _ q _ s t) w = Step-IsWell q r t (Steps-IsWell p q s w)

-- What crt.s leaves in the TPA's descriptor.
abbrev pub boot_descriptor : Descriptor
boot_descriptor = record { base = tpaphyspage * 256; attr = normal }

pub pginit-IsWell :
    (pp bram eram : ℕ) (old : ℕ → Descriptor)
    → old tpaseg ≡ boot_descriptor
    → IsWell (pginit pp bram eram old)
unfolding pginit
pginit-IsWell pp bram eram old e = record {
  fits = ground (arith, (pgsize_bounds bram eram).0);
  pages = initial-IsPermuted (pginit pp bram eram old).nslot;
  maps = record { tpa_mapped = e; slot_mapped = λ i h o. absurd (o refl) };
}

-- A segment that programs may reach: the TPA's, or that of an owned slot.
abbrev pub IsLive : Pool → ℕ → Type 0
IsLive p seg = (seg ≡ tpaseg) ⊎ ((i : ℕ) × (i < p.nslot) × (p.own i ≢ 0) × (seg ≡ pgseg i))

-- The page that a segment is mapped onto for Normal mode is one of the pool's or the TPA's own.
abbrev pub IsPageOf : Pool → ℕ → Type 0
IsPageOf p seg = (x : ℕ) × (p.mmu seg ≡ record { base = x * 256; attr = normal }) × InPool p.nslot x

module _ (p : Pool) (w : IsWell p) where
  tpa_base : (p.mmu tpaseg).base ≡ p.tpaphys * 256
  tpa_base = rw w.maps.tpa_mapped refl

  slot_base : (i : ℕ) → i < p.nslot → p.own i ≢ 0 → (p.mmu (pgseg i)).base ≡ p.page i * 256
  slot_base i h o = rw (w.maps.slot_mapped i h o) refl

  live-IsPageOf : (seg : ℕ) → IsLive p seg → IsPageOf p seg
  live-IsPageOf seg (inl e) = (p.tpaphys, rw e w.maps.tpa_mapped, w.pages.tpa_range)
  live-IsPageOf seg (inr (i, h, o, e)) =
      (p.page i, rw e (w.maps.slot_mapped i h o), w.pages.page_range i h)

  live_apart : (s t : ℕ) → IsLive p s → IsLive p t → s ≢ t → (p.mmu s).base ≢ (p.mmu t).base
  live_apart s t (inl a) (inl b) n e = n (a ∙ sym b)
  live_apart s t (inl a) (inr (j, h, o, b)) n e =
      w.pages.apart j h (omega (arith, tpa_base, slot_base j h o, rw (a, b) at e))
  live_apart s t (inr (i, g, k, a)) (inl b) n e =
      w.pages.apart i g (omega (arith, tpa_base, slot_base i g k, rw (a, b) at e))
  live_apart s t (inr (i, g, k, a)) (inr (j, h, o, b)) n e =
      let same_page : p.page i ≡ p.page j =
        omega (arith, slot_base i g k, slot_base j h o, rw (a, b) at e) in
      n (a ∙ ap (λ (x : ℕ). pgseg x) (w.pages.distinct i j g h same_page) ∙ sym b)

-- After pginit(), with the TPA's descriptor as crt.s leaves it and any ROM report, and after any
-- sequence of the allocator's calls with any arguments and any changes of the running process:
-- of two different segments that are live, which are the TPA's and those of owned slots, each is
-- mapped for Normal mode onto the TPA's boot page or onto a page of the pool, and the two onto
-- different pages.
pub Steps-IsPageOf :
    (pp bram eram : ℕ) (old : ℕ → Descriptor) (q : Pool) (s t : ℕ)
    → old tpaseg ≡ boot_descriptor
    → Steps (pginit pp bram eram old) q
    → IsLive q s
    → IsLive q t
    → s ≢ t
    → IsPageOf q s × IsPageOf q t × ((q.mmu s).base ≢ (q.mmu t).base)
Steps-IsPageOf pp bram eram old q s t e r l m n =
    let w = Steps-IsWell (pginit pp bram eram old) q r (pginit-IsWell pp bram eram old e) in
    (live-IsPageOf q w s l, live-IsPageOf q w t m, live_apart q w s t l m n)
