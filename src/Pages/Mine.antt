-- ===== src/Pages/Mine.antt =====
-- pgmine() of src/bios/pgalloc.c: what a process may have copied into.
use commodore_900_cpm.Base.{
  ℕ, ◌+◌, ◌≤◌, ◌<◌, ◌≡◌, ◌≢◌, ◌⊎◌, inl, inr, sym, ap, ◌∙◌, arith, Option-cases, true,
}
use native.Mathlib.Decide.{ℕ_discrete}
use commodore_900_cpm.Pages.{Pool, pgseg, tpaseg, max_slots, pgslot, pgmine}
use commodore_900_cpm.Pages.Segments.{pgslot-pgseg, pgseg-injective}
use commodore_900_cpm.Pages.Reach.{run_process}

-- A segment that the running process owns.
abbrev pub IsOwned : Pool → ℕ → Type 0
IsOwned p seg = (i : ℕ) × (i < p.nslot) × (p.own i ≡ p.cur + 1) × (seg ≡ pgseg i)

-- On a pool of at most PGNSLOT slots, a copy that pgmine() allows goes to the TPA, or into the
-- supervisor stack at or above `lo` and no further than its top, or to a segment of the pool that
-- the running process owns.
pub pgmine_lem :
    (p : Pool) (top seg off len lo : ℕ)
    → p.nslot ≤ max_slots
    → pgmine p top seg off len lo ≡ true
    → (seg ≡ tpaseg) ⊎ (((seg ≡ 0x3f) × (lo ≤ off) × (off + len ≤ top)) ⊎ IsOwned p seg)
unfolding pgmine
pgmine_lem p top seg off len lo f e = elim (Option-cases (pgslot seg)) [
  | inl n ↦ ground (arith, n)
  | inr (i, s) ↦ elim (ℕ_discrete seg tpaseg) [
    | yes t ↦ inl t
    | no t ↦ elim (ℕ_discrete seg 0x3f) [
      | yes u ↦ inr (inl (u, ground (arith, u), ground (arith, u)))
      | no u ↦
          let h : i < p.nslot = ground (arith, s) in
          inr (inr (i, h, ground (arith, s), (pgslot-pgseg i seg (omega (arith, f, h))).1 s))
    ]
  ]
]

-- On one pool of at most PGNSLOT slots, a segment that pgmine() allows to a process `a` and, with
-- that process scheduled out, to a process `b` other than it, is the TPA or the supervisor stack.
pub pgmine-exclusive :
    (p : Pool) (top seg off len lo a b : ℕ)
    → p.nslot ≤ max_slots
    → pgmine (run_process a p) top seg off len lo ≡ true
    → pgmine (run_process b p) top seg off len lo ≡ true
    → a ≢ b
    → (seg ≡ tpaseg) ⊎ (seg ≡ 0x3f)
unfolding run_process
pgmine-exclusive p top seg off len lo a b f g h n =
    elim (pgmine_lem (run_process a p) top seg off len lo f g) [
      | inl t ↦ inl t
      | inr (inl u) ↦ inr u.0
      | inr (inr (i, q, o, e)) ↦ elim (pgmine_lem (run_process b p) top seg off len lo f h) [
        | inl t ↦ inl t
        | inr (inl u) ↦ inr u.0
        | inr (inr (j, r, c, d)) ↦
            let s : i ≡ j =
              pgseg-injective i j (omega (arith, q, f)) (omega (arith, r, f)) (sym e ∙ d) in
            absurd (n (omega (arith, sym o ∙ ap p.own s ∙ c)))
      ]
    ]
