-- ===== src/Buffer/Fresh.antt =====
-- What src/bdos/dskutil.c keeps true of every process's copy of a directory record.
use commodore_900_cpm.Base.{
  ℕ, ◌+◌, ◌%◌, ◌/◌, ◌≤◌, ◌<◌, Bool, true, false, store, store_self, store_ne, Option, none, some,
  ◌≡◌, ◌≢◌, ◌⊎◌, inl, inr, refl, ap, ◌∙◌, arith,
}
use native.Mathlib.Decide.{ℕ_discrete}
use commodore_900_cpm.Buffer.{Phase, Proc}

module _ {R : Type 0} where
  module _ (disk : ℕ → ℕ → R) (writes : ℕ → ℕ) (unmarked : ℕ → Bool) where
    -- The copy is of record `sec`, as the disk has it unless its drive has been written since, or an
    -- attempt to write it has failed.
    unfoldable pub IsCopy : Proc R → ℕ → Type 0
    IsCopy p sec =
        (p.seen ≤ writes (p.curdsk % 16))
        × ((p.seen ≢ writes (p.curdsk % 16))
            ⊎ ((unmarked (p.curdsk % 16) ≡ true) ⊎ (p.buf ≡ disk p.curdsk sec)))

    unfoldable pub IsPublished : Proc R → Option ℕ → Type 0
    IsPublished p none = true ≡ true
    IsPublished p (some sec) = IsCopy p sec

    -- An idle process that an abort has left with dirown has no copy.
    unfoldable pub InPhase : Proc R → Phase → Type 0
    InPhase p Phase.idle = IsPublished p p.dirsecn × ((p.dirown ≡ false) ⊎ (p.dirsecn ≡ none))
    InPhase p (Phase.sampled sec) = p.seen ≤ writes (p.curdsk % 16)
    InPhase p (Phase.transferred sec) = IsCopy p sec
    InPhase p Phase.editing = true ≡ true
    InPhase p Phase.refused = true ≡ true
    InPhase p Phase.aborted = true ≡ true

    -- A process whose drive is one of the sixteen.
    unfoldable pub IsCoherent : Proc R → Type 0
    IsCoherent p = (16 ≤ p.curdsk) ⊎ InPhase p p.phase

  -- Another process's step, seen at drive `c`: the count has moved, or an attempt has failed, or the
  -- drive is as it was.
  module _ (disk disk' : ℕ → ℕ → R) (w w' : ℕ → ℕ) (u u' : ℕ → Bool) where
    abbrev pub Change : ℕ → Type 0
    Change c =
        (w' (c % 16) ≡ w (c % 16) + 1)
        ⊎ (((w' (c % 16) ≡ w (c % 16)) × (u' (c % 16) ≡ true))
            ⊎ ((w' (c % 16) ≡ w (c % 16)) × (u' (c % 16) ≡ u (c % 16)) × (disk' c ≡ disk c)))

    module _ (p : Proc R) (change : Change p.curdsk) where
      seen_survives : p.seen ≤ w (p.curdsk % 16) → p.seen ≤ w' (p.curdsk % 16)
      seen_survives le = elim change [
        | inl e ↦ omega (arith, e, le)
        | inr either ↦ elim either [
          | inl e ↦ omega (arith, e.0, le)
          | inr e ↦ omega (arith, e.0, le)
        ]
      ]

      IsCopy-survives : (s : ℕ) → IsCopy disk w u p s → IsCopy disk' w' u' p s
      unfolding IsCopy
      IsCopy-survives s c = elim change [
        | inl e ↦ (omega (arith, e, c.0), inl (λ q. omega (arith, e, c.0, q)))
        | inr either ↦ elim either [
          | inl e ↦ (omega (arith, e.0, c.0), inr (inl e.1))
          | inr e ↦ simp (e.0, e.1, ap (λ (g : ℕ → R). g s) e.2) c
        ]
      ]

      IsPublished-survives : (o : Option ℕ) → IsPublished disk w u p o → IsPublished disk' w' u' p o
      unfolding IsPublished
      IsPublished-survives none c = refl
      IsPublished-survives (some s) c = IsCopy-survives s c

      InPhase-survives : (f : Phase) → InPhase disk w u p f → InPhase disk' w' u' p f
      unfolding InPhase
      InPhase-survives Phase.idle c = (IsPublished-survives p.dirsecn c.0, c.1)
      InPhase-survives (Phase.sampled s) c = seen_survives c
      InPhase-survives (Phase.transferred s) c = IsCopy-survives s c
      InPhase-survives Phase.editing c = refl
      InPhase-survives Phase.refused c = refl
      InPhase-survives Phase.aborted c = refl

    pub survives :
        ((c : ℕ) → c < 16 → Change c)
        → (p : Proc R) → IsCoherent disk w u p
        → IsCoherent disk' w' u' p
    unfolding IsCoherent
    survives change p c = elim (ℕ_discrete (p.curdsk / 16) 0) [
      | yes small ↦ elim c [
        | inl large ↦ absurd (omega (arith, small, large))
        | inr phase ↦
            inr (InPhase-survives p (change p.curdsk (omega (arith, small))) p.phase phase)
      ]
      | no large ↦ inl (omega (arith, large))
    ]

  -- The three ways in which a step of dir_wr() on drive `d` changes what the processes share.
  module _ (disk : ℕ → ℕ → R) (w : ℕ → ℕ) (u : ℕ → Bool) (d sec : ℕ) (new : R)
      (drive : d < 16) where
    abbrev pub written : ℕ → ℕ → R
    written = store disk d (store (disk d) sec new)

    abbrev pub counted : ℕ → ℕ
    counted = store w (d % 16) (w (d % 16) + 1)

    abbrev pub marked : Bool → ℕ → Bool
    marked b = store u (d % 16) b

    elsewhere : (c : ℕ) → c < 16 → c ≢ d → (c % 16) ≢ (d % 16)
    elsewhere c lt ne = λ e. ne (omega (arith, e, lt, drive))

    counted_here : (c : ℕ) → c ≡ d → counted (c % 16) ≡ w (c % 16) + 1
    counted_here c e = simp e (store_self w (d % 16) (w (d % 16) + 1))

    pub counted-Change :
        (disk' : ℕ → ℕ → R)
        → ((c : ℕ) → c ≢ d → disk' c ≡ disk c)
        → (c : ℕ) → c < 16
        → Change disk disk' w counted u (marked false) c
    counted-Change disk' far c lt = elim (ℕ_discrete c d) [
      | yes e ↦ inl (counted_here c e)
      | no ne ↦ inr (
          inr (
            store_ne w (d % 16) (w (d % 16) + 1) (c % 16) (elsewhere c lt ne),
            store_ne u (d % 16) false (c % 16) (elsewhere c lt ne),
            far c ne,
          ))
    ]

    pub written_far : (c : ℕ) → c ≢ d → written c ≡ disk c
    written_far c ne = store_ne disk d (store (disk d) sec new) c ne

    pub attempted-Change : (c : ℕ) → c < 16 → Change disk written w w u (marked true) c
    attempted-Change c lt = elim (ℕ_discrete c d) [
      | yes e ↦ inr (inl (refl, ap (λ k. marked true (k % 16)) e ∙ store_self u (d % 16) true))
      | no ne ↦
          inr (inr (refl, store_ne u (d % 16) true (c % 16) (elsewhere c lt ne), written_far c ne))
    ]
