-- ===== src/Procs/Images.antt =====
-- Where the image and the resident state of each process of src/bdos/proc.c are, and that a switch
-- moves the machine and leaves both with their process.
use native.Mathlib.Decide.{ℕ_discrete}
use commodore_900_cpm.Base.{
  ℕ, ◌<◌, Bool, true, false, ◌==◌, if◌then◌else◌, Option, none, some, store, ◌≡◌, ◌≢◌, ◌⊎◌, refl,
  ap, sym, inl, inr, ◌∙◌, arith, Bool-cases, store_self, store_ne,
}
use commodore_900_cpm.Pages.{Pool, pgslot, valid_slot, pgtpaswap, swap_slot}
use commodore_900_cpm.Pages.Keep.{valid_slot-some}
use commodore_900_cpm.Procs.{Sched, Proc, Context, pnproc, is_live, pcur_set}
use commodore_900_cpm.Procs.Switch.{pgone, exchange_images, hand_over}

-- The page of a pool slot, if there is a slot.
abbrev pub page_at : Pool → Option ℕ → ℕ
page_at p none = 0
page_at p (some k) = p.page k

-- The physical page of a process's image: the TPA's while it runs, its parking slot's otherwise.
abbrev pub page_of : Sched → ℕ → ℕ
page_of s i = if i == s.cur then s.pool.tpaphys else page_at s.pool (pgslot (s.pd i).seg)

-- A process's resident state.
abbrev pub context : Sched → ℕ → Context
context s i = if i == s.cur then s.resident else (s.pd i).saved

abbrev pub IsLive : Sched → ℕ → Type 0
IsLive s i = is_live (s.pd i).state ≡ true

-- The running process is live and stands on the TPA; each other live process is parked on an owned
-- slot of the pool, no two on one.
pub record IsPlaced (s : Sched) : Type 0 where
  pub small : s.cur < pnproc
  pub running : IsLive s s.cur
  pub home : (s.pd s.cur).seg ≡ 0
  pub parked :
      (i : ℕ)
      → i < pnproc
      → IsLive s i
      → i ≢ s.cur
      → ((s.pd i).seg ≢ 0) × ((k : ℕ) × (valid_slot s.pool (s.pd i).seg ≡ some k))
  pub apart :
      (i j : ℕ)
      → i < pnproc
      → j < pnproc
      → IsLive s i
      → IsLive s j
      → i ≢ s.cur
      → j ≢ s.cur
      → (s.pd i).seg ≡ (s.pd j).seg
      → i ≡ j

-- Every live process keeps its image's page and its resident state.
abbrev pub Keeps : Sched → Sched → Type 0
Keeps s t =
    (i : ℕ)
    → i < pnproc
    → IsLive s i
    → IsLive t i × (page_of t i ≡ page_of s i) × (context t i ≡ context s i)

pgslot_inj : (a b k : ℕ) → pgslot a ≡ some k → pgslot b ≡ some k → a ≡ b
unfolding pgslot
pgslot_inj a b k p q = ground arith

pub image_running : (t : Sched) (i : ℕ) → i ≡ t.cur → page_of t i ≡ t.pool.tpaphys
image_running t i e = let same : (i == t.cur) ≡ true = ground arith in rw same refl

pub image_parked :
    (t : Sched) (i k : ℕ) → i ≢ t.cur → pgslot (t.pd i).seg ≡ some k → page_of t i ≡ t.pool.page k
image_parked t i k ne e =
    let no_match : (i == t.cur) ≡ false = ground arith in rw (no_match, e) refl

pub context_running : (t : Sched) (i : ℕ) → i ≡ t.cur → context t i ≡ t.resident
context_running t i e = let same : (i == t.cur) ≡ true = ground arith in rw same refl

pub context_parked : (t : Sched) (i : ℕ) → i ≢ t.cur → context t i ≡ (t.pd i).saved
context_parked t i ne = let no_match : (i == t.cur) ≡ false = ground arith in rw no_match refl

-- What the exchange with a valid slot leaves of the pool.
module _ (p : Pool) (seg k : ℕ) (e : valid_slot p seg ≡ some k) where
  pub swap_tpa : (pgtpaswap p seg).1.tpaphys ≡ p.page k
  unfolding pgtpaswap swap_slot
  swap_tpa = rw (e, pgtpaswap) refl

  pub swap_page : (pgtpaswap p seg).1.page ≡ store p.page k p.tpaphys
  unfolding pgtpaswap swap_slot
  swap_page = rw (e, pgtpaswap) refl

  pub swap_valid : (other : ℕ) → valid_slot (pgtpaswap p seg).1 other ≡ valid_slot p other
  unfolding pgtpaswap swap_slot valid_slot
  swap_valid other = rw (e, pgtpaswap) refl

-- Two processes that were one, or had changed places with the successor, are one.
one_owner :
    (i j x y nxt cur : ℕ)
    → i ≢ nxt
    → j ≢ nxt
    → ((i ≡ cur) × (x ≡ nxt)) ⊎ ((i ≢ cur) × (x ≡ i))
    → ((j ≡ cur) × (y ≡ nxt)) ⊎ ((j ≢ cur) × (y ≡ j))
    → x ≡ y
    → i ≡ j
one_owner i j x y nxt cur a b p q e = ground arith

-- A switch to a live process other than the running one, whose resident state has been saved.
module _ (s : Sched) (nxt : ℕ) (w : IsPlaced s) (lt : nxt < pnproc) (alive : IsLive s nxt)
    (other : nxt ≢ s.cur) where
  abbrev park_seg : ℕ
  park_seg = (s.pd nxt).seg

  pub gone : pgone nxt s ≡ hand_over nxt (exchange_images nxt park_seg s)
  unfolding pgone
  gone =
      let nonzero : (park_seg == 0) ≡ false = ground (arith, (w.parked nxt lt alive other).0) in
      ap (λ (b : Bool). hand_over nxt (if b then s else exchange_images nxt park_seg s)) nonzero

  -- The successor's descriptor is not the one that the exchange has written.
  successor : store s.pd s.cur (record (s.pd s.cur) { seg = park_seg }) nxt ≡ s.pd nxt
  successor = store_ne s.pd s.cur (record (s.pd s.cur) { seg = park_seg }) nxt other

  gone_pd :
      (j : ℕ)
      → (pgone nxt s).pd j ≡ (
          if j == nxt
          then record (s.pd nxt) { seg = 0 }
          else if j == s.cur
          then record (s.pd s.cur) { seg = park_seg }
          else s.pd j)
  unfolding exchange_images hand_over pcur_set
  gone_pd j =
      ap (λ (t : Sched). t.pd j) gone
      ∙ ap
          (λ (q : Proc).
            if j == nxt
            then record q { seg = 0 }
            else if j == s.cur
            then record (s.pd s.cur) { seg = park_seg }
            else s.pd j)
          successor

  gone_pool : (pgone nxt s).pool ≡ record (pgtpaswap s.pool park_seg).1 { cur = nxt }
  unfolding exchange_images hand_over pcur_set
  gone_pool = ap (λ (t : Sched). t.pool) gone

  gone_resident : (pgone nxt s).resident ≡ (s.pd nxt).saved
  unfolding exchange_images hand_over pcur_set
  gone_resident =
      let out = store s.pd s.cur (record (s.pd s.cur) { seg = park_seg }) in
      ap (λ (t : Sched). t.resident) gone
      ∙ ap (λ (q : Proc). q.saved) (store_self out nxt (record (out nxt) { seg = 0 }))
      ∙ ap (λ (q : Proc). q.saved) successor

  pub gone_cur : (pgone nxt s).cur ≡ nxt
  unfolding exchange_images hand_over pcur_set
  gone_cur = ap (λ (t : Sched). t.cur) gone

  pub gone_field :
      {X : Type 0} (f : Proc → X) (j : ℕ)
      → ((q : Proc) (n : ℕ) → f (record q { seg = n }) ≡ f q)
      → f ((pgone nxt s).pd j) ≡ f (s.pd j)
  gone_field f j same = ap f (gone_pd j) ∙ elim (Bool-cases (j == nxt)) [
    | inl e ↦ let here : j ≡ nxt = ground arith in rw (e, here) (same (s.pd nxt) 0)
    | inr e ↦ elim (Bool-cases (j == s.cur)) [
      | inl g ↦ let here : j ≡ s.cur = ground arith in rw (e, g, here) (same (s.pd s.cur) park_seg)
      | inr g ↦ rw (e, g) refl
    ]
  ]

  gone_seg :
      (j : ℕ)
      → ((pgone nxt s).pd j).seg
        ≡ (if j == nxt then 0 else if j == s.cur then park_seg else (s.pd j).seg)
  gone_seg j = ap (λ (q : Proc). q.seg) (gone_pd j) ∙ elim (Bool-cases (j == nxt)) [
    | inl e ↦ rw e refl
    | inr e ↦ elim (Bool-cases (j == s.cur)) [ inl g ↦ rw (e, g) refl | inr g ↦ rw (e, g) refl ]
  ]

  -- Where the images are afterwards.
  module _ (k : ℕ) (valid : valid_slot s.pool park_seg ≡ some k) where
    image_next : page_of (pgone nxt s) nxt ≡ page_of s nxt
    image_next =
        image_running (pgone nxt s) nxt (sym gone_cur)
        ∙ ap (λ (p : Pool). p.tpaphys) gone_pool
        ∙ swap_tpa s.pool park_seg k valid
        ∙ sym (image_parked s nxt k other (valid_slot-some s.pool park_seg k valid).0)

    gone_page : (pgone nxt s).pool.page ≡ store s.pool.page k s.pool.tpaphys
    gone_page = ap (λ (p : Pool). p.page) gone_pool ∙ swap_page s.pool park_seg k valid

    left_seg : ((pgone nxt s).pd s.cur).seg ≡ park_seg
    left_seg =
        let ne : (s.cur == nxt) ≡ false = ground arith in
        let self : (s.cur == s.cur) ≡ true = ground arith in gone_seg s.cur ∙ rw (ne, self) refl

    else_seg : (j : ℕ) → j ≢ nxt → j ≢ s.cur → ((pgone nxt s).pd j).seg ≡ (s.pd j).seg
    else_seg j a b =
        let ne : (j == nxt) ≡ false = ground arith in
        let no_self : (j == s.cur) ≡ false = ground arith in gone_seg j ∙ rw (ne, no_self) refl

    image_left : page_of (pgone nxt s) s.cur ≡ page_of s s.cur
    image_left =
        image_parked (pgone nxt s) s.cur k (λ e. other (sym (e ∙ gone_cur)))
          (ap pgslot left_seg ∙ (valid_slot-some s.pool park_seg k valid).0)
        ∙ ap (λ (f : ℕ → ℕ). f k) gone_page
        ∙ store_self s.pool.page k s.pool.tpaphys
        ∙ sym (image_running s s.cur refl)

    image_else :
        (j : ℕ)
        → j < pnproc
        → IsLive s j
        → j ≢ nxt
        → j ≢ s.cur
        → page_of (pgone nxt s) j ≡ page_of s j
    image_else j h l a b =
        let (m, v) = (w.parked j h l b).1 in
        let slot = (valid_slot-some s.pool (s.pd j).seg m v).0 in
        let far : m ≢ k = λ e. a (
          w.apart j nxt h lt l alive b other (
            pgslot_inj (s.pd j).seg park_seg k (slot ∙ ap some e)
              (valid_slot-some s.pool park_seg k valid).0)) in
        image_parked (pgone nxt s) j m (λ e. a (e ∙ gone_cur)) (ap pgslot (else_seg j a b) ∙ slot)
        ∙ ap (λ (f : ℕ → ℕ). f m) gone_page
        ∙ store_ne s.pool.page k s.pool.tpaphys m far
        ∙ sym (image_parked s j m b slot)

    gone_valid : (seg : ℕ) → valid_slot (pgone nxt s).pool seg ≡ valid_slot s.pool seg
    unfolding valid_slot
    gone_valid seg =
        ap (λ (p : Pool). valid_slot p seg) gone_pool ∙ swap_valid s.pool park_seg k valid seg

    -- The segment on which each process that does not run is parked afterwards was one before.
    was_parked :
        (i : ℕ)
        → i < pnproc
        → IsLive s i
        → i ≢ nxt
        → (j : ℕ) × (j < pnproc)
          × IsLive s j
          × (j ≢ s.cur)
          × (((pgone nxt s).pd i).seg ≡ (s.pd j).seg)
          × (((i ≡ s.cur) × (j ≡ nxt)) ⊎ ((i ≢ s.cur) × (j ≡ i)))
    was_parked i h l a = elim (ℕ_discrete i s.cur) [
      | yes e ↦
          (nxt, lt, alive, other, ap (λ m. ((pgone nxt s).pd m).seg) e ∙ left_seg, inl (e, refl))
      | no b ↦ (i, h, l, b, else_seg i a b, inr (b, refl))
    ]

    pub gone-IsPlaced : IsPlaced (pgone nxt s)
    gone-IsPlaced = record {
      small = rw gone_cur lt;
      running = rw gone_cur (gone_field (λ q. is_live q.state) nxt (λ q n. refl) ∙ alive);
      home =
          ap (λ m. ((pgone nxt s).pd m).seg) gone_cur
          ∙ gone_seg nxt
          ∙ (let self : (nxt == nxt) ≡ true = ground arith in rw self refl);
      parked = λ i h l a.
          let l' : IsLive s i = sym (gone_field (λ q. is_live q.state) i (λ q n. refl)) ∙ l in
          let (j, small, on, off, same, how) = was_parked i h l' (λ e. a (e ∙ sym gone_cur)) in
          let old = w.parked j small on off in
          (
            (λ e. old.0 (sym same ∙ e)),
            (old.1.0, gone_valid ((pgone nxt s).pd i).seg ∙ ap (valid_slot s.pool) same ∙ old.1.1),
          );
      apart = λ i j hi hj li lj a b e.
          let a' : i ≢ nxt = λ r. a (r ∙ sym gone_cur) in
          let b' : j ≢ nxt = λ r. b (r ∙ sym gone_cur) in
          let li' : IsLive s i = sym (gone_field (λ q. is_live q.state) i (λ q n. refl)) ∙ li in
          let lj' : IsLive s j = sym (gone_field (λ q. is_live q.state) j (λ q n. refl)) ∙ lj in
          let (x, hx, lx, ox, sx, whox) = was_parked i hi li' a' in
          let (y, hy, ly, oy, sy, whoy) = was_parked j hj lj' b' in
          one_owner i j x y nxt s.cur a' b' whox whoy
            (w.apart x y hx hy lx ly ox oy (sym sx ∙ e ∙ sy));
    }

    pub gone-Keeps : (s.pd s.cur).saved ≡ s.resident → Keeps s (pgone nxt s)
    gone-Keeps kept = λ i h l. (
      gone_field (λ q. is_live q.state) i (λ q n. refl) ∙ l,
      elim (ℕ_discrete i nxt) [
        | yes e ↦ rw e image_next
        | no a ↦ elim (ℕ_discrete i s.cur) [ yes f ↦ rw f image_left | no b ↦ image_else i h l a b ]
      ],
      elim (ℕ_discrete i nxt) [
        | yes e ↦
            context_running (pgone nxt s) i (e ∙ sym gone_cur)
            ∙ gone_resident
            ∙ ap (λ m. (s.pd m).saved) (sym e)
            ∙ sym (context_parked s i (λ f. other (sym e ∙ f)))
        | no a ↦
            context_parked (pgone nxt s) i (λ e. a (e ∙ gone_cur))
            ∙ gone_field (λ q. q.saved) i (λ q n. refl)
            ∙ elim (ℕ_discrete i s.cur) [
              | yes f ↦ ap (λ m. (s.pd m).saved) f ∙ kept ∙ sym (context_running s i f)
              | no b ↦ sym (context_parked s i b)
            ]
      ],
    )
