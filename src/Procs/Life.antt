-- ===== src/Procs/Life.antt =====
-- The start and the end of a process in src/bdos/proc.c: pcrgen(), pmrtseg(), pmrtrel() and
-- procdead(). The loader and the resets that pcrgen() does in the child's state enter as what they
-- leave.
use commodore_900_cpm.Base.{
  ℕ, ◌+◌, Bool, true, false, ◌&&◌, ◌||◌, ◌==◌, ltb, if◌then◌else◌, u16, u8, Option, none, some,
}
use commodore_900_cpm.Pages.{pgalloc, pgfree, pghold, pgtpaswap, pgrelproc}
use commodore_900_cpm.Procs.{
  Sched, Proc, Context, Status, is_free, dec16, put_proc, pnproc, pw_run, pqfor, padopt, pnextany,
  punblk,
}
use commodore_900_cpm.Procs.Lock.{lock_take, punlock, plkdrop}
use commodore_900_cpm.Procs.Switch.{psave, hand_over}
use commodore_900_cpm.Procs.Console.{find_from, pconrel}

-- pmrtseg()
unfoldable pub pmrtseg : Sched → ℕ × Sched
pmrtseg s =
    let me = s.pd s.cur in
    if me.mrtseg == 0
    then (let (seg, pool) = pgalloc s.pool in
        (seg, put_proc s.cur (record me { mrtseg = seg }) (record s { pool = pool })))
    else (me.mrtseg, s)

-- pmrtrel()
unfoldable pub pmrtrel : Sched → Sched
pmrtrel s =
    let me = s.pd s.cur in
    if me.mrtseg == 0
    then s
    else put_proc s.cur (record me { mrtseg = 0 }) (record s { pool = (pgfree s.pool me.mrtseg).1 })

-- procdead() up to the test whether the process ends.
unfoldable pub release_all : Sched → Sched
unfolding pmrtrel plkdrop pconrel
release_all s = pconrel (plkdrop (pmrtrel s))

-- The exchange with the successor and the return of the dead page.
unfoldable pub bury_image : ℕ → ℕ → Sched → Sched
bury_image nxt seg s =
    let pool = (pgfree (pghold (pgtpaswap s.pool seg).1 seg false).1 seg).1 in
    put_proc nxt (record (s.pd nxt) { seg = 0 }) (record s { pool = pool })

-- `punblk(); pd_state = PS_FREE; pd_seg = 0; pnlive--;`, with the count of split programs.
unfoldable pub clear_descriptor : Sched → Sched
unfolding punblk
clear_descriptor s =
    let n = if (s.pd s.cur).saved.spflag then dec16 s.nsplit else s.nsplit in
    let t = punblk (record s { nsplit = n }) in
    record (put_proc t.cur (record (t.pd t.cur) { state = Status.free; seg = 0 }) t) {
      nlive = dec16 t.nlive;
    }

-- procdead(): true where the process has ended and its successor runs.
unfoldable pub procdead : Sched → Bool × Sched
unfolding release_all pnextany bury_image clear_descriptor hand_over
procdead s =
    let t = release_all s in
    if ltb t.nlive 2 || (t.cur == 0) || (t.pd t.cur).sess
    then (false, t)
    else let r = record t { pool = pgrelproc t.pool } in
      let nxt = pnextany r.cur r in
      let u = clear_descriptor (bury_image nxt (r.pd nxt).seg r) in
      (true, hand_over nxt (record u { psched = ltb 1 u.nlive }))

-- What pcrgen() answers, and where it has claimed a slot and a page.
pub data Claim : Type 0 where
  no_descriptor : Claim
  no_page : Claim
  claimed : (slot seg : ℕ) → Claim

unfoldable pub claim_page : ℕ → Sched → Claim × Sched
claim_page i s =
    let (seg, pool) = pgalloc s.pool in
    if seg == 0 then (no_page, s) else (
      claimed i seg,
      put_proc i (record (s.pd i) { state = Status.reserved }) (record s { pool = pool }),
    )

-- pcrgen() up to plock(), at which it may wait.
unfoldable pub create_claim : Sched → Claim × Sched
unfolding padopt find_from claim_page
create_claim s =
    let t = padopt s in
    elim (find_from (λ i. is_free (t.pd i).state) pnproc 0) [
      | none ↦ (no_descriptor, t)
      | some i ↦ claim_page i t
    ]

-- What the loader leaves: its code, the child's resident state and frame, its default DMA and the
-- name that the request gave.
pub record Loaded : Type 0 where
  pub code : ℕ
  pub context : Context
  pub frame : ℕ → ℕ
  pub dma0 : ℕ
  pub name : ℕ → ℕ

-- The code of the load, with PL_NOSPLIT and the count of split programs.
unfoldable pub load_code : Loaded → Sched → ℕ
load_code l s =
    let k = if l.code == 4 then 7 else l.code in
    if (k == 0) && l.context.spflag && ltb 0 s.nsplit then 7 else k

-- `pgtpaswap(seg)` twice, with the load between, and the lock around.
unfoldable pub load_image : ℕ → Sched → Sched
unfolding lock_take psave punlock
load_image seg s =
    let t = psave (lock_take s) in
    let back = (pgtpaswap (pgtpaswap t.pool seg).1 seg).1 in
    let u = put_proc t.cur (record (t.pd t.cur) { seg = 0 }) (record t { pool = back }) in
    punlock (record u { noyld = false })

-- `con < 0 ? me->pd_con : con`
abbrev pub child_console : Option ℕ → ℕ → ℕ
child_console none parent = parent
child_console (some n) parent = n

-- The child's descriptor. `con` is none where the child inherits its parent's.
unfoldable pub child : Option ℕ → Bool → ℕ → Loaded → Proc → Proc → Proc
unfolding pqfor
child con sess seg l me kid =
    let c = child_console con me.con in
    let user = if sess then u8 c else l.context.user in
    record kid {
      state = Status.live;
      seg = seg;
      con = c;
      chome = c;
      name = λ j. if ltb j 8 then l.name j else kid.name j;
      sess = sess;
      prio = me.prio;
      quant = pqfor me.prio;
      dma0 = l.dma0;
      frame = l.frame;
      saved = record l.context { user = user };
      inc = false;
      wait = pw_run;
    }

-- The claim given back. The loader's success has already recorded the default DMA.
unfoldable pub unclaimed : Loaded → Proc → Proc
unclaimed l kid = record kid {
  state = Status.free;
  dma0 = if l.code == 0 then l.dma0 else kid.dma0;
}

-- pcrgen() from plock() on, and its code.
unfoldable pub create_build : Option ℕ → Bool → ℕ → ℕ → Loaded → Sched → ℕ × Sched
unfolding load_code load_image child unclaimed
create_build con sess i seg l s =
    let t = load_image seg s in
    let k = load_code l s in
    if k == 0
    then (
      0,
      record (put_proc i (child con sess seg l (t.pd t.cur) (t.pd i)) t) {
        pool = (pghold t.pool seg true).1;
        nsplit = if l.context.spflag then u16 (t.nsplit + 1) else t.nsplit;
        nlive = u16 (t.nlive + 1);
        psched = true;
        resident = (t.pd t.cur).saved;
      },
    )
    else (
      k,
      record (put_proc i (unclaimed l (t.pd i)) t) {
        pool = (pgfree t.pool seg).1;
        resident = (t.pd t.cur).saved;
      },
    )
