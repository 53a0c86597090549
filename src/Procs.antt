-- ===== src/Procs.antt =====
-- The process table of src/bdos/proc.c and proc.h: descriptors, wait reasons, the wake-ups and the
-- choice of the next process. The children model the rest of proc.c: the switch, the file-system
-- lock, the consoles, the end of a process.
-- A WORD that counts is a number below 2^16. What the machine saves for a process that is not
-- running is the record Context; `pd_f` is its words in order.
pub mod Lock
pub mod Switch
pub mod Console
pub mod Life
pub mod Counts
pub mod Wakes
pub mod Turns
pub mod Images
pub mod Dispatch
pub mod Alike
pub mod Exclusion
pub mod Guarded
pub mod Tests
use commodore_900_cpm.Base.{
  ℕ, zero, suc, ◌+◌, ◌-◌, ◌*◌, ◌/◌, ◌%◌, ◌^◌, Bool, true, false, not, ◌&&◌, ◌||◌, ◌==◌, ltb, leb,
  if◌then◌else◌, u16, u32, store, Option, none, some,
}
use commodore_900_cpm.Pages.{Pool}

abbrev pub pnproc : ℕ
pnproc = 6

-- PS_FREE, PS_LIVE, PS_RSVD.
pub data Status : Type 0 where
  free : Status
  live : Status
  reserved : Status

abbrev pub is_live : Status → Bool
is_live Status.free = false
is_live Status.live = true
is_live Status.reserved = false

abbrev pub is_free : Status → Bool
is_free Status.free = true
is_free Status.live = false
is_free Status.reserved = false

-- The wait reasons PW_RUN and the rest.
abbrev pub pw_run : ℕ
pw_run = 0

abbrev pub pw_tick : ℕ
pw_tick = 1

abbrev pub pw_flag : ℕ
pw_flag = 2

abbrev pub pw_qrd : ℕ
pw_qrd = 3

abbrev pub pw_qwr : ℕ
pw_qwr = 4

abbrev pub pw_con : ℕ
pw_con = 5

abbrev pub pw_lock : ℕ
pw_lock = 6

abbrev pub pw_catt : ℕ
pw_catt = 7

-- The resident state that psave() and pload() copy: gbls (its user number apart), the RSX chain, the
-- bounds of the TPA and spflag.
pub record Context : Type 0 where
  pub gbl : ℕ → ℕ
  pub user : ℕ
  pub rsxhead : ℕ
  pub rsxtop : ℕ
  pub tpa_lp : ℕ
  pub tpa_lt : ℕ
  pub tpa_hp : ℕ
  pub tpa_ht : ℕ
  pub spflag : Bool

-- struct pdesc. `catt` tells for each console whether its bit is set.
pub record Proc : Type 0 where
  pub state : Status
  pub seg : ℕ
  pub con : ℕ
  pub name : ℕ → ℕ
  pub sess : Bool
  pub prio : ℕ
  pub dma0 : ℕ
  pub frame : ℕ → ℕ
  pub saved : Context
  pub stk : ℕ
  pub inc : Bool
  pub wait : ℕ
  pub wobj : ℕ
  pub wtick : ℕ
  pub quant : ℕ
  pub catt : ℕ → Bool
  pub chome : ℕ
  pub mrtseg : ℕ

-- The variables of proc.c, with the resident state of the running process and the allocator's pool.
-- `lkown` is none for -1.
pub record Sched : Type 0 where
  pub pd : ℕ → Proc
  pub cur : ℕ
  pub nlive : ℕ
  pub nwait : ℕ
  pub nsplit : ℕ
  pub lkown : Option ℕ
  pub lkdep : ℕ
  pub noyld : Bool
  pub concur : ℕ
  pub sysstk : ℕ
  pub pquant : ℕ
  pub psched : Bool
  pub resident : Context
  pub pool : Pool

-- What tickget() answers while the scan is at a descriptor, and conststat() there for a console.
pub record World : Type 0 where
  pub tick : ℕ → ℕ
  pub key : ℕ → ℕ → Bool

abbrev pub dec16 : ℕ → ℕ
dec16 n = (n + 65535) % 65536

abbrev pub put_proc : ℕ → Proc → Sched → Sched
put_proc i p s = record s { pd = store s.pd i p }

-- pqfor(prio)
unfoldable pub pqfor : ℕ → ℕ
pqfor prio = let q = 5 / (1 + prio % 256 / 64) in if ltb q 1 then 1 else q

abbrev pub pstkof : ℕ → ℕ
pstkof i = 0xfc00 - i * 0x2000

-- PCUR(x)
unfoldable pub pcur_set : ℕ → Sched → Sched
pcur_set x s = record s { cur = x; pool = record s.pool { cur = x } }

-- padopt()
unfoldable pub adopted : Proc → Proc
unfolding pqfor
adopted p = record p {
  state = Status.live;
  seg = 0;
  con = 0;
  chome = 0;
  name = λ j. if ltb j 8 then 0x20 else p.name j;
  prio = 0;
  quant = pqfor 0;
  inc = false;
  wait = pw_run;
}

unfoldable pub padopt : Sched → Sched
unfolding adopted pcur_set
padopt s =
    let stacked = λ (i : ℕ). if ltb i pnproc then record (s.pd i) { stk = pstkof i } else s.pd i in
    if s.nlive == 0
    then record (pcur_set 0 (record s { pd = store stacked 0 (adopted (stacked 0)) })) {
      concur = 0;
      nlive = 1;
      sysstk = pstkof 0;
    }
    else s

unfoldable pub runnable : Proc → Bool
runnable p = is_live p.state && (p.wait == pw_run)

-- `pd_wait = PW_RUN; pnwait--`
unfoldable pub wake_proc : ℕ → Sched → Sched
wake_proc i s = record s {
  pd = store s.pd i (record (s.pd i) { wait = pw_run });
  nwait = dec16 s.nwait;
}

-- The tests of pwscan() on descriptor `i`.
unfoldable pub due : World → ℕ → Proc → Bool
due w i p =
    is_live p.state
    && not (p.wait == pw_run)
    && (if p.wait == pw_tick
        then ltb (u32 (w.tick i + 2 ^ 32 - p.wtick)) (2 ^ 31)
        else (p.wait == pw_con) && w.key i p.wobj)

-- A loop over `rounds` descriptors from `i` on that wakes those that a test picks.
unfoldable pub wake_from : (ℕ → Proc → Bool) → ℕ → ℕ → Sched → Sched
unfolding wake_proc
wake_from test zero i s = s
wake_from test (suc rounds) i s =
    wake_from test rounds (i + 1) (if test i (s.pd i) then wake_proc i s else s)

unfoldable pub pwscan : World → Sched → Sched
unfolding due wake_from
pwscan w = wake_from (due w) pnproc 0

-- `if (++j >= PNPROC) j = 0;`
abbrev pub next_slot : ℕ → ℕ
next_slot j = if leb pnproc (j + 1) then 0 else j + 1

-- The descriptor that a round of the table from `j` finds first.
unfoldable pub next_from : (ℕ → Bool) → ℕ → ℕ → Option ℕ
next_from test zero j = none
next_from test (suc rounds) j =
    let rest = next_from test rounds (next_slot j) in
    if test (next_slot j) then some (next_slot j) else rest

unfoldable pub chosen : Option ℕ → ℕ → ℕ
chosen none i = i
chosen (some j) i = j

-- pnext(i): the process, and the table after the scan.
unfoldable pub pnext : World → ℕ → Sched → ℕ × Sched
unfolding runnable pwscan next_from chosen
pnext w i s =
    let t = if s.nwait == 0 then s else pwscan w s in
    (chosen (next_from (λ j. runnable (t.pd j)) pnproc i) i, t)

unfoldable pub pnextany : ℕ → Sched → ℕ
unfolding next_from chosen
pnextany i s = chosen (next_from (λ j. is_live (s.pd j).state) pnproc i) i

unfoldable pub block_running : ℕ → ℕ → ℕ → Sched → Sched
block_running why obj dl s =
    let me = s.pd s.cur in
    record (put_proc s.cur (record me { wait = why; wobj = obj; wtick = dl }) s) {
      nwait = if me.wait == pw_run then u16 (s.nwait + 1) else s.nwait;
    }

unfoldable pub pblock : ℕ → ℕ → ℕ → Sched → Sched
unfolding padopt block_running
pblock why obj dl s = block_running why obj dl (padopt s)

unfoldable pub punblk : Sched → Sched
unfolding wake_proc
punblk s = if (s.pd s.cur).wait == pw_run then s else wake_proc s.cur s

-- The test of pwake() on one descriptor.
unfoldable pub awaits : ℕ → ℕ → Proc → Bool
awaits why obj p = is_live p.state && (p.wait == why) && (p.wobj == obj)

unfoldable pub pwake : ℕ → ℕ → Sched → Sched
unfolding awaits wake_from
pwake why obj s = if s.nwait == 0 then s else wake_from (λ i. awaits why obj) pnproc 0 s

-- proccnt()
unfoldable pub proccnt : Sched → ℕ
proccnt s = if s.nlive == 0 then 1 else s.nlive
