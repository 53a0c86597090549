-- ===== src/Procs/Switch.antt =====
-- The switch of src/bdos/proc.c: pgone(), pyield(), pwait() and pdisp(). A process that pyield()
-- parks comes back when it is chosen again, so pyield() is what happens up to the successor's
-- resumption, and what happens when the process is resumed itself.
use commodore_900_cpm.Base.{ℕ, Bool, true, false, ◌||◌, ◌==◌, ltb, if◌then◌else◌, store}
use commodore_900_cpm.Pages.{pgtpaswap}
use commodore_900_cpm.Procs.{Sched, World, put_proc, pcur_set, pnext, pblock, punblk}

-- psave(p) for the running process.
unfoldable pub psave : Sched → Sched
psave s = put_proc s.cur (record (s.pd s.cur) { saved = s.resident }) s

-- `pgtpaswap(seg); pd[pcur].pd_seg = seg; p->pd_seg = 0;`
unfoldable pub exchange_images : ℕ → ℕ → Sched → Sched
exchange_images nxt seg s =
    let out =
      put_proc s.cur (record (s.pd s.cur) { seg = seg })
        (record s { pool = (pgtpaswap s.pool seg).1 }) in
    put_proc nxt (record (out.pd nxt) { seg = 0 }) out

-- The assignments that hand the machine to process `nxt`.
unfoldable pub hand_over : ℕ → Sched → Sched
unfolding pcur_set
hand_over nxt s =
    let p = s.pd nxt in
    record (pcur_set nxt s) { concur = p.con; resident = p.saved; sysstk = p.stk; pquant = p.quant }

-- pgone(), with the variable pnxt as its argument.
unfoldable pub pgone : ℕ → Sched → Sched
unfolding exchange_images hand_over
pgone nxt s =
    let seg = (s.pd nxt).seg in hand_over nxt (if seg == 0 then s else exchange_images nxt seg s)

-- What pnspget() writes into a frame: NSPSEG and NSPOFF.
abbrev pub with_nsp : ℕ × ℕ → (ℕ → ℕ) → ℕ → ℕ
with_nsp nsp f = store (store f 18 nsp.0) 19 nsp.1

-- What pyield() records of the process that it parks.
unfoldable pub park : ℕ × ℕ → Sched → Sched
unfolding psave
park nsp s =
    let t =
      psave (put_proc s.cur (record (s.pd s.cur) { frame = with_nsp nsp (s.pd s.cur).frame }) s) in
    put_proc t.cur (record (t.pd t.cur) { inc = true }) t

-- pyield() up to the resumption of the successor; false is its return of 0 with no switch.
unfoldable pub pyield : World → ℕ × ℕ → Sched → Bool × Sched
unfolding pnext park pgone
pyield w nsp s =
    if ltb s.nlive 2 || s.noyld
    then (false, s)
    else let (nxt, t) = pnext w s.cur s in
      if nxt == s.cur then (false, t) else (true, pgone nxt (park nsp t))

-- The end of pyield(), in the process that it parked.
unfoldable pub resumed : Sched → Sched
resumed s = put_proc s.cur (record (s.pd s.cur) { inc = false }) s

-- pwait() up to the switch; where there is none, up to its end.
unfoldable pub pwait : World → ℕ × ℕ → ℕ → ℕ → ℕ → Sched → Bool × Sched
unfolding pblock pyield punblk
pwait w nsp why obj dl s =
    let (ran, t) = pyield w nsp (pblock why obj dl s) in
    if ran then (true, t) else (false, punblk t)

-- pwait() from the resumption on.
unfoldable pub wait_over : Sched → Sched
unfolding resumed punblk
wait_over s = punblk (resumed s)

-- What pdisp() saves: 36 bytes of the frame, the stack pointer, the resident state.
unfoldable pub save_frame : (ℕ → ℕ) → ℕ × ℕ → Sched → Sched
unfolding psave
save_frame frame nsp s =
    let f = λ (k : ℕ). if ltb k 18 then frame k else (s.pd s.cur).frame k in
    let t = psave (put_proc s.cur (record (s.pd s.cur) { frame = with_nsp nsp f }) s) in
    put_proc t.cur (record (t.pd t.cur) { inc = false }) t

-- pdisp(frame)
unfoldable pub pdisp : World → (ℕ → ℕ) → ℕ × ℕ → Sched → Sched
unfolding pnext save_frame pgone
pdisp w frame nsp s =
    let r = record s { pquant = (s.pd s.cur).quant } in
    if ltb r.nlive 2
    then r
    else let (nxt, t) = pnext w r.cur r in
      if nxt == r.cur then t else pgone nxt (save_frame frame nsp t)
