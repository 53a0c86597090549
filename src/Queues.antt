-- ===== src/Queues.antt =====
-- The message queues and the flags of src/bdos/xdos.c, over the process table of proc.c.
-- What cpy_in() brings from the caller enters as arguments, what cpy_out() takes there is in the
-- answer. A call that waits is followed by what its waits answer: each Wake is one return of
-- pwait(), with the state that the other processes have made meanwhile; where there is none left,
-- the call is still parked.
pub mod Ring
pub mod Spec
pub mod Refine
pub mod Tracks
pub mod Waits
pub mod Tests
use commodore_900_cpm.Base.{
  ℕ, zero, suc, ◌+◌, ◌-◌, Bool, true, false, not, ◌&&◌, ◌||◌, ◌==◌, ltb, leb, if◌then◌else◌, store,
  Option, none, some, List, [], ◌∷◌,
}
use commodore_900_cpm.Procs.{Sched, pwake, proccnt, pw_qrd, pw_qwr, pw_flag}
use commodore_900_cpm.Procs.Console.{find_from, same_name}

-- XNQ, XQNAME, XQMSGMX, XQDEPTH and XNFLAG.
abbrev pub xnq : ℕ
xnq = 4

abbrev pub xqname : ℕ
xqname = 8

abbrev pub xqmsgmx : ℕ
xqmsgmx = 16

abbrev pub xqdepth : ℕ
xqdepth = 4

abbrev pub xnflag : ℕ
xnflag = 8

-- struct xq
pub record Queue : Type 0 where
  pub used : Bool
  pub name : ℕ → ℕ
  pub msglen : ℕ
  pub ndep : ℕ
  pub cnt : ℕ
  pub q_in : ℕ
  pub q_out : ℕ
  pub buf : ℕ → ℕ → ℕ

pub record System : Type 0 where
  pub xq : ℕ → Queue
  pub flag : ℕ → Bool
  pub waiter : ℕ → Bool
  pub sched : Sched

pub data Reply : Type 0 where
  failed : Reply
  done : Reply
  opened : ℕ → Reply
  message : (ℕ → ℕ) → Reply

abbrev pub put_queue : ℕ → Queue → System → System
put_queue i q s = record s { xq = store s.xq i q }

abbrev pub wake : ℕ → ℕ → System → System
wake why obj s = record s { sched = pwake why obj s.sched }

-- xqfind(name)
unfoldable pub named : (ℕ → ℕ) → Queue → Bool
unfolding same_name
named name q = q.used && same_name q.name name xqname 0

unfoldable pub xqfind : (ℕ → ℕ) → System → Option ℕ
unfolding named find_from
xqfind name s = find_from (λ i. named name (s.xq i)) xnq 0

-- `x[j] = from[j]` for the first `n` bytes.
abbrev pub copied : ℕ → (ℕ → ℕ) → (ℕ → ℕ) → ℕ → ℕ
copied n from old j = if ltb j n then from j else old j

unfoldable pub made : (ℕ → ℕ) → ℕ → ℕ → Queue → Queue
made name msglen ndep q = record q {
  name = copied xqname name q.name;
  msglen = msglen;
  ndep = ndep;
  cnt = 0;
  q_in = 0;
  q_out = 0;
  used = true;
}

-- The ranges of a make request.
abbrev pub makeable : ℕ → ℕ → Bool
makeable msglen ndep =
    not (ltb msglen 1 || ltb xqmsgmx msglen) && not (ltb ndep 1 || ltb xqdepth ndep)

unfoldable pub xqmakef : (ℕ → ℕ) → ℕ → ℕ → System → Reply × System
unfolding xqfind made
xqmakef name msglen ndep s =
    if not (makeable msglen ndep) then (failed, s) else elim (xqfind name s) [
      | some i ↦ (done, s)
      | none ↦ elim (find_from (λ i. not (s.xq i).used) xnq 0) [
        | none ↦ (failed, s)
        | some i ↦ (done, put_queue i (made name msglen ndep (s.xq i)) s)
      ]
    ]

unfoldable pub xqopenf : (ℕ → ℕ) → System → Reply × System
unfolding xqfind
xqopenf name s = elim (xqfind name s) [ none ↦ (failed, s) | some i ↦ (opened i, s) ]

unfoldable pub xqdelf : (ℕ → ℕ) → System → Reply × System
unfolding xqfind
xqdelf name s = elim (xqfind name s) [
  | none ↦ (failed, s)
  | some i ↦
      (done, wake pw_qwr i (wake pw_qrd i (put_queue i (record (s.xq i) { used = false }) s)))
]

-- `if (++i >= q->q_ndep) i = 0;`
abbrev pub next_index : ℕ → ℕ → ℕ
next_index ndep i = if leb ndep (i + 1) then 0 else i + 1

unfoldable pub get_message : Queue → Queue
get_message q = record q { q_out = next_index q.ndep q.q_out; cnt = q.cnt - 1 }

unfoldable pub put_message : (ℕ → ℕ) → Queue → Queue
put_message msg q = record q {
  buf = store q.buf q.q_in (copied q.msglen msg (q.buf q.q_in));
  q_in = next_index q.ndep q.q_in;
  cnt = q.cnt + 1;
}

-- xqread() after its loop, on the caller's block `block`.
unfoldable pub read_now : ℕ → (ℕ → ℕ) → System → Reply × System
unfolding get_message
read_now id block s =
    let q = s.xq id in
    (
      message (copied q.msglen (q.buf q.q_out) block),
      wake pw_qwr id (put_queue id (get_message q) s),
    )

unfoldable pub write_now : ℕ → (ℕ → ℕ) → System → Reply × System
unfolding put_message
write_now id block s = (done, wake pw_qrd id (put_queue id (put_message block (s.xq id)) s))

-- One return of pwait().
pub record Wake : Type 0 where
  pub ran : Bool
  pub system : System

-- The loop of xqread() or xqwrite(): `blocked` is its condition, `act` what follows it, `conditional`
-- the second argument. `none` is a call that is still parked.
unfoldable pub wait_loop :
    (Queue → Bool)
    → (System → Reply × System)
    → Bool
    → ℕ
    → List Wake
    → System
    → Option (Reply × System)
wait_loop blocked act conditional id [] s =
    if blocked (s.xq id)
    then if conditional || ltb (proccnt s.sched) 2 then some (failed, s) else none
    else some (act s)
wait_loop blocked act conditional id (w ∷ ws) s =
    let rest = wait_loop blocked act conditional id ws w.system in
    if blocked (s.xq id)
    then if conditional || ltb (proccnt s.sched) 2
      then some (failed, s)
      else if not w.ran || not (w.system.xq id).used
      then some (failed, w.system)
      else rest
    else some (act s)

abbrev pub is_empty : Queue → Bool
is_empty q = q.cnt == 0

abbrev pub is_full : Queue → Bool
is_full q = leb q.ndep q.cnt

-- A negative id is one from 0x8000 on.
abbrev pub bad_id : ℕ → System → Bool
bad_id id s = leb xnq id || not (s.xq id).used

unfoldable pub xqread : ℕ → (ℕ → ℕ) → Bool → List Wake → System → Option (Reply × System)
unfolding read_now wait_loop
xqread id block conditional ws s =
    if bad_id id s
    then some (failed, s)
    else wait_loop is_empty (read_now id block) conditional id ws s

unfoldable pub xqwrite : ℕ → (ℕ → ℕ) → Bool → List Wake → System → Option (Reply × System)
unfolding write_now wait_loop
xqwrite id block conditional ws s =
    if bad_id id s
    then some (failed, s)
    else wait_loop is_full (write_now id block) conditional id ws s

abbrev pub set_flag : ℕ → Bool → System → System
set_flag n b s = record s { flag = store s.flag n b }

abbrev pub set_waiter : ℕ → Bool → System → System
set_waiter n b s = record s { waiter = store s.waiter n b }

-- The loop of xflgwt(): without a switch, the state of a Wake is the caller's own.
unfoldable pub flag_loop : ℕ → List Wake → System → Option (Bool × System)
flag_loop n [] s =
    if s.flag n
    then some (true, set_waiter n false (set_flag n false s))
    else if ltb (proccnt s.sched) 2
    then some (false, set_waiter n false s)
    else none
flag_loop n (w ∷ ws) s =
    let rest = flag_loop n ws w.system in
    if s.flag n
    then some (true, set_waiter n false (set_flag n false s))
    else if ltb (proccnt s.sched) 2
    then some (false, set_waiter n false s)
    else if w.ran
    then rest
    else some (false, set_waiter n false w.system)

unfoldable pub xflgwt : ℕ → List Wake → System → Option (Bool × System)
unfolding flag_loop
xflgwt n ws s =
    if leb xnflag n
    then some (false, s)
    else if s.flag n
    then some (true, set_flag n false s)
    else if s.waiter n
    then some (false, s)
    else flag_loop n ws (set_waiter n true s)

unfoldable pub xflgset : ℕ → System → Bool × System
xflgset n s =
    if leb xnflag n
    then (false, s)
    else if s.flag n && not (s.waiter n)
    then (false, s)
    else (true, wake pw_flag n (set_flag n true s))
