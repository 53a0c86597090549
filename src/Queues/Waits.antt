-- ===== src/Queues/Waits.antt =====
-- A read of src/bdos/xdos.c that waits while its queue is deleted and another is made in its slot.
use commodore_900_cpm.Base.{
  ℕ, ◌≤◌, ◌<◌, true, false, not, ◌||◌, ltb, leb, none, some, [], ◌∷◌, ◌≡◌, refl, ap, ◌∙◌, arith,
  store_self,
}
use commodore_900_cpm.Procs.{proccnt}
use commodore_900_cpm.Procs.Console.{find_from}
use commodore_900_cpm.Queues.{
  Queue, System, Reply, xnq, makeable, made, xqfind, xqmakef, xqdelf, xqread, xqwrite, read_now,
  write_now, wait_loop, put_message, copied, put_queue, is_empty, is_full, bad_id,
}
use commodore_900_cpm.Queues.Ring.{bytes, bytes-copied}

-- What the other process does: it deletes queue `a`, makes queue `b` and writes to it.
abbrev pub deleted : (ℕ → ℕ) → System → System
deleted a s = (xqdelf a s).1

abbrev pub remade : (ℕ → ℕ) → (ℕ → ℕ) → ℕ → ℕ → System → System
remade a b msglen ndep s = (xqmakef b msglen ndep (deleted a s)).1

makes :
    (b : ℕ → ℕ) (msglen ndep id : ℕ) (t : System)
    → makeable msglen ndep ≡ true
    → xqfind b t ≡ none
    → find_from (λ i. not (t.xq i).used) xnq 0 ≡ some id
    → xqmakef b msglen ndep t ≡ (Reply.done, put_queue id (made b msglen ndep (t.xq id)) t)
unfolding xqmakef
makes b msglen ndep id t ok fresh slot = rw (ok, fresh, slot, xqmakef) refl

-- A write at once, where there is room.
writes_now :
    (id : ℕ) (msg : ℕ → ℕ) (t : System)
    → bad_id id t ≡ false
    → is_full (t.xq id) ≡ false
    → xqwrite id msg true [] t ≡ some (write_now id msg t)
unfolding xqwrite wait_loop
writes_now id msg t good room = rw (good, room, xqwrite, wait_loop) refl

-- A read that waits once, in which the other processes leave a message in the slot.
reads_after :
    (id : ℕ) (block : ℕ → ℕ) (s t : System)
    → bad_id id s ≡ false
    → is_empty (s.xq id) ≡ true
    → 2 ≤ proccnt s.sched
    → (t.xq id).used ≡ true
    → is_empty (t.xq id) ≡ false
    → xqread id block false (record { ran = true; system = t } ∷ []) s ≡ some (read_now id block t)
unfolding xqread wait_loop
reads_after id block s t good empty others used message_there =
    let busy : ltb (proccnt s.sched) 2 ≡ false = ground arith in
    rw (good, empty, busy, used, message_there, xqread, wait_loop) refl

module _ (id : ℕ) (a b : ℕ → ℕ) (msglen ndep : ℕ) (s : System) (small : id < xnq)
    (there : xqfind a s ≡ some id) (fresh : xqfind b (deleted a s) ≡ none)
    (slot : find_from (λ i. not ((deleted a s).xq i).used) xnq 0 ≡ some id)
    (ok : makeable msglen ndep ≡ true) where
  abbrev new_queue : Queue
  new_queue = made b msglen ndep ((deleted a s).xq id)

  remade_lem : remade a b msglen ndep s ≡ put_queue id new_queue (deleted a s)
  remade_lem = ap (λ (r : Reply × System). r.1) (makes b msglen ndep id (deleted a s) ok fresh slot)

  remade_queue : (remade a b msglen ndep s).xq id ≡ new_queue
  remade_queue = ap (λ (t : System). t.xq id) remade_lem ∙ store_self (deleted a s).xq id new_queue

  -- The state when the reader resumes.
  abbrev pub written : (ℕ → ℕ) → System
  written msg = (write_now id msg (remade a b msglen ndep s)).1

  written_queue : (msg : ℕ → ℕ) → (written msg).xq id ≡ put_message msg new_queue
  unfolding write_now
  written_queue msg =
      store_self (remade a b msglen ndep s).xq id
        (put_message msg ((remade a b msglen ndep s).xq id))
      ∙ ap (put_message msg) remade_queue

  -- A process waits in a read of an empty queue of name `a`. Meanwhile another one deletes it, makes
  -- a queue `b`, for which the search for a free slot comes to the same slot, and writes a message
  -- to it. Then the read of `a` answers the message of `b`. More than one process is live.
  pub xqread-remade :
      (block msg : ℕ → ℕ)
      → (s.xq id).used ≡ true
      → (s.xq id).cnt ≡ 0
      → 2 ≤ proccnt s.sched
      → (xqwrite id msg true [] (remade a b msglen ndep s) ≡ some (Reply.done, written msg))
        × (f : ℕ → ℕ) × (t : System) × (xqread id block false
              (record { ran = true; system = written msg } ∷ [])
              s
            ≡ some (Reply.message f, t))
        × (bytes msglen f ≡ bytes msglen msg)
  unfolding made put_message write_now read_now
  xqread-remade block msg used empty others =
      let q = remade_queue in
      let w = written_queue msg in
      let in_table : leb xnq id ≡ false = ground arith in
      let room : is_full new_queue ≡ false = ground arith in
      (
        writes_now id msg (remade a b msglen ndep s)
            (ap (λ (r : Queue). leb xnq id || not r.used) q ∙ rw in_table refl)
            (ap is_full q ∙ room),
        (let r = (written msg).xq id in copied r.msglen (r.buf r.q_out) block),
        (read_now id block (written msg)).1,
        reads_after id block s (written msg) (rw (in_table, used) refl) (rw empty refl) others
            (ap (λ (r : Queue). r.used) w) (ap is_empty w),
        ap (λ (r : Queue). bytes msglen (copied r.msglen (r.buf r.q_out) block)) w
            ∙ bytes-copied msglen (copied msglen msg (((deleted a s).xq id).buf 0)) block
            ∙ bytes-copied msglen msg (((deleted a s).xq id).buf 0),
      )
