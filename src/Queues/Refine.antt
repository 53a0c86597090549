-- ===== src/Queues/Refine.antt =====
-- The queue calls of src/bdos/xdos.c do what Spec promises, call by call.
use commodore_900_cpm.Base.{
  ℕ, ◌<◌, Bool, true, false, leb, if◌then◌else◌, store, none, some, List, [], ◌∷◌, ◌++◌, ◌≡◌, ◌⊎◌,
  refl, ap, ap₂, sym, ◌∙◌, inl, inr, arith, Bool-cases, Option-cases, length,
}
use commodore_900_cpm.Procs.{pw_qrd, pw_qwr}
use commodore_900_cpm.Queues.{
  Queue, System, Reply, xnq, xqread, xqwrite, read_now, write_now, wait_loop, get_message,
  put_message, copied, put_queue, wake, is_empty, is_full, bad_id,
}
use commodore_900_cpm.Queues.Ring.{
  bytes, contents, contents-get, contents-put, get-IsQueue, put-IsQueue, bytes-copied,
}
use commodore_900_cpm.Queues.Spec.{
  Channel, Table, Call, make, find, delete, read, write, refused, accepted, got, take_oldest,
  append_newest, spec_step, code_step, Refines,
}
use commodore_900_cpm.Queues.Tracks.{
  Tracks, Rel, put-Rel, length-contents, Follows, code_step-Follows, find-Follows, delete-Follows,
  make-Follows,
}

loop_now :
    (blocked : Queue → Bool) (act : System → Reply × System) (id : ℕ) (s : System)
    → wait_loop blocked act true id [] s
      ≡ some (if blocked (s.xq id) then (Reply.failed, s) else act s)
unfolding wait_loop
loop_now blocked act id s = elim (Bool-cases (blocked (s.xq id))) [
  | inl e ↦ rw e refl
  | inr e ↦ rw e refl
]

module _ (id : ℕ) (block : ℕ → ℕ) (s : System) where
  read_bad : bad_id id s ≡ true → code_step (read id block) s ≡ some (Reply.failed, s)
  unfolding code_step xqread
  read_bad e =
      ap
        (λ (b : Bool).
          if b then some (Reply.failed, s) else wait_loop is_empty (read_now id block) true id [] s)
        e

  read_on :
      bad_id id s ≡ false
      → code_step (read id block) s
        ≡ some (if is_empty (s.xq id) then (Reply.failed, s) else read_now id block s)
  unfolding code_step xqread
  read_on e =
      ap
        (λ (b : Bool).
          if b then some (Reply.failed, s) else wait_loop is_empty (read_now id block) true id [] s)
        e
      ∙ loop_now is_empty (read_now id block) id s

  write_bad : bad_id id s ≡ true → code_step (write id block) s ≡ some (Reply.failed, s)
  unfolding code_step xqwrite
  write_bad e =
      ap
        (λ (b : Bool).
          if b then some (Reply.failed, s) else wait_loop is_full (write_now id block) true id [] s)
        e

  write_on :
      bad_id id s ≡ false
      → code_step (write id block) s
        ≡ some (if is_full (s.xq id) then (Reply.failed, s) else write_now id block s)
  unfolding code_step xqwrite
  write_on e =
      ap
        (λ (b : Bool).
          if b then some (Reply.failed, s) else wait_loop is_full (write_now id block) true id [] s)
        e
      ∙ loop_now is_full (write_now id block) id s

List-cases :
    (xs : List (List ℕ)) → (xs ≡ []) ⊎ ((x : List ℕ) × (rest : List (List ℕ)) × (xs ≡ x ∷ rest))
List-cases [] = inl refl
List-cases (x ∷ xs) = inr (x, xs, refl)

-- The queue after a read or a write holds what it held before but the oldest message, or with the
-- new one.
get-Tracks :
    (q : Queue) (c : Channel) (m : List ℕ) (ms : List (List ℕ))
    → Tracks q c
    → c.messages ≡ m ∷ ms
    → 0 < q.cnt
    → Tracks (get_message q) (record c { messages = ms })
unfolding get_message
get-Tracks q c m ms v e h = record {
  used = v.used;
  valid = get-IsQueue q v.valid h;
  same = v.same;
  msglen = v.msglen;
  ndep = v.ndep;
  messages =
      let both : bytes q.msglen (q.buf q.q_out) ∷ contents (get_message q) ≡ m ∷ ms =
        sym (contents-get q h) ∙ v.messages ∙ e in
      cc both;
}

put-Tracks :
    (q : Queue) (c : Channel) (block : ℕ → ℕ)
    → Tracks q c
    → q.cnt < q.ndep
    → Tracks
        (put_message block q)
        (record c { messages = c.messages ++ (bytes c.msglen block ∷ []) })
unfolding put_message
put-Tracks q c block v h = record {
  used = v.used;
  valid = put-IsQueue block q v.valid h;
  same = v.same;
  msglen = v.msglen;
  ndep = v.ndep;
  messages =
      contents-put block q v.valid h
      ∙ ap₂ (λ xs (n : ℕ). xs ++ (bytes n block ∷ [])) v.messages v.msglen;
}

read-Follows :
    (id : ℕ) (block : ℕ → ℕ) (s : System) (a : Table) → Rel s a → Follows (read id block) s a
unfolding spec_step take_oldest read_now
read-Follows id block s a r = elim (Bool-cases (leb xnq id)) [
  | inl bad ↦
      code_step-Follows (read id block) s a Reply.failed s refused a
        (read_bad id block s (rw bad refl)) (rw (bad, spec_step) refl) refl r
  | inr ok ↦
      let here = r id (ground arith) in
      elim (Option-cases (a id)) [
        | inl e ↦
            let off : (s.xq id).used ≡ false = rw e at here in
            code_step-Follows (read id block) s a Reply.failed s refused a
              (read_bad id block s (rw (ok, off) refl)) (rw (ok, e, spec_step) refl) refl r
        | inr (c, e) ↦
            let v : Tracks (s.xq id) c = rw e at here in
            let n = ap length v.messages in
            let l = length-contents (s.xq id) in
            let on = read_on id block s (rw (ok, v.used) refl) in
            elim (List-cases c.messages) [
              | inl z ↦
                  let none_there : is_empty (s.xq id) ≡ true = ground (arith, n, l, ap length z) in
                  code_step-Follows (read id block) s a Reply.failed s refused a
                    (on ∙ rw none_there refl) (rw (ok, e, z, spec_step) refl) refl r
              | inr (m, ms, z) ↦
                  let some_there : 0 < (s.xq id).cnt = omega (arith, n, l, ap length z) in
                  let not_empty : is_empty (s.xq id) ≡ false = ground arith in
                  let q = s.xq id in
                  let says : got m ≡ got (bytes q.msglen (copied q.msglen (q.buf q.q_out) block)) =
                    let both : bytes q.msglen (q.buf q.q_out) ∷ contents (get_message q) ≡ m ∷ ms =
                      sym (contents-get q some_there) ∙ v.messages ∙ z in
                    let one : bytes q.msglen (q.buf q.q_out) ≡ m = cc both in
                    ap got (sym one ∙ sym (bytes-copied q.msglen (q.buf q.q_out) block)) in
                  code_step-Follows (read id block) s a
                    (Reply.message (copied q.msglen (q.buf q.q_out) block))
                    (wake pw_qwr id (put_queue id (get_message q) s)) (got m)
                    (store a id (some (record c { messages = ms }))) (on ∙ rw not_empty refl)
                    (rw (ok, e, z, spec_step) refl) says
                    (put-Rel s a id (get_message q) (some (record c { messages = ms })) r
                      (get-Tracks q c m ms v z some_there))
            ]
      ]
]

write-Follows :
    (id : ℕ) (block : ℕ → ℕ) (s : System) (a : Table) → Rel s a → Follows (write id block) s a
unfolding spec_step append_newest write_now
write-Follows id block s a r = elim (Bool-cases (leb xnq id)) [
  | inl bad ↦
      code_step-Follows (write id block) s a Reply.failed s refused a
        (write_bad id block s (rw bad refl)) (rw (bad, spec_step) refl) refl r
  | inr ok ↦
      let here = r id (ground arith) in
      elim (Option-cases (a id)) [
        | inl e ↦
            let off : (s.xq id).used ≡ false = rw e at here in
            code_step-Follows (write id block) s a Reply.failed s refused a
              (write_bad id block s (rw (ok, off) refl)) (rw (ok, e, spec_step) refl) refl r
        | inr (c, e) ↦
            let v : Tracks (s.xq id) c = rw e at here in
            let q = s.xq id in
            let n = ap length v.messages in
            let l = length-contents (s.xq id) in
            let on = write_on id block s (rw (ok, v.used) refl) in
            elim (Bool-cases (leb c.ndep (length c.messages))) [
              | inl z ↦
                  let full : is_full (s.xq id) ≡ true = ground (arith, n, l, v.ndep) in
                  code_step-Follows (write id block) s a Reply.failed s refused a
                    (on ∙ rw full refl) (rw (ok, e, z, spec_step) refl) refl r
              | inr z ↦
                  let room : q.cnt < q.ndep = ground (arith, n, l, v.ndep) in
                  let not_full : is_full (s.xq id) ≡ false = ground arith in
                  let grown = record c { messages = c.messages ++ (bytes c.msglen block ∷ []) } in
                  code_step-Follows (write id block) s a Reply.done
                    (wake pw_qrd id (put_queue id (put_message block q) s)) accepted
                    (store a id (some grown)) (on ∙ rw not_full refl)
                    (rw (ok, e, z, spec_step) refl) refl
                    (put-Rel s a id (put_message block q) (some grown) r
                      (put-Tracks q c block v room))
            ]
      ]
]

step-Follows : (op : Call) (s : System) (a : Table) → Rel s a → Follows op s a
step-Follows (make name msglen ndep) s a r = make-Follows name msglen ndep s a r
step-Follows (find name) s a r = find-Follows name s a r
step-Follows (delete name) s a r = delete-Follows name s a r
step-Follows (read id block) s a r = read-Follows id block s a r
step-Follows (write id block) s a r = write-Follows id block s a r

Rel-Refines : (ops : List Call) (s : System) (a : Table) → Rel s a → Refines ops s a
Rel-Refines [] s a r = tt
Rel-Refines (op ∷ ops) s a r =
    let (reply, t, code, says, rel) = step-Follows op s a r in
    (reply, t, code, says, Rel-Refines ops t (spec_step op a).1 rel)

-- From a state in which no queue is made, and over any sequence of makes, opens, deletes,
-- conditional reads and conditional writes with any arguments: the code always gives an answer, and
-- each answer is that of a table of at most four named channels, each of which passes on the first
-- bytes of the messages written to it, as many as its message length, in the order of the writes.
-- A make is refused outside 1 to 16 bytes and 1 to 4 messages, or when there is no room for another
-- channel, and is accepted and without effect for a name that is there. A read of an empty channel
-- and a write to one that holds as many messages as it was made for are refused.
pub boot-Refines :
    (ops : List Call) (s : System)
    → ((i : ℕ) → i < xnq → (s.xq i).used ≡ false)
    → Refines ops s (λ i. none)
boot-Refines ops s unused = Rel-Refines ops s (λ i. none) unused
