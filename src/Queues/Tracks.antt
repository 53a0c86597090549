-- ===== src/Queues/Tracks.antt =====
-- Queues of src/bdos/xdos.c that hold the channels of a table, and the calls that find a queue by
-- its name.
use mathlib.Core.Path.{subst, subst₂}
use native.Mathlib.Decide.{ℕ_discrete}
use commodore_900_cpm.Base.{
  ℕ, zero, suc, ◌+◌, ◌≤◌, ◌<◌, Bool, true, false, not, ◌&&◌, ◌==◌, if◌then◌else◌, store, Option,
  none, some, [], ◌≡◌, refl, ap, ap₂, sym, ◌∙◌, inl, inr, arith, Bool-cases, Option-cases, length,
  store_self, store_ne,
}
use commodore_900_cpm.Procs.Console.{find_from, same_name}
use commodore_900_cpm.Procs.{pw_qrd, pw_qwr}
use commodore_900_cpm.Queues.{
  Queue, System, Reply, xnq, xqname, makeable, made, named, xqfind, xqmakef, xqopenf, xqdelf,
  copied, put_queue, wake, next_index,
}
use commodore_900_cpm.Queues.Ring.{IsQueue, contents, entries, made-IsQueue}
use commodore_900_cpm.Queues.Spec.{
  Channel, Table, Call, make, find, delete, Answer, refused, accepted, is_named, is_unused,
  lookup_name, add_channel, spec_step, code_step, call_length, Agrees,
}

-- A used queue holds a channel.
pub record Tracks (q : Queue) (c : Channel) : Type 0 where
  pub used : q.used ≡ true
  pub valid : IsQueue q
  pub same : (n : ℕ → ℕ) → same_name q.name n xqname 0 ≡ same_name c.name n xqname 0
  pub msglen : q.msglen ≡ c.msglen
  pub ndep : q.ndep ≡ c.ndep
  pub messages : contents q ≡ c.messages

abbrev pub Related : Queue → Option Channel → Type 0
Related q none = q.used ≡ false
Related q (some c) = Tracks q c

abbrev pub Rel : System → Table → Type 0
Rel s a = (i : ℕ) → i < xnq → Related (s.xq i) (a i)

find_same :
    (p q : ℕ → Bool) (n i : ℕ)
    → ((k : ℕ) → k < i + n → p k ≡ q k)
    → find_from p n i ≡ find_from q n i
unfolding find_from
find_same p q zero i h = refl
find_same p q (suc n) i h =
    ap₂ (λ (b : Bool) rest. if b then some i else rest) (h i (omega arith))
      (find_same p q n (i + 1) (λ k lt. h k (omega arith)))

find_found : (p : ℕ → Bool) (n i k : ℕ) → find_from p n i ≡ some k → (k < i + n) × (p k ≡ true)
unfolding find_from
find_found p zero i k e = ground arith
find_found p (suc n) i k e = elim (Bool-cases (p i)) [
  | inl h ↦ let here : i ≡ k = ground arith in (omega arith, ap p (sym here) ∙ h)
  | inr h ↦ let e' = rw h at e in let (lt, ok) = find_found p n (i + 1) k e' in (omega arith, ok)
]

named_same :
    (name : ℕ → ℕ) (q : Queue) (o : Option Channel) → Related q o → named name q ≡ is_named name o
unfolding named is_named
named_same name q none r = ap (λ (b : Bool). b && same_name q.name name xqname 0) r
named_same name q (some c) r =
    ap (λ (b : Bool). b && same_name q.name name xqname 0) r.used ∙ r.same name

unused_same : (q : Queue) (o : Option Channel) → Related q o → not q.used ≡ is_unused o
unfolding is_unused
unused_same q none r = ap not r
unused_same q (some c) r = ap not r.used

xqfind_same : (name : ℕ → ℕ) (s : System) (a : Table) → Rel s a → xqfind name s ≡ lookup_name name a
unfolding xqfind lookup_name
xqfind_same name s a r =
    find_same (λ i. named name (s.xq i)) (λ i. is_named name (a i)) xnq 0
      (λ k lt. named_same name (s.xq k) (a k) (r k (omega arith)))

pub put-Rel :
    (s : System) (a : Table) (i : ℕ) (q : Queue) (o : Option Channel)
    → Rel s a
    → Related q o
    → Rel (put_queue i q s) (store a i o)
put-Rel s a i q o r here k lt = elim (ℕ_discrete k i) [
  | yes e ↦
      subst₂ Related (sym (ap (store s.xq i q) e ∙ store_self s.xq i q))
        (sym (ap (store a i o) e ∙ store_self a i o)) here
  | no ne ↦ subst₂ Related (sym (store_ne s.xq i q k ne)) (sym (store_ne a i o k ne)) (r k lt)
]

copied_name :
    (name old n : ℕ → ℕ) (k j : ℕ)
    → j + k ≤ xqname
    → same_name (copied xqname name old) n k j ≡ same_name name n k j
unfolding same_name
copied_name name old n zero j h = refl
copied_name name old n (suc k) j h =
    let here : copied xqname name old j ≡ name j = ground arith in
    ap₂ (λ (x : ℕ) (b : Bool). (x == n j) && b) here
      (copied_name name old n k (j + 1) (omega arith))

made-Tracks :
    (name : ℕ → ℕ) (msglen ndep : ℕ) (q : Queue)
    → makeable msglen ndep ≡ true
    → Tracks
        (made name msglen ndep q)
        (record { name = name; msglen = msglen; ndep = ndep; messages = [] })
unfolding made contents
made-Tracks name msglen ndep q ok = record {
  used = refl;
  valid = made-IsQueue name msglen ndep q ok;
  same = λ n. copied_name name q.name n xqname 0 (omega arith);
  msglen = refl;
  ndep = refl;
  messages = refl;
}

length-entries : (buf : ℕ → ℕ → ℕ) (msglen ndep c i : ℕ) → length (entries buf msglen ndep c i) ≡ c
unfolding entries
length-entries buf msglen ndep zero i = refl
length-entries buf msglen ndep (suc c) i =
    ap suc (length-entries buf msglen ndep c (next_index ndep i))

pub length-contents : (q : Queue) → length (contents q) ≡ q.cnt
unfolding contents
length-contents q = length-entries q.buf q.msglen q.ndep q.cnt q.q_out

-- What one call has to show.
abbrev pub Follows : Call → System → Table → Type 0
Follows op s a =
    (r : Reply) × (t : System) × (code_step op s ≡ some (r, t))
    × Agrees (call_length op s) r (spec_step op a).0
    × Rel t (spec_step op a).1

pub code_step-Follows :
    (op : Call) (s : System) (a : Table) (r : Reply) (t : System) (x : Answer) (b : Table)
    → code_step op s ≡ some (r, t)
    → spec_step op a ≡ (x, b)
    → Agrees (call_length op s) r x
    → Rel t b
    → Follows op s a
code_step-Follows op s a r t x b code spec says rel = (
  r,
  t,
  code,
  subst (λ (y : Answer × Table). Agrees (call_length op s) r y.0) (sym spec) says,
  subst (λ (y : Answer × Table). Rel t y.1) (sym spec) rel,
)

pub find-Follows : (name : ℕ → ℕ) (s : System) (a : Table) → Rel s a → Follows (find name) s a
unfolding code_step spec_step xqopenf
find-Follows name s a r = elim (Option-cases (lookup_name name a)) [
  | inl e ↦
      let f : xqfind name s ≡ none = xqfind_same name s a r ∙ e in
      (Reply.failed, s, rw (f, xqopenf) refl, rw (e, spec_step) refl, rw (e, spec_step) r)
  | inr (i, e) ↦
      let f : xqfind name s ≡ some i = xqfind_same name s a r ∙ e in
      (Reply.opened i, s, rw (f, xqopenf) refl, rw (e, spec_step) refl, rw (e, spec_step) r)
]

pub delete-Follows : (name : ℕ → ℕ) (s : System) (a : Table) → Rel s a → Follows (delete name) s a
unfolding code_step spec_step xqdelf
delete-Follows name s a r = elim (Option-cases (lookup_name name a)) [
  | inl e ↦
      let f : xqfind name s ≡ none = xqfind_same name s a r ∙ e in
      (Reply.failed, s, rw (f, xqdelf) refl, rw (e, spec_step) refl, rw (e, spec_step) r)
  | inr (i, e) ↦
      let f : xqfind name s ≡ some i = xqfind_same name s a r ∙ e in
      let gone = record (s.xq i) { used = false } in
      (
        Reply.done,
        wake pw_qwr i (wake pw_qrd i (put_queue i gone s)),
        rw (f, xqdelf) refl,
        rw (e, spec_step) refl,
        rw (e, spec_step) (put-Rel s a i gone none r refl),
      )
]

pub make-Follows :
    (name : ℕ → ℕ) (msglen ndep : ℕ) (s : System) (a : Table)
    → Rel s a
    → Follows (make name msglen ndep) s a
unfolding code_step spec_step xqmakef add_channel
make-Follows name msglen ndep s a r = elim (Bool-cases (makeable msglen ndep)) [
  | inl ok ↦ elim (Option-cases (lookup_name name a)) [
    | inr (i, e) ↦
        let f : xqfind name s ≡ some i = xqfind_same name s a r ∙ e in
        (
          Reply.done,
          s,
          rw (ok, f, xqmakef) refl,
          rw (ok, e, spec_step) refl,
          rw (ok, e, spec_step) r,
        )
    | inl e ↦
        let f : xqfind name s ≡ none = xqfind_same name s a r ∙ e in
        let same =
          find_same (λ i. not (s.xq i).used) (λ i. is_unused (a i)) xnq 0
            (λ k lt. unused_same (s.xq k) (a k) (r k (omega arith))) in
        elim (Option-cases (find_from (λ i. is_unused (a i)) xnq 0)) [
          | inl g ↦
              code_step-Follows (make name msglen ndep) s a Reply.failed s refused a
                (rw (ok, f, same ∙ g, xqmakef) refl) (rw (ok, e, g, spec_step) refl) refl r
          | inr (i, g) ↦
              let q = made name msglen ndep (s.xq i) in
              let c : Channel = record {
                name = name;
                msglen = msglen;
                ndep = ndep;
                messages = [];
              } in
              code_step-Follows (make name msglen ndep) s a Reply.done (put_queue i q s) accepted
                (store a i (some c)) (rw (ok, f, same ∙ g, xqmakef) refl)
                (rw (ok, e, g, spec_step) refl) refl
                (put-Rel s a i q (some c) r (made-Tracks name msglen ndep (s.xq i) ok))
        ]
  ]
  | inr bad ↦
      (Reply.failed, s, rw (bad, xqmakef) refl, rw (bad, spec_step) refl, rw (bad, spec_step) r)
]
