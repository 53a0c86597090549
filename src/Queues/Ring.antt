-- ===== src/Queues/Ring.antt =====
-- One queue of src/bdos/xdos.c as a sequence of messages, oldest first.
use commodore_900_cpm.Base.{
  ℕ, zero, suc, ◌+◌, ◌-◌, ◌≤◌, ◌<◌, true, ltb, if◌then◌else◌, store, List, [], ◌∷◌, ◌++◌, ◌≡◌, ◌≢◌,
  refl, ap, ap₂, sym, ◌∙◌, arith, store_self, store_ne,
}
use commodore_900_cpm.Queues.{
  Queue, next_index, get_message, put_message, copied, made, xqmsgmx, xqdepth, makeable,
}

-- The first `n` bytes.
abbrev pub bytes_from : ℕ → (ℕ → ℕ) → ℕ → List ℕ
bytes_from zero f i = []
bytes_from (suc n) f i = f i ∷ bytes_from n f (i + 1)

abbrev pub bytes : ℕ → (ℕ → ℕ) → List ℕ
bytes n f = bytes_from n f 0

-- The messages in `c` slots of the ring from `i` on.
unfoldable pub entries : (ℕ → ℕ → ℕ) → ℕ → ℕ → ℕ → ℕ → List (List ℕ)
entries buf msglen ndep zero i = []
entries buf msglen ndep (suc c) i =
    bytes msglen (buf i) ∷ entries buf msglen ndep c (next_index ndep i)

unfoldable pub contents : Queue → List (List ℕ)
unfolding entries
contents q = entries q.buf q.msglen q.ndep q.cnt q.q_out

-- The slot `c` places after slot `i`.
abbrev wrapped : ℕ → ℕ → ℕ → ℕ
wrapped ndep i c = if ltb (i + c) ndep then i + c else i + c - ndep

pub record IsQueue (q : Queue) : Type 0 where
  pub some_bytes : 1 ≤ q.msglen
  pub few_bytes : q.msglen ≤ xqmsgmx
  pub some_room : 1 ≤ q.ndep
  pub few_rooms : q.ndep ≤ xqdepth
  pub fits : q.cnt ≤ q.ndep
  pub in_range : q.q_in < q.ndep
  pub out_range : q.q_out < q.ndep
  pub in_place : q.q_in ≡ wrapped q.ndep q.q_out q.cnt

pub made-IsQueue :
    (name : ℕ → ℕ) (msglen ndep : ℕ) (q : Queue)
    → makeable msglen ndep ≡ true
    → IsQueue (made name msglen ndep q)
unfolding made
made-IsQueue name msglen ndep q h = ground arith

pub get-IsQueue : (q : Queue) → IsQueue q → 0 < q.cnt → IsQueue (get_message q)
unfolding get_message
get-IsQueue q v h = ground arith

pub put-IsQueue :
    (msg : ℕ → ℕ) (q : Queue) → IsQueue q → q.cnt < q.ndep → IsQueue (put_message msg q)
unfolding put_message
put-IsQueue msg q v h = ground arith

copied_bytes :
    (n k i : ℕ) (f old : ℕ → ℕ) → i + k ≤ n → bytes_from k (copied n f old) i ≡ bytes_from k f i
copied_bytes n zero i f old h = refl
copied_bytes n (suc k) i f old h =
    let here : copied n f old i ≡ f i = ground arith in
    ap₂ (λ x xs. x ∷ xs) here (copied_bytes n k (i + 1) f old (omega arith))

pub bytes-copied : (n : ℕ) (f old : ℕ → ℕ) → bytes n (copied n f old) ≡ bytes n f
bytes-copied n f old = copied_bytes n n 0 f old (omega arith)

further :
    (ndep i k : ℕ)
    → suc k < ndep
    → i < ndep
    → wrapped ndep i (suc k) ≡ wrapped ndep (next_index ndep i) k
further ndep i k h lt = ground arith

-- A slot outside the ring's used part does not count.
entries_else :
    (buf : ℕ → ℕ → ℕ) (m : ℕ → ℕ) (msglen ndep c i j : ℕ)
    → i < ndep
    → c ≤ ndep
    → ((k : ℕ) → k < c → wrapped ndep i k ≢ j)
    → entries (store buf j m) msglen ndep c i ≡ entries buf msglen ndep c i
unfolding entries
entries_else buf m msglen ndep zero i j hi hc far = refl
entries_else buf m msglen ndep (suc c) i j hi hc far =
    let ne : i ≢ j = λ e. far 0 (omega arith) (ground arith) in
    let here : store buf j m i ≡ buf i = store_ne buf j m i ne in
    let rest =
      entries_else buf m msglen ndep c (next_index ndep i) j (ground arith) (omega arith)
        (λ k h e. far (suc k) (omega arith) (further ndep i k (omega arith) hi ∙ e)) in
    ap₂ (λ x xs. x ∷ xs) (ap (bytes msglen) here) rest

-- One more slot.
entries_more :
    (buf : ℕ → ℕ → ℕ) (msglen ndep c i : ℕ)
    → i < ndep
    → c < ndep
    → entries buf msglen ndep (suc c) i
      ≡ entries buf msglen ndep c i ++ (bytes msglen (buf (wrapped ndep i c)) ∷ [])
unfolding entries
entries_more buf msglen ndep zero i hi hc = let e : wrapped ndep i 0 ≡ i = ground arith in rw e refl
entries_more buf msglen ndep (suc c) i hi hc =
    let e : wrapped ndep (next_index ndep i) c ≡ wrapped ndep i (suc c) = ground arith in
    ap (λ xs. bytes msglen (buf i) ∷ xs)
      (entries_more buf msglen ndep c (next_index ndep i) (ground arith) (omega arith) ∙ rw e refl)

-- A message taken is the oldest.
pub contents-get :
    (q : Queue) → 0 < q.cnt → contents q ≡ bytes q.msglen (q.buf q.q_out) ∷ contents (get_message q)
unfolding contents get_message
contents-get q h =
    let e : q.cnt ≡ suc (q.cnt - 1) = omega arith in
    ap (λ c. entries q.buf q.msglen q.ndep c q.q_out) e

-- A message put is the newest.
pub contents-put :
    (msg : ℕ → ℕ) (q : Queue)
    → IsQueue q
    → q.cnt < q.ndep
    → contents (put_message msg q) ≡ contents q ++ (bytes q.msglen msg ∷ [])
unfolding contents put_message
contents-put msg q v h =
    let e : q.cnt + 1 ≡ suc q.cnt = omega arith in
    let m = copied q.msglen msg (q.buf q.q_in) in
    let stored = store q.buf q.q_in m in
    let kept =
      entries_else q.buf m q.msglen q.ndep q.cnt q.q_out q.q_in v.out_range v.fits
        (λ k lt same. ground (arith, v.in_place, v.out_range)) in
    let last : bytes q.msglen (stored (wrapped q.ndep q.q_out q.cnt)) ≡ bytes q.msglen msg =
      ap (λ k. bytes q.msglen (stored k)) (sym v.in_place)
      ∙ ap (bytes q.msglen) (store_self q.buf q.q_in m)
      ∙ bytes-copied q.msglen msg (q.buf q.q_in) in
    ap (λ c. entries stored q.msglen q.ndep c q.q_out) e
    ∙ entries_more stored q.msglen q.ndep q.cnt q.q_out v.out_range h
    ∙ ap₂ (λ xs x. xs ++ (x ∷ [])) kept last
