-- ===== src/Queues/Spec.antt =====
-- What the queue calls of src/bdos/xdos.c promise: named channels of messages, oldest first, that
-- hold at most so many. A call that could not go on at once fails, as functions 138 and 140 do.
use commodore_900_cpm.Base.{
  ℕ, Bool, true, false, not, leb, if◌then◌else◌, store, Option, none, some, List, [], ◌∷◌, ◌++◌,
  length, ◌≡◌,
}
use commodore_900_cpm.Procs.Console.{find_from, same_name}
use commodore_900_cpm.Queues.{
  System, Reply, xnq, xqname, makeable, xqmakef, xqopenf, xqdelf, xqread, xqwrite,
}
use commodore_900_cpm.Queues.Ring.{bytes}

pub record Channel : Type 0 where
  pub name : ℕ → ℕ
  pub msglen : ℕ
  pub ndep : ℕ
  pub messages : List (List ℕ)

abbrev pub Table : Type 0
Table = ℕ → Option Channel

-- The calls, with what the caller hands over.
pub data Call : Type 0 where
  make : (name : ℕ → ℕ) (msglen ndep : ℕ) → Call
  find : (name : ℕ → ℕ) → Call
  delete : (name : ℕ → ℕ) → Call
  read : (id : ℕ) (block : ℕ → ℕ) → Call
  write : (id : ℕ) (block : ℕ → ℕ) → Call

pub data Answer : Type 0 where
  refused : Answer
  accepted : Answer
  found : ℕ → Answer
  got : List ℕ → Answer

unfoldable pub is_named : (ℕ → ℕ) → Option Channel → Bool
is_named name none = false
is_named name (some c) = same_name c.name name xqname 0

unfoldable pub is_unused : Option Channel → Bool
is_unused none = true
is_unused (some c) = false

unfoldable pub lookup_name : (ℕ → ℕ) → Table → Option ℕ
unfolding is_named
lookup_name name a = find_from (λ i. is_named name (a i)) xnq 0

unfoldable pub add_channel : Option ℕ → Channel → Table → Answer × Table
add_channel none c a = (refused, a)
add_channel (some i) c a = (accepted, store a i (some c))

unfoldable pub take_oldest : ℕ → Channel → List (List ℕ) → Table → Answer × Table
take_oldest id c [] a = (refused, a)
take_oldest id c (m ∷ ms) a = (got m, store a id (some (record c { messages = ms })))

unfoldable pub append_newest : ℕ → (ℕ → ℕ) → Channel → Table → Answer × Table
append_newest id block c a = if leb c.ndep (length c.messages) then (refused, a) else (
  accepted,
  store a id (some (record c { messages = c.messages ++ (bytes c.msglen block ∷ []) })),
)

unfoldable pub spec_step : Call → Table → Answer × Table
unfolding lookup_name add_channel take_oldest append_newest is_unused
spec_step (make name msglen ndep) a =
    if not (makeable msglen ndep) then (refused, a) else elim (lookup_name name a) [
      | some i ↦ (accepted, a)
      | none ↦
          add_channel (find_from (λ i. is_unused (a i)) xnq 0)
            (record { name = name; msglen = msglen; ndep = ndep; messages = [] }) a
    ]
spec_step (find name) a = elim (lookup_name name a) [ none ↦ (refused, a) | some i ↦ (found i, a) ]
spec_step (delete name) a = elim (lookup_name name a) [
  | none ↦ (refused, a)
  | some i ↦ (accepted, store a i none)
]
spec_step (read id block) a =
    if leb xnq id
    then (refused, a)
    else elim (a id) [ none ↦ (refused, a) | some c ↦ take_oldest id c c.messages a ]
spec_step (write id block) a =
    if leb xnq id
    then (refused, a)
    else elim (a id) [ none ↦ (refused, a) | some c ↦ append_newest id block c a ]

-- The calls of the code: 134, 135, 136, 138 and 140.
unfoldable pub code_step : Call → System → Option (Reply × System)
unfolding xqmakef xqopenf xqdelf xqread xqwrite
code_step (make name msglen ndep) s = some (xqmakef name msglen ndep s)
code_step (find name) s = some (xqopenf name s)
code_step (delete name) s = some (xqdelf name s)
code_step (read id block) s = xqread id block true [] s
code_step (write id block) s = xqwrite id block true [] s

-- The length of the messages that a call reads.
abbrev pub call_length : Call → System → ℕ
call_length (read id block) s = (s.xq id).msglen
call_length other s = 0

-- The code's reply says what the promised answer says.
abbrev pub Agrees : ℕ → Reply → Answer → Type 0
Agrees n Reply.failed a = a ≡ refused
Agrees n Reply.done a = a ≡ accepted
Agrees n (Reply.opened i) a = a ≡ found i
Agrees n (Reply.message f) a = a ≡ got (bytes n f)

-- Call by call the code replies what is promised.
abbrev pub Refines : List Call → System → Table → Type 0
Refines [] s a = Unit {0}
Refines (op ∷ ops) s a =
    (r : Reply) × (t : System) × (code_step op s ≡ some (r, t))
    × Agrees (call_length op s) r (spec_step op a).0
    × Refines ops t (spec_step op a).1
