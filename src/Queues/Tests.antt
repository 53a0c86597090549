-- ===== src/Queues/Tests.antt =====
-- The queues and flags of src/bdos/xdos.c at concrete states.
use commodore_900_cpm.Base.{
  ℕ, ◌+◌, ◌≤◌, true, false, not, none, some, List, [], ◌∷◌, ◌≡◌, refl, arith,
}
use commodore_900_cpm.Procs.{proccnt}
use commodore_900_cpm.Procs.Console.{find_from}
use commodore_900_cpm.Procs.Tests.{three}
use commodore_900_cpm.Queues.{
  Queue, System, Reply, xqmakef, xqread, xqwrite, xqfind, xflgset, xqdelf,
}
use commodore_900_cpm.Queues.Ring.{bytes}
use commodore_900_cpm.Queues.Spec.{Call, make, find, delete, read, write, Refines}
use commodore_900_cpm.Queues.Refine.{boot-Refines}
use commodore_900_cpm.Queues.Waits.{remade, written, xqread-remade}

abbrev boot_queue : Queue
boot_queue = record {
  used = false;
  name = λ _. 0;
  msglen = 0;
  ndep = 0;
  cnt = 0;
  q_in = 0;
  q_out = 0;
  buf = λ i j. 0;
}

abbrev booted : System
booted = record { xq = λ _. boot_queue; flag = λ _. false; waiter = λ _. false; sched = three }

abbrev first_name : ℕ → ℕ
first_name j = 0x41

abbrev second_name : ℕ → ℕ
second_name j = 0x42

abbrev counting : ℕ → ℕ
counting j = j + 7

-- One queue of two-byte messages, then a write, a read and a read of nothing.
abbrev calls : List Call
calls =
    make first_name 2 3
    ∷ find first_name
    ∷ write 0 counting
    ∷ read 0 (λ _. 0)
    ∷ read 0 (λ _. 0)
    ∷ delete first_name
    ∷ find first_name
    ∷ []

boot-Refines_example : Refines calls booted (λ i. none)
boot-Refines_example = boot-Refines calls booted (λ i lt. refl)

abbrev one_queue : System
one_queue = (xqmakef first_name 2 3 booted).1

one_queue_there :
    (xqfind first_name one_queue ≡ some 0)
    × ((one_queue.xq 0).used ≡ true)
    × ((one_queue.xq 0).cnt ≡ 0)
unfolding xqmakef xqfind
one_queue_there = (refl, refl, refl)

more_processes : 2 ≤ proccnt one_queue.sched
unfolding xqmakef proccnt
more_processes = omega arith

second_fresh : xqfind second_name (xqdelf first_name one_queue).1 ≡ none
unfolding xqmakef xqfind xqdelf
second_fresh = refl

slot_again : find_from (λ i. not ((xqdelf first_name one_queue).1.xq i).used) 4 0 ≡ some 0
unfolding xqmakef xqdelf find_from
slot_again = refl

abbrev after : System
after =
    written 0 first_name second_name 4 1 one_queue (omega arith) one_queue_there.0 second_fresh
      slot_again refl counting

xqread-remade_example :
    (xqwrite 0 counting true [] (remade first_name second_name 4 1 one_queue)
      ≡ some (Reply.done, after))
    × (f : ℕ → ℕ) × (t : System) × (xqread 0
          (λ _. 0)
          false
          (record { ran = true; system = after } ∷ [])
          one_queue
        ≡ some (Reply.message f, t))
    × (bytes 4 f ≡ bytes 4 counting)
xqread-remade_example =
    xqread-remade 0 first_name second_name 4 1 one_queue (omega arith) one_queue_there.0
      second_fresh slot_again refl (λ _. 0) counting one_queue_there.1 one_queue_there.2
      more_processes

-- A flag that is set is taken by one wait, and a second set of it is refused.
flag_set : (xflgset 3 booted).0 ≡ true
unfolding xflgset
flag_set = refl

flag_over : (xflgset 3 (xflgset 3 booted).1).0 ≡ false
unfolding xflgset
flag_over = refl
