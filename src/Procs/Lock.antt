-- ===== src/Procs/Lock.antt =====
-- The recursive file-system lock of src/bdos/proc.c. A process that finds the lock held by another
-- blocks, yields and tests again, so plock() is its test, its wait and its taking.
use commodore_900_cpm.Base.{
  ℕ, ◌+◌, Bool, false, not, ◌&&◌, ◌||◌, ◌==◌, ltb, leb, if◌then◌else◌, u16, Option, none, some,
}
use commodore_900_cpm.Procs.{Sched, dec16, pw_lock, pwake}

-- `lkown == i`
unfoldable pub owned_by : ℕ → Option ℕ → Bool
owned_by i none = false
owned_by i (some j) = j == i

-- The loop of plock() goes round again: `lkdep != 0 && lkown != pcur`, and not `pnlive < 2`.
unfoldable pub must_wait : Sched → Bool
unfolding owned_by
must_wait s = not (s.lkdep == 0) && not (owned_by s.cur s.lkown) && not (ltb s.nlive 2)

-- What follows the loop.
unfoldable pub lock_take : Sched → Sched
lock_take s = record s { lkown = some s.cur; lkdep = u16 (s.lkdep + 1) }

-- `lkdep = 0; lkown = -1; pwake(PW_LOCK, 0);`
unfoldable pub lock_free : Sched → Sched
unfolding pwake
lock_free s = pwake pw_lock 0 (record s { lkdep = 0; lkown = none })

unfoldable pub punlock : Sched → Sched
unfolding lock_free
punlock s =
    let d = dec16 s.lkdep in
    if (d == 0) || leb 0x8000 d then lock_free s else record s { lkdep = d }

unfoldable pub plkdrop : Sched → Sched
unfolding lock_free owned_by
plkdrop s = if not (s.lkdep == 0) && owned_by s.cur s.lkown then lock_free s else s
