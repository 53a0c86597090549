-- ===== src/Buffer/Tests.antt =====
-- The property of the directory buffers, applied to one process that has read record 3 of its drive.
use commodore_900_cpm.Base.{ℕ, ◌+◌, ◌<◌, true, false, store, none, ◌≡◌, refl, arith}
use commodore_900_cpm.Buffer.{
  Phase, Proc, System, dirhave, same_record, drive_writes, dir_rd_sample, dir_rd_transfer,
  dir_rd_publish, dir_wr, dir_wr_attempt, abort,
}
use commodore_900_cpm.Buffer.Runs.{Alone, Step, Reachable, dirhave-current}

abbrev reader : Proc ℕ
reader = record {
  curdsk = 0;
  dirown = false;
  dirsecn = none;
  seen = 0;
  buf = 0;
  phase = Phase.idle;
}

-- a record is a number here
abbrev booted : System ℕ
booted = record {
  disk = λ d sec. 100 + sec;
  writes = λ d. 5;
  unmarked = λ d. false;
  procs = λ i. reader;
}

abbrev sampled : System ℕ
sampled = record booted { procs = store booted.procs 0 (dir_rd_sample booted 3 reader) }

abbrev transferred : System ℕ
transferred = record sampled {
  procs = store sampled.procs 0 (dir_rd_transfer sampled 3 (sampled.procs 0));
}

abbrev published : System ℕ
published = record transferred {
  procs = store transferred.procs 0 (dir_rd_publish 3 (transferred.procs 0));
}

published-Reachable : Reachable published
unfolding dir_rd_sample dir_rd_transfer dir_rd_publish
published-Reachable =
    Reachable.step
      (Reachable.step
        (Reachable.step (Reachable.start booted (λ i. refl) (λ i. refl))
          (Step.alone 0 (dir_rd_sample booted 3 reader) (Alone.sample 3)))
        (Step.alone 0 (dir_rd_transfer sampled 3 (sampled.procs 0)) (Alone.transfer 3 refl)))
      (Step.alone 0 (dir_rd_publish 3 (transferred.procs 0)) (Alone.publish 3 refl))

published_few : drive_writes published (published.procs 0) < (published.procs 0).seen + 0x10000
unfolding drive_writes dir_rd_sample dir_rd_transfer dir_rd_publish
published_few = omega arith

published-dirhave : dirhave published (published.procs 0) 3 ≡ true
unfolding dirhave same_record drive_writes dir_rd_sample dir_rd_transfer dir_rd_publish
published-dirhave = refl

published_place : ((published.procs 0).curdsk < 16) × ((published.procs 0).phase ≡ Phase.idle)
unfolding dir_rd_sample dir_rd_transfer dir_rd_publish
published_place = (omega arith, refl)

dirhave-current_example : (published.procs 0).buf ≡ published.disk (published.procs 0).curdsk 3
dirhave-current_example =
    dirhave-current 0 3 published-Reachable published_place.0 published_place.1 refl published_few
      published-dirhave

-- Once another process has written a record of the drive, the copy is refused.
written_elsewhere : dirhave (dir_wr 1 7 published) ((dir_wr 1 7 published).procs 0) 3 ≡ false
unfolding dirhave same_record drive_writes dir_rd_sample dir_rd_transfer dir_rd_publish dir_wr
written_elsewhere = refl

-- While another process waits in error() after a failed attempt to write record 3, the copy of it is
-- still accepted.
abbrev attempted : System ℕ
attempted = dir_wr_attempt 1 3 7 published

waiting_writer :
    (dirhave attempted (attempted.procs 0) 3 ≡ true)
    × ((attempted.procs 0).buf ≡ 103)
    × (attempted.disk 0 3 ≡ 7)
unfolding dirhave same_record drive_writes dir_rd_sample dir_rd_transfer dir_rd_publish
    dir_wr_attempt
waiting_writer = (refl, refl, refl)

-- After a read of record 5 that the operator aborts, the buffer is still accepted as record 3.
abbrev read_aborted : Proc ℕ
read_aborted = abort 99 (dir_rd_sample published 5 (published.procs 0))

aborted_read : (dirhave published read_aborted 3 ≡ true) × (read_aborted.buf ≡ 99)
unfolding dirhave same_record drive_writes dir_rd_sample dir_rd_transfer dir_rd_publish abort
aborted_read = (refl, refl)
