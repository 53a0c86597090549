-- ===== src/Buffer.antt =====
-- Each process's copy of one directory record, and the generations that tell it when another has
-- written: dirhave(), dirdrop(), dir_rd() and dir_wr() of src/bdos/dskutil.c, and what rdwrt() and
-- seldsk() do to the copy.
-- A process gives up the machine only inside rdwrt(), so dir_rd() is three steps: the generation is
-- sampled, the record is transferred, and the copy is published. A write that succeeds and the
-- increment after it are one step. A write that fails is two or more: the attempt, which may reach
-- part of the medium, after which the process waits in error(), and then another attempt, the end of
-- dir_wr() with the increment, or the operator's abort, which leaves dir_rd() or dir_wr() where it
-- is. `writes` counts the directory writes of each drive, and dirwgen is its low sixteen bits;
-- `seen` is the count whose low bits are a process's dirgen. `unmarked` stands for no variable: it
-- says of a drive whether an attempt to write it has failed since its count last moved. A record is
-- of any type `R`.
pub mod Fresh
pub mod Runs
mod Tests
use commodore_900_cpm.Base.{
  ℕ, ◌+◌, ◌%◌, ◌^◌, ◌<◌, Bool, true, false, ◌&&◌, ◌==◌, if◌then◌else◌, u16, store, Option, none,
  some, ◌≡◌,
}

-- What a process is doing with its buffer: nothing, reading (before and after the transfer),
-- changing it on the way to a write, waiting in error() after a failed attempt to write it, or
-- nothing, after an abort of a read or write before which it had a record.
pub data Phase : Type 0 where
  idle editing refused aborted : Phase
  sampled transferred : ℕ → Phase

-- Inside dir_rd() or dir_wr().
unfoldable pub is_moving : Phase → Bool
is_moving Phase.idle = false
is_moving Phase.editing = false
is_moving Phase.refused = true
is_moving Phase.aborted = false
is_moving (Phase.sampled _) = true
is_moving (Phase.transferred _) = true

pub record Proc (R : Type 0) : Type 0 where
  pub curdsk : ℕ
  pub dirown : Bool
  pub dirsecn : Option ℕ
  pub seen : ℕ
  pub buf : R
  pub phase : Phase

pub record System (R : Type 0) : Type 0 where
  pub disk : ℕ → ℕ → R
  pub writes : ℕ → ℕ
  pub unmarked : ℕ → Bool
  pub procs : ℕ → Proc R

-- `dirwgen[UBWORD(GBL.curdsk) & 15]` is the low half of this.
unfoldable pub drive_writes : {R : Type 0} → System R → Proc R → ℕ
drive_writes s p = s.writes (p.curdsk % 16)

unfoldable pub same_record : Option ℕ → ℕ → Bool
same_record none dirsec = false
same_record (some sec) dirsec = sec == dirsec

unfoldable pub dirhave : {R : Type 0} → System R → Proc R → ℕ → Bool
dirhave s p dirsec = same_record p.dirsecn dirsec && (u16 p.seen == u16 (drive_writes s p))

unfoldable pub dirdrop : {R : Type 0} → Proc R → Proc R
dirdrop p = record p { dirsecn = none }

-- dir_rd up to its call of rdwrt
unfoldable pub dir_rd_sample : {R : Type 0} → System R → ℕ → Proc R → Proc R
dir_rd_sample s secnum p = record p {
  dirown = true;
  seen = drive_writes s p;
  phase = Phase.sampled secnum;
}

-- the transfer in rdwrt, which with dirown set leaves dirsecn alone
unfoldable pub dir_rd_transfer : {R : Type 0} → System R → ℕ → Proc R → Proc R
dir_rd_transfer s secnum p = record p {
  buf = s.disk p.curdsk secnum;
  phase = Phase.transferred secnum;
}

-- the rest of dir_rd, when the transfer succeeded and when it did not
unfoldable pub dir_rd_publish : {R : Type 0} → ℕ → Proc R → Proc R
dir_rd_publish secnum p = record p { dirown = false; dirsecn = some secnum; phase = Phase.idle }

unfoldable pub dir_rd_fail : {R : Type 0} → Proc R → Proc R
dir_rd_fail p = record p { dirown = false; dirsecn = none; phase = Phase.idle }

-- dir_wr by process `i`, when the write succeeds
unfoldable pub dir_wr : {R : Type 0} → ℕ → ℕ → System R → System R
dir_wr i secnum s =
    let p = s.procs i in
    let count = drive_writes s p + 1 in
    record {
      disk = store s.disk p.curdsk (store (s.disk p.curdsk) secnum p.buf);
      writes = store s.writes (p.curdsk % 16) count;
      unmarked = store s.unmarked (p.curdsk % 16) false;
      procs =
          store s.procs i
            (record p { dirown = false; dirsecn = some secnum; seen = count; phase = Phase.idle });
    }

-- an attempt to write that fails, up to error(): the record may be partly written, with anything
unfoldable pub dir_wr_attempt : {R : Type 0} → ℕ → ℕ → R → System R → System R
dir_wr_attempt i secnum partial s =
    let p = s.procs i in
    record {
      disk = store s.disk p.curdsk (store (s.disk p.curdsk) secnum partial);
      writes = s.writes;
      unmarked = store s.unmarked (p.curdsk % 16) true;
      procs = store s.procs i (record p { dirown = true; phase = Phase.refused });
    }

-- the rest of dir_wr when error() answers that it is not to be retried
unfoldable pub dir_wr_fail : {R : Type 0} → ℕ → System R → System R
dir_wr_fail i s =
    let p = s.procs i in
    record {
      disk = s.disk;
      writes = store s.writes (p.curdsk % 16) (drive_writes s p + 1);
      unmarked = store s.unmarked (p.curdsk % 16) false;
      procs = store s.procs i (record p { dirown = false; dirsecn = none; phase = Phase.idle });
    }

-- the operator's abort of a read or a write in error(): the warm boot leaves the tag and dirown; a
-- read may have changed the buffer
unfoldable pub abort : {R : Type 0} → R → Proc R → Proc R
abort any p = record p { buf = any; phase = Phase.aborted }

-- seldsk of another drive, or of one not logged in, and a select that fails
unfoldable pub select : {R : Type 0} → ℕ → Proc R → Proc R
select d p = dirdrop (record p { curdsk = d; phase = Phase.idle })

unfoldable pub select_fail : {R : Type 0} → Proc R → Proc R
select_fail p = record p { curdsk = 0xff; phase = Phase.idle }

-- rdwrt for data, whose transfer may be into the buffer; dirown is still set after an abort
unfoldable pub foreign_transfer : {R : Type 0} → R → Proc R → Proc R
foreign_transfer any p =
    if p.dirown
    then record p { buf = any }
    else record p { dirsecn = none; buf = any; phase = Phase.idle }

-- a caller changes the entries in the buffer, to write them
unfoldable pub edit : {R : Type 0} → R → Proc R → Proc R
edit new p = record p { buf = new; phase = Phase.editing }
