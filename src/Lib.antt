-- ===== src/Lib.antt =====
-- CP/M-8000 for the Commodore 900: the CP/M-80 interpreter, the segment allocator, and the parts of
-- the BDOS and the BIOS that keep processes, queues, directories, blocks, file names, the system
-- control block and the time.
--
-- Parts and how they meet. The interpreter (src/shim/z80.h, z80dec.c, z80exec.c, z80run.c and the
-- condition test of z80mnem.c) runs CP/M-80 programs in one 64 KB segment, which is one of those
-- that the allocator (src/bios/pgalloc.c, c900cfg.h, mapseg of crt.s) hands out to the running
-- process; the launcher between them is not modelled. In the BDOS a drive login (seldsk of
-- src/bdos/fileio.c) scans the directory: alloc() rebuilds the allocation vector (src/bdos/dskutil.c)
-- and calls dhadd() to rebuild the signature table (src/bdos/dskhash.c); later scans (dirscan of
-- dskutil.c) skip entries by that table and read records through the process's directory buffer
-- (dir_rd, dir_wr, dirhave of dskutil.c), and each write updates the table. Function 152
-- (src/bdos/parsefn.c) makes the FCBs that the scans look for. The clock driver
-- (src/bios/rtc900.c) gives the dates of the directory's stamps. The scheduler (src/bdos/proc.c)
-- switches between processes: it exchanges their images through the allocator, parks those that
-- wait, and has the lock that file calls hold while they can be parked. The flags and queues of
-- src/bdos/xdos.c wait and wake through it.
--
-- Files:
--   Base: tests on numbers, lists with a default, casts to the widths of C, bit operations; Masks
--     compares words under a mask.
--   Z80/State: struct z80 with the counters of z80exec.c as the record Z80; z80rb, z80wb, z80rw,
--     z80ww, z80getr, z80setr. Memory is a function of the address.
--   Z80/Flags: par8, z80flags, lazy, z80lcond, z80cond; below it what a flag byte shows, the lazy
--     conditions, the carry that survives and the parity table.
--   Z80/Tables: blen, bop, bx, by, bfl, and the Z_ operations as the type Op.
--   Z80/Alu: push, pop, alu, daa, rot; below it carries, sums and differences, decimal sums.
--   Z80/Decode: struct z80in as Instr, and z80dec by its groups.
--   Z80/Groups: cbop and edop.
--   Z80/Exec: z80delay, the switch of z80exec as execute, z80step, z80run; below it registers, the
--     loop that z80delay skips, the stack, the block move, the carry that an instruction spares, the
--     ends of a step, runs, the books of time.
--   Pages: the variables of pgalloc.c as the record Pool with the descriptors of the MMU, and each
--     of its functions; below it segments, the invariant and what keeps it, allocation, release,
--     reachable pools, two exchanges, pgmine.
--   Directory: dskhash.c with struct dhq, match() of fileio.c and the filter test of dirscan; below
--     it the words that a match shares with its signature (Sound), the filter (Filter), the table
--     after a login (Table, Unread) and a write (Keep), and runs of both (Runs).
--   Blocks: setaloc, clraloc, getaloc; Login has alloc(), the loops of seldsk and delete, and
--     blknum and setblk of src/bdos/bdosrw.c; below it single marks (Masks, Marks), allocation
--     (Take), login and deletion (Rebuild), a login against the directory's format (Owned), the map
--     of an FCB (FcbMap).
--   Position: the fields of an FCB that say where it stands, setran and extsize of fileio.c, new_ext,
--     blkindx, calcext, get_rc, incr_rr and the sector of do_io in src/bdos/bdosrw.c; below it the
--     random record there and back (Random), block and sector (Records), crossing extents (Extents).
--   Buffer: dirhave, dirdrop, dir_rd, dir_wr and what rdwrt and seldsk do to a process's buffer;
--     below it what other processes' writes leave true of it (Fresh) and runs (Runs). A write that
--     fails and the wait in error() before its end are steps of their own.
--   Scb: the image of scb.c, the variables it mirrors, and function 49 (scb_fn); below it stores and
--     words (Image), the bytes after a call (Mirrors), its outcomes (Calls), that they are bytes
--     (Sound).
--   ParseName: parsefn.c, pdelim, pupper, gfc and the loops of parsefn; below it one field (Fields),
--     the FCB's shape (Shape), the end of the parse (Ends), and names written out (RoundTrip, Names).
--   Clock: the calendar of rtc900.c; Registers has decode() and the image that rtcput builds; below
--     it months, years, day numbers, and the round trip through the registers.
--   Procs: the variables of proc.c as the record Sched, struct pdesc as Proc, the wake-ups and
--     pnext; Lock has plock, punlock, plkdrop, Switch pgone, pyield, pwait, pdisp, Console the pcon
--     functions, Life pcrgen, pmrtseg, pmrtrel, procdead; below them the counts (Counts), blocking
--     and wake-ups (Wakes), the round robin (Turns), where images and states are (Images), what a
--     switch does not depend on (Alike) and leaves (Dispatch), the lock's books (Guarded) and the
--     lock over runs (Exclusion).
--   Queues: the flags and queues of xdos.c; below it one queue as a sequence (Ring), the channels
--     that the calls promise (Spec), that they keep the promise (Tracks, Refine), a wait in which
--     the queue is replaced (Waits).
--   Z80/Tests, Pages/Tests and the Tests of each other part: the theorems at concrete states.
--
-- A C function that changes a state takes it and returns it beside its answer. Casts are written
-- out as remainders. Loops run on the count of the source: the rounds of z80run, the slots of the
-- pool, the blocks of a drive, the entries of a directory, the hundred years and twelve months of
-- the calendar. In parsefn a field gets ten rounds, one more than its room and the end need; the two
-- loops over blanks get fuel from outside and answer `none` without it, and more fuel than the
-- address of the string's NUL is enough. A queue call that waits goes through a list of what its
-- waits answer, and without one is still parked. A console's bit in a descriptor's mask is a Boolean.
--
-- Not modelled: the pointer z80wait is only recorded (which number of ticks it was called with);
-- the ROM's configuration block enters pginit as its two words; negative segment numbers; the
-- assembly copies z80deca.s and z80runa.s; the saving of a supervisor stack, so that a process that
-- waits is described up to its wait and from its resumption; the loader that pcrgen calls, whose
-- outcome enters as a record; the calls by which new_ext closes, opens and creates an extent, which
-- are an interface;
-- the transfer of a record by the BIOS, whose success and result enter as arguments; checksums of
-- removable media; the pins of the clock; the rest of fileio.c, bdosrw.c and the BDOS, of the BIOS,
-- the CCP, the CP/M-86 shim and the programs.
pub mod Base
pub mod Buffer
pub mod Blocks
pub mod Clock
pub mod Directory
pub mod ParseName
pub mod Z80
pub mod Pages
pub mod Position
pub mod Procs
pub mod Queues
pub mod Scb
