-- ===== src/Scb/Tests.antt =====
-- Function 49 at a concrete block.
use commodore_900_cpm.Base.{◌≡◌, refl, arith}
use commodore_900_cpm.Scb.{Scb, linked, initial, scb_fn}
use commodore_900_cpm.Scb.Image.{◌&◌}
use commodore_900_cpm.Scb.Mirrors.{shown}
use commodore_900_cpm.Scb.Sound.{globals-IsScb, put_all-IsImage, Fits}
use commodore_900_cpm.Scb.Calls.{IsScb, Outcome, scb_fn-Outcome}

-- The block of a running system.
abbrev running : Scb
running = record {
  scbimg = linked;
  gbl = record {
    delim = 0x24;
    column = 7;
    curdsk = 2;
    srchpos = 300;
    dmaadr = 0x10080;
    srchp = 0x1005c;
    multcnt = 1;
    errmode = 0;
    user = 4;
    curfx = 49;
    conmode = 0x0109;
    retcode = 0xff00;
    conpage = 24;
    conline = 3;
    pagemode = 0;
    pmdefault = 0;
    tpa_ht = 0x20000;
  };
}

-- The multi-sector count set to 200 is 128.
clamps : shown 0 (scb_fn 0x4a 0xff 200 0 0 running).1 0x4a ≡ 128
unfolding shown scb_fn
clamps = refl

-- Console mode read back as a word.
reads_mode : (scb_fn 0x33 0 0 0 0 running).0 ≡ 0x0109
unfolding scb_fn
reads_mode = refl

-- The drive is not changed by a set.
keeps_drive : shown 0 (scb_fn 0x3e 0xff 5 0 0 running).1 0x3e ≡ 2
unfolding shown scb_fn
keeps_drive = refl

reads_top : (scb_fn 0x62 0 0 0 0 running).0 ≡ 0xffff
unfolding scb_fn
reads_top = refl

running-IsScb : IsScb running
unfolding linked Fits
running-IsScb =
    globals-IsScb running
      (put_all-IsImage initial (λ i. 0)
        (omega arith
          & omega arith
          & omega arith
          & omega arith
          & omega arith
          & omega arith
          & omega arith
          & omega arith
          & omega arith
          & omega arith
          & omega arith
          & omega arith
          & omega arith
          & omega arith
          & 0)
        (λ o. omega arith))
      (record {
        delim = omega arith;
        curdsk = omega arith;
        multcnt = omega arith;
        errmode = omega arith;
        user = omega arith;
        curfx = omega arith;
        conpage = omega arith;
        conline = omega arith;
        pagemode = omega arith;
        pmdefault = omega arith;
      })

scb_fn-Outcome_example : Outcome 0x4a 0xff 200 0 0 running (scb_fn 0x4a 0xff 200 0 0 running)
scb_fn-Outcome_example =
    scb_fn-Outcome 0x4a 0xff 200 0 0 running (omega arith) (omega arith) running-IsScb
