-- ===== src/Scb/Sound.antt =====
-- Where the byte variables are bytes, so is what function 49 finds (src/bdos/scb.c).
use commodore_900_cpm.Base.{ℕ, ◌<◌, List, [], ◌∷◌, store, u8, arith}
use commodore_900_cpm.Scb.{Image, Globals, Scb, put_all, mirrors, scbsync}
use commodore_900_cpm.Scb.Image.{◌&◌}
use commodore_900_cpm.Scb.Mirrors.{IsImage, shown}
use commodore_900_cpm.Scb.Calls.{IsScb, store-IsImage}

-- Every stored value is a byte.
unfoldable pub Fits : List (ℕ × ℕ) → Type 0
Fits [] = ℕ
Fits ((_, v) ∷ ws) = v < 256 × Fits ws

pub put_all-IsImage : (ws : List (ℕ × ℕ)) (m : Image) → Fits ws → IsImage m → IsImage (put_all ws m)
unfolding Fits put_all
put_all-IsImage [] m _ bytes = bytes
put_all-IsImage ((off, v) ∷ ws) m (here, rest) bytes =
    put_all-IsImage ws (store m off v) rest (store-IsImage m off v bytes here)

pub record IsGlobals (g : Globals) : Type 0 where
  pub delim : g.delim < 256
  pub curdsk : g.curdsk < 256
  pub multcnt : g.multcnt < 256
  pub errmode : g.errmode < 256
  pub user : g.user < 256
  pub curfx : g.curfx < 256
  pub conpage : g.conpage < 256
  pub conline : g.conline < 256
  pub pagemode : g.pagemode < 256
  pub pmdefault : g.pmdefault < 256

low : (n : ℕ) → u8 n < 256
low n = omega arith

mirrors-Fits : (info : ℕ) (g : Globals) → IsGlobals g → Fits (mirrors info g)
unfolding Fits mirrors
mirrors-Fits info g ok =
    low 0
    & low 0
    & low _
    & low _
    & ok.curdsk
    & low _
    & low _
    & ok.curfx
    & ok.user
    & low _
    & low _
    & low _
    & low _
    & low _
    & low _
    & low _
    & ok.conpage
    & ok.conline
    & ok.pagemode
    & ok.pmdefault
    & low _
    & low _
    & ok.delim
    & ok.multcnt
    & ok.errmode
    & low _
    & low _
    & 0

pub globals-IsScb : (s : Scb) → IsImage s.scbimg → IsGlobals s.gbl → IsScb s
unfolding IsScb shown scbsync
globals-IsScb s bytes ok info =
    put_all-IsImage (mirrors info s.gbl) s.scbimg (mirrors-Fits info s.gbl ok) bytes
