-- ===== src/Gui/Clear.antt =====
-- kernel/src/gui/compositor.rs: `clear` fills the screen.
use aperture_os.Prelude.{
  ℕ, zero, suc, ◌+◌, ◌<◌, ◌≡◌, ◌∙◌, refl, ap, arith, List, Bool, true, if◌then◌else◌, ◌==◌, leb,
  ◌&&◌, ℤ,
}
use aperture_os.Vfs.{Run}
use aperture_os.Gui.{
  Color, FrameBufferInfo, rgb, read_pixel, then_run, clear_row, clear_rows, clear,
}
use aperture_os.Gui.Pixels.{IsScreen}
use aperture_os.Gui.Readback.{Writes, write_pixel-Writes}

-- A step that does not panic and gives the pixels of an area one color, without its alpha, and
-- leaves the others.
pub record Fills (info : FrameBufferInfo) (c : Color) (area : ℕ → ℕ → Bool) (buf : List ℕ)
    (r : Run (List ℕ)) : Type 0 where
  pub after : List ℕ
  pub returned : r ≡ Run.returned after
  pub screen : IsScreen info after
  pub shown :
      (u v : ℕ)
      → u < info.width
      → v < info.height
      → read_pixel info (ℤ.pos u) (ℤ.pos v) after ≡ (
          if area u v
          then Run.returned (rgb c.r c.g c.b)
          else read_pixel info (ℤ.pos u) (ℤ.pos v) buf)

module _ (info : FrameBufferInfo) (c : Color) where
  clear_row-Fills :
      (left x y : ℕ) (buf : List ℕ)
      → IsScreen info buf
      → x + left ≡ info.width
      → y < info.height
      → Fills info c (λ u v. leb x u && v == y) buf (clear_row left x y info c buf)
  unfolding clear_row
  clear_row-Fills zero x y buf s e yl = record {
    after = buf;
    returned = refl;
    screen = s;
    shown = λ u v ul vl. ground arith;
  }
  clear_row-Fills (suc left) x y buf s e yl =
      let w : Writes info x y c buf = write_pixel-Writes info x y c buf s (omega arith) yl in
      let rest : Fills info c (λ u v. leb (x + 1) u && v == y) w.after
          (clear_row left (x + 1) y info c w.after) =
        clear_row-Fills left (x + 1) y w.after w.screen (omega arith) yl in
      record {
        after = rest.after;
        returned =
            ap (λ r. then_run r (λ buf. clear_row left (x + 1) y info c buf)) w.returned
            ∙ rest.returned;
        screen = rest.screen;
        shown = λ u v ul vl. ground (arith, rest.shown u v ul vl, w.shown u v ul vl);
      }

  clear_rows-Fills :
      (left y : ℕ) (buf : List ℕ)
      → IsScreen info buf
      → y + left ≡ info.height
      → Fills info c (λ u v. leb y v) buf (clear_rows left y info c buf)
  unfolding clear_rows
  clear_rows-Fills zero y buf s e = record {
    after = buf;
    returned = refl;
    screen = s;
    shown = λ u v ul vl. ground arith;
  }
  clear_rows-Fills (suc left) y buf s e =
      let w : Fills info c (λ u v. leb 0 u && v == y) buf (clear_row info.width 0 y info c buf) =
        clear_row-Fills info.width 0 y buf s (omega arith) (omega arith) in
      let rest : Fills info c (λ u v. leb (y + 1) v) w.after
          (clear_rows left (y + 1) info c w.after) =
        clear_rows-Fills left (y + 1) w.after w.screen (omega arith) in
      record {
        after = rest.after;
        returned =
            ap (λ r. then_run r (λ buf. clear_rows left (y + 1) info c buf)) w.returned
            ∙ rest.returned;
        screen = rest.screen;
        shown = λ u v ul vl. ground (arith, rest.shown u v ul vl, w.shown u v ul vl);
      }

-- On a framebuffer that the compositor can read back, clear does not panic, and then every pixel of
-- the screen reads as the color without its alpha.
pub clear-Fills :
    (info : FrameBufferInfo) (c : Color) (buf : List ℕ)
    → IsScreen info buf
    → Fills info c (λ u v. true) buf (clear info c buf)
unfolding clear
clear-Fills info c buf s =
    let all : Fills info c (λ u v. leb 0 v) buf (clear_rows info.height 0 info c buf) =
      clear_rows-Fills info c info.height 0 buf s (omega arith) in
    record {
      after = all.after;
      returned = all.returned;
      screen = all.screen;
      shown = λ u v ul vl. ground (arith, all.shown u v ul vl);
    }
