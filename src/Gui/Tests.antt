-- ===== src/Gui/Tests.antt =====
-- Runs of the compositor.
use aperture_os.Prelude.{
  ℕ, ◌≡◌, refl, inr, arith, List, [], ◌∷◌, true, replicate, ℤ, Option, none, some, get_or,
  get_or-replicate, u64, ◌*◌,
}
use aperture_os.Vfs.{Run}
use aperture_os.Gui.{
  Color, FrameBufferInfo, PixelFormat, rgb, with_alpha, blend, blend_channel, pixel_bytes,
  offset_of, put_bytes, write_pixel_unchecked, write_pixel, is_inside, clear,
}
use aperture_os.Gui.Pixels.{IsScreen}
use aperture_os.Gui.Readback.{Writes, write_pixel-Writes}
use aperture_os.EarlyHeap.{Bump, alloc_early, aligned_from}
use aperture_os.Gui.Windows.{
  Window, Compositor, as_usize, as_u32, rounds, new_compositor, create_window, draw_pixel, draw_row,
  draw_rows, draw_window, add_offset,
}
use aperture_os.Gui.Opened.{IsNumbered, Opens, new_window, create_window-Opens}
use aperture_os.Gui.Clear.{Fills, clear-Fills}

-- two rows of two pixels, in BGR order, of 4 bytes each
abbrev info : FrameBufferInfo
info = record {
  width = 2;
  height = 2;
  stride = 2;
  bytes_per_pixel = 4;
  pixel_format = PixelFormat.bgr_format;
}

abbrev buf : List ℕ
buf = replicate 16 7

abbrev teal : Color
teal = rgb 0 128 129

screen : IsScreen info buf
screen = record {
  row = omega arith;
  depth = inr refl;
  format = inr refl;
  whole = omega arith;
  bounded = omega arith;
}

written_run :
    write_pixel info (ℤ.pos 1) (ℤ.pos 0) teal buf
    ≡ Run.returned (7 ∷ 7 ∷ 7 ∷ 7 ∷ 129 ∷ 128 ∷ 0 ∷ 0 ∷ 7 ∷ 7 ∷ 7 ∷ 7 ∷ 7 ∷ 7 ∷ 7 ∷ 7 ∷ [])
unfolding write_pixel write_pixel_unchecked is_inside offset_of pixel_bytes put_bytes rgb
written_run = refl

write_pixel-Writes_example : Writes info 1 0 teal buf
write_pixel-Writes_example = write_pixel-Writes info 1 0 teal buf screen (omega arith) (omega arith)

clear-Fills_example : Fills info teal (λ u v. true) buf (clear info teal buf)
clear-Fills_example = clear-Fills info teal buf screen

blended_run : blend (with_alpha 200 100 0 128) (rgb 128 128 128) ≡ with_alpha 164 113 63 255
unfolding blend blend_channel with_alpha rgb
blended_run = refl

abbrev heap : Bump
heap = record { base = 4096; next = 4096; limit = 8192 }

-- The compositor of `info` at its start.
abbrev desk : Compositor
desk = record { buffer = buf; info = info; windows = replicate 32 none; next_id = 1 }

desk_run : new_compositor buf info ≡ desk
unfolding new_compositor
desk_run = refl

no_window :
    (j : ℕ) (w : Window) → get_or {A = Option Window} (replicate 32 none) j none ≡ some w → ⊥
no_window j w at = ground (arith, get_or-replicate {A = Option Window} 32 j none, at)

desk-IsNumbered : IsNumbered desk
desk-IsNumbered = record {
  below = λ j w at. absurd (no_window j w at);
  distinct = λ i j v w at at' same. absurd (no_window i v at);
}

pixels_run :
    alloc_early (u64 (as_usize (as_u32 (ℤ.pos 2) * as_u32 (ℤ.pos 1)) * 4)) 1 heap
    ≡ (some 4096, record heap { next = 4104 })
unfolding alloc_early aligned_from as_usize as_u32
pixels_run = refl

create_window-Opens_example :
    (c' : Compositor) × (create_window
        (65 ∷ [])
        (ℤ.pos 1)
        (ℤ.negsuc 0)
        (ℤ.pos 2)
        (ℤ.pos 1)
        heap
        desk
      ≡ Run.returned (1, record heap { next = 4104 }, c'))
    × Opens 1 (new_window (65 ∷ []) (ℤ.pos 1) (ℤ.negsuc 0) (ℤ.pos 2) (ℤ.pos 1) desk) desk c'
create_window-Opens_example =
    create_window-Opens (65 ∷ []) (ℤ.pos 1) (ℤ.negsuc 0) (ℤ.pos 2) (ℤ.pos 1) heap
      (record heap { next = 4104 }) desk 4096 5 desk-IsNumbered (omega arith) pixels_run
      (omega arith) refl

-- A window of two pixels that starts in the last column: its second pixel is drawn in the next row.
abbrev wide : Window
wide = record (new_window [] (ℤ.pos 1) (ℤ.pos 0) (ℤ.pos 2) (ℤ.pos 1) desk) {
  backbuffer = teal ∷ teal ∷ [];
}

wrapped_run :
    draw_window info wide buf
    ≡ Run.returned (7 ∷ 7 ∷ 7 ∷ 7 ∷ 129 ∷ 128 ∷ 0 ∷ 0 ∷ 129 ∷ 128 ∷ 0 ∷ 0 ∷ 7 ∷ 7 ∷ 7 ∷ 7 ∷ [])
unfolding draw_window draw_rows draw_row draw_pixel add_offset as_usize as_u32 rounds
    write_pixel_unchecked offset_of pixel_bytes put_bytes rgb
wrapped_run = refl

-- A window below the screen panics.
below_run : draw_window info (record wide { y = ℤ.pos 2 }) buf ≡ Run.panicked
unfolding draw_window draw_rows draw_row draw_pixel add_offset as_usize as_u32 rounds
    write_pixel_unchecked offset_of pixel_bytes put_bytes rgb
below_run = refl
