-- ===== src/Gui/Windows.antt =====
-- kernel/src/gui/compositor.rs: the windows of the compositor.
use aperture_os.Prelude.{
  ℕ, zero, suc, ◌+◌, ◌-◌, ◌*◌, Option, none, some, List, [], ◌∷◌, ◌++◌, Bool, true, false,
  if◌then◌else◌, ltb, leb, ◌==◌, min, length, take, get_or, set, replicate, position, is_none, ℤ,
  u64, as_u64, signed32, ◌%◌, ◌^◌,
}
use aperture_os.EarlyHeap.{Bump, alloc_early}
use aperture_os.Vfs.{Run}
use aperture_os.Gui.{
  Color, FrameBufferInfo, rgb, blend, read_pixel, write_pixel_unchecked, clear, then_run,
}

-- `backbuffer` is the block of `pixel_count` pixels; a window's id is its number.
pub record Window : Type 0 where
  pub id : ℕ
  pub title : List ℕ
  pub x : ℤ
  pub y : ℤ
  pub width : ℤ
  pub height : ℤ
  pub visible : Bool
  pub backbuffer : List Color

pub record Compositor : Type 0 where
  pub buffer : List ℕ
  pub info : FrameBufferInfo
  pub windows : List (Option Window)
  pub next_id : ℕ

-- The 32 bits of an `i32`.
unfoldable pub as_u32 : ℤ → ℕ
as_u32 (ℤ.pos n) = n % 2 ^ 32
as_u32 (ℤ.negsuc n) = 2 ^ 32 - 1 - n % 2 ^ 32

-- `n as usize` of an `i32` product or sum that wrapped, from its 32 bits
unfoldable pub as_usize : ℕ → ℕ
as_usize n = as_u64 (signed32 (n % 2 ^ 32))

-- The rounds of a loop over `0..n`: none if `n` is negative.
unfoldable pub rounds : ℤ → ℕ
rounds (ℤ.pos n) = n
rounds (ℤ.negsuc n) = 0

-- `Compositor::new`
unfoldable pub new_compositor : List ℕ → FrameBufferInfo → Compositor
new_compositor buffer info = record {
  buffer = buffer;
  info = info;
  windows = replicate 32 none;
  next_id = 1;
}

-- The title in a buffer of 64 bytes, with a zero at its end.
unfoldable pub title_buf : List ℕ → List ℕ
title_buf title = let len = min (length title) 63 in take len title ++ replicate (64 - len) 0

unfoldable pub create_window :
    List ℕ → ℤ → ℤ → ℤ → ℤ → Bump → Compositor → Run (ℕ × Bump × Compositor)
create_window title x y width height h c =
    let pixel_count = as_usize (as_u32 width * as_u32 height) in
    let (backbuffer, h') = alloc_early (u64 (pixel_count * 4)) 1 h in
    elim backbuffer [
      | none ↦ Run.panicked
      | some _ ↦ elim (position is_none c.windows) [
        | none ↦ Run.panicked
        | some slot ↦ Run.returned (
          c.next_id,
          h',
          record c {
            next_id = u64 (c.next_id + 1);
            windows = set c.windows slot (
                some (record {
                  id = c.next_id;
                  title = title_buf title;
                  x = x;
                  y = y;
                  width = width;
                  height = height;
                  visible = true;
                  backbuffer = replicate pixel_count (rgb 255 255 255);
                }));
          },
        )
      ]
    ]

unfoldable pub has_id : ℕ → Option Window → Bool
has_id id none = false
has_id id (some w) = w.id == id

-- `window_mut`, with what its caller does to the window.
unfoldable pub window_mut : ℕ → (Window → Window) → Compositor → Compositor
window_mut id change c = elim (position (has_id id) c.windows) [
  | none ↦ c
  | some slot ↦ elim (get_or c.windows slot none) [
    | none ↦ c
    | some w ↦ record c { windows = set c.windows slot (some (change w)) }
  ]
]

unfoldable pub clear_window : ℕ → Color → Compositor → Compositor
clear_window id color c =
    window_mut id (λ w. record w { backbuffer = replicate (length w.backbuffer) color }) c

-- `n + k` on `i32`, which wraps
unfoldable pub add_offset : ℤ → ℕ → ℤ
add_offset (ℤ.pos n) k =
    if ltb (n + k) (2 ^ 31) then ℤ.pos (n + k) else ℤ.negsuc (2 ^ 32 - 1 - (n + k))
add_offset (ℤ.negsuc n) k = if ltb n k then ℤ.pos (k - n - 1) else ℤ.negsuc (n - k)

-- One pixel of `draw_window`.
unfoldable pub draw_pixel : FrameBufferInfo → ℤ → ℤ → Color → List ℕ → Run (List ℕ)
draw_pixel info x y src buf =
    if src.a == 255
    then write_pixel_unchecked info x y src buf
    else if src.a == 0
    then Run.returned buf
    else then_run (read_pixel info x y buf)
        (λ dst. write_pixel_unchecked info x y (blend src dst) buf)

-- The loops of `draw_window`, `left` pixels before the end of a row and `left` rows before the last.
unfoldable pub draw_row : ℕ → ℕ → ℕ → FrameBufferInfo → Window → List ℕ → Run (List ℕ)
draw_row zero local_x local_y info w buf = Run.returned buf
draw_row (suc left) local_x local_y info w buf =
    let index = as_usize (local_y * as_u32 w.width + local_x) in
    let drawn =
      draw_pixel info (add_offset w.x local_x) (add_offset w.y local_y)
        (get_or w.backbuffer index (rgb 0 0 0)) buf in
    if leb (length w.backbuffer) index
    then Run.panicked
    else then_run drawn (λ buf. draw_row left (local_x + 1) local_y info w buf)

unfoldable pub draw_rows : ℕ → ℕ → FrameBufferInfo → Window → List ℕ → Run (List ℕ)
draw_rows zero local_y info w buf = Run.returned buf
draw_rows (suc left) local_y info w buf =
    then_run (draw_row (rounds w.width) 0 local_y info w buf)
      (λ buf. draw_rows left (local_y + 1) info w buf)

unfoldable pub draw_window : FrameBufferInfo → Window → List ℕ → Run (List ℕ)
draw_window info w buf = draw_rows (rounds w.height) 0 info w buf

-- The loop of `render` over the windows.
unfoldable pub draw_windows : List (Option Window) → FrameBufferInfo → List ℕ → Run (List ℕ)
draw_windows [] info buf = Run.returned buf
draw_windows (none ∷ windows) info buf = draw_windows windows info buf
draw_windows (some w ∷ windows) info buf =
    then_run (if w.visible then draw_window info w buf else Run.returned buf)
      (λ buf. draw_windows windows info buf)

unfoldable pub put_buffer : Compositor → Run (List ℕ) → Run Compositor
put_buffer c Run.panicked = Run.panicked
put_buffer c (Run.returned buf) = Run.returned (record c { buffer = buf })

-- `render`, on the color DARK_GRAY
unfoldable pub render : Compositor → Run Compositor
render c =
    put_buffer c
      (then_run (clear c.info (rgb 48 48 48) c.buffer) (λ buf. draw_windows c.windows c.info buf))
