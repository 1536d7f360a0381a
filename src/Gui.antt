-- ===== src/Gui.antt =====
-- kernel/src/gui/color.rs and compositor.rs: colors, the framebuffer, and the windows that the
-- compositor draws on it. A coordinate is an `i32`; the screen's width and height are below 2 ^ 31,
-- so that the source's casts keep them. A window's backbuffer is a block of the early heap of its own, and so a
-- list in the window. An index out of range and a failed `expect` panic.
pub mod Blend
pub mod Pixels
pub mod Readback
pub mod Edges
pub mod Clear
pub mod Windows
pub mod Opened
mod Tests
use aperture_os.Prelude.{
  ℕ, zero, suc, ◌+◌, ◌-◌, ◌*◌, ◌/◌, ◌%◌, Option, none, some, List, [], ◌∷◌, Bool, true, false, not,
  ◌&&◌, ◌||◌, if◌then◌else◌, ltb, leb, ◌==◌, min, length, take, get_or, set, replicate, ℤ, as_u64,
  u64,
}
use aperture_os.Vfs.{Run}

pub record Color : Type 0 where
  pub r : ℕ
  pub g : ℕ
  pub b : ℕ
  pub a : ℕ

-- `Color::new` and `Color::with_alpha`
unfoldable pub rgb : ℕ → ℕ → ℕ → Color
rgb r g b = record { r = r; g = g; b = b; a = 255 }

unfoldable pub with_alpha : ℕ → ℕ → ℕ → ℕ → Color
with_alpha r g b a = record { r = r; g = g; b = b; a = a }

-- one channel of `blend`; the sum is below 2 ^ 16
unfoldable pub blend_channel : ℕ → ℕ → ℕ → ℕ
blend_channel sa s d = (s * sa + d * (255 - sa)) / 255 % 256

unfoldable pub blend : Color → Color → Color
blend src dst =
    if src.a == 255
    then src
    else if src.a == 0
    then dst
    else with_alpha (blend_channel src.a src.r dst.r) (blend_channel src.a src.g dst.g)
        (blend_channel src.a src.b dst.b) 255

pub data PixelFormat : Type 0 where
  rgb_format bgr_format u8_format : PixelFormat
  unknown_format : ℕ → ℕ → ℕ → PixelFormat

pub record FrameBufferInfo : Type 0 where
  pub width : ℕ
  pub height : ℕ
  pub stride : ℕ
  pub bytes_per_pixel : ℕ
  pub pixel_format : PixelFormat

-- The four bytes of a pixel.
unfoldable pub pixel_bytes : PixelFormat → Color → List ℕ
pixel_bytes PixelFormat.rgb_format c = c.r ∷ c.g ∷ c.b ∷ 0 ∷ []
pixel_bytes PixelFormat.bgr_format c = c.b ∷ c.g ∷ c.r ∷ 0 ∷ []
pixel_bytes PixelFormat.u8_format c = c.r ∷ 0 ∷ 0 ∷ 0 ∷ []
pixel_bytes (PixelFormat.unknown_format red green blue) c =
    set (set (set (replicate 4 0) (min (red / 8) 3) c.r) (min (green / 8) 3) c.g) (min (blue / 8) 3)
      c.b

-- `((y as usize * stride) + x as usize) * bytes_per_pixel`
unfoldable pub offset_of : FrameBufferInfo → ℤ → ℤ → ℕ
offset_of info x y = u64 (u64 (u64 (as_u64 y * info.stride) + as_u64 x) * info.bytes_per_pixel)

-- `copy_from_slice` to the bytes from `offset` on
unfoldable pub put_bytes : ℕ → List ℕ → List ℕ → List ℕ
put_bytes offset [] buf = buf
put_bytes offset (b ∷ bs) buf = put_bytes (offset + 1) bs (set buf offset b)

-- `write_pixel_unchecked` on the bytes of the framebuffer
unfoldable pub write_pixel_unchecked : FrameBufferInfo → ℤ → ℤ → Color → List ℕ → Run (List ℕ)
write_pixel_unchecked info x y color buf =
    let offset = offset_of info x y in
    let end = u64 (offset + info.bytes_per_pixel) in
    let bytes = pixel_bytes info.pixel_format color in
    if ltb end offset || ltb (length buf) end || ltb 4 info.bytes_per_pixel
    then Run.panicked
    else Run.returned (put_bytes offset (take info.bytes_per_pixel bytes) buf)

-- The negation of the test that `write_pixel` and `read_pixel` begin with.
unfoldable pub is_inside : FrameBufferInfo → ℤ → ℤ → Bool
is_inside info (ℤ.pos x) (ℤ.pos y) = ltb x info.width && ltb y info.height
is_inside info _ _ = false

unfoldable pub write_pixel : FrameBufferInfo → ℤ → ℤ → Color → List ℕ → Run (List ℕ)
write_pixel info x y color buf =
    if is_inside info x y then write_pixel_unchecked info x y color buf else Run.returned buf

-- `buf[offset]`, `buf[offset + 1]` and `buf[offset + 2]`
unfoldable pub read_three : ℕ → List ℕ → (ℕ → ℕ → ℕ → Color) → Run Color
read_three offset buf color =
    if leb (length buf) offset || leb (length buf) (offset + 1) || leb (length buf) (offset + 2)
    then Run.panicked
    else Run.returned
        (color (get_or buf offset 0) (get_or buf (offset + 1) 0) (get_or buf (offset + 2) 0))

unfoldable pub read_format : PixelFormat → ℕ → List ℕ → Run Color
read_format PixelFormat.rgb_format offset buf = read_three offset buf (λ p q r. rgb p q r)
read_format PixelFormat.bgr_format offset buf = read_three offset buf (λ p q r. rgb r q p)
read_format _ offset buf = Run.returned (rgb 0 0 0)

unfoldable pub read_pixel : FrameBufferInfo → ℤ → ℤ → List ℕ → Run Color
read_pixel info x y buf =
    if is_inside info x y
    then read_format info.pixel_format (offset_of info x y) buf
    else Run.returned (rgb 0 0 0)

-- What follows a step that may panic.
abbrev pub then_run {ℓ κ} : {A : Type ℓ} {B : Type κ} → Run A → (A → Run B) → Run B
then_run Run.panicked f = Run.panicked
then_run (Run.returned a) f = f a

-- The inner loop of `clear`, `left` pixels before the end of the row, and the outer one.
unfoldable pub clear_row : ℕ → ℕ → ℕ → FrameBufferInfo → Color → List ℕ → Run (List ℕ)
clear_row zero x y info color buf = Run.returned buf
clear_row (suc left) x y info color buf =
    then_run (write_pixel info (ℤ.pos x) (ℤ.pos y) color buf)
      (λ buf. clear_row left (x + 1) y info color buf)

unfoldable pub clear_rows : ℕ → ℕ → FrameBufferInfo → Color → List ℕ → Run (List ℕ)
clear_rows zero y info color buf = Run.returned buf
clear_rows (suc left) y info color buf =
    then_run (clear_row info.width 0 y info color buf)
      (λ buf. clear_rows left (y + 1) info color buf)

unfoldable pub clear : FrameBufferInfo → Color → List ℕ → Run (List ℕ)
clear info color buf = clear_rows info.height 0 info color buf
