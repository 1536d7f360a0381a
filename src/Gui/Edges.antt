-- ===== src/Gui/Edges.antt =====
-- kernel/src/gui/compositor.rs: `write_pixel_unchecked` beyond the right edge of the framebuffer.
use aperture_os.Prelude.{
  ℕ, ◌+◌, ◌*◌, ◌%◌, ◌^◌, ◌<◌, ◌≡◌, refl, ap, arith, List, ℤ, u64, if◌then◌else◌, ltb, ◌||◌, length,
  take,
}
use aperture_os.Vfs.{Run}
use aperture_os.Gui.{
  Color, FrameBufferInfo, offset_of, write_pixel_unchecked, put_bytes, pixel_bytes,
}

-- A pixel that is drawn as far to the right as a row is long lands in the next row, on the same
-- column as if it had been drawn there.
pub write_pixel_unchecked-wraps :
    (info : FrameBufferInfo) (x y : ℕ) (c : Color) (buf : List ℕ)
    → info.stride + x < 2 ^ 31
    → y + 1 < 2 ^ 31
    → (y + 1) * info.stride + x < 2 ^ 64
    → write_pixel_unchecked info (ℤ.pos (info.stride + x)) (ℤ.pos y) c buf
      ≡ write_pixel_unchecked info (ℤ.pos x) (ℤ.pos (y + 1)) c buf
unfolding write_pixel_unchecked
write_pixel_unchecked-wraps info x y c buf l k b =
    let e : offset_of info (ℤ.pos (info.stride + x)) (ℤ.pos y)
        ≡ offset_of info (ℤ.pos x) (ℤ.pos (y + 1)) =
      unfold offset_of in
      (let ye : y % 2 ^ 64 ≡ y = omega arith in
        let ye' : (y + 1) % 2 ^ 64 ≡ y + 1 = omega arith in
        let xe : x % 2 ^ 64 ≡ x = omega arith in
        let xe' : (info.stride + x) % 2 ^ 64 ≡ info.stride + x = omega arith in
        let row : y * info.stride % 2 ^ 64 ≡ y * info.stride = omega (arith, b) in
        let row' : (y + 1) * info.stride % 2 ^ 64 ≡ (y + 1) * info.stride = omega (arith, b) in
        let same : y * info.stride + (info.stride + x) ≡ (y + 1) * info.stride + x = omega arith in
        rw (ye, ye', xe, xe', row, row', same) refl) in
    ap
      (λ o.
        if ltb (u64 (o + info.bytes_per_pixel)) o
          || ltb (length buf) (u64 (o + info.bytes_per_pixel))
          || ltb 4 info.bytes_per_pixel
        then Run.panicked
        else Run.returned
            (put_bytes o (take info.bytes_per_pixel (pixel_bytes info.pixel_format c)) buf))
      e
