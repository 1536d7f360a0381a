-- ===== src/Gui/Pixels.antt =====
-- kernel/src/gui/compositor.rs: reading back what was written to the framebuffer.
use native.Mathlib.Nat.{mul-le-mul_right, mul-le-mul_left}
use aperture_os.Prelude.{
  ℕ, zero, suc, ◌+◌, ◌*◌, ◌/◌, ◌%◌, ◌^◌, ◌≤◌, ◌<◌, ◌≡◌, ◌⊎◌, ◌∙◌, refl, ap, arith, List, [], ◌∷◌,
  true, length, take, get_or-take, length-take_le, min, replicate, inl, inr, get_or, set,
  length-set, get_or-set_self, get_or-set_ne, if◌then◌else◌, ℤ,
}
use aperture_os.Vfs.{Run}
use aperture_os.Gui.{
  Color, FrameBufferInfo, PixelFormat, rgb, pixel_bytes, offset_of, put_bytes,
  write_pixel_unchecked, is_inside, write_pixel, read_three, read_format, read_pixel,
}

pub length-put_bytes :
    (bs : List ℕ) (o : ℕ) (buf : List ℕ) → length (put_bytes o bs buf) ≡ length buf
unfolding put_bytes
length-put_bytes [] o buf = refl
length-put_bytes (b ∷ bs) o buf = length-put_bytes bs (o + 1) (set buf o b) ∙ length-set buf o b

pub get_or-put_bytes_outside :
    (bs : List ℕ) (o : ℕ) (buf : List ℕ) (j : ℕ)
    → (j < o) ⊎ (o + length bs ≤ j)
    → get_or (put_bytes o bs buf) j 0 ≡ get_or buf j 0
unfolding put_bytes
get_or-put_bytes_outside [] o buf j h = refl
get_or-put_bytes_outside (b ∷ bs) o buf j h =
    get_or-put_bytes_outside bs (o + 1) (set buf o b) j (ground arith)
    ∙ get_or-set_ne buf o j b 0 (λ e. absurd (ground arith))

pub get_or-put_bytes_at :
    (bs : List ℕ) (o : ℕ) (buf : List ℕ) (i : ℕ)
    → i < length bs
    → o + length bs ≤ length buf
    → get_or (put_bytes o bs buf) (o + i) 0 ≡ get_or bs i 0
unfolding put_bytes
get_or-put_bytes_at [] o buf i h l = absurd (omega arith)
get_or-put_bytes_at (b ∷ bs) o buf zero h l =
    let e : o + 0 ≡ o = omega arith in
    ap (λ j. get_or (put_bytes (o + 1) bs (set buf o b)) j 0) e
    ∙ get_or-put_bytes_outside bs (o + 1) (set buf o b) o (ground arith)
    ∙ get_or-set_self buf o b 0 (omega arith)
get_or-put_bytes_at (b ∷ bs) o buf (suc i) h l =
    let e : o + suc i ≡ o + 1 + i = omega arith in
    ap (λ j. get_or (put_bytes (o + 1) bs (set buf o b)) j 0) e
    ∙ get_or-put_bytes_at bs (o + 1) (set buf o b) i (omega arith)
        (omega (arith, length-set buf o b))

-- A framebuffer of 24 or 32 bits a pixel that the compositor can read back, with its buffer.
pub record IsScreen (info : FrameBufferInfo) (buf : List ℕ) : Type 0 where
  pub row : info.width ≤ info.stride
  pub depth : (info.bytes_per_pixel ≡ 3) ⊎ (info.bytes_per_pixel ≡ 4)
  pub format :
      (info.pixel_format ≡ PixelFormat.rgb_format) ⊎ (info.pixel_format ≡ PixelFormat.bgr_format)
  pub whole : info.height * info.stride * info.bytes_per_pixel ≤ length buf
  pub bounded : length buf < 2 ^ 62

module _ (info : FrameBufferInfo) (buf : List ℕ) (s : IsScreen info buf) (x y : ℕ)
    (xl : x < info.width) (yl : y < info.height) where
  abbrev pub index : ℕ
  index = y * info.stride + x

  pub depth-pos : 3 ≤ info.bytes_per_pixel
  depth-pos = ground (arith, s.depth)

  pub index-lt : (index + 1) * info.bytes_per_pixel ≤ length buf
  index-lt =
      let rows : suc y * info.stride ≤ info.height * info.stride =
        mul-le-mul_right {m = suc y} {n = info.height} info.stride (omega arith) in
      let cells : (index + 1) * info.bytes_per_pixel
          ≤ info.height * info.stride * info.bytes_per_pixel =
        mul-le-mul_right {m = index + 1} {n = info.height * info.stride} info.bytes_per_pixel
          (omega (arith, rows, s.row)) in
      omega (arith, cells, s.whole)

  small : index + 1 ≤ length buf
  small =
      let h : (index + 1) * 1 ≤ (index + 1) * info.bytes_per_pixel =
        mul-le-mul_left {m = 1} {n = info.bytes_per_pixel} (index + 1) (omega (arith, depth-pos)) in
      omega (arith, h, index-lt)

  y-small : y ≤ index
  y-small =
      let h : y * 1 ≤ y * info.stride =
        mul-le-mul_left {m = 1} {n = info.stride} y (omega (arith, s.row)) in
      omega (arith, h)

  pub offset_lem : offset_of info (ℤ.pos x) (ℤ.pos y) ≡ index * info.bytes_per_pixel
  unfolding offset_of
  offset_lem =
      let ye : y % 2 ^ 64 ≡ y = omega (arith, y-small, small, s.bounded) in
      let xe : x % 2 ^ 64 ≡ x = omega (arith, small, s.bounded) in
      let rowe : y * info.stride % 2 ^ 64 ≡ y * info.stride = omega (arith, small, s.bounded) in
      let sume : index % 2 ^ 64 ≡ index = omega (arith, small, s.bounded) in
      let all : index * info.bytes_per_pixel % 2 ^ 64 ≡ index * info.bytes_per_pixel =
        omega (arith, index-lt, s.bounded) in
      rw (ye, xe, rowe, sume) all

-- The color of the first three bytes of a pixel.
abbrev pub seen : PixelFormat → ℕ → ℕ → ℕ → Color
seen PixelFormat.rgb_format p q r = rgb p q r
seen PixelFormat.bgr_format p q r = rgb r q p
seen _ p q r = rgb 0 0 0

read_three_lem :
    (o : ℕ) (buf : List ℕ) (color : ℕ → ℕ → ℕ → Color)
    → o + 3 ≤ length buf
    → read_three o buf color
      ≡ Run.returned (color (get_or buf o 0) (get_or buf (o + 1) 0) (get_or buf (o + 2) 0))
unfolding read_three
read_three_lem o buf color l = ground arith

read_format_lem :
    (f : PixelFormat) (o : ℕ) (buf : List ℕ)
    → o + 3 ≤ length buf
    → read_format f o buf
      ≡ Run.returned (seen f (get_or buf o 0) (get_or buf (o + 1) 0) (get_or buf (o + 2) 0))
unfolding read_format
read_format_lem PixelFormat.rgb_format o buf l = read_three_lem o buf (λ p q r. rgb p q r) l
read_format_lem PixelFormat.bgr_format o buf l = read_three_lem o buf (λ p q r. rgb r q p) l
read_format_lem PixelFormat.u8_format o buf l = refl
read_format_lem (PixelFormat.unknown_format red green blue) o buf l = refl

length-pixel_bytes : (f : PixelFormat) (c : Color) → length (pixel_bytes f c) ≡ 4
unfolding pixel_bytes
length-pixel_bytes PixelFormat.rgb_format c = refl
length-pixel_bytes PixelFormat.bgr_format c = refl
length-pixel_bytes PixelFormat.u8_format c = refl
length-pixel_bytes (PixelFormat.unknown_format red green blue) c =
    length-set _ (min (blue / 8) 3) c.b
    ∙ length-set _ (min (green / 8) 3) c.g
    ∙ length-set (replicate 4 0) (min (red / 8) 3) c.r

pub seen-pixel_bytes :
    (f : PixelFormat) (c : Color)
    → (f ≡ PixelFormat.rgb_format) ⊎ (f ≡ PixelFormat.bgr_format)
    → seen f
        (get_or (pixel_bytes f c) 0 0)
        (get_or (pixel_bytes f c) 1 0)
        (get_or (pixel_bytes f c) 2 0)
      ≡ rgb c.r c.g c.b
unfolding pixel_bytes
seen-pixel_bytes PixelFormat.rgb_format c h = refl
seen-pixel_bytes PixelFormat.bgr_format c h = refl
seen-pixel_bytes PixelFormat.u8_format c (inl e) = cc
seen-pixel_bytes PixelFormat.u8_format c (inr e) = cc
seen-pixel_bytes (PixelFormat.unknown_format red green blue) c (inl e) = cc
seen-pixel_bytes (PixelFormat.unknown_format red green blue) c (inr e) = cc

module _ (info : FrameBufferInfo) (buf : List ℕ) (s : IsScreen info buf) where
  module _ (x y : ℕ) (xl : x < info.width) (yl : y < info.height) where
    abbrev pub start : ℕ
    start = index info buf s x y xl yl * info.bytes_per_pixel

    pub start-lt : start + info.bytes_per_pixel ≤ length buf
    start-lt = omega (arith, index-lt info buf s x y xl yl)

    inside : is_inside info (ℤ.pos x) (ℤ.pos y) ≡ true
    unfolding is_inside
    inside = ground arith

    pub read_pixel_lem :
        read_pixel info (ℤ.pos x) (ℤ.pos y) buf
        ≡ Run.returned (
            seen info.pixel_format
              (get_or buf start 0)
              (get_or buf (start + 1) 0)
              (get_or buf (start + 2) 0))
    unfolding read_pixel
    read_pixel_lem =
        ap
          (λ b.
            if b
            then read_format info.pixel_format (offset_of info (ℤ.pos x) (ℤ.pos y)) buf
            else Run.returned (rgb 0 0 0))
          inside
        ∙ ap (λ o. read_format info.pixel_format o buf) (offset_lem info buf s x y xl yl)
        ∙ read_format_lem info.pixel_format start buf
            (omega (arith, start-lt, depth-pos info buf s x y xl yl))

    module _ (c : Color) where
      abbrev pub pixel : List ℕ
      pixel = take info.bytes_per_pixel (pixel_bytes info.pixel_format c)

      pub length-pixel : length pixel ≡ info.bytes_per_pixel
      length-pixel =
          length-take_le (pixel_bytes info.pixel_format c) info.bytes_per_pixel
            (ground (arith, s.depth, length-pixel_bytes info.pixel_format c))

      abbrev pub written : List ℕ
      written = put_bytes start pixel buf

      write_unchecked_lem :
          write_pixel_unchecked info (ℤ.pos x) (ℤ.pos y) c buf ≡ Run.returned written
      unfolding write_pixel_unchecked
      write_unchecked_lem =
          let o = offset_lem info buf s x y xl yl in
          let end : (start + info.bytes_per_pixel) % 2 ^ 64 ≡ start + info.bytes_per_pixel =
            omega (arith, start-lt, s.bounded) in
          rw (o, end) (ground (arith, s.depth, start-lt))

      pub write_pixel_lem : write_pixel info (ℤ.pos x) (ℤ.pos y) c buf ≡ Run.returned written
      unfolding write_pixel
      write_pixel_lem =
          ap
            (λ b.
              if b then write_pixel_unchecked info (ℤ.pos x) (ℤ.pos y) c buf else Run.returned buf)
            inside
          ∙ write_unchecked_lem

      pub written-IsScreen : IsScreen info written
      written-IsScreen = record {
        row = s.row;
        depth = s.depth;
        format = s.format;
        whole = omega (arith, s.whole, length-put_bytes pixel start buf);
        bounded = omega (arith, s.bounded, length-put_bytes pixel start buf);
      }

      pub byte_at :
          (i : ℕ)
          → i < 3
          → get_or written (start + i) 0 ≡ get_or (pixel_bytes info.pixel_format c) i 0
      byte_at i l =
          get_or-put_bytes_at pixel start buf i
            (omega (arith, length-pixel, depth-pos info buf s x y xl yl))
            (omega (arith, length-pixel, start-lt))
          ∙ get_or-take (pixel_bytes info.pixel_format c) info.bytes_per_pixel i
              (omega (arith, depth-pos info buf s x y xl yl))
