-- ===== src/Gui/Readback.antt =====
-- kernel/src/gui/compositor.rs: what `read_pixel` gives after `write_pixel`.
use native.Mathlib.Nat.{mul-le-mul_right}
use native.Mathlib.Decide.{ℕ_discrete, dec_lt}
use aperture_os.Prelude.{
  ℕ, suc, ◌+◌, ◌*◌, ◌<◌, ◌≤◌, ◌≡◌, ◌≢◌, ◌⊎◌, ◌∙◌, inl, inr, ap, sym, arith, List, true, false,
  get_or, if◌then◌else◌, ◌==◌, ◌&&◌, ℤ,
}
use aperture_os.Vfs.{Run}
use aperture_os.Gui.{Color, FrameBufferInfo, rgb, write_pixel, read_pixel, pixel_bytes}
use aperture_os.Gui.Pixels.{
  IsScreen, index, seen, seen-pixel_bytes, start, depth-pos, pixel, length-pixel, written,
  read_pixel_lem, write_pixel_lem, written-IsScreen, byte_at, get_or-put_bytes_outside,
}

module _ (info : FrameBufferInfo) (buf : List ℕ) (s : IsScreen info buf) (x y : ℕ)
    (xl : x < info.width) (yl : y < info.height) (c : Color) where
  abbrev buf' : List ℕ
  buf' = written info buf s x y xl yl c

  abbrev s' : IsScreen info buf'
  s' = written-IsScreen info buf s x y xl yl c

  abbrev o : ℕ
  o = start info buf s x y xl yl

  read_same : read_pixel info (ℤ.pos x) (ℤ.pos y) buf' ≡ Run.returned (rgb c.r c.g c.b)
  read_same =
      let byte : (i : ℕ)
          → i < 3
          → get_or buf' (o + i) 0 ≡ get_or (pixel_bytes info.pixel_format c) i 0 =
        byte_at info buf s x y xl yl c in
      let e : o + 0 ≡ o = omega arith in
      let byte0 : get_or buf' o 0 ≡ get_or (pixel_bytes info.pixel_format c) 0 0 =
        ap (λ j. get_or buf' j 0) (sym e) ∙ byte 0 (omega arith) in
      read_pixel_lem info buf' s' x y xl yl
      ∙ (λ i.
          Run.returned
            (seen info.pixel_format (byte0 i) (byte 1 (omega arith) i) (byte 2 (omega arith) i)))
      ∙ ap (λ t. Run.returned t) (seen-pixel_bytes info.pixel_format c s.format)

  module _ (u v : ℕ) (ul : u < info.width) (vl : v < info.height) where
    abbrev o₂ : ℕ
    o₂ = start info buf s u v ul vl

    abbrev here : ℕ
    here = index info buf s x y xl yl

    abbrev there : ℕ
    there = index info buf s u v ul vl

    distinct : (u ≡ x → v ≢ y) → there ≢ here
    distinct ne same = elim (ℕ_discrete v y) [
      | yes e ↦ ne (omega (arith, same, ap (λ t. t * info.stride) e)) e
      | no other ↦ elim (dec_lt v y) [
        | yes low ↦
            let h : suc v * info.stride ≤ y * info.stride =
              mul-le-mul_right {m = suc v} {n = y} info.stride (omega arith) in
            absurd (omega (arith, h, same, s.row))
        | no high ↦
            let h : suc y * info.stride ≤ v * info.stride =
              mul-le-mul_right {m = suc y} {n = v} info.stride (omega arith) in
            absurd (omega (arith, h, same, s.row))
      ]
    ]

    apart : there ≢ here → (o₂ + 3 ≤ o) ⊎ (o + info.bytes_per_pixel ≤ o₂)
    apart ne =
        let k : ℕ = info.bytes_per_pixel in
        let d : 3 ≤ k = depth-pos info buf s x y xl yl in
        elim (dec_lt there here) [
          | yes low ↦
              let h : suc there * k ≤ here * k =
                mul-le-mul_right {m = suc there} {n = here} k (omega arith) in
              inl (omega (arith, h, d))
          | no high ↦
              let h : suc here * k ≤ there * k =
                mul-le-mul_right {m = suc here} {n = there} k (omega arith) in
              inr (omega (arith, h, d))
        ]

    read_other :
        (u ≡ x → v ≢ y)
        → read_pixel info (ℤ.pos u) (ℤ.pos v) buf' ≡ read_pixel info (ℤ.pos u) (ℤ.pos v) buf
    read_other ne =
        let away = apart (distinct ne) in
        let byte : (i : ℕ) → i < 3 → get_or buf' (o₂ + i) 0 ≡ get_or buf (o₂ + i) 0 = λ i l.
          get_or-put_bytes_outside (pixel info buf s x y xl yl c) o buf (o₂ + i)
            (ground (arith, away, length-pixel info buf s x y xl yl c)) in
        let e : o₂ + 0 ≡ o₂ = omega arith in
        let byte0 : get_or buf' o₂ 0 ≡ get_or buf o₂ 0 =
          ap (λ j. get_or buf' j 0) (sym e) ∙ byte 0 (omega arith) ∙ ap (λ j. get_or buf j 0) e in
        read_pixel_lem info buf' s' u v ul vl
        ∙ (λ i.
            Run.returned
              (seen info.pixel_format (byte0 i) (byte 1 (omega arith) i) (byte 2 (omega arith) i)))
        ∙ sym (read_pixel_lem info buf s u v ul vl)

-- What a call of `write_pixel` promises on a pixel of the screen: it does not panic, and reading the
-- pixel gives the color without its alpha, while every other pixel of the screen reads as before.
pub record Writes (info : FrameBufferInfo) (x y : ℕ) (c : Color) (buf : List ℕ) : Type 0 where
  pub after : List ℕ
  pub returned : write_pixel info (ℤ.pos x) (ℤ.pos y) c buf ≡ Run.returned after
  pub screen : IsScreen info after
  pub shown :
      (u v : ℕ)
      → u < info.width
      → v < info.height
      → read_pixel info (ℤ.pos u) (ℤ.pos v) after ≡ (
          if u == x && v == y
          then Run.returned (rgb c.r c.g c.b)
          else read_pixel info (ℤ.pos u) (ℤ.pos v) buf)

-- On a framebuffer of 3 or 4 bytes a pixel in RGB or BGR order that its buffer holds, write_pixel on
-- a pixel of the screen does what Writes says: it does not panic, and reading that pixel back gives
-- the color without its alpha, and any other what it gave before.
pub write_pixel-Writes :
    (info : FrameBufferInfo) (x y : ℕ) (c : Color) (buf : List ℕ)
    → IsScreen info buf
    → x < info.width
    → y < info.height
    → Writes info x y c buf
write_pixel-Writes info x y c buf s xl yl = record {
  after = buf' info buf s x y xl yl c;
  returned = write_pixel_lem info buf s x y xl yl c;
  screen = s' info buf s x y xl yl c;
  shown = λ u v ul vl. elim (ℕ_discrete u x) [
    | yes e ↦ elim (ℕ_discrete v y) [
      | yes e' ↦
          let t : (u == x && v == y) ≡ true = ground arith in
          let same = read_same info buf s x y xl yl c in ground (arith, t, same)
      | no ne ↦
          let t : (u == x && v == y) ≡ false = ground arith in
          let other = read_other info buf s x y xl yl c u v ul vl (λ _. ne) in
          ground (arith, t, other)
    ]
    | no ne ↦
        let t : (u == x && v == y) ≡ false = ground arith in
        let other = read_other info buf s x y xl yl c u v ul vl (λ e. absurd (ne e)) in
        ground (arith, t, other)
  ];
}
