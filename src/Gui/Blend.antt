-- ===== src/Gui/Blend.antt =====
-- kernel/src/gui/color.rs: the range of a blended color.
use native.Mathlib.Nat.{mul-le-mul_right}
use native.Mathlib.Decide.{ℕ_discrete}
use aperture_os.Prelude.{ℕ, ◌+◌, ◌-◌, ◌*◌, ◌≤◌, ◌<◌, ◌≡◌, arith, ap, min, max, if◌then◌else◌, ◌==◌}
use aperture_os.Gui.{Color, blend, blend_channel, with_alpha}

-- A number lies between two others.
abbrev pub IsBetween : ℕ → ℕ → ℕ → Type 0
IsBetween s d n = (min s d ≤ n) × (n ≤ max s d)

blend_channel-IsBetween :
    (sa s d : ℕ) → sa ≤ 255 → s < 256 → d < 256 → IsBetween s d (blend_channel sa s d)
unfolding blend_channel
blend_channel-IsBetween sa s d l p q =
    let t : ℕ = 255 - sa in
    let m : ℕ = max s d in
    let n : ℕ = min s d in
    let sum : sa + t ≡ 255 = omega arith in
    let s-le : s * sa ≤ m * sa = mul-le-mul_right {m = s} {n = m} sa (omega arith) in
    let d-le : d * t ≤ m * t = mul-le-mul_right {m = d} {n = m} t (omega arith) in
    let s-ge : n * sa ≤ s * sa = mul-le-mul_right {m = n} {n = s} sa (omega arith) in
    let d-ge : n * t ≤ d * t = mul-le-mul_right {m = n} {n = d} t (omega arith) in
    let top : m * sa + m * t ≡ m * 255 = omega (arith, ap (λ k. m * k) sum) in
    let bottom : n * sa + n * t ≡ n * 255 = omega (arith, ap (λ k. n * k) sum) in
    (omega (arith, s-ge, d-ge, s-le, d-le, top, bottom), omega (arith, s-le, d-le, top))

-- The channels of a color are bytes.
pub record IsColor (c : Color) : Type 0 where
  pub r-lt : c.r < 256
  pub g-lt : c.g < 256
  pub b-lt : c.b < 256
  pub a-lt : c.a < 256

-- Each of the three channels lies between those of the two colors.
abbrev pub IsMix : Color → Color → Color → Type 0
IsMix src dst c = IsBetween src.r dst.r c.r × IsBetween src.g dst.g c.g × IsBetween src.b dst.b c.b

-- Each channel that blend gives lies between that of the source and that of the destination, so it
-- is a byte; the alpha is 255 unless the source is fully transparent, and then the result is the
-- destination.
pub blend-IsMix :
    (src dst : Color)
    → IsColor src
    → IsColor dst
    → IsMix src dst (blend src dst) × ((blend src dst).a ≡ (if src.a == 0 then dst.a else 255))
unfolding blend with_alpha
blend-IsMix src dst h k = elim (ℕ_discrete src.a 255) [
  | yes opaque ↦ ground arith
  | no ne ↦ elim (ℕ_discrete src.a 0) [
    | yes clear ↦ ground arith
    | no some_alpha ↦
        let mix : (s d : ℕ) → s < 256 → d < 256 → IsBetween s d (blend_channel src.a s d) =
          λ s d p q. blend_channel-IsBetween src.a s d (omega (arith, h.a-lt)) p q in
        ground (
          arith,
          mix src.r dst.r h.r-lt k.r-lt,
          mix src.g dst.g h.g-lt k.g-lt,
          mix src.b dst.b h.b-lt k.b-lt,
        )
  ]
]
