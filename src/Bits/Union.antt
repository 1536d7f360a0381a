-- ===== src/Bits/Union.antt =====
-- `a | b` where the digits of `b` are low ones: the high digits of `a` stay.
use Prim.Native.Nat.{bit_or}
use native.Mathlib.Nat.{pow-suc}
use aperture_os.Prelude.{ℕ, zero, suc, ◌+◌, ◌*◌, ◌/◌, ◌%◌, ◌^◌, ◌<◌, ◌≡◌, max, arith, ap, sym, ◌∙◌}
use aperture_os.Bits.{bit, bit-zero, bit-bit_or}
use aperture_os.Bits.Field.{bit_ext}
use aperture_os.Bits.Mask.{two_mul_pow}

bit_or_step : (a b : ℕ) → bit_or a b ≡ 2 * bit_or (a / 2) (b / 2) + max (a % 2) (b % 2)
bit_or_step a b = bit_ext _ _ step
  where
    step : (j : ℕ) → bit (bit_or a b) j ≡ bit (2 * bit_or (a / 2) (b / 2) + max (a % 2) (b % 2)) j
    step zero = unfold bit in omega (arith, bit-bit_or a b 0)
    step (suc j) =
        let e : (2 * bit_or (a / 2) (b / 2) + max (a % 2) (b % 2)) / 2 ≡ bit_or (a / 2) (b / 2) =
          omega arith in
        unfold bit in rw e (bit-bit_or a b (suc j) ∙ sym (bit-bit_or (a / 2) (b / 2) j))

pub bit_or-zero : (a : ℕ) → bit_or a 0 ≡ a
bit_or-zero a = bit_ext (bit_or a 0) a (λ j. omega (arith, bit-bit_or a 0 j, bit-zero j))

pub zero_bit_or : (b : ℕ) → bit_or 0 b ≡ b
zero_bit_or b = bit_ext (bit_or 0 b) b (λ j. omega (arith, bit-bit_or 0 b j, bit-zero j))

pub bit_or_comm : (a b : ℕ) → bit_or a b ≡ bit_or b a
bit_or_comm a b =
    bit_ext (bit_or a b) (bit_or b a) (λ j. omega (arith, bit-bit_or a b j, bit-bit_or b a j))

-- The digits of `a` from `n` on stay, and the low ones are those of the two low parts.
pub bit_or-high :
    (n q a b : ℕ)
    → a < 2 ^ n
    → b < 2 ^ n
    → (bit_or (a + 2 ^ n * q) b ≡ bit_or a b + 2 ^ n * q) × (bit_or a b < 2 ^ n)
bit_or-high zero q a b l k =
    let a_is : a ≡ 0 = omega arith in
    let b_is : b ≡ 0 = omega arith in
    let one : 1 * q ≡ q = omega arith in
    rw (a_is, b_is, one)
      (omega (arith, bit_or-zero (0 + q), bit_or-zero 0), omega (arith, bit_or-zero 0))
bit_or-high (suc n) q a b l k =
    let e : (a + 2 ^ suc n * q) / 2 ≡ a / 2 + 2 ^ n * q = omega (arith, two_mul_pow n q) in
    let (ih, small) =
      bit_or-high n q (a / 2) (b / 2) (omega (arith, pow-suc 2 n)) (omega (arith, pow-suc 2 n)) in
    (
      omega (
        arith,
        bit_or_step (a + 2 ^ suc n * q) b,
        bit_or_step a b,
        ap (λ t. bit_or t (b / 2)) e,
        ih,
        two_mul_pow n q,
      ),
      omega (arith, bit_or_step a b, small, pow-suc 2 n),
    )
