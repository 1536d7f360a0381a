-- ===== src/Bits/Field.antt =====
-- Masks of consecutive digits: `& (2^k - 1)` keeps the low digits, `& !(2^k - 1)` clears them.
use Prim.Native.Nat.{bit_and}
use native.Mathlib.Nat.{pow-suc, one-le-pow, mod-add-div, mod-lt, mod-eq_of_lt, div-div-eq-div-mul}
use aperture_os.Prelude.{
  ℕ, zero, suc, ◌+◌, ◌-◌, ◌*◌, ◌/◌, ◌%◌, ◌^◌, ◌≤◌, ◌<◌, ◌≡◌, min, arith, ap, sym, ◌∙◌,
}
use aperture_os.Bits.{bit, bit-zero, bit-bit_and}
use aperture_os.Bits.Mask.{two_mul_pow}

bit_ext_fuel : (n a b : ℕ) → a ≤ n → b ≤ n → ((j : ℕ) → bit a j ≡ bit b j) → a ≡ b
unfolding bit
bit_ext_fuel zero a b p q h = omega arith
bit_ext_fuel (suc n) a b p q h =
    omega (arith, h 0, bit_ext_fuel n (a / 2) (b / 2) (omega arith) (omega arith) (λ j. h (suc j)))

-- A number is determined by its digits.
pub bit_ext : (a b : ℕ) → ((j : ℕ) → bit a j ≡ bit b j) → a ≡ b
bit_ext a b h = bit_ext_fuel (a + b) a b (omega arith) (omega arith) h

pub bit_and_step : (a b : ℕ) → bit_and a b ≡ 2 * bit_and (a / 2) (b / 2) + min (a % 2) (b % 2)
bit_and_step a b = bit_ext _ _ step
  where
    step : (j : ℕ) → bit (bit_and a b) j ≡ bit (2 * bit_and (a / 2) (b / 2) + min (a % 2) (b % 2)) j
    step zero = unfold bit in omega (arith, bit-bit_and a b 0)
    step (suc j) =
        let e : (2 * bit_and (a / 2) (b / 2) + min (a % 2) (b % 2)) / 2 ≡ bit_and (a / 2) (b / 2) =
          omega arith in
        unfold bit in rw e (bit-bit_and a b (suc j) ∙ sym (bit-bit_and (a / 2) (b / 2) j))

bit_and-low_sum : (n q r : ℕ) → r < 2 ^ n → bit_and (r + 2 ^ n * q) (2 ^ n - 1) ≡ r
bit_and-low_sum zero q r l = omega (
  arith,
  bit_ext (bit_and (r + 1 * q) 0) 0 (λ j. omega (arith, bit-bit_and (r + 1 * q) 0 j, bit-zero j)),
)
bit_and-low_sum (suc n) q r l =
    let e : (r + 2 ^ suc n * q) / 2 ≡ r / 2 + 2 ^ n * q = omega (arith, two_mul_pow n q) in
    let o : (2 ^ suc n - 1) / 2 ≡ 2 ^ n - 1 = omega (arith, pow-suc 2 n, one-le-pow n 2) in
    omega (
      arith,
      bit_and_step (r + 2 ^ suc n * q) (2 ^ suc n - 1),
      ap (λ t. bit_and t ((2 ^ suc n - 1) / 2)) e,
      ap (λ t. bit_and (r / 2 + 2 ^ n * q) t) o,
      bit_and-low_sum n q (r / 2) (omega (arith, pow-suc 2 n)),
      two_mul_pow n q,
      pow-suc 2 n,
      one-le-pow n 2,
    )

-- `w & (2^n - 1)` is the remainder by `2^n`.
pub bit_and-low : (n w : ℕ) → bit_and w (2 ^ n - 1) ≡ w % 2 ^ n
bit_and-low n w =
    let e : w % 2 ^ n + 2 ^ n * (w / 2 ^ n) ≡ w = mod-add-div w (2 ^ n) in
    ap (λ t. bit_and t (2 ^ n - 1)) (sym e)
    ∙ bit_and-low_sum n (w / 2 ^ n) (w % 2 ^ n) (mod-lt w (one-le-pow n 2 (omega arith)))

-- `(w & (c << k))`: the digits below `k` are cleared, the others meet those of `c`.
pub bit_and-shifted : (k w c : ℕ) → bit_and w (2 ^ k * c) ≡ 2 ^ k * bit_and (w / 2 ^ k) c
bit_and-shifted zero w c =
    let d : w / 1 ≡ w = omega arith in
    let e : 1 * c ≡ c = omega arith in
    omega (arith, ap (λ t. bit_and t c) d, ap (λ t. bit_and w t) e)
bit_and-shifted (suc k) w c =
    let d : w / 2 / 2 ^ k ≡ w / 2 ^ suc k =
      div-div-eq-div-mul w 2 (2 ^ k) ∙ ap (λ t. w / t) (omega (arith, pow-suc 2 k)) in
    let e : 2 ^ suc k * c / 2 ≡ 2 ^ k * c = omega (arith, two_mul_pow k c) in
    omega (
      arith,
      bit_and_step w (2 ^ suc k * c),
      two_mul_pow k c,
      ap (λ t. bit_and (w / 2) t) e,
      bit_and-shifted k (w / 2) c,
      ap (λ t. 2 ^ k * bit_and t c) d,
      two_mul_pow k (bit_and (w / 2 ^ suc k) c),
    )

-- `w & !(2^k - 1)` on a 64-bit word, that is `2^k` times the quotient: the word rounded down.
pub bit_and-high :
    (k n w : ℕ) → w / 2 ^ k < 2 ^ n → bit_and w (2 ^ k * (2 ^ n - 1)) ≡ 2 ^ k * (w / 2 ^ k)
bit_and-high k n w l =
    bit_and-shifted k w (2 ^ n - 1)
    ∙ ap (λ t. 2 ^ k * t) (bit_and-low n (w / 2 ^ k) ∙ mod-eq_of_lt l)
