-- ===== src/Bits/Mask.antt =====
-- Single-bit masks of a 64-bit word, its highest value, and `trailing_ones`.
use Prim.Native.Nat.{bit_and, bit_or}
use native.Mathlib.Nat.{pow-suc, one-le-pow, mod-add-div}
use aperture_os.Prelude.{
  ℕ, zero, suc, ◌+◌, ◌-◌, ◌*◌, ◌/◌, ◌%◌, ◌^◌, ◌≤◌, ◌<◌, ◌≡◌, refl, arith, if◌then◌else◌, ◌==◌, ap,
  sym, ◌∙◌, Bool-cases, inl, inr,
}
use aperture_os.Bits.{bit, bit-zero, bit-le-one, bit-bit_or, bit-bit_and}

pub two_mul_pow : (n q : ℕ) → 2 ^ suc n * q ≡ 2 * (2 ^ n * q)
two_mul_pow n q = omega (arith, ap (λ (t : ℕ). t * q) (pow-suc 2 n))

-- The digits of `1 << k`.
pub bit-pow : (k j : ℕ) → bit (2 ^ k) j ≡ (if k == j then 1 else 0)
unfolding bit
bit-pow zero zero = refl
bit-pow zero (suc j) = ground (arith, bit-zero j)
bit-pow (suc k) zero = ground (arith, pow-suc 2 k)
bit-pow (suc k) (suc j) =
    let e : 2 ^ suc k / 2 ≡ 2 ^ k = omega (arith, pow-suc 2 k) in rw e (ground (arith, bit-pow k j))

pub pow-lt : (k n : ℕ) → k < n → 2 ^ k < 2 ^ n
pow-lt zero zero l = absurd (omega arith)
pow-lt zero (suc n) l = omega (arith, pow-suc 2 n, one-le-pow n 2)
pow-lt (suc k) zero l = absurd (omega arith)
pow-lt (suc k) (suc n) l = omega (arith, pow-suc 2 n, pow-suc 2 k, pow-lt k n)

-- The digits of the highest word of `n` bits.
pub bit-ones : (n j : ℕ) → j < n → bit (2 ^ n - 1) j ≡ 1
unfolding bit
bit-ones zero j q = absurd (omega arith)
bit-ones (suc n) zero q = omega (arith, pow-suc 2 n, one-le-pow n 2)
bit-ones (suc n) (suc j) q =
    let e : (2 ^ suc n - 1) / 2 ≡ 2 ^ n - 1 = omega (arith, pow-suc 2 n, one-le-pow n 2) in
    rw e (bit-ones n j (omega arith))

-- The digits of `!(1 << k)` in a word of `n` bits.
pub bit-not_pow :
    (n k j : ℕ) → k < n → j < n → bit (2 ^ n - 1 - 2 ^ k) j ≡ (if k == j then 0 else 1)
unfolding bit
bit-not_pow zero k j p q = absurd (omega arith)
bit-not_pow (suc n) zero zero p q = ground (arith, pow-suc 2 n, one-le-pow n 2)
bit-not_pow (suc n) (suc k) zero p q =
    ground (arith, pow-suc 2 n, pow-suc 2 k, pow-lt k n (omega arith))
bit-not_pow (suc n) zero (suc j) p q =
    let e : (2 ^ suc n - 1 - 1) / 2 ≡ 2 ^ n - 1 = omega (arith, pow-suc 2 n, one-le-pow n 2) in
    rw e (ground (arith, bit-ones n j))
bit-not_pow (suc n) (suc k) (suc j) p q =
    let e : (2 ^ suc n - 1 - 2 ^ suc k) / 2 ≡ 2 ^ n - 1 - 2 ^ k =
      omega (arith, pow-suc 2 n, pow-suc 2 k, pow-lt k n (omega arith)) in
    rw e (ground (arith, bit-not_pow n k j))

-- What stands above the lowest `n` digits does not change them.
bit-add_high : (n q r j : ℕ) → j < n → bit (r + 2 ^ n * q) j ≡ bit r j
unfolding bit
bit-add_high zero q r j l = absurd (omega arith)
bit-add_high (suc n) q r zero l = omega (arith, two_mul_pow n q)
bit-add_high (suc n) q r (suc j) l =
    let e : (r + 2 ^ suc n * q) / 2 ≡ r / 2 + 2 ^ n * q = omega (arith, two_mul_pow n q) in
    rw e (bit-add_high n q (r / 2) j (omega arith))

pub bit-mod : (n w j : ℕ) → j < n → bit (w % 2 ^ n) j ≡ bit w j
bit-mod n w j l =
    let e : w % 2 ^ n + 2 ^ n * (w / 2 ^ n) ≡ w = mod-add-div w (2 ^ n) in
    sym (bit-add_high n (w / 2 ^ n) (w % 2 ^ n) j l) ∙ ap (λ t. bit t j) e

-- `w | (1 << k)` sets digit `k` and no other.
pub bit-set : (w k j : ℕ) → bit (bit_or w (2 ^ k)) j ≡ (if k == j then 1 else bit w j)
bit-set w k j = ground (arith, bit-bit_or w (2 ^ k) j, bit-pow k j, bit-le-one w j)

-- `w & !(1 << k)` clears digit `k` of a 64-bit word and no other.
pub bit-clear :
    (w k j : ℕ)
    → k < 64
    → j < 64
    → bit (bit_and w (2 ^ 64 - 1 - 2 ^ k)) j ≡ (if k == j then 0 else bit w j)
bit-clear w k j p q =
    ground (arith, bit-bit_and w (2 ^ 64 - 1 - 2 ^ k) j, bit-not_pow 64 k j p q, bit-le-one w j)

-- `trailing_ones` of a word of `n` bits.
unfoldable pub trailing_ones : ℕ → ℕ → ℕ
trailing_ones zero w = 0
trailing_ones (suc n) w = let rest = trailing_ones n (w / 2) in if w % 2 == 1 then suc rest else 0

pub trailing_ones-le : (n w : ℕ) → trailing_ones n w ≤ n
unfolding trailing_ones
trailing_ones-le zero w = omega arith
trailing_ones-le (suc n) w = ground (arith, trailing_ones-le n (w / 2))

pub trailing_ones_below : (n w j : ℕ) → j < trailing_ones n w → bit w j ≡ 1
unfolding trailing_ones bit
trailing_ones_below zero w j l = absurd (omega arith)
trailing_ones_below (suc n) w zero l = ground arith
trailing_ones_below (suc n) w (suc j) l = ground (arith, trailing_ones_below n (w / 2) j)

pub trailing_ones_at : (n w : ℕ) → trailing_ones n w < n → bit w (trailing_ones n w) ≡ 0
unfolding trailing_ones bit
trailing_ones_at zero w l = absurd (omega arith)
trailing_ones_at (suc n) w l = elim (Bool-cases (w % 2 == 1)) [
  | inl odd ↦ rw odd (trailing_ones_at n (w / 2) (ground arith))
  | inr even ↦ rw even (ground arith)
]
