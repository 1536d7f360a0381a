-- ===== src/Bits.antt =====
-- The binary digits of a word, and what Rust's `|`, `&`, `!` and `<<` do to them.
pub mod Mask
pub mod Union
pub mod Field
use Prim.Native.Nat.{bit_and, bit_or, digits, bit_and-bitwise, bit_or-bitwise}
use aperture_os.Prelude.{ℕ, zero, suc, ◌+◌, ◌*◌, ◌/◌, ◌%◌, ◌≤◌, ◌<◌, ◌≡◌, refl, min, max, arith}

-- Digit `k` of `w`, 0 or 1.
unfoldable pub bit : ℕ → ℕ → ℕ
bit w zero = w % 2
bit w (suc k) = bit (w / 2) k

pub bit-le-one : (w k : ℕ) → bit w k ≤ 1
unfolding bit
bit-le-one w zero = omega arith
bit-le-one w (suc k) = bit-le-one (w / 2) k

pub bit-zero : (k : ℕ) → bit 0 k ≡ 0
unfolding bit
bit-zero zero = refl
bit-zero (suc k) = bit-zero k

-- A bitwise operation acts on each digit by itself.
module _ (z : ℕ → ℕ) (f : ℕ → ℕ → ℕ) (rest : (b k : ℕ) → bit (z b) k ≡ f 0 (bit b k))
    (small : (x y : ℕ) → x ≤ 1 → y ≤ 1 → f x y ≤ 1) where
  bit-digits : (n a b k : ℕ) → a ≤ n → bit (digits z f n a b) k ≡ f (bit a k) (bit b k)
  unfolding bit
  bit-digits zero zero b k l = rw (bit-zero k) (rest b k)
  bit-digits zero (suc a) b k l = absurd (omega arith)
  bit-digits (suc n) zero b k l = rw (bit-zero k) (rest b k)
  bit-digits (suc n) (suc a) b zero l =
      omega (arith, small (suc a % 2) (b % 2) (omega arith) (omega arith))
  bit-digits (suc n) (suc a) b (suc k) l =
      let d : ℕ = digits z f n (suc a / 2) (b / 2) in
      let e : (d * 2 + f (suc a % 2) (b % 2)) / 2 ≡ d =
        omega (arith, small (suc a % 2) (b % 2) (omega arith) (omega arith)) in
      rw e (bit-digits n (suc a / 2) (b / 2) k (omega arith))

pub bit-bit_or : (a b k : ℕ) → bit (bit_or a b) k ≡ max (bit a k) (bit b k)
bit-bit_or a b k =
    rw (bit_or-bitwise a b)
      (bit-digits (λ y. y) max (λ c j. omega arith) (λ x y p q. omega arith) a a b k (omega arith))

pub bit-bit_and : (a b k : ℕ) → bit (bit_and a b) k ≡ min (bit a k) (bit b k)
bit-bit_and a b k = rw (bit_and-bitwise a b) (
    bit-digits (λ y. 0) min (λ c j. omega (arith, bit-zero j)) (λ x y p q. omega arith) a a b k
      (omega arith))
