-- ===== src/Memory/Bytes.antt =====
-- Little-endian numbers: `to_le_bytes` and `from_le_bytes` of Rust's integers.
use native.Mathlib.Nat.{pow-suc}
use aperture_os.Prelude.{
  ℕ, zero, suc, ◌+◌, ◌*◌, ◌/◌, ◌%◌, ◌^◌, ◌<◌, ◌≡◌, refl, ap, List, [], ◌∷◌, arith, length,
}

-- the `n` low bytes of `v`, the lowest first
unfoldable pub le_bytes : ℕ → ℕ → List ℕ
le_bytes zero v = []
le_bytes (suc n) v = (v % 256) ∷ le_bytes n (v / 256)

-- Each element counts as a byte, that is modulo 256.
unfoldable pub from_le_bytes : List ℕ → ℕ
from_le_bytes [] = 0
from_le_bytes (b ∷ bs) = b % 256 + 256 * from_le_bytes bs

pub length-le_bytes : (n v : ℕ) → length (le_bytes n v) ≡ n
unfolding le_bytes
length-le_bytes zero v = refl
length-le_bytes (suc n) v = ap suc (length-le_bytes n (v / 256))

pub from_le_bytes-le_bytes_u64 : (v : ℕ) → from_le_bytes (le_bytes 8 v) ≡ v % 2 ^ 64
unfolding from_le_bytes le_bytes
from_le_bytes-le_bytes_u64 v = omega arith

pub from_le_bytes-lt : (bs : List ℕ) → from_le_bytes bs < 256 ^ length bs
unfolding from_le_bytes
from_le_bytes-lt [] = omega arith
from_le_bytes-lt (b ∷ bs) = omega (arith, from_le_bytes-lt bs, pow-suc 256 (length bs))
