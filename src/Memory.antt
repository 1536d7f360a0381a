-- ===== src/Memory.antt =====
-- Physical memory, which the kernel reads and writes through raw pointers: a byte at each address.
-- `ptr.read`, `ptr.write`, `copy_nonoverlapping` and `write_bytes` of Rust's `core::ptr` as the
-- kernel uses them on its targets, which are little-endian.
pub mod Bytes
pub mod Laws
use aperture_os.Prelude.{
  ℕ, zero, suc, ◌+◌, ◌-◌, List, [], ◌∷◌, ◌&&◌, if◌then◌else◌, leb, ltb, length, get_or, replicate,
}
use Bytes.{le_bytes, from_le_bytes}

abbrev pub Memory : Type 0
Memory = ℕ → ℕ

-- `len` bytes from address `a` on
unfoldable pub read_bytes : ℕ → ℕ → Memory → List ℕ
read_bytes a zero m = []
read_bytes a (suc len) m = m a ∷ read_bytes (a + 1) len m

-- the bytes `bs` from address `a` on
unfoldable pub write_bytes : ℕ → List ℕ → Memory → Memory
write_bytes a bs m b = if leb a b && ltb b (a + length bs) then get_or bs (b - a) 0 else m b

-- `core::ptr::write_bytes(a, 0, len)`
unfoldable pub zero_bytes : ℕ → ℕ → Memory → Memory
zero_bytes a len m b = if leb a b && ltb b (a + len) then 0 else m b

unfoldable pub read_u64 : ℕ → Memory → ℕ
read_u64 a m = from_le_bytes (read_bytes a 8 m)

unfoldable pub write_u64 : ℕ → ℕ → Memory → Memory
write_u64 a v = write_bytes a (le_bytes 8 v)
