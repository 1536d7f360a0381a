-- ===== src/Prelude/Int.antt =====
-- Signed integers as the program casts them: `i8` and `i32` bit patterns widened to `i64`, and an
-- `i64` read as a `u64`.
use Prim.Native.Nat.{ℕ, ◌-◌, ◌%◌, ◌^◌}
use aperture_os.Prelude.Tests.{ltb, if◌then◌else◌}

-- `negsuc n` is -(n + 1).
pub data ℤ : Type 0 where
  pos : ℕ → ℤ
  negsuc : ℕ → ℤ

-- `b as i8 as i64`
abbrev pub signed8 : ℕ → ℤ
signed8 b = if ltb b 128 then ℤ.pos b else ℤ.negsuc (255 - b)

-- `w as i32 as i64`
abbrev pub signed32 : ℕ → ℤ
signed32 w = if ltb w (2 ^ 31) then ℤ.pos w else ℤ.negsuc (2 ^ 32 - 1 - w)

-- `z as u64`
abbrev pub as_u64 : ℤ → ℕ
as_u64 (ℤ.pos n) = n % 2 ^ 64
as_u64 (ℤ.negsuc n) = 2 ^ 64 - 1 - n % 2 ^ 64
