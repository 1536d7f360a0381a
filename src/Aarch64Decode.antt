-- ===== src/Aarch64Decode.antt =====
-- crates/aarch64-decode/src/lib.rs: `decode` on one 32-bit opcode, and `step` over a code.
pub mod Laws
pub mod Steps
mod Tests
use Prim.Native.Nat.{bit_and, bit_or}
use aperture_os.Prelude.{
  ℕ, ◌+◌, ◌-◌, ◌*◌, ◌/◌, ◌%◌, ◌^◌, ℤ, signed32, if◌then◌else◌, ◌==◌, ltb, not, List, length, take,
  drop, wrapping_add, u64, as_u64,
}
use aperture_os.Memory.Bytes.{from_le_bytes}

pub data Instruction : Type 0 where
  nop ret unsupported : Instruction
  svc : (imm : ℕ) → Instruction
  bl : (offset : ℤ) → Instruction
  movz : (reg imm shift : ℕ) → Instruction
  adrp : (reg : ℕ) (offset : ℤ) → Instruction

-- `z >> digits` on a signed integer, which rounds down
unfoldable pub shift_right : ℤ → ℕ → ℤ
shift_right (ℤ.pos n) digits = ℤ.pos (n / 2 ^ digits)
shift_right (ℤ.negsuc n) digits = ℤ.negsuc (n / 2 ^ digits)

-- `z * k` for a positive `k`
unfoldable pub scale : ℤ → ℕ → ℤ
scale (ℤ.pos n) k = ℤ.pos (n * k)
scale (ℤ.negsuc n) k = ℤ.negsuc (n * k + (k - 1))

-- a 64-bit pattern as `i64`
unfoldable pub signed64 : ℕ → ℤ
signed64 w = if ltb w (2 ^ 63) then ℤ.pos w else ℤ.negsuc (2 ^ 64 - 1 - w)

-- `((imm26 << 6) >> 6) * 4`
unfoldable pub bl_offset : ℕ → ℤ
bl_offset imm26 = scale (shift_right (signed32 (imm26 * 2 ^ 6 % 2 ^ 32)) 6) 4

unfoldable pub adrp_offset : ℕ → ℤ
adrp_offset opcode =
    let immlo = bit_and (opcode / 2 ^ 29) 3 in
    let immhi = bit_and (opcode / 2 ^ 5) 0x7FFFF in
    let imm21 = bit_or (immhi * 2 ^ 2) immlo in
    let imm21_signed =
      if not (bit_and imm21 (2 ^ 20) == 0)
      then signed64 (bit_or imm21 (2 ^ 64 - 2 ^ 21))
      else ℤ.pos imm21 in
    scale imm21_signed 4096

unfoldable pub decode : ℕ → Instruction
decode opcode =
    if opcode == 0xD503201F
    then Instruction.nop
    else if bit_and opcode 0xFFFFFC00 == 0xD65F0000
    then Instruction.ret
    else if bit_and opcode 0xFFE00000 == 0xD4000000
    then Instruction.svc (bit_and (opcode / 2 ^ 5) 0xFFFF)
    else if bit_and opcode 0xFC000000 == 0x94000000
    then Instruction.bl (bl_offset (bit_and opcode 0x03FFFFFF))
    else if bit_and opcode 0x7F800000 == 0x52800000
    then Instruction.movz (bit_and opcode 0x1F) (bit_and (opcode / 2 ^ 5) 0xFFFF)
        (bit_and (opcode / 2 ^ 21) 3 * 16)
    else if bit_and opcode 0x9F000000 == 0x90000000
    then Instruction.adrp (bit_and opcode 0x1F) (adrp_offset opcode)
    else Instruction.unsupported

-- What `step` does: go on at a counter, `None`, or index past the end of the code and panic.
pub data Stepped : Type 0 where
  next : ℕ → Stepped
  refused : Stepped
  panicked : Stepped

unfoldable pub advance : ℕ → Instruction → Stepped
advance pc (Instruction.bl offset) = Stepped.next (wrapping_add (wrapping_add pc 4) (as_u64 offset))
advance pc Instruction.unsupported = Stepped.refused
advance pc _ = Stepped.next (wrapping_add pc 4)

-- `start + 4` wraps in the test; the four bytes are read at `start`.
unfoldable pub step : ℕ → List ℕ → Stepped
step pc code =
    if ltb (length code) (u64 (pc + 4))
    then Stepped.refused
    else if ltb (length code) (pc + 4)
    then Stepped.panicked
    else advance pc (decode (from_le_bytes (take 4 (drop pc code))))
