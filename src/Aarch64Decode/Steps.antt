-- ===== src/Aarch64Decode/Steps.antt =====
-- crates/aarch64-decode/src/lib.rs: when `step` panics.
use aperture_os.Prelude.{ℕ, ◌+◌, ◌^◌, ◌≤◌, ◌<◌, ◌≡◌, ◌≢◌, ◌↔◌, arith, List, length, take, drop}
use aperture_os.Memory.Bytes.{from_le_bytes}
use aperture_os.Aarch64Decode.{Instruction, Stepped, advance, decode, step}

advance_quiet : (pc : ℕ) (i : Instruction) → advance pc i ≢ Stepped.panicked
unfolding advance
advance_quiet pc Instruction.nop h = cc
advance_quiet pc Instruction.ret h = cc
advance_quiet pc Instruction.unsupported h = cc
advance_quiet pc (Instruction.svc imm) h = cc
advance_quiet pc (Instruction.bl offset) h = cc
advance_quiet pc (Instruction.movz reg imm shift) h = cc
advance_quiet pc (Instruction.adrp reg offset) h = cc

-- On a code of less than 2 ^ 63 bytes, `step` indexes past the end of the code exactly where the test
-- of the bounds wraps: at a counter less than four below 2 ^ 64, if the code has the bytes that the
-- wrapped sum asks for.
pub step_panics :
    (pc : ℕ) (code : List ℕ)
    → pc < 2 ^ 64
    → length code < 2 ^ 63
    → (step pc code ≡ Stepped.panicked) ↔ ((2 ^ 64 ≤ pc + 4) × (pc + 4 ≤ 2 ^ 64 + length code))
unfolding step
step_panics pc code l k =
    let quiet = advance_quiet pc (decode (from_le_bytes (take 4 (drop pc code)))) in
    (λ h. (ground arith, ground arith), λ h. ground arith)
