-- ===== src/X86Decode.antt =====
-- crates/x86-decode/src/lib.rs: the instruction-length decoder. The position `pos` of the source
-- is a count of the bytes read, beside the list of the bytes that are left.
pub mod Laws
mod Tests
use aperture_os.Prelude.{
  ℕ, ◌+◌, Option, none, some, List, [], ◌∷◌, Bool, true, false, ◌||◌, if◌then◌else◌, ◌==◌, ℤ,
  signed8, signed32, wrapping_add,
}
use aperture_os.Memory.Bytes.{from_le_bytes}

pub record DecodedInsn : Type 0 where
  pub len : ℕ
  pub is_ret : Bool
  pub is_jmp : Bool
  pub is_nop : Bool
  pub is_syscall : Bool
  pub jmp_offset : Option ℤ

-- `DecodedInsn::invalid()`
abbrev pub invalid : DecodedInsn
invalid = record {
  len = 0;
  is_ret = false;
  is_jmp = false;
  is_nop = false;
  is_syscall = false;
  jmp_offset = none;
}

unfoldable pub is_prefix : ℕ → Bool
is_prefix b =
    b == 0x66
    || b == 0x67
    || b == 0x2E
    || b == 0x3E
    || b == 0x26
    || b == 0x64
    || b == 0x65
    || b == 0x36
    || b == 0xF0
    || b == 0xF2
    || b == 0xF3

abbrev pub jump : ℕ → ℤ → DecodedInsn
jump len offset = record invalid { len = len; is_jmp = true; jmp_offset = some offset }

-- JMP rel8, with `pos` bytes read and the rest of the code
unfoldable pub jmp_rel8 : ℕ → List ℕ → DecodedInsn
jmp_rel8 pos [] = invalid
jmp_rel8 pos (b ∷ _) = jump (pos + 1) (signed8 b)

-- JMP rel32: fewer than four bytes left is invalid
unfoldable pub jmp_rel32 : ℕ → List ℕ → DecodedInsn
jmp_rel32 pos (a ∷ b ∷ c ∷ d ∷ _) = jump (pos + 4) (signed32 (from_le_bytes (a ∷ b ∷ c ∷ d ∷ [])))
jmp_rel32 pos _ = invalid

-- the two-byte opcodes
unfoldable pub two_byte : ℕ → List ℕ → DecodedInsn
two_byte pos [] = invalid
two_byte pos (sub ∷ _) =
    if sub == 0x05 then record invalid { len = pos + 1; is_syscall = true } else invalid

unfoldable pub decode_opcode : ℕ → ℕ → List ℕ → DecodedInsn
decode_opcode pos opcode rest =
    if opcode == 0x90
    then record invalid { len = pos; is_nop = true }
    else if opcode == 0xC3
    then record invalid { len = pos; is_ret = true }
    else if opcode == 0xEB
    then jmp_rel8 pos rest
    else if opcode == 0xE9
    then jmp_rel32 pos rest
    else if opcode == 0x0F
    then two_byte pos rest
    else invalid

-- The prefix loop and what follows it, with `pos` bytes read.
unfoldable pub decode_from : ℕ → List ℕ → DecodedInsn
decode_from pos [] = invalid
decode_from pos (b ∷ rest) =
    let skipped = decode_from (pos + 1) rest in
    if is_prefix b then skipped else decode_opcode (pos + 1) b rest

unfoldable pub decode : List ℕ → DecodedInsn
decode code = decode_from 0 code

-- `None` if the instruction could not be decoded
unfoldable pub step : ℕ → List ℕ → Option ℕ
step pc code =
    let insn = decode code in if insn.len == 0 then none else some (wrapping_add pc insn.len)
