-- ===== src/X86Decode/Tests.antt =====
-- crates/x86-decode/src/lib.rs: the crate's unit tests, and its theorems at concrete bytes.
use aperture_os.Prelude.{◌≡◌, refl, some, [], ◌∷◌, true, pos, negsuc}
use aperture_os.Memory.Bytes.{from_le_bytes}
use aperture_os.X86Decode.{
  invalid, is_prefix, jump, jmp_rel8, jmp_rel32, two_byte, decode_opcode, decode_from, decode, step,
}

decode_nop_run : decode (0x90 ∷ []) ≡ record invalid { len = 1; is_nop = true }
unfolding decode decode_from is_prefix decode_opcode
decode_nop_run = refl

decode_ret_run : decode (0xC3 ∷ []) ≡ record invalid { len = 1; is_ret = true }
unfolding decode decode_from is_prefix decode_opcode
decode_ret_run = refl

decode_jmp_rel8_run : decode (0xEB ∷ 0xFE ∷ []) ≡ jump 2 (negsuc 1)
unfolding decode decode_from is_prefix decode_opcode jmp_rel8
decode_jmp_rel8_run = refl

decode_jmp_rel32_run : decode (0xE9 ∷ 0 ∷ 1 ∷ 0 ∷ 0 ∷ []) ≡ jump 5 (pos 0x100)
unfolding decode decode_from is_prefix decode_opcode jmp_rel32 from_le_bytes
decode_jmp_rel32_run = refl

decode_syscall_run : decode (0x0F ∷ 0x05 ∷ []) ≡ record invalid { len = 2; is_syscall = true }
unfolding decode decode_from is_prefix decode_opcode two_byte
decode_syscall_run = refl

decode_prefixed_run : decode (0x66 ∷ 0x90 ∷ []) ≡ record invalid { len = 2; is_nop = true }
unfolding decode decode_from is_prefix decode_opcode
decode_prefixed_run = refl

step_run : step 0x1000 (0x90 ∷ []) ≡ some 0x1001
unfolding step decode decode_from is_prefix decode_opcode
step_run = refl
