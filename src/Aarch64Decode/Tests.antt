-- ===== src/Aarch64Decode/Tests.antt =====
-- crates/aarch64-decode/src/lib.rs: the crate's unit tests, and its theorems at concrete fields.
use aperture_os.Prelude.{◌≡◌, ◌+◌, ◌*◌, ◌^◌, refl, arith, ℤ, ◌++◌, replicate}
use aperture_os.Aarch64Decode.{
  Instruction, shift_right, scale, signed64, bl_offset, adrp_offset, decode, Stepped, advance, step,
}
use aperture_os.Memory.Bytes.{le_bytes, from_le_bytes}
use aperture_os.Aarch64Decode.Laws.{decode_svc}

nop_run : decode 0xD503201F ≡ Instruction.nop
unfolding decode
nop_run = refl

ret_run : decode 0xD65F03C0 ≡ Instruction.ret
unfolding decode
ret_run = refl

svc_run : decode 0xD4000421 ≡ Instruction.svc 0x21
unfolding decode
svc_run = refl

bl_run : decode 0x97FFFFFE ≡ Instruction.bl (ℤ.negsuc 7)
unfolding decode bl_offset scale shift_right
bl_run = refl

movz_run : decode 0xD2824680 ≡ Instruction.movz 0 0x1234 0
unfolding decode
movz_run = refl

-- ADRP X0 with the page offsets 1 and -1.
adrp_run : decode 0xB0000000 ≡ Instruction.adrp 0 (ℤ.pos 0x1000)
unfolding decode adrp_offset scale signed64
adrp_run = refl

adrp_back_run : decode 0xF0FFFFE0 ≡ Instruction.adrp 0 (ℤ.negsuc 0xFFF)
unfolding decode adrp_offset scale signed64
adrp_back_run = refl

-- HVC #0
decode_svc_example : decode (0xD4000000 + 0 * 2 ^ 5 + 2) ≡ Instruction.svc 0
decode_svc_example = decode_svc 0 2 (omega arith) (omega arith)

-- A branch to itself goes on behind itself.
step_run : step 4 (replicate 4 0 ++ le_bytes 4 0x94000000) ≡ Stepped.next 8
unfolding step advance decode bl_offset scale shift_right le_bytes from_le_bytes
step_run = refl
