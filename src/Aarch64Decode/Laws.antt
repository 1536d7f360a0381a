-- ===== src/Aarch64Decode/Laws.antt =====
-- crates/aarch64-decode/src/lib.rs: what `decode` makes of the fields of an opcode.
use Prim.Native.Nat.{bit_and}
use aperture_os.Prelude.{
  ℕ, ◌+◌, ◌-◌, ◌*◌, ◌/◌, ◌%◌, ◌^◌, ◌<◌, ◌≡◌, ◌∙◌, ap, arith, ℤ, if◌then◌else◌, ltb,
}
use native.Mathlib.Decide.{dec_lt}
use aperture_os.Bits.Field.{bit_and-low, bit_and-high, bit_and-shifted}
use aperture_os.Aarch64Decode.{Instruction, shift_right, scale, bl_offset, decode}

-- Opcodes 0xD4000000 to 0xD41FFFFF: the immediate of a supervisor call stands in the digits 5 to 20.
-- The five low digits are not looked at, so a hypervisor or monitor call decodes the same.
pub decode_svc :
    (imm low : ℕ)
    → imm < 2 ^ 16
    → low < 2 ^ 5
    → decode (0xD4000000 + imm * 2 ^ 5 + low) ≡ Instruction.svc imm
unfolding decode
decode_svc imm low l k =
    let w : ℕ = 0xD4000000 + imm * 2 ^ 5 + low in
    let not_ret : bit_and w 0xFFFFFC00 ≡ 2 ^ 10 * (w / 2 ^ 10) =
      bit_and-high 10 22 w (omega arith) in
    let is_svc : bit_and w 0xFFE00000 ≡ 2 ^ 21 * (w / 2 ^ 21) =
      bit_and-high 21 11 w (omega arith) in
    let field : bit_and (w / 2 ^ 5) 0xFFFF ≡ w / 2 ^ 5 % 2 ^ 16 = bit_and-low 16 (w / 2 ^ 5) in
    ground (arith, not_ret, is_svc, field)

bl_offset_lem :
    (n : ℕ)
    → n < 2 ^ 26
    → bl_offset n ≡ (if ltb n (2 ^ 25) then ℤ.pos (4 * n) else ℤ.negsuc (4 * (2 ^ 26 - n) - 1))
unfolding bl_offset shift_right scale
bl_offset_lem n l =
    let e : n * 2 ^ 6 % 2 ^ 32 ≡ n * 64 = omega arith in
    elim (dec_lt n (2 ^ 25)) [ yes low ↦ ground (arith, e) | no high ↦ ground (arith, e) ]

-- A branch with link whose 26-bit field is `n` goes `4 n` bytes forward if `n < 2 ^ 25`, and
-- `4 (2 ^ 26 - n)` bytes back otherwise.
pub decode_bl :
    (n : ℕ)
    → n < 2 ^ 26
    → decode (0x94000000 + n)
      ≡ Instruction.bl (if ltb n (2 ^ 25) then ℤ.pos (4 * n) else ℤ.negsuc (4 * (2 ^ 26 - n) - 1))
unfolding decode
decode_bl n l =
    let w : ℕ = 0x94000000 + n in
    let not_ret : bit_and w 0xFFFFFC00 ≡ 2 ^ 10 * (w / 2 ^ 10) =
      bit_and-high 10 22 w (omega arith) in
    let not_svc : bit_and w 0xFFE00000 ≡ 2 ^ 21 * (w / 2 ^ 21) =
      bit_and-high 21 11 w (omega arith) in
    let is_bl : bit_and w 0xFC000000 ≡ 2 ^ 26 * (w / 2 ^ 26) = bit_and-high 26 6 w (omega arith) in
    let field : bit_and w 0x03FFFFFF ≡ n = bit_and-low 26 w ∙ omega arith in
    ground (arith, not_ret, not_svc, is_bl, field, bl_offset_lem n l)

-- A 64-bit MOVZ with the fields `shift`, `imm` and `reg` decodes to them, the shift in digits.
decode_movz :
    (reg imm shift : ℕ)
    → reg < 2 ^ 5
    → imm < 2 ^ 16
    → shift < 2 ^ 2
    → decode (0xD2800000 + shift * 2 ^ 21 + imm * 2 ^ 5 + reg)
      ≡ Instruction.movz reg imm (16 * shift)
unfolding decode
decode_movz reg imm shift l k j =
    let w : ℕ = 0xD2800000 + shift * 2 ^ 21 + imm * 2 ^ 5 + reg in
    let not_ret : bit_and w 0xFFFFFC00 ≡ 2 ^ 10 * (w / 2 ^ 10) =
      bit_and-high 10 22 w (omega arith) in
    let not_svc : bit_and w 0xFFE00000 ≡ 2 ^ 21 * (w / 2 ^ 21) =
      bit_and-high 21 11 w (omega arith) in
    let not_bl : bit_and w 0xFC000000 ≡ 2 ^ 26 * (w / 2 ^ 26) = bit_and-high 26 6 w (omega arith) in
    let is_movz : bit_and w 0x7F800000 ≡ 2 ^ 23 * (w / 2 ^ 23 % 2 ^ 8) =
      bit_and-shifted 23 w 255 ∙ ap (λ t. 2 ^ 23 * t) (bit_and-low 8 (w / 2 ^ 23)) in
    let reg_field : bit_and w 0x1F ≡ reg = bit_and-low 5 w ∙ omega arith in
    let imm_field : bit_and (w / 2 ^ 5) 0xFFFF ≡ imm = bit_and-low 16 (w / 2 ^ 5) ∙ omega arith in
    let shift_field : bit_and (w / 2 ^ 21) 3 ≡ shift = bit_and-low 2 (w / 2 ^ 21) ∙ omega arith in
    ground (arith, not_ret, not_svc, not_bl, is_movz, reg_field, imm_field, shift_field)
