-- ===== src/X86Decode/Laws.antt =====
-- crates/x86-decode/src/lib.rs: what `decode` says of the code, for every byte sequence.
use aperture_os.Prelude.{
  ℕ, ◌+◌, ◌%◌, ◌^◌, ◌≤◌, ◌<◌, ◌≡◌, ◌≢◌, refl, some, List, [], ◌∷◌, ◌++◌, Bool, true, arith, length,
  if◌then◌else◌, ◌==◌, Bool-cases, inl, inr, signed32, is_some, ap,
}
use aperture_os.Memory.Bytes.{le_bytes, from_le_bytes}
use aperture_os.X86Decode.{
  DecodedInsn, invalid, is_prefix, jump, jmp_rel8, jmp_rel32, two_byte, decode_opcode, decode_from,
  decode, step,
}

-- The decoded instruction, one byte longer.
abbrev pub longer : DecodedInsn → DecodedInsn
longer insn = if insn.len == 0 then insn else record insn { len = insn.len + 1 }

abbrev pub indicator : Bool → ℕ
indicator b = if b then 1 else 0

-- How many of the four kinds an instruction is marked with.
abbrev pub count_kinds : DecodedInsn → ℕ
count_kinds i =
    indicator i.is_ret + indicator i.is_jmp + indicator i.is_nop + indicator i.is_syscall

opcode_inside :
    (pos opcode : ℕ) (rest : List ℕ) → (decode_opcode pos opcode rest).len ≤ pos + length rest
unfolding decode_opcode jmp_rel8 jmp_rel32 two_byte
opcode_inside pos opcode [] = ground arith
opcode_inside pos opcode (a ∷ []) = ground arith
opcode_inside pos opcode (a ∷ b ∷ []) = ground arith
opcode_inside pos opcode (a ∷ b ∷ c ∷ []) = ground arith
opcode_inside pos opcode (a ∷ b ∷ c ∷ d ∷ rest) = ground arith

from_inside : (pos : ℕ) (code : List ℕ) → (decode_from pos code).len ≤ pos + length code
unfolding decode_from
from_inside pos [] = omega arith
from_inside pos (b ∷ rest) =
    ground (arith, from_inside (pos + 1) rest, opcode_inside (pos + 1) b rest)

-- The length that `decode` reports never runs past the end of the code.
pub decode_inside : (code : List ℕ) → (decode code).len ≤ length code
unfolding decode
decode_inside code = omega (arith, from_inside 0 code)

opcode_append :
    (pos opcode : ℕ) (rest more : List ℕ)
    → (decode_opcode pos opcode rest).len ≢ 0
    → decode_opcode pos opcode (rest ++ more) ≡ decode_opcode pos opcode rest
unfolding decode_opcode jmp_rel8 jmp_rel32 two_byte
opcode_append pos opcode [] more h = ground arith
opcode_append pos opcode (a ∷ []) more h = ground arith
opcode_append pos opcode (a ∷ b ∷ []) more h = ground arith
opcode_append pos opcode (a ∷ b ∷ c ∷ []) more h = ground arith
opcode_append pos opcode (a ∷ b ∷ c ∷ d ∷ rest) more h = ground arith

from_append :
    (pos : ℕ) (code more : List ℕ)
    → (decode_from pos code).len ≢ 0
    → decode_from pos (code ++ more) ≡ decode_from pos code
unfolding decode_from
from_append pos [] more h = ground arith
from_append pos (b ∷ rest) more h = elim (Bool-cases (is_prefix b)) [
  | inl p ↦ ground (arith, from_append (pos + 1) rest more)
  | inr p ↦ ground (arith, opcode_append (pos + 1) b rest more)
]

-- A decoded instruction depends on its own bytes only: whatever follows them in memory, the result
-- is the same.
pub decode-append :
    (code more : List ℕ) → (decode code).len ≢ 0 → decode (code ++ more) ≡ decode code
unfolding decode
decode-append code more h = from_append 0 code more h

opcode_longer :
    (pos opcode : ℕ) (rest : List ℕ)
    → 0 < pos
    → decode_opcode (pos + 1) opcode rest ≡ longer (decode_opcode pos opcode rest)
unfolding decode_opcode jmp_rel8 jmp_rel32 two_byte
opcode_longer pos opcode [] h = ground arith
opcode_longer pos opcode (a ∷ []) h = ground arith
opcode_longer pos opcode (a ∷ b ∷ []) h = ground arith
opcode_longer pos opcode (a ∷ b ∷ c ∷ []) h = ground arith
opcode_longer pos opcode (a ∷ b ∷ c ∷ d ∷ rest) h = ground arith

from_longer : (pos : ℕ) (code : List ℕ) → decode_from (pos + 1) code ≡ longer (decode_from pos code)
unfolding decode_from
from_longer pos [] = refl
from_longer pos (b ∷ rest) = elim (Bool-cases (is_prefix b)) [
  | inl p ↦ ground (arith, from_longer (pos + 1) rest)
  | inr p ↦ ground (arith, opcode_longer (pos + 1) b rest)
]

-- A legacy prefix lengthens the instruction behind it by one byte and changes nothing else of it;
-- before what cannot be decoded it cannot be decoded either.
decode_prefix :
    (p : ℕ) (code : List ℕ) → is_prefix p ≡ true → decode (p ∷ code) ≡ longer (decode code)
unfolding decode decode_from
decode_prefix p code h = rw h (from_longer 0 code)

-- What kind of instruction it is: exactly one kind if it was decoded, none if not, and a jump is
-- the one with an offset.
pub record IsClassified (insn : DecodedInsn) : Type 0 where
  pub none_if_invalid : insn.len ≡ 0 → insn ≡ invalid
  pub one_kind : insn.len ≢ 0 → count_kinds insn ≡ 1
  pub offset_of_jump : insn.is_jmp ≡ is_some insn.jmp_offset

opcode-IsClassified :
    (pos opcode : ℕ) (rest : List ℕ) → 0 < pos → IsClassified (decode_opcode pos opcode rest)
unfolding decode_opcode jmp_rel8 jmp_rel32 two_byte
opcode-IsClassified pos opcode [] h = ground arith
opcode-IsClassified pos opcode (a ∷ []) h = ground arith
opcode-IsClassified pos opcode (a ∷ b ∷ []) h = ground arith
opcode-IsClassified pos opcode (a ∷ b ∷ c ∷ []) h = ground arith
opcode-IsClassified pos opcode (a ∷ b ∷ c ∷ d ∷ rest) h = ground arith

from_IsClassified : (pos : ℕ) (code : List ℕ) → IsClassified (decode_from pos code)
unfolding decode_from
from_IsClassified pos [] = ground arith
from_IsClassified pos (b ∷ rest) = elim (Bool-cases (is_prefix b)) [
  | inl p ↦ rw p (from_IsClassified (pos + 1) rest)
  | inr p ↦ rw p (opcode-IsClassified (pos + 1) b rest (omega arith))
]

-- Every result of `decode` has length 0 and is the invalid one, or is of exactly one kind (return,
-- jump, no-op, system call); it has a jump offset exactly when it is a jump.
pub decode-IsClassified : (code : List ℕ) → IsClassified (decode code)
unfolding decode
decode-IsClassified code = from_IsClassified 0 code

-- A near jump with the 32-bit displacement `v` decodes to five bytes and the signed value of `v`,
-- whatever follows.
pub decode_jmp_rel32 :
    (v : ℕ) (more : List ℕ)
    → v < 2 ^ 32
    → decode (0xE9 ∷ (le_bytes 4 v ++ more)) ≡ jump 5 (signed32 v)
unfolding decode decode_from is_prefix decode_opcode jmp_rel32 le_bytes
decode_jmp_rel32 v more l =
    let e : from_le_bytes (le_bytes 4 v) ≡ v = unfold from_le_bytes le_bytes in omega arith in
    ap (λ w. jump 5 (signed32 w)) e

-- `step` moves the counter by the decoded length, modulo 2 ^ 64, and only past bytes of the code.
pub step_inside :
    (pc : ℕ) (code : List ℕ) {next : ℕ}
    → step pc code ≡ some next
    → (n : ℕ) × (n ≢ 0) × (n ≤ length code) × (next ≡ (pc + n) % 2 ^ 64)
unfolding step
step_inside pc code h = ((decode code).len, ground arith, decode_inside code, ground arith)
