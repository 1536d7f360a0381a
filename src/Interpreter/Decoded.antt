-- ===== src/Interpreter/Decoded.antt =====
-- kernel/src/win32/abi/interpreter.rs beside crates/x86-decode/src/lib.rs: where the decoder reports
-- a jump or a nop, the interpreter takes it.
use aperture_os.Prelude.{
  ℕ, ◌≡◌, sym, subst, none, some, List, [], ◌∷◌, true, false, arith, inl, inr, wrapping_add, ◌⊎◌,
  ◌||◌,
}
use aperture_os.X86Decode.{DecodedInsn, is_prefix, decode, decode_from, decode_opcode}
use aperture_os.X86Decode.{jmp_rel8 as short_form, jmp_rel32 as near_form, two_byte as escape_form}
use aperture_os.Interpreter.{
  Guest, Next, jmp_rel8, jmp_rel32, execute_opcode, execute_instruction, relative,
}

decode_first :
    (b : ℕ) (rest : List ℕ) → is_prefix b ≡ false → decode (b ∷ rest) ≡ decode_opcode 1 b rest
unfolding decode decode_from
decode_first b rest h = rw h

-- Where the decoder says that a jump or a nop goes.
abbrev pub next_pc : ℕ → DecodedInsn → ℕ
next_pc pc insn = elim insn.jmp_offset [
  | none ↦ wrapping_add pc insn.len
  | some z ↦ relative pc insn.len z
]

abbrev IsFlagged : ℕ → List ℕ → Type 0
IsFlagged b rest = ((decode_opcode 1 b rest).is_nop || (decode_opcode 1 b rest).is_jmp) ≡ true

first_byte : (b : ℕ) (rest : List ℕ) → IsFlagged b rest → (b ≡ 0x90) ⊎ ((b ≡ 0xEB) ⊎ (b ≡ 0xE9))
unfolding decode_opcode escape_form
first_byte b [] h = ground arith
first_byte b (c ∷ rest) h = ground arith

module _ {K : Type 0} (dispatch : ℕ → List ℕ → Guest K → ℕ × Guest K) (pc : ℕ) (g : Guest K) where
  short_jump :
      (rest : List ℕ)
      → IsFlagged 0xEB rest
      → execute_instruction dispatch pc (0xEB ∷ rest) g
        ≡ (Next.go (next_pc pc (decode_opcode 1 0xEB rest)), g)
  unfolding decode_opcode short_form execute_instruction execute_opcode jmp_rel8
  short_jump [] h = cc
  short_jump (c ∷ rest) h = ground arith

  near_jump :
      (rest : List ℕ)
      → IsFlagged 0xE9 rest
      → execute_instruction dispatch pc (0xE9 ∷ rest) g
        ≡ (Next.go (next_pc pc (decode_opcode 1 0xE9 rest)), g)
  unfolding decode_opcode near_form execute_instruction execute_opcode jmp_rel32
  near_jump [] h = cc
  near_jump (a ∷ []) h = cc
  near_jump (a ∷ b ∷ []) h = cc
  near_jump (a ∷ b ∷ c ∷ []) h = cc
  near_jump (a ∷ b ∷ c ∷ d ∷ rest) h = ground arith

  nop :
      (rest : List ℕ)
      → execute_instruction dispatch pc (0x90 ∷ rest) g
        ≡ (Next.go (next_pc pc (decode_opcode 1 0x90 rest)), g)
  unfolding decode_opcode execute_instruction execute_opcode
  nop rest = ground arith

  abbrev IsTaken : ℕ → List ℕ → Type 0
  IsTaken b rest =
      execute_instruction dispatch pc (b ∷ rest) g
      ≡ (Next.go (next_pc pc (decode_opcode 1 b rest)), g)

  taken : (b : ℕ) (rest : List ℕ) → IsFlagged b rest → IsTaken b rest
  taken b rest h = elim (first_byte b rest h) [
    | inl e ↦ subst (λ c. IsTaken c rest) (sym e) (nop rest)
    | inr (inl e) ↦
        subst (λ c. IsTaken c rest) (sym e) (short_jump rest (subst (λ c. IsFlagged c rest) e h))
    | inr (inr e) ↦
        subst (λ c. IsTaken c rest) (sym e) (near_jump rest (subst (λ c. IsFlagged c rest) e h))
  ]

-- Where the decoder, on code whose first byte is no legacy prefix, reports a nop or a jump, the
-- interpreter goes on at the end of the decoded instruction, or at the jump's offset behind it, and
-- changes no register and no memory.
pub execute-decode :
    {K : Type 0} (dispatch : ℕ → List ℕ → Guest K → ℕ × Guest K) (pc b : ℕ) (rest : List ℕ)
    (g : Guest K)
    → is_prefix b ≡ false
    → ((decode (b ∷ rest)).is_nop || (decode (b ∷ rest)).is_jmp) ≡ true
    → execute_instruction dispatch pc (b ∷ rest) g ≡ (Next.go (next_pc pc (decode (b ∷ rest))), g)
execute-decode dispatch pc b rest g h k =
    let e = decode_first b rest h in
    subst (λ i. execute_instruction dispatch pc (b ∷ rest) g ≡ (Next.go (next_pc pc i), g)) (sym e)
      (taken dispatch pc g b rest (subst (λ i. (i.is_nop || i.is_jmp) ≡ true) e k))
