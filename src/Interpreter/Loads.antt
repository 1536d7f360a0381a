-- ===== src/Interpreter/Loads.antt =====
-- kernel/src/win32/abi/interpreter.rs: the instructions that load a number, from their encodings.
use Prim.Native.Nat.{bit_and}
use native.Mathlib.Decide.{dec_lt}
use aperture_os.Prelude.{
  ℕ, ◌+◌, ◌%◌, ◌^◌, ◌≤◌, ◌<◌, ◌≡◌, ◌∙◌, refl, ap, List, [], ◌∷◌, ◌++◌, arith, length, true, false,
  ap₂, subst, wrapping_add, if◌then◌else◌, ltb, take, length-append, Bool,
}
use aperture_os.Bits.Field.{bit_and-low}
use aperture_os.Memory.Bytes.{le_bytes, from_le_bytes, length-le_bytes, from_le_bytes-le_bytes_u64}
use aperture_os.Interpreter.{
  Guest, Next, Rex, gpr, rex_of, write_reg, mov_imm, imm64, execute_data, execute_opcode,
  execute_instruction,
}

-- `mov r64, imm64` as an assembler writes it: the REX byte with W, and with B for the high registers.
abbrev pub mov_imm64_code : ℕ → ℕ → List ℕ
mov_imm64_code r v = (if ltb r 8 then 0x48 else 0x49) ∷ (0xB8 + r % 8) ∷ le_bytes 8 v

take_all : (xs ys : List ℕ) → take (length xs) (xs ++ ys) ≡ xs
take_all [] ys = refl
take_all (x ∷ xs) ys = ap (λ zs. x ∷ zs) (take_all xs ys)

imm64_at : (a b v : ℕ) (rest : List ℕ) → imm64 (a ∷ b ∷ le_bytes 8 v ++ rest) 2 ≡ v % 2 ^ 64
imm64_at a b v rest =
    ap from_le_bytes (rw (length-le_bytes 8 v) at (take_all (le_bytes 8 v) rest))
    ∙ from_le_bytes-le_bytes_u64 v

module _ {K : Type 0} (dispatch : ℕ → List ℕ → Guest K → ℕ × Guest K) (pc : ℕ) (g : Guest K) where
  opcode_is_mov :
      (x op : ℕ) (rest : List ℕ) (rex : Rex)
      → 0xB8 ≤ op
      → op ≤ 0xBF
      → execute_opcode dispatch pc 1 (x ∷ op ∷ rest) rex g ≡ mov_imm pc 2 (x ∷ op ∷ rest) op rex g
  unfolding execute_opcode execute_data
  opcode_is_mov x op rest rex p q = ground arith

  mov_loads :
      (x op : ℕ) (rest : List ℕ) (rex : Rex)
      → rex.w ≡ true
      → 8 ≤ length rest
      → mov_imm pc 2 (x ∷ op ∷ rest) op rex g ≡ (
        Next.go (wrapping_add pc 10),
        write_reg (gpr (bit_and op 7) rex.b) (imm64 (x ∷ op ∷ rest) 2) g,
      )
  unfolding mov_imm
  mov_loads x op rest rex w l = ground arith

  register_field :
      (r : ℕ) (ext : Bool) → r < 8 → gpr (bit_and (0xB8 + r) 7) ext ≡ (if ext then r + 8 else r)
  unfolding gpr
  register_field r ext l =
      let low : bit_and (0xB8 + r) 7 ≡ r = bit_and-low 3 (0xB8 + r) ∙ omega arith in
      let low' : bit_and r 7 ≡ r = bit_and-low 3 r ∙ omega arith in rw (low, low')

  opcode_loads :
      (x r v : ℕ) (rest : List ℕ) (rex : Rex)
      → r < 8
      → rex.w ≡ true
      → v < 2 ^ 64
      → execute_opcode dispatch pc 1 (x ∷ (0xB8 + r) ∷ le_bytes 8 v ++ rest) rex g
        ≡ (Next.go (wrapping_add pc 10), write_reg (if rex.b then r + 8 else r) v g)
  opcode_loads x r v rest rex l w b =
      let size : 8 ≤ length (le_bytes 8 v ++ rest) =
        omega (arith, length-append (le_bytes 8 v) rest, length-le_bytes 8 v) in
      opcode_is_mov x (0xB8 + r) (le_bytes 8 v ++ rest) rex (omega arith) (omega arith)
      ∙ mov_loads x (0xB8 + r) (le_bytes 8 v ++ rest) rex w size
      ∙ ap₂ (λ d n. (Next.go (wrapping_add pc 10), write_reg d n g)) (register_field r rex.b l)
          (imm64_at x (0xB8 + r) v rest ∙ omega arith)

  prefixed :
      (x : ℕ) (rest : List ℕ)
      → bit_and x 0xF0 ≡ 0x40
      → 1 ≤ length rest
      → execute_instruction dispatch pc (x ∷ rest) g
        ≡ execute_opcode dispatch pc 1 (x ∷ rest) (rex_of x) g
  unfolding execute_instruction
  prefixed x rest e l = ground arith

low_loads :
    {K : Type 0} (dispatch : ℕ → List ℕ → Guest K → ℕ × Guest K) (pc r v : ℕ) (rest : List ℕ)
    (g : Guest K)
    → r < 8
    → v < 2 ^ 64
    → execute_instruction dispatch pc (0x48 ∷ (0xB8 + r) ∷ le_bytes 8 v ++ rest) g
      ≡ (Next.go (wrapping_add pc 10), write_reg r v g)
unfolding rex_of
low_loads dispatch pc r v rest g l b =
    prefixed dispatch pc g 0x48 ((0xB8 + r) ∷ le_bytes 8 v ++ rest) refl (omega arith)
    ∙ opcode_loads dispatch pc g 0x48 r v rest (rex_of 0x48) l refl b

high_loads :
    {K : Type 0} (dispatch : ℕ → List ℕ → Guest K → ℕ × Guest K) (pc r v : ℕ) (rest : List ℕ)
    (g : Guest K)
    → r < 8
    → v < 2 ^ 64
    → execute_instruction dispatch pc (0x49 ∷ (0xB8 + r) ∷ le_bytes 8 v ++ rest) g
      ≡ (Next.go (wrapping_add pc 10), write_reg (r + 8) v g)
unfolding rex_of
high_loads dispatch pc r v rest g l b =
    prefixed dispatch pc g 0x49 ((0xB8 + r) ∷ le_bytes 8 v ++ rest) refl (omega arith)
    ∙ opcode_loads dispatch pc g 0x49 r v rest (rex_of 0x49) l refl b

-- The encoding of `mov r64, imm64` for any of the sixteen registers and any 64-bit number: the
-- interpreter puts the number into that register, changes no other register and no memory, and goes
-- on ten bytes further, whatever bytes follow the instruction.
pub execute-mov_imm64_code :
    {K : Type 0} (dispatch : ℕ → List ℕ → Guest K → ℕ × Guest K) (pc r v : ℕ) (rest : List ℕ)
    (g : Guest K)
    → r < 16
    → v < 2 ^ 64
    → execute_instruction dispatch pc (mov_imm64_code r v ++ rest) g
      ≡ (Next.go (wrapping_add pc 10), write_reg r v g)
execute-mov_imm64_code dispatch pc r v rest g l b = elim (dec_lt r 8) [
  | yes low ↦
      let e : ltb r 8 ≡ true = ground arith in
      let m : r % 8 ≡ r = omega arith in
      let P : ℕ → Type 0 = λ n.
        execute_instruction dispatch pc (0x48 ∷ (0xB8 + r % 8) ∷ le_bytes 8 v ++ rest) g
        ≡ (Next.go (wrapping_add pc 10), write_reg n v g) in
      rw (e, subst P m (low_loads dispatch pc (r % 8) v rest g (omega arith) b))
  | no high ↦
      let e : ltb r 8 ≡ false = ground arith in
      let m : r % 8 + 8 ≡ r = omega arith in
      let P : ℕ → Type 0 = λ n.
        execute_instruction dispatch pc (0x49 ∷ (0xB8 + r % 8) ∷ le_bytes 8 v ++ rest) g
        ≡ (Next.go (wrapping_add pc 10), write_reg n v g) in
      rw (e, subst P m (high_loads dispatch pc (r % 8) v rest g (omega arith) b))
]
