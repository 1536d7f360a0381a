-- ===== src/Interpreter/Moves.antt =====
-- kernel/src/win32/abi/interpreter.rs: an instruction in a full window never panics, and the moves
-- of an immediate into a register.
use Prim.Native.Nat.{bit_xor}
use aperture_os.Prelude.{
  ℕ, ◌+◌, ◌≤◌, ◌≡◌, ◌≢◌, refl, Option, none, some, List, Bool, true, false, arith, length, get_or,
  if◌then◌else◌, wrapping_add,
}
use aperture_os.Interpreter.{
  Guest, Next, Operand, Rex, gpr, decode_modrm, decode_modrm_operand, ret_near, jmp_rel8, jmp_rel32,
  call_rel32, mov_imm, mov_rm_body, mov_rm_imm, with_operand, xor_rm, xor_reg, lea,
  dispatch_syscall, two_byte, execute_data, execute_opcode, execute_instruction, rex_of, no_rex,
  write_reg, read_reg, load, store,
}

-- The instruction did not index past the end of its code.
record IsInside {K : Type 0} (r : Next × Guest K) : Type 0 where
  no_panic : r.0 ≢ Next.panicked

if-IsInside :
    {K : Type 0} (b : Bool) (x y : Next × Guest K)
    → IsInside x
    → IsInside y
    → IsInside (if b then x else y)
if-IsInside true x y h k = h
if-IsInside false x y h k = k

stops : {K : Type 0} (g : Guest K) → IsInside (Next.stop, g)
stops g = record { no_panic = λ h. cc }

go_ne : (pc : ℕ) → Next.go pc ≢ Next.panicked
go_ne pc h = cc

module _ {K : Type 0} (g : Guest K) (pc : ℕ) (code : List ℕ) where
  operand_end :
      (pos mod_bits rm : ℕ) (b : Bool) (p : ℕ) (o : Operand)
      → decode_modrm_operand g pc pos code mod_bits rm b ≡ some (p, o)
      → p ≤ pos + 4
  unfolding decode_modrm_operand
  operand_end pos mod_bits rm b p o h = ground arith

  mov_rm_body-IsInside :
      (pos p : ℕ) (o : Operand)
      → p ≤ pos + 5
      → pos + 9 ≤ length code
      → IsInside (mov_rm_body pc pos code g (p, o))
  mov_rm_body-IsInside pos p o l k = record { no_panic = λ h. ground arith }

  operand-IsInside :
      (pos : ℕ) (r : Option (ℕ × Operand))
      → ((p : ℕ) (o : Operand) → r ≡ some (p, o) → p ≤ pos + 5)
      → pos + 9 ≤ length code
      → IsInside (elim r as (λ _. Next × Guest K) [
        | none ↦ (Next.stop, g)
        | some operand ↦ mov_rm_body pc pos code g operand
      ])
  operand-IsInside pos none l k = stops g
  operand-IsInside pos (some (p, o)) l k = mov_rm_body-IsInside pos p o (l p o refl) k

  mov_rm_imm-IsInside :
      (pos : ℕ) (rex : Rex) → pos + 9 ≤ length code → IsInside (mov_rm_imm pc pos code rex g)
  unfolding mov_rm_imm
  mov_rm_imm-IsInside pos rex l =
      let (mod_bits, reg_op, rm) = decode_modrm (get_or code pos 0) in
      if-IsInside _ _ _ (stops g) (
        if-IsInside _ _ _ (stops g) (
          operand-IsInside pos (decode_modrm_operand g pc (pos + 1) code mod_bits rm rex.b)
            (λ p o e. omega (arith, operand_end (pos + 1) mod_bits rm rex.b p o e)) l))

  found-IsInside :
      (reg_field : ℕ) (r : Option (ℕ × Operand)) (body : ℕ → ℕ × Operand → Next × Guest K)
      → ((r : ℕ) (o : ℕ × Operand) → IsInside (body r o))
      → IsInside (elim r as (λ _. Next × Guest K) [
        | none ↦ (Next.stop, g)
        | some operand ↦ body reg_field operand
      ])
  found-IsInside reg_field none body h = stops g
  found-IsInside reg_field (some o) body h = h reg_field o

  with_operand-IsInside :
      (pos : ℕ) (rex : Rex) (body : ℕ → ℕ × Operand → Next × Guest K)
      → ((r : ℕ) (o : ℕ × Operand) → IsInside (body r o))
      → IsInside (with_operand pc pos code rex g body)
  with_operand-IsInside pos rex body h =
      let (mod_bits, reg_field, rm) = decode_modrm (get_or code pos 0) in
      if-IsInside _ _ _ (stops g) (
        found-IsInside reg_field (decode_modrm_operand g pc (pos + 1) code mod_bits rm rex.b) body
          h)

  jumps_inside :
      (pos : ℕ)
      → ((jmp_rel8 pc pos code g).0 ≢ Next.panicked)
        × ((jmp_rel32 pc pos code g).0 ≢ Next.panicked)
        × ((call_rel32 pc pos code g).0 ≢ Next.panicked)
        × ((ret_near g).0 ≢ Next.panicked)
  unfolding jmp_rel8 jmp_rel32 call_rel32 ret_near
  jumps_inside pos = (ground arith, ground arith, ground arith, ground arith)

  moves_inside :
      (pos opcode : ℕ) (rex : Rex)
      → ((mov_imm pc pos code opcode rex g).0 ≢ Next.panicked)
        × ((lea pc pos code rex g).0 ≢ Next.panicked)
  unfolding mov_imm lea
  moves_inside pos opcode rex = (ground arith, ground arith)

  xors-IsInside :
      (pos : ℕ) (rex : Rex)
      → IsInside (xor_rm pc pos code rex g) × IsInside (xor_reg pc pos code rex g)
  unfolding xor_rm xor_reg
  xors-IsInside pos rex = (
    with_operand-IsInside pos rex
        (λ reg_field operand. (
          Next.go (wrapping_add pc operand.0),
          store operand.1 (bit_xor (load operand.1 g) (read_reg (gpr reg_field rex.r) g)) g,
        ))
        (λ r o. record { no_panic = go_ne (wrapping_add pc o.0) }),
    with_operand-IsInside pos rex
        (λ reg_field operand.
          let dst = gpr reg_field rex.r in
          (
            Next.go (wrapping_add pc operand.0),
            write_reg dst (bit_xor (read_reg dst g) (load operand.1 g)) g,
          ))
        (λ r o. record { no_panic = go_ne (wrapping_add pc o.0) }),
  )

  two_byte_inside :
      (dispatch : ℕ → List ℕ → Guest K → ℕ × Guest K) (pos : ℕ)
      → (two_byte dispatch pc pos code g).0 ≢ Next.panicked
  unfolding two_byte dispatch_syscall
  two_byte_inside dispatch pos = ground arith

  data_inside :
      (dispatch : ℕ → List ℕ → Guest K → ℕ × Guest K) (pos : ℕ) (rex : Rex)
      → pos + 10 ≤ length code
      → (execute_data dispatch pc pos code rex g).0 ≢ Next.panicked
  unfolding execute_data
  data_inside dispatch pos rex l =
      let (mov, load) = moves_inside (pos + 1) (get_or code pos 0) rex in
      let (xor_to_rm, xor_to_reg) = xors-IsInside (pos + 1) rex in
      ground (
        arith,
        mov,
        load,
        xor_to_rm.no_panic,
        xor_to_reg.no_panic,
        (mov_rm_imm-IsInside (pos + 1) rex (omega arith)).no_panic,
        two_byte_inside dispatch (pos + 1),
      )

  opcode_inside :
      (dispatch : ℕ → List ℕ → Guest K → ℕ × Guest K) (pos : ℕ) (rex : Rex)
      → pos + 10 ≤ length code
      → (execute_opcode dispatch pc pos code rex g).0 ≢ Next.panicked
  unfolding execute_opcode
  opcode_inside dispatch pos rex l =
      let (jmp8, jmp32, call, ret) = jumps_inside (pos + 1) in
      ground (arith, jmp8, jmp32, call, ret, data_inside dispatch pos rex l)

-- In a window of 11 bytes or more, such as the 15 bytes that the loop fetches, no instruction
-- indexes past the end of its code.
pub execute_inside :
    {K : Type 0} (dispatch : ℕ → List ℕ → Guest K → ℕ × Guest K) (pc : ℕ) (code : List ℕ)
    (g : Guest K)
    → 11 ≤ length code
    → (execute_instruction dispatch pc code g).0 ≢ Next.panicked
unfolding execute_instruction
execute_inside dispatch pc code g l = ground (
  arith,
  opcode_inside g pc code dispatch 1 (rex_of (get_or code 0 0)) (omega arith),
  opcode_inside g pc code dispatch 0 no_rex (omega arith),
)
