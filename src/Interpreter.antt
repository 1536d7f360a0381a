-- ===== src/Interpreter.antt =====
-- kernel/src/win32/abi/interpreter.rs: one instruction of the guest, and the loop over them. The
-- thread's registers, physical memory and the state `K` of the rest of the kernel are one record.
-- `nt::dispatch` is an argument, since a system call may change all of it.
pub mod Decoded
pub mod Calls
pub mod Loads
pub mod Moves
mod Tests
use Prim.Native.Nat.{bit_and, bit_xor}
use aperture_os.Prelude.{
  ℕ, zero, suc, ◌+◌, ◌-◌, ◌*◌, ◌/◌, ◌%◌, ◌^◌, Option, none, some, List, [], ◌∷◌, Bool, true, false,
  not, ◌&&◌, ◌||◌, if◌then◌else◌, ◌==◌, ltb, leb, get_or, set, take, drop, length, replicate, ℤ,
  signed8, signed32, as_u64, wrapping_add, wrapping_sub,
}
use aperture_os.Memory.{Memory, read_bytes, read_u64, write_u64}
use aperture_os.Memory.Bytes.{from_le_bytes}

-- `Register`: the number of a register is its index in the register file.
abbrev pub rax : ℕ
rax = 0

abbrev pub rdx : ℕ
rdx = 2

abbrev pub rsp : ℕ
rsp = 4

abbrev pub rsi : ℕ
rsi = 6

abbrev pub rdi : ℕ
rdi = 7

-- The fields of `Thread` that the interpreter uses, the memory, and the rest of the kernel.
pub record Guest (K : Type 0) : Type 0 where
  pub regs : List ℕ
  pub user_rip : ℕ
  pub user_rsp : ℕ
  pub memory : Memory
  pub kernel : K

-- What an instruction does: go on at a program counter, stop (`None`), or index past the end of the
-- code and panic.
pub data Next : Type 0 where
  go : ℕ → Next
  stop : Next
  panicked : Next

pub data Operand : Type 0 where
  reg : ℕ → Operand
  addr : ℕ → Operand

-- the prefix flags, and the number of bytes read so far
pub record Rex : Type 0 where
  pub w : Bool
  pub r : Bool
  pub b : Bool

abbrev pub no_rex : Rex
no_rex = record { w = false; r = false; b = false }

unfoldable pub rex_of : ℕ → Rex
rex_of byte = record {
  w = not (bit_and byte 0x08 == 0);
  r = not (bit_and byte 0x04 == 0);
  b = not (bit_and byte 0x01 == 0);
}

unfoldable pub gpr : ℕ → Bool → ℕ
gpr base ext = let idx = bit_and base 0x07 in if ext then idx + 8 else idx

-- `decode_modrm`: the fields mod, reg and r/m
unfoldable pub decode_modrm : ℕ → ℕ × ℕ × ℕ
decode_modrm byte = (byte / 2 ^ 6, bit_and (byte / 2 ^ 3) 0x07, bit_and byte 0x07)

-- four bytes of the code as an unsigned number
abbrev pub imm32 : List ℕ → ℕ → ℕ
imm32 code pos = from_le_bytes (take 4 (drop pos code))

abbrev pub imm64 : List ℕ → ℕ → ℕ
imm64 code pos = from_le_bytes (take 8 (drop pos code))

-- `pc.wrapping_add(len).wrapping_add(offset as u64)`
abbrev pub relative : ℕ → ℕ → ℤ → ℕ
relative pc len offset = wrapping_add (wrapping_add pc len) (as_u64 offset)

module _ {K : Type 0} where
  abbrev pub read_reg : ℕ → Guest K → ℕ
  read_reg r g = get_or g.regs r 0

  abbrev pub write_reg : ℕ → ℕ → Guest K → Guest K
  write_reg r v g = record g { regs = set g.regs r v }

  -- `decode_modrm_operand`: the position after the operand, and the operand
  unfoldable pub decode_modrm_operand :
      Guest K → ℕ → ℕ → List ℕ → ℕ → ℕ → Bool → Option (ℕ × Operand)
  decode_modrm_operand g pc pos code mod_bits rm rex_b =
      if mod_bits == 3
      then some (pos, Operand.reg (gpr rm rex_b))
      else if mod_bits == 0
      then (if rm == 5
          then (if ltb (length code) (pos + 4)
              then none
              else some (pos + 4, Operand.addr (relative pc (pos + 4) (signed32 (imm32 code pos)))))
          else if rm == 4
          then none
          else some (pos, Operand.addr (read_reg (gpr rm rex_b) g)))
      else none

  -- RET near
  unfoldable pub ret_near : Guest K → Next × Guest K
  ret_near g =
      let ra = read_u64 (read_reg rsp g) g.memory in
      let g' = write_reg rsp (wrapping_add (read_reg rsp g) 8) g in
      (if ra == 0 then Next.stop else Next.go ra, g')

  unfoldable pub jmp_rel8 : ℕ → ℕ → List ℕ → Guest K → Next × Guest K
  jmp_rel8 pc pos code g =
      if leb (length code) pos
      then (Next.stop, g)
      else (Next.go (relative pc (pos + 1) (signed8 (get_or code pos 0))), g)

  unfoldable pub jmp_rel32 : ℕ → ℕ → List ℕ → Guest K → Next × Guest K
  jmp_rel32 pc pos code g =
      if ltb (length code) (pos + 4)
      then (Next.stop, g)
      else (Next.go (relative pc (pos + 4) (signed32 (imm32 code pos))), g)

  unfoldable pub call_rel32 : ℕ → ℕ → List ℕ → Guest K → Next × Guest K
  call_rel32 pc pos code g =
      let return_addr = wrapping_add pc (pos + 4) in
      let top = wrapping_sub (read_reg rsp g) 8 in
      let g' = write_reg rsp top g in
      if ltb (length code) (pos + 4) then (Next.stop, g) else (
        Next.go (relative pc (pos + 4) (signed32 (imm32 code pos))),
        record g' { memory = write_u64 top return_addr g.memory },
      )

  unfoldable pub mov_imm : ℕ → ℕ → List ℕ → ℕ → Rex → Guest K → Next × Guest K
  mov_imm pc pos code opcode rex g =
      let r = gpr (bit_and opcode 0x07) rex.b in
      if rex.w
      then (if ltb (length code) (pos + 8)
          then (Next.stop, g)
          else (Next.go (wrapping_add pc (pos + 8)), write_reg r (imm64 code pos) g))
      else if ltb (length code) (pos + 4)
      then (Next.stop, g)
      else (Next.go (wrapping_add pc (pos + 4)), write_reg r (imm32 code pos) g)

  abbrev pub load : Operand → Guest K → ℕ
  load (Operand.reg r) g = read_reg r g
  load (Operand.addr a) g = read_u64 a g.memory

  abbrev pub store : Operand → ℕ → Guest K → Guest K
  store (Operand.reg r) v g = write_reg r v g
  store (Operand.addr a) v g = record g { memory = write_u64 a v g.memory }

  -- The ModR/M byte and the operand behind it, for the instructions that have one; `pos` is the
  -- position of that byte.
  abbrev pub with_operand :
      ℕ → ℕ → List ℕ → Rex → Guest K → (ℕ → ℕ × Operand → Next × Guest K) → Next × Guest K
  with_operand pc pos code rex g body =
      let (mod_bits, reg_field, rm) = decode_modrm (get_or code pos 0) in
      if leb (length code) pos
      then (Next.stop, g)
      else elim (decode_modrm_operand g pc (pos + 1) code mod_bits rm rex.b) [
        | none ↦ (Next.stop, g)
        | some operand ↦ body reg_field operand
      ]

  -- MOV r/m64, imm32. The test that the immediate is there looks at the position before the operand
  -- (`pos + 1`), the bytes are read behind it.
  abbrev pub mov_rm_body : ℕ → ℕ → List ℕ → Guest K → ℕ × Operand → Next × Guest K
  mov_rm_body pc pos code g (new_pos, operand) =
      if ltb (length code) (pos + 5)
      then (Next.stop, g)
      else if ltb (length code) (new_pos + 4)
      then (Next.panicked, g)
      else (
        Next.go (wrapping_add pc (new_pos + 4)),
        store operand (as_u64 (signed32 (imm32 code new_pos))) g,
      )

  unfoldable pub mov_rm_imm : ℕ → ℕ → List ℕ → Rex → Guest K → Next × Guest K
  mov_rm_imm pc pos code rex g =
      let (mod_bits, reg_op, rm) = decode_modrm (get_or code pos 0) in
      if leb (length code) pos
      then (Next.stop, g)
      else if not (reg_op == 0)
      then (Next.stop, g)
      else elim (decode_modrm_operand g pc (pos + 1) code mod_bits rm rex.b) [
        | none ↦ (Next.stop, g)
        | some operand ↦ mov_rm_body pc pos code g operand
      ]

  -- XOR r/m64, r64
  unfoldable pub xor_rm : ℕ → ℕ → List ℕ → Rex → Guest K → Next × Guest K
  xor_rm pc pos code rex g = with_operand pc pos code rex g (λ reg_field operand. (
    Next.go (wrapping_add pc operand.0),
    store operand.1 (bit_xor (load operand.1 g) (read_reg (gpr reg_field rex.r) g)) g,
  ))

  -- XOR r64, r/m64
  unfoldable pub xor_reg : ℕ → ℕ → List ℕ → Rex → Guest K → Next × Guest K
  xor_reg pc pos code rex g = with_operand pc pos code rex g (λ reg_field operand.
      let dst = gpr reg_field rex.r in
      (
        Next.go (wrapping_add pc operand.0),
        write_reg dst (bit_xor (read_reg dst g) (load operand.1 g)) g,
      ))

  -- LEA r64, m, RIP-relative only
  unfoldable pub lea : ℕ → ℕ → List ℕ → Rex → Guest K → Next × Guest K
  lea pc pos code rex g =
      let (mod_bits, reg_field, rm) = decode_modrm (get_or code pos 0) in
      let disp = signed32 (imm32 code (pos + 1)) in
      if leb (length code) pos
      then (Next.stop, g)
      else if not (mod_bits == 0) || not (rm == 5)
      then (Next.stop, g)
      else if ltb (length code) (pos + 5)
      then (Next.stop, g)
      else (
        Next.go (wrapping_add pc (pos + 5)),
        write_reg (gpr reg_field rex.r) (relative pc (pos + 5) disp) g,
      )

  -- The sixteen arguments of a system call, and `dispatch_syscall`.
  abbrev pub syscall_args : Guest K → List ℕ
  syscall_args g =
      read_reg rdi g
      ∷ read_reg rsi g
      ∷ read_reg rdx g
      ∷ read_reg 10 g
      ∷ read_reg 8 g
      ∷ read_reg 9 g
      ∷ replicate 10 0

  unfoldable pub dispatch_syscall :
      (ℕ → List ℕ → Guest K → ℕ × Guest K) → ℕ → Guest K → Next × Guest K
  dispatch_syscall dispatch return_pc g =
      let (status, g') = dispatch (read_reg rax g) (syscall_args g) g in
      (Next.go return_pc, write_reg rax status g')

  unfoldable pub two_byte :
      (ℕ → List ℕ → Guest K → ℕ × Guest K) → ℕ → ℕ → List ℕ → Guest K → Next × Guest K
  two_byte dispatch pc pos code g =
      if leb (length code) pos
      then (Next.stop, g)
      else if get_or code pos 0 == 0x05
      then dispatch_syscall dispatch (wrapping_add pc (pos + 1)) g
      else (Next.stop, g)

  -- The opcodes that are not control transfers of one byte.
  unfoldable pub execute_data :
      (ℕ → List ℕ → Guest K → ℕ × Guest K) → ℕ → ℕ → List ℕ → Rex → Guest K → Next × Guest K
  execute_data dispatch pc pos code rex g =
      let opcode = get_or code pos 0 in
      let next = pos + 1 in
      if leb 0xB8 opcode && leb opcode 0xBF
      then mov_imm pc next code opcode rex g
      else if opcode == 0xC7
      then mov_rm_imm pc next code rex g
      else if opcode == 0x31
      then xor_rm pc next code rex g
      else if opcode == 0x33
      then xor_reg pc next code rex g
      else if opcode == 0x8D
      then lea pc next code rex g
      else if opcode == 0x0F
      then two_byte dispatch pc next code g
      else (Next.stop, g)

  -- The instruction behind the prefix: its opcode is at `pos`.
  unfoldable pub execute_opcode :
      (ℕ → List ℕ → Guest K → ℕ × Guest K) → ℕ → ℕ → List ℕ → Rex → Guest K → Next × Guest K
  execute_opcode dispatch pc pos code rex g =
      let opcode = get_or code pos 0 in
      let next = pos + 1 in
      if opcode == 0x90
      then (Next.go (wrapping_add pc next), g)
      else if opcode == 0xC3
      then ret_near g
      else if opcode == 0xEB
      then jmp_rel8 pc next code g
      else if opcode == 0xE9
      then jmp_rel32 pc next code g
      else if opcode == 0xE8
      then call_rel32 pc next code g
      else execute_data dispatch pc pos code rex g

  unfoldable pub execute_instruction :
      (ℕ → List ℕ → Guest K → ℕ × Guest K) → ℕ → List ℕ → Guest K → Next × Guest K
  execute_instruction dispatch pc code g =
      if length code == 0
      then (Next.stop, g)
      else if bit_and (get_or code 0 0) 0xF0 == 0x40
      then (if leb (length code) 1
          then (Next.stop, g)
          else execute_opcode dispatch pc 1 code (rex_of (get_or code 0 0)) g)
      else execute_opcode dispatch pc 0 code no_rex g

  -- `run_x86_64_loop`: each round fetches 15 bytes at the program counter. The machine halts where
  -- an instruction stops; `none` says that it still runs after `fuel` rounds.
  unfoldable pub run_rounds : ℕ → (ℕ → List ℕ → Guest K → ℕ × Guest K) → Guest K → Option (Guest K)
  run_rounds zero dispatch g = none
  run_rounds (suc fuel) dispatch g =
      let (next, g') =
        execute_instruction dispatch g.user_rip (read_bytes g.user_rip 15 g.memory) g in
      elim next [
        | Next.go pc ↦ run_rounds fuel dispatch (record g' { user_rip = pc })
        | Next.stop ↦ some g'
        | Next.panicked ↦ some g'
      ]

  unfoldable pub start : ℕ → Guest K → Guest K
  start entry g = write_reg rsp g.user_rsp (record g { user_rip = entry })
