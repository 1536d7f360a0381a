-- ===== src/Interpreter/Tests.antt =====
-- kernel/src/win32/abi/interpreter.rs: a short program run to its end, and the theorems at concrete
-- guests.
use aperture_os.Prelude.{
  ℕ, ◌+◌, ◌≡◌, ◌≢◌, refl, Option, some, none, List, [], ◌∷◌, ◌++◌, arith, get_or, replicate, set,
}
use aperture_os.Memory.{Memory, write_bytes, read_bytes, read_u64, write_u64}
use aperture_os.Memory.Bytes.{le_bytes, from_le_bytes}
use aperture_os.X86Decode.{decode, decode_from, decode_opcode, is_prefix}
use aperture_os.X86Decode.{jmp_rel8 as short_form}
use aperture_os.Interpreter.{
  Guest, Next, rsp, rax, read_reg, write_reg, execute_instruction, run_rounds, start,
  execute_opcode, execute_data, call_rel32, mov_imm, xor_rm, ret_near, two_byte, dispatch_syscall,
  decode_modrm, decode_modrm_operand, gpr, rex_of,
}
use aperture_os.Interpreter.Moves.{execute_inside}
use aperture_os.Interpreter.Decoded.{next_pc, execute-decode}
use aperture_os.Interpreter.Calls.{ret-call}
use aperture_os.Interpreter.Loads.{mov_imm64_code, execute-mov_imm64_code}

-- A system call that counts itself and returns its first argument.
abbrev count_call : ℕ → List ℕ → Guest ℕ → ℕ × Guest ℕ
count_call number args g = (get_or args 0 0, record g { kernel = g.kernel + 1 })

abbrev idle : Guest ℕ
idle = record {
  regs = set (replicate 16 0) rsp 0x8000;
  user_rip = 0;
  user_rsp = 0x8000;
  memory = λ a. 0;
  kernel = 0;
}

-- `call 0x105a; mov edi, 7; syscall; ret` at 0x1000, the callee `xor rdx, rdx; ret` at 0x105a.
abbrev program : Memory
program = write_bytes 0x105A (0x48 ∷ 0x31 ∷ 0xD2 ∷ 0xC3 ∷ []) (
    write_bytes 0x1000 (0xE8 ∷ 0x55 ∷ 0 ∷ 0 ∷ 0 ∷ 0xBF ∷ 7 ∷ 0 ∷ 0 ∷ 0 ∷ 0x0F ∷ 0x05 ∷ 0xC3 ∷ [])
      (λ a. 0))

abbrev outcome : Option (Guest ℕ) → ℕ × ℕ × ℕ × ℕ
outcome none = (0, 0, 0, 0)
outcome (some g) = (g.user_rip, read_reg rax g, read_reg rsp g, g.kernel)

-- It stops at the last RET, whose return address is 0.
run :
    outcome (run_rounds 10 count_call (start 0x1000 (record idle { memory = program })))
    ≡ (0x100C, 7, 0x8008, 1)
unfolding run_rounds start execute_instruction execute_opcode execute_data call_rel32 mov_imm xor_rm
    ret_near two_byte dispatch_syscall decode_modrm decode_modrm_operand gpr rex_of read_bytes
    write_bytes read_u64 write_u64 le_bytes from_le_bytes
run = refl

execute_inside_example :
    (execute_instruction count_call 0 (0x48 ∷ 0xC7 ∷ 0xC0 ∷ replicate 12 1) idle).0 ≢ Next.panicked
execute_inside_example =
    execute_inside count_call 0 (0x48 ∷ 0xC7 ∷ 0xC0 ∷ replicate 12 1) idle (omega arith)

execute-decode_example :
    execute_instruction count_call 0x1000 (0xEB ∷ 0xFE ∷ []) idle
    ≡ (Next.go (next_pc 0x1000 (decode (0xEB ∷ 0xFE ∷ []))), idle)
unfolding decode is_prefix decode_from decode_opcode short_form
execute-decode_example = execute-decode count_call 0x1000 0xEB (0xFE ∷ []) idle refl refl

ret-call_example :
    execute_instruction count_call 0x1055
      (0xC3 ∷ [])
      (execute_instruction count_call 0x1000 (0xE8 ∷ 0x50 ∷ 0 ∷ 0 ∷ 0 ∷ []) idle).1
    ≡ (Next.go 0x1005, record idle { memory = write_u64 0x7FF8 0x1005 idle.memory })
ret-call_example =
    ret-call count_call 0x1000 0x1055 (0x50 ∷ 0 ∷ 0 ∷ 0 ∷ []) [] idle (omega arith) (omega arith)
      (omega arith) (λ e. absurd (omega arith))

execute-mov_imm64_code_example :
    execute_instruction count_call 0x1000 (mov_imm64_code 12 0x123456789ABCDEF0 ++ []) idle
    ≡ (Next.go 0x100A, write_reg 12 0x123456789ABCDEF0 idle)
execute-mov_imm64_code_example =
    execute-mov_imm64_code count_call 0x1000 12 0x123456789ABCDEF0 [] idle (omega arith)
      (omega arith)
