-- ===== src/Context.antt =====
-- kernel/src/arch/x86_64/context_switch.rs: the switch between kernel stacks, instruction by
-- instruction, on the registers that it saves. The addresses of `thread_entry_stub` and of
-- `thread_exit` are parameters: the linker chooses them.
pub mod Saved
pub mod Switches
mod Tests
use aperture_os.Prelude.{ℕ, ◌*◌, wrapping_add, wrapping_sub}
use aperture_os.Memory.{Memory, read_u64, write_u64}

-- The callee-saved registers, `rdi`, the stack pointer and the address of the next instruction.
pub record Cpu : Type 0 where
  pub rbp : ℕ
  pub rbx : ℕ
  pub r12 : ℕ
  pub r13 : ℕ
  pub r14 : ℕ
  pub r15 : ℕ
  pub rdi : ℕ
  pub rsp : ℕ
  pub rip : ℕ

-- `push_u64`, and the instruction `push`: the new stack pointer and the memory
unfoldable pub push_u64 : ℕ → ℕ × Memory → ℕ × Memory
push_u64 value (rsp, m) = (wrapping_sub rsp 8, write_u64 (wrapping_sub rsp 8) value m)

-- the word that the `n`-th `pop` from `rsp` on reads
unfoldable pub popped : ℕ → ℕ → Memory → ℕ
popped rsp n m = read_u64 (wrapping_add rsp (8 * n)) m

-- The six pushes of `switch`.
unfoldable pub save : Cpu → Memory → ℕ × Memory
save c m =
    push_u64 c.r15 (
      push_u64 c.r14 (push_u64 c.r13 (push_u64 c.r12 (push_u64 c.rbx (push_u64 c.rbp (c.rsp, m))))))

-- The six pops and `ret`.
unfoldable pub restore : ℕ → ℕ → Memory → Cpu
restore new_rsp rdi m = record {
  r15 = popped new_rsp 0 m;
  r14 = popped new_rsp 1 m;
  r13 = popped new_rsp 2 m;
  r12 = popped new_rsp 3 m;
  rbx = popped new_rsp 4 m;
  rbp = popped new_rsp 5 m;
  rip = popped new_rsp 6 m;
  rsp = wrapping_add new_rsp 56;
  rdi = rdi;
}

-- `switch(old_rsp, new_rsp)`, from its first instruction, where the stack pointer leads to the
-- return address; `old_rsp` comes in `rdi`.
unfoldable pub switch : ℕ → Cpu → Memory → Cpu × Memory
switch new_rsp c m =
    let (rsp, m₁) = save c m in let m₂ = write_u64 c.rdi rsp m₁ in (restore new_rsp c.rdi m₂, m₂)

-- `initial_stack`
unfoldable pub initial_stack : ℕ → ℕ → ℕ → Memory → ℕ × Memory
initial_stack stub entry_point stack_top m = push_u64 0 (
    push_u64 0 (
      push_u64 0 (
        push_u64 0
          (push_u64 0 (push_u64 0 (push_u64 stub (push_u64 entry_point (stack_top, m))))))))

-- `thread_entry_stub` up to the first instruction of the entry point: `pop rdi` and `call rdi`,
-- which pushes the address `after_call` of the jump to `thread_exit`.
unfoldable pub run_stub : ℕ → Cpu → Memory → Cpu × Memory
run_stub after_call c m =
    let entry_point = read_u64 c.rsp m in
    let (rsp, m') = push_u64 after_call (wrapping_add c.rsp 8, m) in
    (record c { rdi = entry_point; rsp = rsp; rip = entry_point }, m')
