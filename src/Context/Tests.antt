-- ===== src/Context/Tests.antt =====
-- Runs of the context switch.
use aperture_os.Prelude.{◌≡◌, inl, inr, refl, arith}
use aperture_os.Memory.{Memory, read_u64, write_u64, write_bytes}
use aperture_os.Memory.Bytes.{le_bytes}
use aperture_os.Context.{Cpu, push_u64, switch, initial_stack, run_stub}
use aperture_os.Context.Switches.{IsCpu, switch-initial_stack, switch-switch}

abbrev idle : Cpu
idle = record {
  rbp = 1;
  rbx = 2;
  r12 = 3;
  r13 = 4;
  r14 = 5;
  r15 = 6;
  rdi = 0x9000;
  rsp = 0x8000;
  rip = 0x100;
}

abbrev other : Cpu
other = record idle { rsp = 0x6000; rdi = 0x9100; rbx = 77 }

idle-IsCpu : IsCpu idle
idle-IsCpu = record {
  rbp-lt = omega arith;
  rbx-lt = omega arith;
  r12-lt = omega arith;
  r13-lt = omega arith;
  r14-lt = omega arith;
  r15-lt = omega arith;
}

other-IsCpu : IsCpu other
other-IsCpu = record {
  rbp-lt = omega arith;
  rbx-lt = omega arith;
  r12-lt = omega arith;
  r13-lt = omega arith;
  r14-lt = omega arith;
  r15-lt = omega arith;
}

abbrev blank : Memory
blank a = 0

pushed_run : (push_u64 258 (0x1000, blank)).1 0xFF9 ≡ 1
unfolding push_u64 write_u64 write_bytes le_bytes
pushed_run = refl

switch-initial_stack_example :
    let (start, m₀) = initial_stack 0x111 0x4010 0x7000 blank in
    let (c₁, m₁) = switch start idle m₀ in
    let (c₂, m₂) = run_stub 0x222 c₁ m₁ in
    (c₂ ≡ record {
      rbp = 0;
      rbx = 0;
      r12 = 0;
      r13 = 0;
      r14 = 0;
      r15 = 0;
      rdi = 0x4010;
      rsp = 0x6FF8;
      rip = 0x4010;
    })
    × (read_u64 0x6FF8 m₂ ≡ 0x222)
switch-initial_stack_example =
    switch-initial_stack 0x111 0x222 0x4010 0x7000 idle blank idle-IsCpu (omega arith) (omega arith)
      (omega arith) (omega arith) (omega arith) (omega arith) (omega arith) (inr (omega arith))
      (inr (omega arith))

switch-switch_example :
    (switch (read_u64 0x9000 (switch 0x5000 idle blank).1) other (switch 0x5000 idle blank).1).0
    ≡ record idle { rip = read_u64 0x8000 blank; rsp = 0x8008; rdi = 0x9100 }
switch-switch_example =
    switch-switch 0x5000 idle other blank (switch 0x5000 idle blank).1 idle-IsCpu other-IsCpu
      (omega arith) (omega arith) (omega arith) (omega arith) (inr (omega arith))
      (inl (omega arith)) (inr (omega arith)) (λ x p q. refl) refl
