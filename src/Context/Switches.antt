-- ===== src/Context/Switches.antt =====
-- kernel/src/arch/x86_64/context_switch.rs: where a switch goes, to a new thread and back to an old
-- one.
use aperture_os.Prelude.{
  ℕ, ◌+◌, ◌-◌, ◌*◌, ◌%◌, ◌^◌, ◌≤◌, ◌<◌, ◌≡◌, ◌⊎◌, ◌∙◌, ap, sym, subst, List, [], ◌∷◌, arith, length,
  wrapping_sub, wrapping_add,
}
use aperture_os.Memory.{Memory, read_u64, write_u64}
use aperture_os.Memory.Laws.{write_u64_outside, read_u64-write_u64_self, read_u64_ext}
use aperture_os.Context.{Cpu, push_u64, popped, save, restore, switch, initial_stack, run_stub}
use aperture_os.Context.Saved.{
  Stacked, Stacked-write, Stacked-ext, Pushed, empty-Pushed, push_u64-Pushed,
}

-- The registers that a switch saves are 64 bits wide.
pub record IsCpu (c : Cpu) : Type 0 where
  pub rbp-lt : c.rbp < 2 ^ 64
  pub rbx-lt : c.rbx < 2 ^ 64
  pub r12-lt : c.r12 < 2 ^ 64
  pub r13-lt : c.r13 < 2 ^ 64
  pub r14-lt : c.r14 < 2 ^ 64
  pub r15-lt : c.r15 < 2 ^ 64

abbrev saved_words : Cpu → List ℕ
saved_words c = c.r15 ∷ c.r14 ∷ c.r13 ∷ c.r12 ∷ c.rbx ∷ c.rbp ∷ []

save-Pushed :
    (c : Cpu) (m : Memory)
    → IsCpu c
    → 48 ≤ c.rsp
    → c.rsp < 2 ^ 64
    → Pushed c.rsp (saved_words c) m (save c m)
unfolding save
save-Pushed c m w l h =
    let push : (v : ℕ) (ws : List ℕ) (stack : ℕ × Memory)
        → 8 * length (v ∷ ws) ≤ c.rsp
        → v < 2 ^ 64
        → Pushed c.rsp ws m stack
        → Pushed c.rsp (v ∷ ws) m (push_u64 v stack) =
      λ v ws stack r b s. push_u64-Pushed c.rsp v ws m stack h r b s in
    push c.r15 _ _ (omega arith) w.r15-lt (
      push c.r14 _ _ (omega arith) w.r14-lt (
        push c.r13 _ _ (omega arith) w.r13-lt (
          push c.r12 _ _ (omega arith) w.r12-lt (
            push c.rbx _ _ (omega arith) w.rbx-lt
              (push c.rbp _ _ (omega arith) w.rbp-lt (empty-Pushed c.rsp m))))))

popped_at :
    (rsp n a v : ℕ) (m : Memory)
    → rsp + 8 * n ≡ a
    → a < 2 ^ 64
    → read_u64 a m ≡ v
    → popped rsp n m ≡ v
unfolding popped
popped_at rsp n a v m e b r =
    let at : wrapping_add rsp (8 * n) ≡ a = omega arith in ap (λ x. read_u64 x m) at ∙ r

restore_lem :
    (c : Cpu) (rsp rip rdi : ℕ) (m : Memory)
    → rsp + 56 < 2 ^ 64
    → Stacked (saved_words c) rsp m
    → read_u64 (rsp + 48) m ≡ rip
    → restore rsp rdi m ≡ record c { rip = rip; rsp = rsp + 56; rdi = rdi }
unfolding restore
restore_lem c rsp rip rdi m h s r =
    let (s15, (s14, (s13, (s12, (sbx, (sbp, _)))))) = s in
    let word : (n a v : ℕ)
        → rsp + 8 * n ≡ a
        → a ≤ rsp + 48
        → read_u64 a m ≡ v
        → popped rsp n m ≡ v =
      λ n a v e l q. popped_at rsp n a v m e (omega arith) q in
    let top : (rsp + 56) % 2 ^ 64 ≡ rsp + 56 = omega arith in
    λ i. record {
      rbp = word 5 _ c.rbp (omega arith) (omega arith) sbp i;
      rbx = word 4 _ c.rbx (omega arith) (omega arith) sbx i;
      r12 = word 3 _ c.r12 (omega arith) (omega arith) s12 i;
      r13 = word 2 _ c.r13 (omega arith) (omega arith) s13 i;
      r14 = word 1 _ c.r14 (omega arith) (omega arith) s14 i;
      r15 = word 0 _ c.r15 (omega arith) (omega arith) s15 i;
      rdi = rdi;
      rsp = top i;
      rip = word 6 _ rip (omega arith) (omega arith) r i;
    }

-- The words of a new thread's stack.
abbrev pub first_words : ℕ → ℕ → List ℕ
first_words stub entry_point = 0 ∷ 0 ∷ 0 ∷ 0 ∷ 0 ∷ 0 ∷ stub ∷ entry_point ∷ []

pub initial_stack-Pushed :
    (stub entry_point top : ℕ) (m : Memory)
    → 64 ≤ top
    → top < 2 ^ 64
    → stub < 2 ^ 64
    → entry_point < 2 ^ 64
    → Pushed top (first_words stub entry_point) m (initial_stack stub entry_point top m)
unfolding initial_stack
initial_stack-Pushed stub entry_point top m l h st en =
    let push : (v : ℕ) (ws : List ℕ) (stack : ℕ × Memory)
        → 8 * length (v ∷ ws) ≤ top
        → v < 2 ^ 64
        → Pushed top ws m stack
        → Pushed top (v ∷ ws) m (push_u64 v stack) =
      λ v ws stack r b s. push_u64-Pushed top v ws m stack h r b s in
    let zeros : (ws : List ℕ) (stack : ℕ × Memory)
        → 8 * length (0 ∷ ws) ≤ top
        → Pushed top ws m stack
        → Pushed top (0 ∷ ws) m (push_u64 0 stack) =
      λ ws stack r s. push 0 ws stack r (omega arith) s in
    zeros _ _ (omega arith) (
      zeros _ _ (omega arith) (
        zeros _ _ (omega arith) (
          zeros _ _ (omega arith) (
            zeros _ _ (omega arith) (
              zeros _ _ (omega arith) (
                push stub _ _ (omega arith) st
                  (push entry_point _ _ (omega arith) en (empty-Pushed top m))))))))

-- What a switch writes: the six words below the stack pointer and the word at `old_rsp`.
pub switch_outside :
    (new_rsp : ℕ) (c : Cpu) (m : Memory) (x : ℕ)
    → IsCpu c
    → 48 ≤ c.rsp
    → c.rsp < 2 ^ 64
    → (x + 48 < c.rsp) ⊎ (c.rsp ≤ x)
    → (x < c.rdi) ⊎ (c.rdi + 8 ≤ x)
    → (switch new_rsp c m).1 x ≡ m x
unfolding switch
switch_outside new_rsp c m x w l h o q =
    let s = save-Pushed c m w l h in
    write_u64_outside c.rdi (save c m).0 (save c m).1 x q ∙ s.kept x (ground (arith, s.depth))

-- The two ranges of bytes, each given by its first address and the one behind its last, do not meet.
abbrev pub IsApart : ℕ → ℕ → ℕ → ℕ → Type 0
IsApart a b c d = (b ≤ c) ⊎ (d ≤ a)

abbrev blank_cpu : ℕ → Cpu
blank_cpu rdi = record {
  rbp = 0;
  rbx = 0;
  r12 = 0;
  r13 = 0;
  r14 = 0;
  r15 = 0;
  rdi = rdi;
  rsp = 0;
  rip = 0;
}

module _ (stub entry_point top : ℕ) (c : Cpu) (m : Memory) (w : IsCpu c) (l : 48 ≤ c.rsp)
    (h : c.rsp < 2 ^ 64) (room : 64 ≤ top) (fits : top < 2 ^ 64) (st : stub < 2 ^ 64)
    (en : entry_point < 2 ^ 64) (stacks : IsApart (c.rsp - 48) c.rsp (top - 64) top)
    (cells : IsApart c.rdi (c.rdi + 8) (top - 64) top) where
  abbrev new_stack : ℕ × Memory
  new_stack = initial_stack stub entry_point top m

  abbrev there : Cpu × Memory
  there = switch new_stack.0 c new_stack.1

  words_kept : Stacked (first_words stub entry_point) new_stack.0 there.1
  words_kept =
      let s = initial_stack-Pushed stub entry_point top m room fits st en in
      Stacked-ext (first_words stub entry_point) new_stack.0 new_stack.1 there.1
        (λ x p q.
          switch_outside new_stack.0 c new_stack.1 x w l h (ground (arith, s.depth))
            (ground (arith, s.depth)))
        s.words

  new_stack_depth : new_stack.0 + 64 ≡ top
  new_stack_depth = let s = initial_stack-Pushed stub entry_point top m room fits st en in s.depth

  new_thread_cpu : there.0 ≡ record (blank_cpu c.rdi) { rip = stub; rsp = top - 8 }
  unfolding switch
  new_thread_cpu =
      let (z15, (z14, (z13, (z12, (zbx, (zbp, (at_stub, _))))))) = words_kept in
      let a : ℕ = new_stack.0 in
      let here : a + 8 + 8 + 8 + 8 + 8 + 8 ≡ a + 48 = omega arith in
      let top_at : a + 56 ≡ top - 8 = omega (arith, new_stack_depth) in
      restore_lem (blank_cpu c.rdi) a stub c.rdi there.1 (omega (arith, new_stack_depth))
        (z15, (z14, (z13, (z12, (zbx, (zbp, tt))))))
        (subst (λ x. read_u64 x there.1 ≡ stub) here at_stub)
      ∙ ap (λ x. record (blank_cpu c.rdi) { rip = stub; rsp = x }) top_at

  entry_kept : read_u64 (top - 8) there.1 ≡ entry_point
  entry_kept =
      let (_, (_, (_, (_, (_, (_, (_, (at_entry, _)))))))) = words_kept in
      let e : new_stack.0 + 8 + 8 + 8 + 8 + 8 + 8 + 8 ≡ top - 8 = omega (arith, new_stack_depth) in
      subst (λ x. read_u64 x there.1 ≡ entry_point) e at_entry

-- What the stub does from there.
abbrev Called : ℕ → ℕ → ℕ → Cpu × Memory → Type 0
Called after_call entry_point top (c, m) =
    (c ≡ record (blank_cpu entry_point) { rip = entry_point; rsp = top - 8 })
    × (read_u64 (top - 8) m ≡ after_call)

called :
    (after_call entry_point top rdi stub : ℕ) (c : Cpu) (m : Memory)
    → 64 ≤ top
    → top < 2 ^ 64
    → after_call < 2 ^ 64
    → c ≡ record (blank_cpu rdi) { rip = stub; rsp = top - 8 }
    → read_u64 (top - 8) m ≡ entry_point
    → Called after_call entry_point top (run_stub after_call c m)
unfolding run_stub push_u64
called after_call entry_point top rdi stub c m room fits af e x =
    let back : wrapping_sub (wrapping_add (top - 8) 8) 8 ≡ top - 8 = omega arith in
    subst (λ c. Called after_call entry_point top (run_stub after_call c m)) (sym e)
      (
        λ i. record (blank_cpu (x i)) { rip = x i; rsp = back i },
        subst (λ a. read_u64 (top - 8) (write_u64 a after_call m) ≡ after_call) (sym back)
            (read_u64-write_u64_self (top - 8) after_call m ∙ omega arith),
      )

-- The first switch to a stack that initial_stack made goes to the stub with zeros in the saved
-- registers, and the stub calls the entry point with its own address in `rdi`, the stack pointer 8
-- below the top, and the return address of the call on the stack.
pub switch-initial_stack :
    (stub after_call entry_point top : ℕ) (c : Cpu) (m : Memory)
    → IsCpu c
    → 48 ≤ c.rsp
    → c.rsp < 2 ^ 64
    → 64 ≤ top
    → top < 2 ^ 64
    → stub < 2 ^ 64
    → after_call < 2 ^ 64
    → entry_point < 2 ^ 64
    → IsApart (c.rsp - 48) c.rsp (top - 64) top
    → IsApart c.rdi (c.rdi + 8) (top - 64) top
    → let (start, m₀) = initial_stack stub entry_point top m in
      let (c₁, m₁) = switch start c m₀ in
      let (c₂, m₂) = run_stub after_call c₁ m₁ in
      (c₂ ≡ record (blank_cpu entry_point) { rip = entry_point; rsp = top - 8 })
      × (read_u64 (top - 8) m₂ ≡ after_call)
switch-initial_stack stub after_call entry_point top c m w l h room fits st af en stacks cells =
    let e = new_thread_cpu stub entry_point top c m w l h room fits st en stacks cells in
    let x = entry_kept stub entry_point top c m w l h room fits st en stacks cells in
    called after_call entry_point top c.rdi stub _ _ room fits af e x

-- A switch back to a stack pointer that a switch saved, once the memory of the saved words, of the
-- return address and of the stack pointer is as that switch left it, returns from that switch with
-- the registers that it saved, whatever ran in between.
pub switch-switch :
    (new_rsp : ℕ) (c c₂ : Cpu) (m m₂ : Memory)
    → IsCpu c
    → IsCpu c₂
    → 48 ≤ c.rsp
    → c.rsp + 8 < 2 ^ 64
    → 48 ≤ c₂.rsp
    → c₂.rsp < 2 ^ 64
    → IsApart c.rdi (c.rdi + 8) (c.rsp - 48) (c.rsp + 8)
    → IsApart (c₂.rsp - 48) c₂.rsp (c.rsp - 48) (c.rsp + 8)
    → IsApart c₂.rdi (c₂.rdi + 8) (c.rsp - 48) (c.rsp + 8)
    → ((x : ℕ) → c.rsp - 48 ≤ x → x < c.rsp + 8 → m₂ x ≡ (switch new_rsp c m).1 x)
    → read_u64 c.rdi m₂ ≡ read_u64 c.rdi (switch new_rsp c m).1
    → (switch (read_u64 c.rdi m₂) c₂ m₂).0
      ≡ record c { rip = read_u64 c.rsp m; rsp = c.rsp + 8; rdi = c₂.rdi }
unfolding switch
switch-switch new_rsp c c₂ m m₂ w w₂ l h l₂ h₂ cell stacks cell₂ same same_rsp =
    let s = save-Pushed c m w l (omega arith) in
    let a : ℕ = (save c m).0 in
    let low : a ≡ c.rsp - 48 = omega (arith, s.depth) in
    let m₁ : Memory = (switch new_rsp c m).1 in
    let m₃ : Memory = (switch a c₂ m₂).1 in
    let saved_at : read_u64 c.rdi m₂ ≡ a =
      same_rsp ∙ read_u64-write_u64_self c.rdi a (save c m).1 ∙ omega (arith, low) in
    let kept : (x : ℕ) → c.rsp - 48 ≤ x → x < c.rsp + 8 → m₃ x ≡ m₁ x =
      λ x p q. switch_outside a c₂ m₂ x w₂ l₂ h₂ (ground arith) (ground arith) ∙ same x p q in
    let words : Stacked (saved_words c) a m₃ =
      Stacked-ext (saved_words c) a m₁ m₃
        (λ x p q. kept x (omega (arith, low)) (omega (arith, low)))
        (Stacked-write (saved_words c) a c.rdi a (save c m).1 (ground (arith, low)) s.words) in
    let return : read_u64 (a + 48) m₃ ≡ read_u64 c.rsp m =
      ap (λ x. read_u64 x m₃) {x = a + 48} {y = c.rsp} (omega (arith, low))
      ∙ read_u64_ext c.rsp m₃ m (λ x p q.
        kept x (omega arith) (omega arith)
        ∙ switch_outside new_rsp c m x w l (omega arith) (ground arith) (ground arith)) in
    let end : a + 56 ≡ c.rsp + 8 = omega (arith, low) in
    ap (λ r. (switch r c₂ m₂).0) saved_at
    ∙ restore_lem c a (read_u64 c.rsp m) c₂.rdi m₃ (omega (arith, low)) words return
    ∙ ap (λ x. record c { rip = read_u64 c.rsp m; rsp = x; rdi = c₂.rdi }) end
