-- ===== src/Context/Saved.antt =====
-- kernel/src/arch/x86_64/context_switch.rs: words on a stack.
use aperture_os.Prelude.{
  ℕ, ◌+◌, ◌*◌, ◌^◌, ◌≤◌, ◌<◌, ◌≡◌, ◌⊎◌, ◌∙◌, refl, sym, subst, List, [], ◌∷◌, arith, length,
  wrapping_sub,
}
use aperture_os.Memory.{Memory, read_u64, write_u64}
use aperture_os.Memory.Laws.{
  read_u64-write_u64_self, read_u64-write_u64_apart, write_u64_outside, read_u64_ext,
}
use aperture_os.Context.{push_u64}

-- The words `ws` stand at the address `a`, each 8 bytes.
abbrev pub Stacked : List ℕ → ℕ → Memory → Type 0
Stacked [] a m = Unit
Stacked (w ∷ ws) a m = (read_u64 a m ≡ w) × Stacked ws (a + 8) m

-- A write apart from them leaves them.
pub Stacked-write :
    (ws : List ℕ) (a b v : ℕ) (m : Memory)
    → (b + 8 ≤ a) ⊎ (a + 8 * length ws ≤ b)
    → Stacked ws a m
    → Stacked ws a (write_u64 b v m)
Stacked-write [] a b v m o h = tt
Stacked-write (w ∷ ws) a b v m o h = (
  read_u64-write_u64_apart b v m a (ground arith) ∙ h.0,
  Stacked-write ws (a + 8) b v m (ground arith) h.1,
)

-- The stack from `top` down, on the memory `m`, after the words `ws` were pushed, the first one last.
pub record Pushed (top : ℕ) (ws : List ℕ) (m : Memory) (stack : ℕ × Memory) : Type 0 where
  pub depth : stack.0 + 8 * length ws ≡ top
  pub words : Stacked ws stack.0 stack.1
  pub kept : (x : ℕ) → (x < stack.0) ⊎ (top ≤ x) → stack.1 x ≡ m x

pub empty-Pushed : (top : ℕ) (m : Memory) → Pushed top [] m (top, m)
empty-Pushed top m = record { depth = omega arith; words = tt; kept = λ x o. refl }

pub push_u64-Pushed :
    (top w : ℕ) (ws : List ℕ) (m : Memory) (stack : ℕ × Memory)
    → top < 2 ^ 64
    → 8 * length (w ∷ ws) ≤ top
    → w < 2 ^ 64
    → Pushed top ws m stack
    → Pushed top (w ∷ ws) m (push_u64 w stack)
unfolding push_u64
push_u64-Pushed top w ws m (rsp, m₁) t room b s =
    let at : wrapping_sub rsp 8 + 8 ≡ rsp = omega (arith, s.depth) in
    record {
      depth = omega (arith, s.depth);
      words = (
        read_u64-write_u64_self (wrapping_sub rsp 8) w m₁ ∙ omega arith,
        subst (λ a. Stacked ws a (write_u64 (wrapping_sub rsp 8) w m₁)) (sym at)
            (Stacked-write ws rsp (wrapping_sub rsp 8) w m₁ (ground arith) s.words),
      );
      kept = λ x o.
          write_u64_outside (wrapping_sub rsp 8) w m₁ x (ground (arith, s.depth))
          ∙ s.kept x (ground (arith, s.depth));
    }

-- Words stay where the memory does.
pub Stacked-ext :
    (ws : List ℕ) (a : ℕ) (m m' : Memory)
    → ((x : ℕ) → a ≤ x → x < a + 8 * length ws → m' x ≡ m x)
    → Stacked ws a m
    → Stacked ws a m'
Stacked-ext [] a m m' same h = tt
Stacked-ext (w ∷ ws) a m m' same h = (
  read_u64_ext a m' m (λ x p q. same x p (omega arith)) ∙ h.0,
  Stacked-ext ws (a + 8) m m' (λ x p q. same x (omega arith) (omega arith)) h.1,
)
