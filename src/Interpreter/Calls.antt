-- ===== src/Interpreter/Calls.antt =====
-- kernel/src/win32/abi/interpreter.rs: CALL and RET undo each other on the guest's stack.
use aperture_os.Prelude.{
  ℕ, zero, suc, ◌^◌, ◌≤◌, ◌<◌, ◌≡◌, ◌≢◌, ◌∙◌, refl, ap, List, [], ◌∷◌, false, arith, length, get_or,
  set, wrapping_add, wrapping_sub, ◌==◌, get_or-set_self,
}
use aperture_os.Memory.{read_u64, write_u64}
use aperture_os.Memory.Laws.{read_u64-write_u64_self}
use aperture_os.Interpreter.{
  Guest, Next, rsp, read_reg, write_reg, ret_near, call_rel32, execute_opcode, execute_instruction,
}

set-set :
    {A : Type 0} (xs : List A) (i : ℕ) (u v d : A) → v ≡ get_or xs i d → set (set xs i u) i v ≡ xs
set-set [] i u v d h = refl
set-set (x ∷ xs) zero u v d h = ap (λ y. y ∷ xs) h
set-set (x ∷ xs) (suc i) u v d h = ap (λ ys. x ∷ ys) (set-set xs i u v d h)

module _ {K : Type 0} where
  -- The guest with the return address `ra` pushed.
  abbrev pub pushed : ℕ → Guest K → Guest K
  pushed ra g =
      let top = wrapping_sub (read_reg rsp g) 8 in
      record (write_reg rsp top g) { memory = write_u64 top ra g.memory }

  ret-pushed :
      (ra : ℕ) (g : Guest K)
      → rsp < length g.regs
      → read_reg rsp g < 2 ^ 64
      → ra < 2 ^ 64
      → ra ≢ 0
      → ret_near (pushed ra g) ≡ (
        Next.go ra,
        record g { memory = write_u64 (wrapping_sub (read_reg rsp g) 8) ra g.memory },
      )
  unfolding ret_near
  ret-pushed ra g l w b n =
      let top = wrapping_sub (read_reg rsp g) 8 in
      let at_top : get_or (set g.regs rsp top) rsp 0 ≡ top = get_or-set_self g.regs rsp top 0 l in
      let loaded : read_u64 top (write_u64 top ra g.memory) ≡ ra =
        read_u64-write_u64_self top ra g.memory ∙ ground arith in
      let back : wrapping_add top 8 ≡ read_reg rsp g = ground arith in
      let regs : set (set g.regs rsp top) rsp (wrapping_add top 8) ≡ g.regs =
        set-set g.regs rsp top (wrapping_add top 8) 0 back in
      let e : (ra == 0) ≡ false = ground arith in rw (at_top, loaded, regs, e)

  call-pushed :
      (dispatch : ℕ → List ℕ → Guest K → ℕ × Guest K) (pc : ℕ) (rest : List ℕ) (g : Guest K)
      → 4 ≤ length rest
      → (execute_instruction dispatch pc (0xE8 ∷ rest) g).1 ≡ pushed (wrapping_add pc 5) g
  unfolding execute_instruction execute_opcode call_rel32
  call-pushed dispatch pc rest g l = ground arith

  ret_instruction :
      (dispatch : ℕ → List ℕ → Guest K → ℕ × Guest K) (pc : ℕ) (rest : List ℕ) (g : Guest K)
      → execute_instruction dispatch pc (0xC3 ∷ rest) g ≡ ret_near g
  unfolding execute_instruction execute_opcode
  ret_instruction dispatch pc rest g = ground arith

-- A RET after a CALL rel32 with nothing pushed in between, at whatever addresses both stand: it goes
-- on behind the call, every register is as it was before the call, and of the memory only the eight
-- bytes under the stack pointer have changed, which hold the return address. The return address is
-- not 0.
pub ret-call :
    {K : Type 0} (dispatch : ℕ → List ℕ → Guest K → ℕ × Guest K) (pc pc' : ℕ) (rest rest' : List ℕ)
    (g : Guest K)
    → rsp < length g.regs
    → read_reg rsp g < 2 ^ 64
    → 4 ≤ length rest
    → wrapping_add pc 5 ≢ 0
    → execute_instruction dispatch pc'
        (0xC3 ∷ rest')
        (execute_instruction dispatch pc (0xE8 ∷ rest) g).1
      ≡ (
        Next.go (wrapping_add pc 5),
        record g {
          memory = write_u64 (wrapping_sub (read_reg rsp g) 8) (wrapping_add pc 5) g.memory;
        },
      )
ret-call dispatch pc pc' rest rest' g l w k n =
    ap (execute_instruction dispatch pc' (0xC3 ∷ rest')) (call-pushed dispatch pc rest g k)
    ∙ ret_instruction dispatch pc' rest' (pushed (wrapping_add pc 5) g)
    ∙ ret-pushed (wrapping_add pc 5) g l w (omega arith) n
