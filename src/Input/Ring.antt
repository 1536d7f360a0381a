-- ===== src/Input/Ring.antt =====
-- kernel/src/arch/x86_64/interrupts.rs: the ring buffer is a queue of at most 31 scancodes.
use native.Mathlib.Decide.{ℕ_discrete, dec_lt}
use aperture_os.Prelude.{
  ℕ, zero, suc, ◌+◌, ◌%◌, ◌≤◌, ◌<◌, ◌≡◌, ◌∙◌, refl, ap, ap₂, sym, subst, arith, Option, none, some,
  List, [], ◌∷◌, ◌++◌, true, false, length, length-append, length-set, get_or, set, get_or-set_self,
  get_or-set_ne, if◌then◌else◌, ◌==◌, ltb,
}
use aperture_os.Input.{Keyboard, empty_keyboard, keyboard_interrupt, read_scancode}

-- The calls of the ring buffer, in the order in which they happen.
pub data KeyEvent : Type 0 where
  -- a keyboard interrupt with this scancode
  key : ℕ → KeyEvent
  -- a call of `read_scancode`
  read : KeyEvent

-- What the calls of `read_scancode` return.
unfoldable pub run_ring : Keyboard → List KeyEvent → List (Option ℕ)
run_ring k [] = []
run_ring k (KeyEvent.key c ∷ events) = run_ring (keyboard_interrupt c k) events
run_ring k (KeyEvent.read ∷ events) = let (r, k') = read_scancode k in r ∷ run_ring k' events

-- The same calls on a queue: a scancode that does not fit is lost.
unfoldable pub run_queue : ℕ → List ℕ → List KeyEvent → List (Option ℕ)
run_queue n xs [] = []
run_queue n xs (KeyEvent.key c ∷ events) =
    run_queue n (if ltb (length xs) n then xs ++ c ∷ [] else xs) events
run_queue n [] (KeyEvent.read ∷ events) = none ∷ run_queue n [] events
run_queue n (x ∷ xs) (KeyEvent.read ∷ events) = some x ∷ run_queue n xs events

-- The ring buffer holds the scancodes `xs`, the oldest first.
pub record IsHolding (k : Keyboard) (xs : List ℕ) : Type 0 where
  pub size : length k.buf ≡ 32
  pub head-lt : k.head < 32
  pub few : length xs ≤ 31
  pub tail_at : k.tail ≡ (k.head + length xs) % 32
  pub stored : (i : ℕ) → i < length xs → get_or k.buf ((k.head + i) % 32) 0 ≡ get_or xs i 0

get_or-snoc_old :
    (xs : List ℕ) (c i : ℕ) → i < length xs → get_or (xs ++ c ∷ []) i 0 ≡ get_or xs i 0
get_or-snoc_old [] c i l = absurd (omega arith)
get_or-snoc_old (x ∷ xs) c zero l = refl
get_or-snoc_old (x ∷ xs) c (suc i) l = get_or-snoc_old xs c i (omega arith)

get_or-snoc_new : (xs : List ℕ) (c : ℕ) → get_or (xs ++ c ∷ []) (length xs) 0 ≡ c
get_or-snoc_new [] c = refl
get_or-snoc_new (x ∷ xs) c = get_or-snoc_new xs c

key-IsHolding :
    (k : Keyboard) (xs : List ℕ) (c : ℕ)
    → IsHolding k xs
    → length xs < 31
    → IsHolding (keyboard_interrupt c k) (xs ++ c ∷ [])
unfolding keyboard_interrupt
key-IsHolding k xs c h l =
    let n : ℕ = length xs in
    let room : ((k.tail + 1) % 32 == k.head) ≡ false = ground (arith, h.tail_at, h.head-lt) in
    let grown : length (xs ++ c ∷ []) ≡ n + 1 = length-append xs (c ∷ []) in
    let tail-lt : k.tail < 32 = omega (arith, h.tail_at) in
    let after : Keyboard = record k { buf = set k.buf k.tail c; tail = (k.tail + 1) % 32 } in
    let e : (if (k.tail + 1) % 32 == k.head then k else after) ≡ after =
      ap (λ b. if b then k else after) room in
    subst (λ q. IsHolding q (xs ++ c ∷ [])) (sym e)
      (record {
        size = length-set k.buf k.tail c ∙ h.size;
        head-lt = h.head-lt;
        few = omega (arith, grown, l);
        tail_at = omega (arith, grown, h.tail_at);
        stored = λ i il. elim (ℕ_discrete i n) [
          | yes same ↦
              let at : (k.head + i) % 32 ≡ k.tail = omega (arith, h.tail_at, same) in
              ap (λ j. get_or (set k.buf k.tail c) j 0) at
              ∙ get_or-set_self k.buf k.tail c 0 (omega (arith, h.size, tail-lt))
              ∙ sym (ap (λ j. get_or (xs ++ c ∷ []) j 0) same ∙ get_or-snoc_new xs c)
          | no ne ↦
              let il' : i < n = omega (arith, il, grown, ne) in
              get_or-set_ne k.buf k.tail ((k.head + i) % 32) c 0
                (λ z. absurd (omega (arith, z, h.tail_at, il', l, h.head-lt)))
              ∙ h.stored i il'
              ∙ sym (get_or-snoc_old xs c i il')
        ];
      })

key_full :
    (k : Keyboard) (xs : List ℕ) (c : ℕ)
    → IsHolding k xs
    → 31 ≤ length xs
    → keyboard_interrupt c k ≡ k
unfolding keyboard_interrupt
key_full k xs c h l = ground (arith, h.tail_at, h.few, h.head-lt)

read_empty : (k : Keyboard) → IsHolding k [] → read_scancode k ≡ (none, k)
unfolding read_scancode
read_empty k h = ground (arith, h.tail_at, h.head-lt)

read_oldest :
    (k : Keyboard) (x : ℕ) (xs : List ℕ) → IsHolding k (x ∷ xs) → (read_scancode k).0 ≡ some x
unfolding read_scancode
read_oldest k x xs h = ground (arith, h.tail_at, h.head-lt, h.few, h.stored 0)

read-IsHolding :
    (k : Keyboard) (x : ℕ) (xs : List ℕ) → IsHolding k (x ∷ xs) → IsHolding (read_scancode k).1 xs
unfolding read_scancode
read-IsHolding k x xs h =
    let some_left : (k.head == k.tail) ≡ false = ground (arith, h.tail_at, h.head-lt, h.few) in
    let after : Keyboard = record k { head = (k.head + 1) % 32 } in
    let result : Option ℕ × Keyboard = (some (get_or k.buf k.head 0), after) in
    let e : (if k.head == k.tail then (none, k) else result) ≡ result =
      ap (λ b. if b then (none, k) else result) some_left in
    subst (λ q. IsHolding q.1 xs) (sym e)
      (record {
        size = h.size;
        head-lt = omega arith;
        few = omega (arith, h.few);
        tail_at = omega (arith, h.tail_at);
        stored = λ i il.
            let at : ((k.head + 1) % 32 + i) % 32 ≡ (k.head + suc i) % 32 = omega arith in
            ap (λ j. get_or k.buf j 0) at ∙ h.stored (suc i) (omega arith);
      })

-- For every sequence of keyboard interrupts and reads, a ring buffer that holds some scancodes
-- answers the reads as a queue of at most 31 scancodes does that starts with these: the oldest
-- first, each once, and a scancode that comes when 31 wait is lost.
pub run_ring-run_queue :
    (k : Keyboard) (xs : List ℕ) (events : List KeyEvent)
    → IsHolding k xs
    → run_ring k events ≡ run_queue 31 xs events
unfolding run_ring run_queue
run_ring-run_queue k xs [] h = refl
run_ring-run_queue k xs (KeyEvent.key c ∷ events) h = elim (dec_lt (length xs) 31) [
  | yes l ↦
      let test : ltb (length xs) 31 ≡ true = ground arith in
      run_ring-run_queue (keyboard_interrupt c k) (xs ++ c ∷ []) events (key-IsHolding k xs c h l)
      ∙ ap (λ b. run_queue 31 (if b then xs ++ c ∷ [] else xs) events) (sym test)
  | no l ↦
      let test : ltb (length xs) 31 ≡ false = ground arith in
      ap (λ q. run_ring q events) (key_full k xs c h (omega arith))
      ∙ run_ring-run_queue k xs events h
      ∙ ap (λ b. run_queue 31 (if b then xs ++ c ∷ [] else xs) events) (sym test)
]
run_ring-run_queue k [] (KeyEvent.read ∷ events) h =
    ap (λ r. r.0 ∷ run_ring r.1 events) (read_empty k h)
    ∙ ap (λ rest. none ∷ rest) (run_ring-run_queue k [] events h)
run_ring-run_queue k (x ∷ xs) (KeyEvent.read ∷ events) h =
    ap₂ (λ r rest. r ∷ rest) (read_oldest k x xs h)
      (run_ring-run_queue (read_scancode k).1 xs events (read-IsHolding k x xs h))

pub empty_keyboard-IsHolding : IsHolding empty_keyboard []
empty_keyboard-IsHolding = record {
  size = refl;
  head-lt = omega arith;
  few = omega arith;
  tail_at = refl;
  stored = λ i l. absurd (omega arith);
}
