-- ===== src/Scheduler/Queue.antt =====
-- The ready queue of kernel/src/win32/scheduler.rs: an array of optional slots, kept compact by
-- shifting, against the list of the slots that it holds.
use aperture_os.Prelude.{
  ℕ, zero, suc, ◌+◌, ◌-◌, ◌≤◌, ◌≡◌, refl, ap, Option, none, some, List, [], ◌∷◌, ◌++◌, arith,
  length, get_or, set, position, is_none, is_some, if◌then◌else◌, ltb, true, false, Bool-cases, inl,
  inr, length-append,
}

-- `enqueue_thread` on the array: the first free place takes the slot.
unfoldable pub enqueue : ℕ → List (Option ℕ) → Option (List (Option ℕ))
enqueue slot ready = elim (position is_none ready) [
  | none ↦ none
  | some index ↦ some (set ready index (some slot))
]

-- `for i in i..i + k { ready[i] = ready[i + 1]; }`
unfoldable pub shift_down : ℕ → ℕ → List (Option ℕ) → List (Option ℕ)
shift_down zero i ready = ready
shift_down (suc k) i ready = shift_down k (i + 1) (set ready i (get_or ready (i + 1) none))

-- What `dequeue_thread` does once the head's slot is taken out: shift, and clear the last place.
unfoldable pub remove_head : ℕ → ℕ → List (Option ℕ) → Option (ℕ × List (Option ℕ))
remove_head head slot ready =
    let last = length ready - 1 in
    some (slot, set (shift_down (last - head) head (set ready head none)) last none)

unfoldable pub dequeue : List (Option ℕ) → Option (ℕ × List (Option ℕ))
unfolding remove_head
dequeue ready = elim (position is_some ready) [
  | none ↦ none
  | some head ↦ elim (get_or ready head none) [
    | none ↦ none
    | some slot ↦ remove_head head slot ready
  ]
]

-- The array of `n` places that holds `xs` from its start.
abbrev pub pack : ℕ → List ℕ → List (Option ℕ)
pack zero xs = []
pack (suc n) [] = none ∷ pack n []
pack (suc n) (x ∷ xs) = some x ∷ pack n xs

pub length-pack : (n : ℕ) (xs : List ℕ) → length (pack n xs) ≡ n
length-pack zero xs = refl
length-pack (suc n) [] = ap suc (length-pack n [])
length-pack (suc n) (x ∷ xs) = ap suc (length-pack n xs)

-- A queue with a free place takes the slot at its end; a full one refuses it.
pub enqueue-pack :
    (n slot : ℕ) (xs : List ℕ)
    → length xs ≤ n
    → enqueue slot (pack n xs)
      ≡ (if ltb (length xs) n then some (pack n (xs ++ slot ∷ [])) else none)
unfolding enqueue position
enqueue-pack zero slot [] l = refl
enqueue-pack zero slot (x ∷ xs) l = absurd (omega arith)
enqueue-pack (suc n) slot [] l = ground arith
enqueue-pack (suc n) slot (x ∷ xs) l = ground (arith, enqueue-pack n slot xs (omega arith))

shift_down-cons :
    (k i : ℕ) (a : Option ℕ) (q : List (Option ℕ))
    → shift_down k (suc i) (a ∷ q) ≡ a ∷ shift_down k i q
unfolding shift_down
shift_down-cons zero i a q = refl
shift_down-cons (suc k) i a q =
    let e : suc i + 1 ≡ suc (i + 1) = omega arith in
    rw e (shift_down-cons k (i + 1) a (set q i (get_or q (i + 1) none)))

-- Shifting from the front drops the first place, and clearing the last one frees it.
shift_down-front :
    (a : Option ℕ) (q : List (Option ℕ))
    → set (shift_down (length q) 0 (a ∷ q)) (length q) none ≡ q ++ none ∷ []
unfolding shift_down
shift_down-front a [] = refl
shift_down-front a (b ∷ q) =
    rw (shift_down-cons (length q) 0 b (b ∷ q)) (ap (λ r. b ∷ r) (shift_down-front b q))

pack-snoc : (n : ℕ) (xs : List ℕ) → length xs ≤ n → pack n xs ++ none ∷ [] ≡ pack (suc n) xs
pack-snoc zero [] l = refl
pack-snoc zero (x ∷ xs) l = absurd (omega arith)
pack-snoc (suc n) [] l = ap (λ q. none ∷ q) (pack-snoc n [] (omega arith))
pack-snoc (suc n) (x ∷ xs) l = ap (λ q. some x ∷ q) (pack-snoc n xs (omega arith))

position-is_some-nil : (n : ℕ) → position is_some (pack n []) ≡ none
unfolding position
position-is_some-nil zero = refl
position-is_some-nil (suc n) = rw (position-is_some-nil n)

-- An empty queue has nothing to take.
pub dequeue-nil : (n : ℕ) → dequeue (pack n []) ≡ none
unfolding dequeue
dequeue-nil n = rw (position-is_some-nil n, dequeue)

-- The oldest slot is taken out, and the rest moves up.
pub dequeue-cons :
    (n x : ℕ) (xs : List ℕ)
    → length xs ≤ n
    → dequeue (pack (suc n) (x ∷ xs)) ≡ some (x, pack (suc n) xs)
unfolding dequeue position
dequeue-cons n x xs l =
    let e : suc (length (pack n xs)) - 1 ≡ length (pack n xs) = omega arith in
    let z : length (pack n xs) - 0 ≡ length (pack n xs) = omega arith in
    rw (e, z, shift_down-front none (pack n xs), pack-snoc n xs l) refl

-- A sequence of queue calls, and what each returns.
pub data QueueOp : Type 0 where
  put : ℕ → QueueOp
  take_oldest : QueueOp

pub data Reply : Type 0 where
  accepted refused empty : Reply
  slot : ℕ → Reply

-- The calls on the array.
unfoldable pub run_array : List (Option ℕ) → List QueueOp → List Reply × List (Option ℕ)
run_array q [] = ([], q)
run_array q (put x ∷ ops) = elim (enqueue x q) [
  | none ↦ let (rs, q') = run_array q ops in (refused ∷ rs, q')
  | some q₁ ↦ let (rs, q') = run_array q₁ ops in (accepted ∷ rs, q')
]
run_array q (take_oldest ∷ ops) = elim (dequeue q) [
  | none ↦ let (rs, q') = run_array q ops in (empty ∷ rs, q')
  | some (x, q₁) ↦ let (rs, q') = run_array q₁ ops in (slot x ∷ rs, q')
]

-- The same calls on a first-in first-out list of at most `n` slots.
unfoldable pub run_fifo : ℕ → List ℕ → List QueueOp → List Reply × List ℕ
run_fifo n xs [] = ([], xs)
run_fifo n xs (put x ∷ ops) = elim (ltb (length xs) n) [
  | false ↦ let (rs, ys) = run_fifo n xs ops in (refused ∷ rs, ys)
  | true ↦ let (rs, ys) = run_fifo n (xs ++ x ∷ []) ops in (accepted ∷ rs, ys)
]
run_fifo n [] (take_oldest ∷ ops) = let (rs, ys) = run_fifo n [] ops in (empty ∷ rs, ys)
run_fifo n (x ∷ xs) (take_oldest ∷ ops) = let (rs, ys) = run_fifo n xs ops in (slot x ∷ rs, ys)

-- For every sequence of calls, the array answers as the bounded first-in first-out list of the
-- slots that it holds, and it holds the list's slots in the end.
pub run_refines :
    (n : ℕ) (ops : List QueueOp) (xs : List ℕ)
    → length xs ≤ n
    → let (rs, ys) = run_fifo n xs ops in run_array (pack n xs) ops ≡ (rs, pack n ys)
unfolding run_array run_fifo
run_refines n [] xs l = refl
run_refines n (put x ∷ ops) xs l = elim (Bool-cases (ltb (length xs) n)) [
  | inl room ↦
      ground
        (arith, enqueue-pack n x xs, length-append xs (x ∷ []), run_refines n ops (xs ++ x ∷ []))
  | inr full ↦ ground (arith, enqueue-pack n x xs, run_refines n ops xs)
]
run_refines n (take_oldest ∷ ops) [] l = ground (arith, dequeue-nil n, run_refines n ops [])
run_refines (suc n) (take_oldest ∷ ops) (x ∷ xs) l =
    ground (arith, dequeue-cons n x xs, run_refines (suc n) ops xs)
run_refines zero (take_oldest ∷ ops) (x ∷ xs) l = absurd (omega arith)
