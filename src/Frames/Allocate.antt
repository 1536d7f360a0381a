-- ===== src/Frames/Allocate.antt =====
-- kernel/src/mm/frame_allocator.rs: what `allocate_frame` returns and how it changes the bitmap.
use Prim.Native.Nat.{bit_or}
use native.Mathlib.Decide.{ℕ_discrete, dec_lt}
use aperture_os.Prelude.{
  ℕ, zero, suc, ◌+◌, ◌*◌, ◌/◌, ◌%◌, ◌^◌, ◌≤◌, ◌<◌, ◌≡◌, ◌≢◌, refl, Option, none, some, arith,
  if◌then◌else◌, ◌==◌, ap, subst,
}
use aperture_os.Memory.{Memory, read_u64, write_u64}
use aperture_os.Bits.Mask.{
  bit-ones, bit-set, trailing_ones, trailing_ones-le, trailing_ones_below, trailing_ones_at,
}
use aperture_os.Frames.{
  FrameAllocator, cell, frame_size, u64_max, try_word, allocate_from, allocate_frame,
}
use aperture_os.Frames.Bitmap.{used, used_in, used-write_same, used-write_apart}

-- Frame `i` was free, every frame below it was in use, and now it is in use and no other frame of
-- the allocator changed.
pub record Taken (fa : FrameAllocator) (m m' : Memory) (i : ℕ) : Type 0 where
  pub in_range : i < fa.frame_count
  pub was_free : used fa m i ≡ 0
  pub lowest : (j : ℕ) → j < i → used fa m j ≡ 1
  pub marked : (j : ℕ) → j < fa.frame_count → used fa m' j ≡ (if i == j then 1 else used fa m j)

-- No frame of the allocator is free, and the bitmap says the same of them after the call.
pub record Exhausted (fa : FrameAllocator) (m m' : Memory) : Type 0 where
  pub all_used : (j : ℕ) → j < fa.frame_count → used fa m j ≡ 1
  pub kept : (j : ℕ) → j < fa.frame_count → used fa m' j ≡ 1

-- What a call of the allocator promises, by its result.
pub data Allocates (fa : FrameAllocator) (m : Memory) : Option ℕ × Memory → Type 0 where
  took :
      {m' : Memory} (i frame : ℕ)
      → frame ≡ fa.first_frame + i * frame_size
      → Taken fa m m' i
      → Allocates fa m (some frame, m')
  ran_out : {m' : Memory} → Exhausted fa m m' → Allocates fa m (none, m')

module _ (fa : FrameAllocator) (word : ℕ) (m : Memory) where
  abbrev value : ℕ
  value = read_u64 (cell fa word) m

  abbrev digit : ℕ
  digit = trailing_ones 64 value

  abbrev written : Memory
  written = write_u64 (cell fa word) (bit_or value (2 ^ digit)) m

  used-written :
      (j : ℕ) → digit < 64 → used fa written j ≡ (if word * 64 + digit == j then 1 else used fa m j)
  used-written j l = elim (ℕ_discrete (j / 64) word) [
    | yes e ↦ ground (
      arith,
      used-write_same fa word (bit_or value (2 ^ digit)) j m e,
      used_in fa m word j e,
      bit-set value digit (j % 64),
    )
    | no ne ↦ ground (arith, used-write_apart fa word (bit_or value (2 ^ digit)) j m ne)
  ]

  used_below_digit : (j : ℕ) → word * 64 ≤ j → j < word * 64 + digit → used fa m j ≡ 1
  used_below_digit j p q =
      ground (
        arith,
        used_in fa m word j,
        trailing_ones_below 64 value (j % 64),
        trailing_ones-le 64 value,
      )

  free_at_digit : digit < 64 → used fa m (word * 64 + digit) ≡ 0
  free_at_digit l =
      let e : (word * 64 + digit) % 64 ≡ digit = omega arith in
      ground (arith, e, used_in fa m word (word * 64 + digit), trailing_ones_at 64 value l)

-- The three ways in which the loop leaves a word.
data TryWord (fa : FrameAllocator) (word : ℕ) (m : Memory) : Option ℕ × Memory → Type 0 where
  hit :
      digit fa word m < 64
      → word * 64 + digit fa word m < fa.frame_count
      → TryWord fa word m
          (some (fa.first_frame + (word * 64 + digit fa word m) * frame_size), written fa word m)
  full :
      ((j : ℕ) → word * 64 ≤ j → j < word * 64 + 64 → used fa m j ≡ 1) → TryWord fa word m (none, m)
  beyond :
      digit fa word m < 64
      → fa.frame_count ≤ word * 64 + digit fa word m
      → TryWord fa word m (none, written fa word m)

module _ (fa : FrameAllocator) (word : ℕ) (m : Memory) where
  try_ones : value fa word m ≡ u64_max → try_word fa word m ≡ (none, m)
  unfolding try_word
  try_ones e = ground arith

  try_wide : 64 ≤ digit fa word m → try_word fa word m ≡ (none, m)
  unfolding try_word
  try_wide l = ground arith

  try_hit :
      value fa word m ≢ u64_max
      → digit fa word m < 64
      → word * 64 + digit fa word m < fa.frame_count
      → try_word fa word m
        ≡ (some (fa.first_frame + (word * 64 + digit fa word m) * frame_size), written fa word m)
  unfolding try_word
  try_hit ne l k = ground arith

  try_beyond :
      value fa word m ≢ u64_max
      → digit fa word m < 64
      → fa.frame_count ≤ word * 64 + digit fa word m
      → try_word fa word m ≡ (none, written fa word m)
  unfolding try_word
  try_beyond ne l k = ground arith

  ones_used :
      value fa word m ≡ u64_max → (j : ℕ) → word * 64 ≤ j → j < word * 64 + 64 → used fa m j ≡ 1
  ones_used e j p q = ground (arith, used_in fa m word j, bit-ones 64 (j % 64))

  try_word-TryWord : TryWord fa word m (try_word fa word m)
  try_word-TryWord = elim (ℕ_discrete (value fa word m) u64_max) [
    | yes e ↦ rw (try_ones e) (full (ones_used e))
    | no ne ↦ elim (dec_lt (digit fa word m) 64) [
      | yes l ↦ elim (dec_lt (word * 64 + digit fa word m) fa.frame_count) [
        | yes k ↦ rw (try_hit ne l k) (hit l k)
        | no k ↦ rw (try_beyond ne l (omega arith)) (beyond l (omega arith))
      ]
      | no l ↦
          rw (try_wide (omega arith)) (full (λ j p q. used_below_digit fa word m j p (omega arith)))
    ]
  ]

-- A change of the bitmap beyond the allocator's frames does not matter.
Allocates-after :
    (fa : FrameAllocator) (m m₁ : Memory) (r : Option ℕ × Memory)
    → ((j : ℕ) → j < fa.frame_count → used fa m₁ j ≡ used fa m j)
    → Allocates fa m₁ r
    → Allocates fa m r
Allocates-after fa m m₁ r same (took i frame e t) = took i frame e (record {
  in_range = t.in_range;
  was_free = ground (arith, same i, t.in_range, t.was_free);
  lowest = λ j l. ground (arith, same j, t.lowest j, t.in_range);
  marked = λ j l. ground (arith, same j, t.marked j);
})
Allocates-after fa m m₁ r same (ran_out x) =
    ran_out (record { all_used = λ j l. ground (arith, same j, x.all_used j); kept = x.kept })

-- All frames below the word `word` are in use.
abbrev UsedBelow : FrameAllocator → ℕ → Memory → Type 0
UsedBelow fa word m = (j : ℕ) → j < word * 64 → j < fa.frame_count → used fa m j ≡ 1

-- One round of the loop, given what the rounds after it do.
round_lem :
    (fa : FrameAllocator) (left word : ℕ) (m : Memory) (r : Option ℕ × Memory)
    → UsedBelow fa word m
    → ((m₁ : Memory)
        → UsedBelow fa (word + 1) m₁
        → Allocates fa m₁ (allocate_from left (word + 1) fa m₁))
    → TryWord fa word m r
    → Allocates fa m
        (elim r.0 [ some f ↦ (some f, r.1) | none ↦ allocate_from left (word + 1) fa r.1 ])
round_lem fa left word m r below ih (hit l k) = took (word * 64 + digit fa word m) _ refl (record {
  in_range = k;
  was_free = free_at_digit fa word m l;
  lowest = λ j p. ground (arith, below j, used_below_digit fa word m j);
  marked = λ j p. used-written fa word m j l;
})
round_lem fa left word m r below ih (full ones) = ih m (λ j p q. ground (arith, below j, ones j))
round_lem fa left word m r below ih (beyond l k) =
    let same : (j : ℕ) → j < fa.frame_count → used fa (written fa word m) j ≡ used fa m j =
      λ j q. ground (arith, used-written fa word m j l) in
    Allocates-after fa m (written fa word m) _ same (
      ih (written fa word m)
        (λ j p q. ground (arith, same j, below j, used_below_digit fa word m j)))

allocate_from-Allocates :
    (left word : ℕ) (fa : FrameAllocator) (m : Memory)
    → fa.frame_count ≤ (word + left) * 64
    → UsedBelow fa word m
    → Allocates fa m (allocate_from left word fa m)
unfolding allocate_from
allocate_from-Allocates zero word fa m l below =
    ran_out
      (record { all_used = λ j p. below j (omega arith) p; kept = λ j p. below j (omega arith) p })
allocate_from-Allocates (suc left) word fa m l below =
    round_lem fa left word m (try_word fa word m) below
      (λ m₁ b. allocate_from-Allocates left (word + 1) fa m₁ (omega arith) b)
      (try_word-TryWord fa word m)

-- The words of the bitmap cover the frames, as `init` sets them up.
pub record IsCovered (fa : FrameAllocator) : Type 0 where
  pub covered : fa.frame_count ≤ fa.bitmap_words * 64

-- `allocate_frame` returns the lowest free frame and marks it, and no other frame of the
-- allocator, as in use; it returns nothing exactly when every frame is in use, and then it changes
-- none of them.
pub allocate_frame-Allocates :
    (fa : FrameAllocator) (m : Memory) → IsCovered fa → Allocates fa m (allocate_frame fa m)
unfolding allocate_frame
allocate_frame-Allocates fa m c =
    allocate_from-Allocates fa.bitmap_words 0 fa m (omega (arith, c.covered))
      (λ j p q. absurd (omega arith))

-- What is known of a call that returned a frame.
Allocates-some :
    (fa : FrameAllocator) (m m' : Memory) (frame : ℕ) (r : Option ℕ × Memory)
    → r ≡ (some frame, m')
    → Allocates fa m r
    → (i : ℕ) × (frame ≡ fa.first_frame + i * frame_size) × Taken fa m m' i
Allocates-some fa m m' frame r e (took {m' = m₁} i f at t) =
    let same : m₁ ≡ m' = ap (λ (p : Option ℕ × Memory). p.1) e in
    (i, ground arith, subst (λ k. Taken fa m k i) same t)
Allocates-some fa m m' frame r e (ran_out x) = cc (ap (λ (p : Option ℕ × Memory). p.0) e)

pub allocated :
    (fa : FrameAllocator) (m m' : Memory) (frame : ℕ)
    → IsCovered fa
    → allocate_frame fa m ≡ (some frame, m')
    → (i : ℕ) × (frame ≡ fa.first_frame + i * frame_size) × Taken fa m m' i
allocated fa m m' frame c e =
    Allocates-some fa m m' frame (allocate_frame fa m) e (allocate_frame-Allocates fa m c)
