-- ===== src/Frames/Outside.antt =====
-- kernel/src/mm/frame_allocator.rs: the allocator and the memory beside its bitmap.
use Prim.Native.Nat.{bit_or}
use aperture_os.Prelude.{
  ℕ, zero, suc, ◌+◌, ◌*◌, ◌/◌, ◌%◌, ◌^◌, ◌≤◌, ◌<◌, ◌≡◌, ◌⊎◌, refl, ap, Option, none, some, Bool,
  true, false, Option-cases, inl, inr, arith, if◌then◌else◌, leb, ltb, ◌==◌,
}
use aperture_os.Memory.{Memory, read_u64, write_u64}
use aperture_os.Memory.Bytes.{from_le_bytes}
use aperture_os.Memory.Laws.{write_u64_outside, read_bytes_ext}
use aperture_os.Bits.{bit}
use aperture_os.Bits.Mask.{trailing_ones}
use aperture_os.Frames.{
  FrameAllocator, frame_size, u64_max, cell, try_word, allocate_from, allocate_frame,
}
use aperture_os.Frames.Bitmap.{used}

-- The address is not one of the bitmap's.
abbrev pub IsOutside : FrameAllocator → ℕ → Type 0
IsOutside fa a = (a < fa.bitmap) ⊎ (fa.bitmap + 8 * fa.bitmap_words ≤ a)

-- The frame does not meet the allocator's bitmap.
abbrev pub IsClear : FrameAllocator → ℕ → Type 0
IsClear fa frame = (frame + frame_size ≤ fa.bitmap) ⊎ (fa.bitmap + 8 * fa.bitmap_words ≤ frame)

-- The allocator never hands out a frame that meets its bitmap: such frames are marked as in use.
pub record IsReserved (fa : FrameAllocator) (m : Memory) : Type 0 where
  pub clear :
      (i : ℕ) → i < fa.frame_count → used fa m i ≡ 0 → IsClear fa (fa.first_frame + i * frame_size)

if_outside :
    (b : Bool) (x y : Option ℕ × Memory) (m : Memory) (a : ℕ)
    → x.1 a ≡ m a
    → y.1 a ≡ m a
    → (if b then x else y).1 a ≡ m a
if_outside true x y m a h k = h
if_outside false x y m a h k = k

try_word_outside :
    (fa : FrameAllocator) (word : ℕ) (m : Memory) (a : ℕ)
    → word < fa.bitmap_words
    → IsOutside fa a
    → (try_word fa word m).1 a ≡ m a
unfolding try_word
try_word_outside fa word m a l h =
    let value : ℕ = read_u64 (cell fa word) m in
    let digit : ℕ = trailing_ones 64 value in
    let written : ℕ = bit_or value (2 ^ digit) in
    let quiet : (v : ℕ) → write_u64 (cell fa word) v m a ≡ m a =
      λ v. write_u64_outside (cell fa word) v m a (ground arith) in
    if_outside (value == u64_max) (none, m) _ m a refl
      (if_outside (leb 64 digit) (none, m) _ m a refl
        (if_outside (ltb (word * 64 + digit) fa.frame_count) (some _, _) (none, _) m a
          (quiet written) (quiet written)))

allocate_from_outside :
    (left word : ℕ) (fa : FrameAllocator) (m : Memory) (a : ℕ)
    → word + left ≤ fa.bitmap_words
    → IsOutside fa a
    → (allocate_from left word fa m).1 a ≡ m a
unfolding allocate_from
allocate_from_outside zero word fa m a l h = refl
allocate_from_outside (suc left) word fa m a l h =
    let one = try_word_outside fa word m a (omega arith) h in
    let more = allocate_from_outside left (word + 1) fa (try_word fa word m).1 a (omega arith) h in
    elim (Option-cases (try_word fa word m).0) [
      | inl none_yet ↦ ground (arith, one, more)
      | inr (f, found) ↦ ground (arith, one)
    ]

-- `allocate_frame` writes to the bitmap only.
pub allocate_frame_outside :
    (fa : FrameAllocator) (m : Memory) (a : ℕ) → IsOutside fa a → (allocate_frame fa m).1 a ≡ m a
unfolding allocate_frame
allocate_frame_outside fa m a h = allocate_from_outside fa.bitmap_words 0 fa m a (omega arith) h

-- The state of a frame depends on the bitmap only.
pub used_ext :
    (fa : FrameAllocator) (m m' : Memory) (i : ℕ)
    → i / 64 < fa.bitmap_words
    → ((a : ℕ) → fa.bitmap ≤ a → a < fa.bitmap + 8 * fa.bitmap_words → m a ≡ m' a)
    → used fa m i ≡ used fa m' i
unfolding used read_u64
used_ext fa m m' i l h =
    ap (λ bs. bit (from_le_bytes bs) (i % 64))
      (read_bytes_ext (cell fa (i / 64)) 8 m m' (λ b p q. h b (omega arith) (omega arith)))
