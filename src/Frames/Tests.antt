-- ===== src/Frames/Tests.antt =====
-- kernel/src/mm/frame_allocator.rs: runs of the allocator, and its theorems at a concrete one.
use aperture_os.Prelude.{ℕ, List, map, ◌≡◌, refl, none, some, [], ◌∷◌, arith, All}
use aperture_os.Memory.{Memory, read_bytes, write_bytes, read_u64, write_u64}
use aperture_os.Memory.Bytes.{le_bytes, from_le_bytes}
use aperture_os.Bits.Mask.{trailing_ones}
use aperture_os.Frames.{
  FrameAllocator, MemoryRegion, RegionKind, compute_usable_range, align_up, align_down, is_usable,
  is_bitmap_frame, mark, try_word, allocate_from, allocate_frame, free_frame,
}
use aperture_os.Bits.{bit}
use aperture_os.Frames.Init.{
  place, clear_words, mark_from, free_usable, free_steps, free_region, free_regions, bitmap_last,
  reserve_bitmap, init,
}
use aperture_os.Frames.Bitmap.{used}
use aperture_os.Frames.Allocate.{IsCovered, Allocates, allocate_frame-Allocates}
use aperture_os.Frames.Ownership.{Picks, Reach, Distinct, IsHeld, Reach-Distinct}

-- Two frames from 0x100000 on, and a bitmap of one word at address 64.
abbrev small : FrameAllocator
small = record { first_frame = 0x100000; frame_count = 2; bitmap = 64; bitmap_words = 1 }

abbrev blank : Memory
blank a = 0

abbrev after_one : Memory
after_one = (allocate_frame small blank).1

abbrev after_two : Memory
after_two = (allocate_frame small after_one).1

small-IsCovered : IsCovered small
small-IsCovered = record { covered = omega arith }

first_frame_taken : allocate_frame small blank ≡ (some 0x100000, after_one)
unfolding allocate_frame allocate_from try_word trailing_ones read_u64 write_u64 read_bytes
    write_bytes le_bytes from_le_bytes
first_frame_taken = refl

second_frame_taken : allocate_frame small after_one ≡ (some 0x101000, after_two)
unfolding allocate_frame allocate_from try_word trailing_ones read_u64 write_u64 read_bytes
    write_bytes le_bytes from_le_bytes
second_frame_taken = refl

no_third_frame : (allocate_frame small after_two).0 ≡ none
unfolding allocate_frame allocate_from try_word trailing_ones read_u64 write_u64 read_bytes
    write_bytes le_bytes from_le_bytes
no_third_frame = refl

allocate_frame-Allocates_example : Allocates small after_one (allocate_frame small after_one)
allocate_frame-Allocates_example = allocate_frame-Allocates small after_one small-IsCovered

Reach-Distinct_example :
    Distinct {A = ℕ} (0x100000 ∷ [])
    × All {A = ℕ} (IsHeld small (free_frame 0x101000 small after_two)) (0x100000 ∷ [])
Reach-Distinct_example =
    Reach-Distinct small (free_frame 0x101000 small after_two) (0x100000 ∷ []) small-IsCovered (
      Reach.frees
        (Reach.allocates (Reach.allocates (Reach.start blank) first_frame_taken) second_frame_taken)
        Picks.first refl)

-- Three regions; the bitmap stands in the first frame.
abbrev regions : List MemoryRegion
regions =
    record { start = 0x1000; stop = 0x5000; kind = RegionKind.usable }
    ∷ record { start = 0x5000; stop = 0x9000; kind = RegionKind.reserved }
    ∷ record { start = 0x9000; stop = 0xB000; kind = RegionKind.usable }
    ∷ []

init_run :
    map
      (λ i. used (init regions blank).0 (init regions blank).1 i)
      (0 ∷ 1 ∷ 2 ∷ 3 ∷ 4 ∷ 7 ∷ 8 ∷ 9 ∷ [])
    ≡ 1 ∷ 0 ∷ 0 ∷ 0 ∷ 1 ∷ 1 ∷ 0 ∷ 0 ∷ []
unfolding init place clear_words mark_from free_usable free_steps free_region free_regions
    bitmap_last reserve_bitmap compute_usable_range align_up align_down is_usable is_bitmap_frame
    mark used bit read_u64 write_u64 read_bytes write_bytes le_bytes from_le_bytes
init_run = refl
