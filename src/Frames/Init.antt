-- ===== src/Frames/Init.antt =====
-- kernel/src/mm/frame_allocator.rs: `init`, which sets the allocator up from the memory map. The end
-- of the bitmap is written without a wrap: a bitmap is smaller than the frames that it describes.
use aperture_os.Prelude.{
  ℕ, zero, suc, ◌+◌, ◌-◌, ◌*◌, ◌/◌, List, [], ◌∷◌, true, false, not, ◌&&◌, if◌then◌else◌, ltb, leb,
  min, wrapping_sub,
}
use aperture_os.Memory.{Memory, write_u64}
use aperture_os.Frames.{
  FrameAllocator, MemoryRegion, frame_size, bitmap_word_bits, u64_max, align_up, align_down,
  is_usable, compute_usable_range, cell, mark, is_bitmap_frame,
}

-- The four fields, before the bitmap is written.
unfoldable pub place : List MemoryRegion → FrameAllocator
place regions =
    let (usable_start, usable_end) = compute_usable_range regions u64_max 0 in
    let first_frame = align_up usable_start frame_size in
    let frame_count = wrapping_sub (align_down usable_end frame_size) first_frame / frame_size in
    record {
      first_frame = first_frame;
      frame_count = frame_count;
      bitmap = align_up first_frame 8;
      bitmap_words = (frame_count + bitmap_word_bits - 1) / bitmap_word_bits;
    }

-- The loop that clears the bitmap, from the word `i` on.
unfoldable pub clear_words : ℕ → ℕ → FrameAllocator → Memory → Memory
clear_words zero i fa m = m
clear_words (suc left) i fa m = clear_words left (i + 1) fa (write_u64 (cell fa i) 0 m)

-- The loops that mark `left` frames from `i` on.
unfoldable pub mark_from : ℕ → ℕ → FrameAllocator → Memory → Memory
mark_from zero i fa m = m
mark_from (suc left) i fa m = mark_from left (i + 1) fa (mark fa i true m)

-- The body of the loop over the frames of a usable region.
unfoldable pub free_usable : ℕ → FrameAllocator → Memory → Memory
free_usable frame fa m =
    let index = (frame - fa.first_frame) / frame_size in
    if leb fa.first_frame frame
    then (if ltb index fa.frame_count && not (is_bitmap_frame fa index)
        then mark fa index false m
        else m)
    else m

-- That loop, `left` frames from the address `frame` on.
unfoldable pub free_steps : ℕ → ℕ → FrameAllocator → Memory → Memory
free_steps zero frame fa m = m
free_steps (suc left) frame fa m = free_steps left (frame + frame_size) fa (free_usable frame fa m)

unfoldable pub free_region : MemoryRegion → FrameAllocator → Memory → Memory
free_region r fa m =
    let region_first = align_up r.start frame_size in
    let steps = (align_down r.stop frame_size - region_first) / frame_size in
    if is_usable r.kind then free_steps steps region_first fa m else m

unfoldable pub free_regions : List MemoryRegion → FrameAllocator → Memory → Memory
free_regions [] fa m = m
free_regions (r ∷ rs) fa m = free_regions rs fa (free_region r fa m)

-- the end of the frames that the bitmap occupies
unfoldable pub bitmap_last : FrameAllocator → ℕ
bitmap_last fa = (fa.bitmap + fa.bitmap_words * 8 - fa.first_frame) / frame_size + 1

-- the loop that reserves them
unfoldable pub reserve_bitmap : FrameAllocator → Memory → Memory
reserve_bitmap fa m =
    let bitmap_first = (fa.bitmap - fa.first_frame) / frame_size in
    mark_from (min (bitmap_last fa) fa.frame_count - bitmap_first) bitmap_first fa m

unfoldable pub init : List MemoryRegion → Memory → FrameAllocator × Memory
init regions m =
    let fa = place regions in
    let marked = mark_from fa.frame_count 0 fa (clear_words fa.bitmap_words 0 fa m) in
    (fa, reserve_bitmap fa (free_regions regions fa marked))
