-- ===== src/EarlyHeap/Tests.antt =====
-- Runs of the early heap.
use aperture_os.Prelude.{◌-◌, ◌^◌, ◌≡◌, refl, none, some, List, [], ◌∷◌, All, arith}
use aperture_os.Frames.{RegionKind, is_usable}
use aperture_os.EarlyHeap.{
  Bump, new_bump, init_heap, aligned_from, alloc_early, count_usable, count_usable_frames,
}
use aperture_os.EarlyHeap.Blocks.{Request, Within, Apart, blocks, blocks-Apart}

abbrev small_heap : Bump
small_heap = record { base = 4096; next = 4100; limit = 8192 }

aligned_16 : alloc_early 10 16 small_heap ≡ (some 4112, record small_heap { next = 4122 })
unfolding alloc_early aligned_from
aligned_16 = refl

too_large : alloc_early 4090 16 small_heap ≡ (none, small_heap)
unfolding alloc_early aligned_from
too_large = refl

-- The sum that rounds up wraps: a heap at the end of the address space gives out address 0.
wraps :
    alloc_early 8 4096 (record { base = 2 ^ 64 - 4096; next = 2 ^ 64 - 1; limit = 2 ^ 64 - 1 })
    ≡ (some 0, record { base = 2 ^ 64 - 4096; next = 8; limit = 2 ^ 64 - 1 })
unfolding alloc_early aligned_from
wraps = refl

two_regions :
    count_usable_frames (
      record { start = 4096; stop = 20000; kind = RegionKind.usable }
      ∷ record { start = 20480; stop = 40960; kind = RegionKind.reserved }
      ∷ [])
    ≡ (3, 3)
unfolding count_usable_frames count_usable is_usable
two_regions = refl

abbrev stacks : List Request
stacks =
    record { size = 16384; power = 4 }
    ∷ record { size = 65536; power = 12 }
    ∷ record { size = 5; power = 0 }
    ∷ []

blocks-Apart_example :
    All (Within 1048600 2097152) (blocks stacks (init_heap 1048600 2097152 new_bump))
    × Apart (blocks stacks (init_heap 1048600 2097152 new_bump))
blocks-Apart_example =
    blocks-Apart 1048600 2097152 stacks new_bump (omega arith) (omega arith)
      ((omega arith, omega arith), ((omega arith, omega arith), ((omega arith, omega arith), tt)))
