-- ===== src/Frames/Startup.antt =====
-- kernel/src/mm/frame_allocator.rs: which frames are free after `init`.
use aperture_os.Prelude.{ℕ, ◌+◌, ◌*◌, List, [], ◌∷◌, Bool, false, ◌&&◌, ◌||◌, ltb, leb}
use aperture_os.Memory.{Memory}
use aperture_os.Frames.{FrameAllocator, MemoryRegion, frame_size, align_up, align_down, is_usable}
use aperture_os.Frames.Init.{place, clear_words, mark_from}

abbrev pub address : FrameAllocator → ℕ → ℕ
address fa i = fa.first_frame + i * frame_size

-- A usable region holds the whole frame at the address.
abbrev pub in_region : MemoryRegion → ℕ → Bool
in_region r a =
    is_usable r.kind
    && (leb (align_up r.start frame_size) a && ltb a (align_down r.stop frame_size))

abbrev pub in_regions : List MemoryRegion → ℕ → Bool
in_regions [] a = false
in_regions (r ∷ rs) a = in_region r a || in_regions rs a

module _ (regions : List MemoryRegion) (m : Memory) where
  abbrev fa : FrameAllocator
  fa = place regions

  abbrev marked : Memory
  marked = mark_from fa.frame_count 0 fa (clear_words fa.bitmap_words 0 fa m)
