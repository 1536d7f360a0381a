-- ===== src/Frames.antt =====
-- kernel/src/mm/frame_allocator.rs and the memory map of kernel/src/boot_info.rs: the bitmap
-- allocator of 4 KiB physical frames. The bitmap stands in physical memory, so each function takes
-- the memory and returns it. The allocator is used under a lock: the compare-exchange loop on a
-- word sees no other writer, and a spurious failure only repeats it with the same value.
pub mod Bitmap
pub mod Allocate
pub mod Free
pub mod Ownership
pub mod Outside
pub mod Init
pub mod Startup
mod Tests
use Prim.Native.Nat.{bit_and, bit_or}
use aperture_os.Prelude.{
  ℕ, zero, suc, ◌+◌, ◌-◌, ◌*◌, ◌/◌, ◌%◌, ◌^◌, Option, none, some, List, [], ◌∷◌, Bool, true, false,
  not, ◌&&◌, if◌then◌else◌, ltb, leb, ◌==◌, min, u64,
}
use aperture_os.Memory.{Memory, read_u64, write_u64}
use aperture_os.Bits.Mask.{trailing_ones}

abbrev pub frame_size : ℕ
frame_size = 4096

abbrev pub bitmap_word_bits : ℕ
bitmap_word_bits = 64

abbrev pub u64_max : ℕ
u64_max = 2 ^ 64 - 1

pub data RegionKind : Type 0 where
  usable reserved bootloader unknown : RegionKind

-- `MemoryRegion`; `stop` is the source's field `end`.
pub record MemoryRegion : Type 0 where
  pub start : ℕ
  pub stop : ℕ
  pub kind : RegionKind

pub record FrameAllocator : Type 0 where
  pub first_frame : ℕ
  pub frame_count : ℕ
  pub bitmap : ℕ
  pub bitmap_words : ℕ

-- `addr & !(align - 1)` and `(addr + align - 1) & !(align - 1)` on 64 bits
unfoldable pub align_down : ℕ → ℕ → ℕ
align_down addr align = bit_and addr (u64_max - (align - 1))

unfoldable pub align_up : ℕ → ℕ → ℕ
align_up addr align = bit_and (u64 (addr + align - 1)) (u64_max - (align - 1))

unfoldable pub is_usable : RegionKind → Bool
is_usable RegionKind.usable = true
is_usable _ = false

-- `compute_usable_range`, as a loop over the map that carries `start` and `end`. The third number
-- that it returns, the total, is not used by its caller.
unfoldable pub compute_usable_range : List MemoryRegion → ℕ → ℕ → ℕ × ℕ
compute_usable_range [] start stop = (start, stop)
compute_usable_range (r ∷ rs) start stop =
    compute_usable_range rs (if is_usable r.kind && ltb r.start start then r.start else start)
      (if is_usable r.kind && ltb stop r.stop then r.stop else stop)

-- the address of the bitmap's word `word`
abbrev pub cell : FrameAllocator → ℕ → ℕ
cell fa word = fa.bitmap + 8 * word

unfoldable pub mark : FrameAllocator → ℕ → Bool → Memory → Memory
mark fa index used m =
    let c = cell fa (index / bitmap_word_bits) in
    let mask = 2 ^ (index % bitmap_word_bits) in
    if used
    then write_u64 c (bit_or (read_u64 c m) mask) m
    else write_u64 c (bit_and (read_u64 c m) (u64_max - mask)) m

unfoldable pub is_bitmap_frame : FrameAllocator → ℕ → Bool
is_bitmap_frame fa index =
    let frame_addr = fa.first_frame + index * frame_size in
    leb fa.bitmap frame_addr && ltb frame_addr (fa.bitmap + fa.bitmap_words * 8)

-- The body of the loop of `allocate_frame` for one word: `none` goes on with the next word.
unfoldable pub try_word : FrameAllocator → ℕ → Memory → Option ℕ × Memory
try_word fa word m =
    let value = read_u64 (cell fa word) m in
    let digit = trailing_ones 64 value in
    let index = word * bitmap_word_bits + digit in
    let m' = write_u64 (cell fa word) (bit_or value (2 ^ digit)) m in
    if value == u64_max
    then (none, m)
    else if leb bitmap_word_bits digit
    then (none, m)
    else if ltb index fa.frame_count
    then (some (fa.first_frame + index * frame_size), m')
    else (none, m')

-- `for word in word..word + left`
unfoldable pub allocate_from : ℕ → ℕ → FrameAllocator → Memory → Option ℕ × Memory
allocate_from zero word fa m = (none, m)
allocate_from (suc left) word fa m =
    let (r, m') = try_word fa word m in
    let rest = allocate_from left (word + 1) fa m' in elim r [ some f ↦ (some f, m') | none ↦ rest ]

unfoldable pub allocate_frame : FrameAllocator → Memory → Option ℕ × Memory
allocate_frame fa m = allocate_from fa.bitmap_words 0 fa m

unfoldable pub free_frame : ℕ → FrameAllocator → Memory → Memory
free_frame frame fa m =
    let index = (frame - fa.first_frame) / frame_size in
    if ltb frame fa.first_frame
    then m
    else if leb fa.frame_count index
    then m
    else mark fa index false m
