-- ===== src/EarlyHeap.antt =====
-- kernel/src/mm/mod.rs: the bump allocator of the early heap and the count of usable frames. The
-- static `BUMP_ALLOC` is a `Bump` that each operation takes and returns; the lock makes an
-- operation one step. Additions of `u64` wrap except the checked one.
pub mod Blocks
mod Tests
use Prim.Native.Nat.{bit_and}
use aperture_os.Prelude.{
  ℕ, ◌+◌, ◌-◌, ◌/◌, ◌^◌, Option, none, some, List, [], ◌∷◌, if◌then◌else◌, leb, ltb, u64,
  wrapping_add, wrapping_sub,
}
use aperture_os.Frames.{MemoryRegion, is_usable, u64_max, frame_size}

-- `BumpAllocator`
pub record Bump : Type 0 where
  pub base : ℕ
  pub next : ℕ
  pub limit : ℕ

-- `BumpAllocator::new`
abbrev pub new_bump : Bump
new_bump = record { base = 0; next = 0; limit = 0 }

unfoldable pub init_heap : ℕ → ℕ → Bump → Bump
init_heap start stop h = record { base = start; next = start; limit = stop }

-- `u64::checked_add`
abbrev pub checked_add : ℕ → ℕ → Option ℕ
checked_add a b = if ltb u64_max (a + b) then none else some (a + b)

-- `(next + (align - 1)) & !(align - 1)`
unfoldable pub aligned_from : ℕ → ℕ → ℕ
aligned_from next align =
    let mask = wrapping_sub align 1 in bit_and (wrapping_add next mask) (u64_max - mask)

-- `BumpAllocator::allocate`, and `alloc_early`, which takes the lock and calls it
unfoldable pub alloc_early : ℕ → ℕ → Bump → Option ℕ × Bump
alloc_early size align h =
    let aligned = aligned_from h.next align in
    elim (checked_add aligned size) [
      | some stop ↦ if ltb h.limit stop then (none, h) else (some aligned, record h { next = stop })
      | none ↦ (none, h)
    ]

-- The loop of `count_usable_frames`, which carries `count`. The subtraction wraps on a region that
-- stops before it starts.
unfoldable pub count_usable : List MemoryRegion → ℕ → ℕ
count_usable [] count = count
count_usable (r ∷ rs) count =
    count_usable rs
      (if is_usable r.kind then u64 (count + wrapping_sub r.stop r.start / frame_size) else count)

-- `count_usable_frames`: the count, and the value that it stores in `TOTAL_FRAMES`
unfoldable pub count_usable_frames : List MemoryRegion → ℕ × ℕ
count_usable_frames regions = let count = count_usable regions 0 in (count, count)
