-- ===== src/Frames/Bitmap.antt =====
-- kernel/src/mm/frame_allocator.rs: the bitmap as a set of used indices, and `mark`.
use Prim.Native.Nat.{bit_and, bit_or}
use native.Mathlib.Decide.{ℕ_discrete}
use aperture_os.Prelude.{
  ℕ, ◌-◌, ◌/◌, ◌%◌, ◌^◌, ◌≤◌, ◌<◌, ◌≡◌, ◌≢◌, Bool, true, false, arith, if◌then◌else◌, ◌==◌, ap, ◌∙◌,
}
use aperture_os.Memory.{Memory, read_u64, write_u64}
use aperture_os.Memory.Laws.{read_u64-write_u64_self, read_u64-write_u64_apart}
use aperture_os.Bits.{bit, bit-le-one}
use aperture_os.Bits.Mask.{bit-mod, bit-set, bit-clear}
use aperture_os.Frames.{FrameAllocator, mark, cell}

-- 1 if the bitmap has frame `i` marked as allocated, and 0 if it is free.
unfoldable pub used : FrameAllocator → Memory → ℕ → ℕ
used fa m i = bit (read_u64 (cell fa (i / 64)) m) (i % 64)

pub used-le-one : (fa : FrameAllocator) (m : Memory) (i : ℕ) → used fa m i ≤ 1
unfolding used
used-le-one fa m i = bit-le-one (read_u64 (cell fa (i / 64)) m) (i % 64)

-- A digit of a word that was just written.
pub bit-written : (a v j : ℕ) (m : Memory) → j < 64 → bit (read_u64 a (write_u64 a v m)) j ≡ bit v j
bit-written a v j m l = ap (λ w. bit w j) (read_u64-write_u64_self a v m) ∙ bit-mod 64 v j l

-- A word's write leaves the digits of the other words.
pub used-write_apart :
    (fa : FrameAllocator) (word v j : ℕ) (m : Memory)
    → j / 64 ≢ word
    → used fa (write_u64 (cell fa word) v m) j ≡ used fa m j
unfolding used
used-write_apart fa word v j m ne =
    ap (λ w. bit w (j % 64))
      (read_u64-write_u64_apart (cell fa word) v m (cell fa (j / 64)) (ground arith))

pub used-write_same :
    (fa : FrameAllocator) (word v j : ℕ) (m : Memory)
    → j / 64 ≡ word
    → used fa (write_u64 (cell fa word) v m) j ≡ bit v (j % 64)
unfolding used
used-write_same fa word v j m e =
    ap (λ w. bit (read_u64 (cell fa w) (write_u64 (cell fa word) v m)) (j % 64)) e
    ∙ bit-written (cell fa word) v (j % 64) m (omega arith)

pub used_in :
    (fa : FrameAllocator) (m : Memory) (word j : ℕ)
    → j / 64 ≡ word
    → used fa m j ≡ bit (read_u64 (cell fa word) m) (j % 64)
unfolding used
used_in fa m word j e = ap (λ w. bit (read_u64 (cell fa w) m) (j % 64)) e

-- `mark` sets or clears the one digit of its index.
pub used-mark :
    (fa : FrameAllocator) (m : Memory) (i : ℕ) (b : Bool) (j : ℕ)
    → used fa (mark fa i b m) j ≡ (if i == j then (if b then 1 else 0) else used fa m j)
unfolding mark
used-mark fa m i true j =
    let v : ℕ = bit_or (read_u64 (cell fa (i / 64)) m) (2 ^ (i % 64)) in
    elim (ℕ_discrete (j / 64) (i / 64)) [
      | yes e ↦ ground (
        arith,
        used-write_same fa (i / 64) v j m e,
        used_in fa m (i / 64) j e,
        bit-set (read_u64 (cell fa (i / 64)) m) (i % 64) (j % 64),
      )
      | no ne ↦ ground (arith, used-write_apart fa (i / 64) v j m ne)
    ]
used-mark fa m i false j =
    let v : ℕ = bit_and (read_u64 (cell fa (i / 64)) m) (2 ^ 64 - 1 - 2 ^ (i % 64)) in
    elim (ℕ_discrete (j / 64) (i / 64)) [
      | yes e ↦ ground (
        arith,
        used-write_same fa (i / 64) v j m e,
        used_in fa m (i / 64) j e,
        bit-clear (read_u64 (cell fa (i / 64)) m) (i % 64) (j % 64),
      )
      | no ne ↦ ground (arith, used-write_apart fa (i / 64) v j m ne)
    ]
