-- ===== src/PageTable/Writes.antt =====
-- kernel/src/mm/page_table.rs: what a write to one entry, the clearing of a frame and an allocation
-- leave alone: the entries of other tables, and the allocator's bitmap.
use native.Mathlib.Decide.{ℕ_discrete, dec_lt}
use aperture_os.Prelude.{
  ℕ, zero, suc, ◌+◌, ◌*◌, ◌%◌, ◌^◌, ◌≤◌, ◌<◌, ◌≡◌, ◌≢◌, ◌⊎◌, ◌∙◌, inl, inr, refl, ap, ap₂, arith,
  ◌∷◌, replicate,
}
use aperture_os.Memory.{Memory, read_bytes, read_u64, write_u64, zero_bytes}
use aperture_os.Memory.Bytes.{le_bytes, length-le_bytes, from_le_bytes}
use aperture_os.Memory.Laws.{
  read_u64_ext, read_u64-write_u64_self, read_u64-write_u64_apart, write_bytes_outside,
}
use aperture_os.Frames.{FrameAllocator, allocate_frame}
use aperture_os.Frames.Bitmap.{used}
use aperture_os.Frames.Allocate.{IsCovered}
use aperture_os.Frames.Outside.{allocate_frame_outside, used_ext}
use aperture_os.Frames.Outside.{IsClear}
use aperture_os.PageTable.{entry, put_entry}

-- A table starts at the start of a frame.
abbrev pub IsAligned : ℕ → Type 0
IsAligned table = table % 4096 ≡ 0

pub entry-put_entry_self : (t i v : ℕ) (m : Memory) → v < 2 ^ 64 → entry t i (put_entry t i v m) ≡ v
entry-put_entry_self t i v m b = read_u64-write_u64_self (t + 8 * i) v m ∙ omega arith

slots_apart :
    (t i u j : ℕ)
    → IsAligned t
    → IsAligned u
    → i < 512
    → j < 512
    → (t ≡ u → i ≢ j)
    → (u + 8 * j + 8 ≤ t + 8 * i) ⊎ (t + 8 * i + 8 ≤ u + 8 * j)
slots_apart t i u j at au li lj ne = elim (ℕ_discrete t u) [
  | yes same ↦
      let apart : i ≢ j = ne same in
      elim (dec_lt j i) [ yes low ↦ inl (omega arith) | no high ↦ inr (omega arith) ]
  | no other ↦ elim (dec_lt u t) [ yes low ↦ inl (omega arith) | no high ↦ inr (omega arith) ]
]

pub entry-put_entry_other :
    (t i v u j : ℕ) (m : Memory)
    → IsAligned t
    → IsAligned u
    → i < 512
    → j < 512
    → (t ≡ u → i ≢ j)
    → entry u j (put_entry t i v m) ≡ entry u j m
entry-put_entry_other t i v u j m at au li lj ne =
    read_u64-write_u64_apart (t + 8 * i) v m (u + 8 * j) (slots_apart t i u j at au li lj ne)

pub entry-zero_bytes_other :
    (f u j : ℕ) (m : Memory)
    → IsAligned f
    → IsAligned u
    → j < 512
    → u ≢ f
    → entry u j (zero_bytes f 4096 m) ≡ entry u j m
unfolding zero_bytes
entry-zero_bytes_other f u j m af au lj ne =
    read_u64_ext (u + 8 * j) (zero_bytes f 4096 m) m (λ b p q.
      let apart : (b < f) ⊎ (f + 4096 ≤ b) = elim (dec_lt u f) [
        | yes low ↦ inl (omega arith)
        | no high ↦ inr (omega arith)
      ] in
      ground arith)

read_zeros :
    (a n : ℕ) (m : Memory)
    → ((b : ℕ) → a ≤ b → b < a + n → m b ≡ 0)
    → read_bytes a n m ≡ replicate n 0
unfolding read_bytes
read_zeros a zero m h = refl
read_zeros a (suc n) m h =
    ap₂ (λ x xs. x ∷ xs) (h a (omega arith) (omega arith))
      (read_zeros (a + 1) n m (λ b p q. h b (omega arith) (omega arith)))

-- A frame of zeros has empty entries.
pub entry_blank :
    (f j : ℕ) (m : Memory) → ((b : ℕ) → f ≤ b → b < f + 4096 → m b ≡ 0) → j < 512 → entry f j m ≡ 0
unfolding read_u64 from_le_bytes
entry_blank f j m h lj =
    ap from_le_bytes (read_zeros (f + 8 * j) 8 m (λ b p q. h b (omega arith) (omega arith)))

pub entry-zero_bytes_self : (f j : ℕ) (m : Memory) → j < 512 → entry f j (zero_bytes f 4096 m) ≡ 0
unfolding zero_bytes
entry-zero_bytes_self f j m lj = entry_blank f j (zero_bytes f 4096 m) (λ b p q. ground arith) lj

pub entry-allocate_frame :
    (fa : FrameAllocator) (u j : ℕ) (m : Memory)
    → IsClear fa u
    → j < 512
    → entry u j (allocate_frame fa m).1 ≡ entry u j m
entry-allocate_frame fa u j m c lj =
    read_u64_ext (u + 8 * j) (allocate_frame fa m).1 m
      (λ b p q. allocate_frame_outside fa m b (ground arith))

pub used-put_entry :
    (fa : FrameAllocator) (t i v k : ℕ) (m : Memory)
    → IsCovered fa
    → IsClear fa t
    → i < 512
    → k < fa.frame_count
    → used fa (put_entry t i v m) k ≡ used fa m k
unfolding write_u64
used-put_entry fa t i v k m cov c li lk =
    used_ext fa (put_entry t i v m) m k (omega (arith, cov.covered)) (λ a p q.
      write_bytes_outside (t + 8 * i) (le_bytes 8 v) m a (rw (length-le_bytes 8 v) (ground arith)))

pub used-zero_bytes :
    (fa : FrameAllocator) (f k : ℕ) (m : Memory)
    → IsCovered fa
    → IsClear fa f
    → k < fa.frame_count
    → used fa (zero_bytes f 4096 m) k ≡ used fa m k
unfolding zero_bytes
used-zero_bytes fa f k m cov c lk =
    used_ext fa (zero_bytes f 4096 m) m k (omega (arith, cov.covered)) (λ a p q. ground arith)
