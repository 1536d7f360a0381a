-- ===== src/Nt/Leaks.antt =====
-- kernel/src/win32/nt.rs: what the failing calls leave behind: `allocate_virtual_memory` keeps the
-- frames it took, `create_file` keeps the file open.
use aperture_os.Prelude.{
  ℕ, zero, suc, ◌<◌, ◌≡◌, ◌∙◌, refl, ap, subst, Option, none, some, List, Bool, false, arith,
  if◌then◌else◌, ◌==◌, position, is_none,
}
use aperture_os.Memory.{Memory}
use aperture_os.Frames.{FrameAllocator, allocate_frame}
use aperture_os.Frames.Bitmap.{used}
use aperture_os.Frames.Allocate.{IsCovered, Allocates, allocate_frame-Allocates}
use aperture_os.Objects
use aperture_os.Objects.{ObjectKind, ObjectTable}
use aperture_os.Vfs
use aperture_os.Vfs.{Run}
use aperture_os.Nt.{Kernel, NtStatus, Result}
use aperture_os.Nt.Files.{create_file}
use aperture_os.Nt.Sharing.{with_object, create_file_found}
use aperture_os.Nt.Pages.{allocate_frames, allocate_virtual_memory, frames_of, with_frames}

abbrev AllUsed : FrameAllocator → Memory → Type 0
AllUsed fa m = (j : ℕ) → j < fa.frame_count → used fa m j ≡ 1

none_left :
    (fa : FrameAllocator) (m m' : Memory) (r : Option ℕ × Memory)
    → Allocates fa m r
    → r ≡ (none, m')
    → AllUsed fa m'
none_left fa m m' r (Allocates.took i frame e t) at = cc (ap (λ (p : Option ℕ × Memory). p.0) at)
none_left fa m m' r (Allocates.ran_out x) at =
    subst (AllUsed fa) (ap (λ (p : Option ℕ × Memory). p.1) at) x.kept

-- One round of the loop, given what the rounds after it do.
round_exhausted :
    (left base : ℕ) (fa : FrameAllocator) (m m' : Memory) (r : Option ℕ × Memory)
    → ((base : ℕ) (m₁ : Memory) → allocate_frames left base fa m₁ ≡ (none, m') → AllUsed fa m')
    → Allocates fa m r
    → (elim r.0 as (λ _. Option ℕ × Memory) [
      | none ↦ (none, r.1)
      | some frame ↦ allocate_frames left (if base == 0 then frame else base) fa r.1
    ])
      ≡ (none, m')
    → AllUsed fa m'
round_exhausted left base fa m m' r ih (Allocates.took {m' = m₁} i frame e t) at =
    ih (if base == 0 then frame else base) m₁ at
round_exhausted left base fa m m' r ih (Allocates.ran_out x) at =
    subst (AllUsed fa) (ap (λ (p : Option ℕ × Memory). p.1) at) x.kept

frames_exhausted :
    (left base : ℕ) (fa : FrameAllocator) (m m' : Memory)
    → IsCovered fa
    → allocate_frames left base fa m ≡ (none, m')
    → AllUsed fa m'
unfolding allocate_frames
frames_exhausted zero base fa m m' c e = cc (ap (λ (p : Option ℕ × Memory). p.0) e)
frames_exhausted (suc left) base fa m m' c e =
    round_exhausted left base fa m m' (allocate_frame fa m)
      (λ base m₁ at. frames_exhausted left base fa m₁ m' c at) (allocate_frame-Allocates fa m c) e

-- The frames and the memory that a result of `allocate_virtual_memory` came from.
abbrev frames_before : Run (Result ℕ × Kernel) → Option ℕ × Memory
frames_before Run.panicked = (none, λ a. 0)
frames_before (Run.returned (Result.ok base, k)) = (some base, k.memory)
frames_before (Run.returned (Result.err status, k)) = (none, k.memory)

frames_before-with_frames :
    (k : Kernel) (r : Option ℕ × Memory) → r ≡ frames_before (with_frames k r)
frames_before-with_frames k (none, m) = refl
frames_before-with_frames k (some base, m) = refl

-- A call of `allocate_virtual_memory` that fails leaves every frame of the allocator in use: the
-- frames it took before it ran out are not given back.
pub allocate_virtual_memory_leaks :
    (size : ℕ) (k k' : Kernel) (status : NtStatus)
    → IsCovered k.frames
    → allocate_virtual_memory size k ≡ Run.returned (Result.err status, k')
    → (j : ℕ) → j < k.frames.frame_count
    → used k.frames k'.memory j ≡ 1
unfolding allocate_virtual_memory
allocate_virtual_memory_leaks size k k' status c e =
    let r : Option ℕ × Memory = allocate_frames (frames_of size) 0 k.frames k.memory in
    frames_exhausted (frames_of size) 0 k.frames k.memory k'.memory c
      (frames_before-with_frames k r ∙ ap frames_before e)

-- With the handle table full, `create_file` of a file that exists and can be opened fails, and the
-- file stays open: the file system is as after `open`.
pub create_file_leaks :
    (path : List ℕ) (write : Bool) (k : Kernel) (node vfs_handle : ℕ) (v : Vfs.Vfs)
    → Vfs.lookup path k.vfs ≡ some node
    → Vfs.open_file node write k.vfs ≡ Run.returned (some vfs_handle, v)
    → position is_none k.objects.slots ≡ none
    → create_file path false write k
      ≡ Run.returned (Result.err NtStatus.invalid_parameter, record k { vfs = v })
unfolding Objects.allocate
create_file_leaks path write k node vfs_handle v found opened full =
    let e : Objects.allocate ObjectKind.file vfs_handle k.objects ≡ (none, k.objects) =
      ground arith in
    create_file_found path write k node vfs_handle v found opened
    ∙ ap (with_object (record k { vfs = v })) e
