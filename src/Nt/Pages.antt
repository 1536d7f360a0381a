-- ===== src/Nt/Pages.antt =====
-- kernel/src/win32/nt.rs: the system calls that allocate and free frames.
use aperture_os.Prelude.{ℕ, zero, suc, ◌+◌, ◌*◌, ◌/◌, Option, none, some, if◌then◌else◌, ◌==◌, u64}
use aperture_os.Memory.{Memory}
use aperture_os.Frames.{FrameAllocator, allocate_frame, free_frame}
use aperture_os.Vfs.{Run}
use aperture_os.Nt.{Kernel, NtStatus, Result, Action}

-- `(size + 4095) / 4096` on 64 bits
abbrev pub frames_of : ℕ → ℕ
frames_of size = u64 (size + 4095) / 4096

-- The loop of `allocate_virtual_memory`: `base` is the first frame, or 0 before there is one.
unfoldable pub allocate_frames : ℕ → ℕ → FrameAllocator → Memory → Option ℕ × Memory
allocate_frames zero base fa m = (some base, m)
allocate_frames (suc left) base fa m =
    let (r, m₁) = allocate_frame fa m in
    elim r [
      | none ↦ (none, m₁)
      | some frame ↦ allocate_frames left (if base == 0 then frame else base) fa m₁
    ]

abbrev pub with_frames : Kernel → Option ℕ × Memory → Run (Result ℕ × Kernel)
with_frames k (none, m) =
    Run.returned (Result.err NtStatus.invalid_parameter, record k { memory = m })
with_frames k (some base, m) = Run.returned (Result.ok base, record k { memory = m })

unfoldable pub allocate_virtual_memory : ℕ → Action ℕ
allocate_virtual_memory size k =
    with_frames k (allocate_frames (frames_of size) 0 k.frames k.memory)

-- The loop of `free_virtual_memory` from the frame `i` on.
unfoldable pub free_frames : ℕ → ℕ → ℕ → FrameAllocator → Memory → Memory
free_frames zero i base fa m = m
free_frames (suc left) i base fa m =
    free_frames left (i + 1) base fa (free_frame (u64 (base + i * 4096)) fa m)

unfoldable pub free_virtual_memory : ℕ → ℕ → Kernel → Run (NtStatus × Kernel)
free_virtual_memory base size k =
    Run.returned (
      NtStatus.success,
      record k { memory = free_frames (frames_of size) 0 base k.frames k.memory },
    )
