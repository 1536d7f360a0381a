-- ===== src/Frames/Free.antt =====
-- kernel/src/mm/frame_allocator.rs: `free_frame`, and a client's calls in any order.
use aperture_os.Prelude.{
  ℕ, ◌+◌, ◌-◌, ◌*◌, ◌/◌, ◌<◌, ◌≡◌, some, false, arith, if◌then◌else◌, ◌==◌, leb, ◌&&◌,
}
use aperture_os.Memory.{Memory}
use aperture_os.Frames.{FrameAllocator, frame_size, allocate_frame, free_frame}
use aperture_os.Frames.Bitmap.{used, used-mark}
use aperture_os.Frames.Allocate.{IsCovered, allocated}

-- `free_frame` frees the frame that holds the address, if the allocator manages it, and no other;
-- any other address changes nothing.
pub free_frame_lem :
    (fa : FrameAllocator) (m : Memory) (frame j : ℕ)
    → j < fa.frame_count
    → used fa (free_frame frame fa m) j ≡ (
        if leb fa.first_frame frame && (frame - fa.first_frame) / frame_size == j
        then 0
        else used fa m j)
unfolding free_frame
free_frame_lem fa m frame j l =
    ground (arith, used-mark fa m ((frame - fa.first_frame) / frame_size) false j)

pub index_of_frame :
    (fa : FrameAllocator) (i : ℕ)
    → (fa.first_frame + i * frame_size - fa.first_frame) / frame_size ≡ i
index_of_frame fa i = omega arith

-- Freeing the frame that was just allocated gives back the state of every frame.
pub free-allocate :
    (fa : FrameAllocator) (m m' : Memory) (frame j : ℕ)
    → IsCovered fa
    → allocate_frame fa m ≡ (some frame, m')
    → j < fa.frame_count
    → used fa (free_frame frame fa m') j ≡ used fa m j
free-allocate fa m m' frame j c e l =
    let (i, at, t) = allocated fa m m' frame c e in
    ground (arith, free_frame_lem fa m' frame j l, t.marked j l, t.was_free, index_of_frame fa i)
