-- ===== src/Vfs/Files.antt =====
-- kernel/src/vfs/mod.rs: `read` and `write`. File data stands in frames of physical memory, taken
-- from the frame allocator as they are needed. The position of an open file and the row of frames
-- of its node are carried by the loops and stored at the end, as the locks let no one see them
-- change. Frame addresses lie far enough below 2 ^ 64 that adding an offset does not wrap.
pub mod Contents
pub mod Reading
pub mod Owned
pub mod Copying
pub mod Wrote
pub mod Writing
pub mod Roundtrip
pub mod Ends
mod Tests
use aperture_os.Prelude.{
  ℕ, zero, suc, ◌+◌, ◌-◌, ◌/◌, ◌%◌, Option, none, some, List, [], ◌++◌, Bool, not, ◌&&◌,
  if◌then◌else◌, ltb, leb, ◌==◌, min, max, length, get_or, set, take, drop, replicate,
}
use aperture_os.Memory.{Memory, read_bytes, write_bytes}
use aperture_os.Frames.{FrameAllocator, allocate_frame}
use aperture_os.Vfs.{Vfs, Run, OpenFile, max_nodes, max_open_files, file_data_frames}

-- What one round of `read` copies: a frame that was never allocated reads as zeros.
unfoldable pub read_chunk : Option ℕ → ℕ → ℕ → Memory → List ℕ
read_chunk none frame_offset to_read m = replicate to_read 0
read_chunk (some frame) frame_offset to_read m = read_bytes (frame + frame_offset) to_read m

unfoldable pub add_chunk : List ℕ → Run (List ℕ × ℕ) → Run (List ℕ × ℕ)
add_chunk bs Run.panicked = Run.panicked
add_chunk bs (Run.returned (more, position)) = Run.returned (bs ++ more, position)

-- The loop of `read`: `left` bytes of the buffer are still to be filled. It returns the bytes that
-- it copies, one round after the other, and the new position.
unfoldable pub read_loop : ℕ → List (Option ℕ) → ℕ → ℕ → ℕ → Memory → Run (List ℕ × ℕ)
read_loop zero row size left position m = Run.returned ([], position)
read_loop (suc fuel) row size left position m =
    let frame_index = position / 4096 in
    let frame_offset = position % 4096 in
    let to_read = min left (min (4096 - frame_offset) (size - position)) in
    let rest = read_loop fuel row size (left - to_read) (position + to_read) m in
    if ltb 0 left && ltb position size
    then if leb file_data_frames frame_index
      then Run.panicked
      else add_chunk (read_chunk (get_or row frame_index none) frame_offset to_read m) rest
    else Run.returned ([], position)

unfoldable pub put_position : ℕ → OpenFile → ℕ → Vfs → Vfs
put_position handle f position v = record v {
  open_files = set v.open_files handle (some (record f { position = position }));
}

-- The result, the buffer after the call, and the state.
unfoldable pub read : ℕ → List ℕ → Vfs → Memory → Run (Option ℕ × List ℕ × Vfs)
read handle buf v m =
    if leb max_open_files handle then Run.panicked else elim (get_or v.open_files handle none) [
      | none ↦ Run.returned (none, buf, v)
      | some f ↦
          let size = get_or v.file_sizes f.node 0 in
          let row = get_or v.file_data f.node [] in
          let done = read_loop (length buf) row size (length buf) f.position m in
          if leb max_nodes f.node then Run.panicked else elim done [
            | Run.panicked ↦ Run.panicked
            | Run.returned (bs, position) ↦
                Run.returned
                  (some (length bs), bs ++ drop (length bs) buf, put_position handle f position v)
          ]
    ]

-- The variables of the loop of `write`: the frames of the node, the position, the size and memory.
pub record Progress : Type 0 where
  pub row : List (Option ℕ)
  pub position : ℕ
  pub size : ℕ
  pub memory : Memory

-- the frame of the slot, allocated if the slot is empty
unfoldable pub ensure_frame : FrameAllocator → Option ℕ → Memory → Option ℕ × Memory
ensure_frame fa (some frame) m = (some frame, m)
ensure_frame fa none m = allocate_frame fa m

abbrev pub place : ℕ → Option ℕ → Memory → Progress → Progress
place frame_index slot m p = record p { row = set p.row frame_index slot; memory = m }

unfoldable pub copy_chunk : ℕ → List ℕ → Progress → Progress
copy_chunk frame bs p = record p {
  position = p.position + length bs;
  size = max p.size (p.position + length bs);
  memory = write_bytes (frame + p.position % 4096) bs p.memory;
}

unfoldable pub add_written : ℕ → Option ℕ × Progress → Option ℕ × Progress
add_written n (none, p) = (none, p)
add_written n (some k, p) = (some (n + k), p)

-- The loop of `write`, with the bytes that are not yet written: how many it writes, or `none` if a
-- frame could not be allocated.
unfoldable pub write_loop : ℕ → FrameAllocator → List ℕ → Progress → Option ℕ × Progress
write_loop zero fa bs p = (some 0, p)
write_loop (suc fuel) fa bs p =
    let frame_index = p.position / 4096 in
    let to_write = min (length bs) (4096 - p.position % 4096) in
    let (slot, m) = ensure_frame fa (get_or p.row frame_index none) p.memory in
    let placed = place frame_index slot m p in
    let next : Option ℕ × Progress = elim slot [
      | none ↦ (none, placed)
      | some frame ↦
          add_written to_write
            (write_loop fuel fa (drop to_write bs) (copy_chunk frame (take to_write bs) placed))
    ] in
    if length bs == 0
    then (some 0, p)
    else if leb file_data_frames frame_index
    then (some 0, p)
    else next

abbrev pub progress_of : OpenFile → Vfs → Memory → Progress
progress_of f v m = record {
  row = get_or v.file_data f.node [];
  position = f.position;
  size = get_or v.file_sizes f.node 0;
  memory = m;
}

unfoldable pub put_progress : ℕ → OpenFile → Progress → Vfs → Vfs
put_progress handle f p v = record v {
  open_files = set v.open_files handle (some (record f { position = p.position }));
  file_data = set v.file_data f.node p.row;
  file_sizes = set v.file_sizes f.node p.size;
}

unfoldable pub write : ℕ → List ℕ → FrameAllocator → Vfs → Memory → Run (Option ℕ × Vfs × Memory)
write handle bs fa v m =
    if leb max_open_files handle then Run.panicked else elim (get_or v.open_files handle none) [
      | none ↦ Run.returned (none, v, m)
      | some f ↦
          let (r, p) = write_loop (length bs) fa bs (progress_of f v m) in
          let enters = ltb 0 (length bs) && ltb (f.position / 4096) file_data_frames in
          if not f.writable
          then Run.returned (none, v, m)
          else if leb max_nodes f.node && enters
          then Run.panicked
          else Run.returned (r, put_progress handle f p v, p.memory)
    ]
