-- ===== src/Vfs/Files/Tests.antt =====
-- kernel/src/vfs/mod.rs: `read` and `write` at a concrete file.
use aperture_os.Prelude.{
  ℕ, ◌≡◌, refl, Option, none, some, List, [], ◌∷◌, ◌++◌, true, false, arith, get_or, replicate, inr,
  get_or-replicate,
}
use aperture_os.Memory.{Memory, read_bytes, write_bytes, read_u64, write_u64}
use aperture_os.Memory.Bytes.{le_bytes, from_le_bytes}
use aperture_os.Bits.Mask.{trailing_ones}
use aperture_os.Frames.{FrameAllocator, try_word, allocate_from, allocate_frame}
use aperture_os.Frames.Allocate.{IsCovered}
use aperture_os.Vfs.{Vfs, Run, OpenFile}
use aperture_os.Vfs.Files.{
  Progress, ensure_frame, copy_chunk, add_written, write_loop, put_progress, write, put_position,
  read, progress_of,
}
use aperture_os.Vfs.Files.Contents.{byte_at, span}
use aperture_os.Vfs.Files.Reading.{read_lem}
use aperture_os.Vfs.Files.Ends.{write_loop_ends}
use aperture_os.Vfs.Files.Owned.{IsOwned}
use aperture_os.Vfs.Files.Roundtrip.{WriteResult, write-WriteResult, read-write}

-- Two frames from 0x100000 on, and a bitmap of one word at address 64.
abbrev two_frames : FrameAllocator
two_frames = record { first_frame = 0x100000; frame_count = 2; bitmap = 64; bitmap_words = 1 }

abbrev empty : Memory
empty a = 0

abbrev writer : OpenFile
writer = record { node = 2; position = 0; writable = true }

abbrev viewer : OpenFile
viewer = record { node = 2; position = 0; writable = false }

-- An empty file at node 2, open twice.
abbrev opened_twice : Vfs
opened_twice = record {
  nodes = [];
  file_data = replicate 3 (replicate 16 none);
  file_sizes = 0 ∷ 0 ∷ 0 ∷ [];
  open_files = some writer ∷ some viewer ∷ [];
}

abbrev hello : List ℕ
hello = 104 ∷ 105 ∷ []

two_frames-IsCovered : IsCovered two_frames
two_frames-IsCovered = record { covered = omega arith }

no_frames : (k frame : ℕ) → get_or {A = Option ℕ} (replicate 16 none) k none ≡ some frame → ⊥
no_frames k frame at = ground (arith, get_or-replicate {A = Option ℕ} 16 k none, at)

empty-IsOwned : IsOwned two_frames (progress_of writer opened_twice empty)
empty-IsOwned = record {
  reserved = record { clear = λ i l free. inr (omega arith) };
  held = λ k frame at. absurd (no_frames k frame at);
  clear = λ k frame at. absurd (no_frames k frame at);
  distinct = λ k l frame at at'. absurd (no_frames k frame at);
  backed = λ i l. absurd (omega arith);
  at_end = omega arith;
  full_row = refl;
}

abbrev after_write : Progress
after_write = (write_loop 2 two_frames hello (progress_of writer opened_twice empty)).1

abbrev written : Vfs
written = put_progress 0 writer after_write opened_twice

write_run :
    write 0 hello two_frames opened_twice empty ≡ Run.returned (some 2, written, after_write.memory)
unfolding write write_loop ensure_frame copy_chunk add_written put_progress allocate_frame
    allocate_from try_word trailing_ones read_u64 write_u64 read_bytes write_bytes le_bytes
    from_le_bytes
write_run = refl

write-WriteResult_example :
    WriteResult 0 hello two_frames opened_twice empty writer
      (write 0 hello two_frames opened_twice empty)
write-WriteResult_example =
    write-WriteResult 0 hello two_frames opened_twice empty writer (omega arith) refl refl
      (omega arith) two_frames-IsCovered empty-IsOwned

read-write_example :
    read 1 (0 ∷ 0 ∷ []) written after_write.memory
    ≡ Run.returned (some 2, hello, put_position 1 viewer 2 written)
read-write_example =
    read-write 0 1 hello (0 ∷ 0 ∷ []) two_frames opened_twice empty writer viewer
      two_frames-IsCovered empty-IsOwned (ground arith) (omega arith) refl refl refl (omega arith)
      (omega arith) (omega arith) 2 written after_write.memory (omega arith) refl refl write_run
      refl

-- A file of six bytes whose frame was never allocated.
abbrev sparse : Vfs
sparse = record opened_twice { file_sizes = 0 ∷ 0 ∷ 6 ∷ [] }

read_lem_example :
    read 1 (1 ∷ 2 ∷ 3 ∷ []) sparse empty
    ≡ Run.returned
        (some 3, span (byte_at (replicate 16 none) empty) 0 3 ++ [], put_position 1 viewer 3 sparse)
read_lem_example =
    read_lem 1 (1 ∷ 2 ∷ 3 ∷ []) sparse empty viewer (omega arith) refl (omega arith) (omega arith)

write_loop_ends_example :
    write_loop 2 two_frames hello (progress_of writer opened_twice empty)
    ≡ write_loop 9 two_frames hello (progress_of writer opened_twice empty)
write_loop_ends_example =
    write_loop_ends 2 9 two_frames hello (progress_of writer opened_twice empty) (omega arith)
      (omega arith)
