-- ===== src/Nt/Tests.antt =====
-- kernel/src/win32/nt.rs: the theorems at a concrete kernel with one file, "a".
use aperture_os.Prelude.{
  ℕ, ◌<◌, ◌≤◌, ◌≡◌, refl, some, none, List, [], ◌∷◌, true, false, arith, replicate, length,
  position, is_none,
}
use aperture_os.Memory.{read_bytes, write_bytes, read_u64, write_u64}
use aperture_os.Memory.Bytes.{le_bytes, from_le_bytes}
use aperture_os.Bits.Mask.{trailing_ones}
use aperture_os.Frames.{FrameAllocator, allocate_from, allocate_frame, try_word}
use aperture_os.Frames.Bitmap.{used}
use aperture_os.Objects
use aperture_os.Objects.{Handle, ObjectKind, ObjectHeader}
use aperture_os.Objects.Dense.{IsDense-initial}
use aperture_os.Vfs
use aperture_os.Vfs.{Vfs, Run, NodeKind, OpenFile}
use aperture_os.Nt.{Kernel, NtStatus, Result}
use aperture_os.Nt.Files.{create_file}
use aperture_os.Nt.Pages.{allocate_virtual_memory, allocate_frames}
use aperture_os.Nt.Dispatch.{dispatch, from, init, init_syscall_table}
use aperture_os.Nt.Numbers.{serve, served, dispatch-served}
use aperture_os.Nt.Sharing.{Serves, opened_state, create_file-Serves}
use aperture_os.Nt.Leaks.{allocate_virtual_memory_leaks}

abbrev name : List ℕ
name = 97 ∷ []

abbrev one_file : Vfs
one_file = (Vfs.create 0 name NodeKind.file (Vfs.init Vfs.blank)).1

abbrev opened : Vfs
opened = record one_file {
  open_files = some (record { node = 1; position = 0; writable = true }) ∷ replicate 63 none;
}

-- one frame from 0x100000 on, and a bitmap of one word at address 64
abbrev small : FrameAllocator
small = record { first_frame = 0x100000; frame_count = 1; bitmap = 64; bitmap_words = 1 }

abbrev booted : Kernel
booted = record {
  initialized = true;
  table = replicate 256 none;
  objects = Objects.initial;
  vfs = one_file;
  frames = small;
  memory = λ a. 0;
  sched = record { storage = []; queue = replicate 64 none; current = none; rsp0 = 0 };
}

-- A number that names no call.
dispatch-served_example :
    dispatch (from 0x99) [] (init_syscall_table (init booted))
    ≡ serve (served 0x99) [] (init_syscall_table (init booted))
dispatch-served_example = dispatch-served 0x99 [] booted

file_found : Vfs.lookup name one_file ≡ some 1
unfolding Vfs.lookup Vfs.walk Vfs.split Vfs.trim_start Vfs.trim_end Vfs.create Vfs.find_child
    Vfs.is_child Vfs.name_str Vfs.bytes_eq Vfs.store_node Vfs.new_node position Vfs.init Vfs.blank
file_found = refl

file_opened : Vfs.open_file 1 true one_file ≡ Run.returned (some 0, opened)
unfolding Vfs.open_file Vfs.open_slot Vfs.is_file Vfs.create Vfs.find_child Vfs.is_child
    Vfs.name_str Vfs.bytes_eq Vfs.store_node Vfs.new_node position Vfs.init Vfs.blank
file_opened = refl

handles_room : length one_file.open_files ≤ 64
unfolding Vfs.create Vfs.find_child Vfs.is_child Vfs.name_str Vfs.bytes_eq Vfs.store_node
    Vfs.new_node position Vfs.init Vfs.blank
handles_room = omega arith

create_file-Serves_example :
    let k' = opened_state 0 opened booted in
    (create_file name false true booted ≡ Run.returned (Result.ok 1, k'))
    × Serves 1 0 one_file k'
    × ((h : Handle) → 0 < h → h ≤ 0 → Objects.lookup h k'.objects ≡ Objects.lookup h booted.objects)
create_file-Serves_example =
    create_file-Serves name true booted 0 1 0 opened (omega arith) IsDense-initial (omega arith)
      handles_room file_found file_opened

abbrev busy : Kernel
busy = record booted {
  objects = record {
    slots = replicate 2 (some (record { kind = ObjectKind.process; payload = 0 }));
    next = 3;
  };
}

all_handles_used : position is_none busy.objects.slots ≡ none
unfolding position
all_handles_used = refl

-- Two frames are asked for, one is there.
abbrev after_two : Kernel
after_two = record booted { memory = (allocate_frames 2 0 small booted.memory).1 }

two_fail :
    allocate_virtual_memory 8192 booted
    ≡ Run.returned (Result.err NtStatus.invalid_parameter, after_two)
unfolding allocate_virtual_memory allocate_frames allocate_frame allocate_from try_word
    trailing_ones read_u64 write_u64 read_bytes write_bytes le_bytes from_le_bytes
two_fail = refl

allocate_virtual_memory_leaks_example : used small after_two.memory 0 ≡ 1
allocate_virtual_memory_leaks_example =
    allocate_virtual_memory_leaks 8192 booted after_two NtStatus.invalid_parameter
      (record { covered = omega arith }) two_fail 0 (omega arith)
