-- ===== src/Machine/Tests.antt =====
-- Runs of the creation of processes and threads.
use aperture_os.Prelude.{
  ℕ, ◌-◌, ◌≡◌, refl, Option, inl, none, some, List, [], ◌∷◌, ◌++◌, Bool, true, false, arith, length,
  replicate, position,
}
use aperture_os.Memory.{read_bytes, write_bytes, read_u64, write_u64, zero_bytes}
use aperture_os.Memory.Bytes.{le_bytes, from_le_bytes}
use aperture_os.Bits.Mask.{trailing_ones}
use aperture_os.EarlyHeap.{alloc_early, aligned_from}
use aperture_os.Frames.{allocate_from, allocate_frame, try_word}
use aperture_os.PageTable.{
  new_table, map, find_table, new_entry, next_table, is_present, frame_of, pml4_index, pdpt_index,
  pd_index, pt_index,
}
use aperture_os.PeParser.{
  parse_pe, parse_headers, field, machine_of, image_base_of, parse_section_header,
}
use aperture_os.PeParser.Tests.{whole}
use aperture_os.Objects
use aperture_os.Objects.{Handle}
use aperture_os.Objects.Dense.{IsDense-initial}
use aperture_os.Scheduler.{new_thread}
use aperture_os.Vfs
use aperture_os.Vfs.{Run}
use aperture_os.Loader.{
  Layout, new_process, write_process, place_image, contiguous_from, allocate_contiguous,
  copy_section, fill_section, map_section, load_sections, finish_load, load_at, load_into_process,
  same_machine, requires_translation,
}
use aperture_os.Machine.{Machine, create_thread}
use aperture_os.Machine.Threads.{Creates, IsReady, create_thread-Creates}
use aperture_os.Machine.Loads.{name_process, load_image, load_pe}
use aperture_os.Machine.Images.{Loads, IsLayout, load_pe-Loads}

-- Eight frames from 0x100000 on, an early heap of 1 MiB from 0x200000 on.
abbrev machine : Machine
machine = record {
  kernel = record {
    initialized = true;
    table = replicate 256 none;
    objects = Objects.initial;
    vfs = Vfs.blank;
    frames = record { first_frame = 0x100000; frame_count = 8; bitmap = 64; bitmap_words = 1 };
    memory = λ a. 0;
    sched = record {
      storage = replicate 16 (new_thread 0 0 0);
      queue = replicate 16 none;
      current = none;
      rsp0 = 0;
    };
  };
  heap = record { base = 0x200000; next = 0x200000; limit = 0x300000 };
  kernel_cr3 = 0;
  thread_used = replicate 16 false;
  next_tid = 1;
}

ready : IsReady 0 [] machine
unfolding position new_thread
ready = record {
  free = refl;
  slot-lt = omega arith;
  storage = refl;
  queue = refl;
  waiting-lt = omega arith;
  room = omega arith;
  bounded = omega arith;
}

create_thread-Creates_example :
    let (r, s') = create_thread 0x1000 7 0x4010 0 machine in
    (r ≡ some 0) × Creates 0x1000 7 0x4010 0 0 [] machine s'
create_thread-Creates_example =
    create_thread-Creates 0x1000 7 0x4010 0 0 [] machine ready (omega arith) (omega arith)

-- The image with a header of one section at address 0x1000 and its two bytes, `jmp $`.
abbrev file : List ℕ
file =
    whole
    ++ (replicate (0x148 - length whole) 0
        ++ (replicate 8 0
            ++ (2
                ∷ 0
                ∷ 0
                ∷ 0
                ∷ 0
                ∷ 0x10
                ∷ 0
                ∷ 0
                ∷ 2
                ∷ 0
                ∷ 0
                ∷ 0
                ∷ 0x70
                ∷ 1
                ∷ 0
                ∷ 0
                ∷ (replicate 16 0 ++ (0xEB ∷ 0xFE ∷ [])))))

abbrev result_of : Run (Option (Handle × Bool) × Machine) → Machine
result_of Run.panicked = machine
result_of (Run.returned (r, s)) = s

-- The fields in the order of the source, with padding behind the handle.
abbrev in_order : Layout
in_order = record {
  pid_at = 0;
  peb_base_at = 8;
  teb_base_at = 16;
  root_handle_at = 24;
  image_base_at = 32;
  image_size_at = 40;
  entry_point_at = 48;
  page_table_root_at = 56;
}

in_order-IsLayout : IsLayout in_order
in_order-IsLayout = record { apart = inl (omega arith) }

loaded :
    load_pe in_order file 1 machine
    ≡ Run.returned (some (1, false), result_of (load_pe in_order file 1 machine))
unfolding load_pe load_image name_process parse_pe parse_headers field machine_of image_base_of
    parse_section_header from_le_bytes alloc_early aligned_from load_into_process load_at
    finish_load load_sections map_section fill_section copy_section allocate_contiguous
    contiguous_from new_table new_process write_process place_image requires_translation
    same_machine Objects.allocate Objects.initial position map find_table new_entry next_table
    is_present frame_of pml4_index pdpt_index pd_index pt_index allocate_frame allocate_from
    try_word trailing_ones read_u64 write_u64 read_bytes write_bytes zero_bytes le_bytes
loaded = refl

load_pe-Loads_example :
    Loads in_order 0 file 1 machine (result_of (load_pe in_order file 1 machine)) 1 false
load_pe-Loads_example =
    load_pe-Loads in_order 0 file 1 machine (result_of (load_pe in_order file 1 machine)) 1 false
      in_order-IsLayout (omega arith) IsDense-initial loaded
