-- ===== src/Lib.antt =====
-- Aperture OS: a model of the kernel's memory manager, page tables, thread scheduler, file system,
-- handle table, registry and NT system calls, of its PE parser and loader, of its input and window
-- compositor, and of its instruction decoders and interpreter.
--
-- The kernel (kernel/src) manages physical frames with a bitmap (mm/frame_allocator.rs), maps pages by
-- four levels of tables in those frames (mm/page_table.rs), schedules Windows threads on one core
-- (win32/scheduler.rs, win32/thread.rs), and names kernel objects by handles (win32/objects.rs). It has
-- an in-memory file system (vfs/mod.rs) whose contents stand in frames. The NT system calls
-- (win32/nt.rs) act on all of these. Programs are PE files (crates/pe-parser); guest code is
-- interpreted (win32/abi/interpreter.rs) or stepped through with crates/x86-decode and
-- crates/aarch64-decode. The loader (win32/loader.rs) copies a parsed program into frames and maps it in
-- a table of its own; create_thread gives it stacks from the early heap (mm/mod.rs), and a switch of
-- stacks (arch/x86_64/context_switch.rs) starts it. The registry (win32/registry.rs) and the windows of
-- the compositor (gui/compositor.rs) take their memory from the early heap. Each component is a record
-- of the statics that it keeps and one function for each of its operations, which takes the record and
-- returns it beside its result.
--
--   Prelude    numbers, tests, arrays as lists, searches in arrays of options, wrapping words, UTF-8
--   Bits       the binary digits of a word, single-bit masks, fields, trailing_ones
--   Memory     physical memory as a byte at each address, little-endian reads and writes
--   Frames     kernel/src/mm/frame_allocator.rs and MemoryRegion of kernel/src/boot_info.rs;
--              FrameAllocator is the struct, its bitmap stands in Memory; mark, allocate_frame
--              (its loop is allocate_from, one round is try_word), free_frame, align_up, align_down;
--              Frames/Init is init, one function for each of its loops
--   EarlyHeap  kernel/src/mm/mod.rs: init_heap, alloc_early, count_usable_frames
--   PageTable  kernel/src/mm/page_table.rs, x86_64: new_table (new), map, map_region, translate; a
--              table is the address of its root; next_table without create is find_table
--   Aarch64Decode
--              crates/aarch64-decode/src/lib.rs: decode, step
--   X86Decode  crates/x86-decode/src/lib.rs: decode, step; decode_from is the prefix loop
--   PeParser   crates/pe-parser/src/lib.rs: parse_pe, data_directory, parse_import_directory,
--              parse_import_thunks, read_rva_string, parse_section_header; a result of a parser is
--              found, absent (None) or panicked (a slice out of range)
--   Loader     kernel/src/win32/loader.rs and process.rs: load_into_process (load_at from the first frame
--              on, finish_load its end), map_section, allocate_contiguous, requires_translation
--   Context    kernel/src/arch/x86_64/context_switch.rs: switch and thread_entry_stub, instruction by
--              instruction, and initial_stack
--   Machine    kernel/src/win32/scheduler.rs: create_thread, enter_user_mode, enter_interpreter, over
--              the record Machine of all statics; Machine/Loads has load_pe of loader.rs and
--              create_user_process of nt.rs
--   Input      kernel/src/arch/x86_64/interrupts.rs: the handlers of keyboard and mouse, read_scancode,
--              read_char, mouse_position, mouse_buttons
--   Gui        kernel/src/gui/color.rs and compositor.rs: blend, write_pixel, read_pixel, clear;
--              Gui/Windows has create_window, clear_window, draw_window and render
--   Registry   kernel/src/win32/registry.rs: set_value, get_value
--   Interpreter
--              kernel/src/win32/abi/interpreter.rs: execute_instruction, one function for each
--              opcode, and the loop run_rounds (run_x86_64_loop)
--   Vfs        kernel/src/vfs/mod.rs: find_child, create, lookup (its loop is walk), open_file (open),
--              file_size, close; a call that panics on an index out of range is Run.panicked;
--              Vfs/Files has read and write, whose frames come from Frames and stand in Memory
--   Objects    kernel/src/win32/objects.rs: allocate, lookup, close
--   Nt         kernel/src/win32/nt.rs: the record Kernel of all statics; Nt/Files, Nt/Pages, the
--              handlers (Nt/Handlers), the numbers, the table and dispatch (Nt/Dispatch)
--   Scheduler  kernel/src/win32/scheduler.rs and thread.rs: the ready queue (Scheduler/Queue),
--              schedule, preempt, thread_exit, with_current_thread
--
-- Numbers are natural numbers; where the source wraps on 32 or 64 bits the model takes the remainder,
-- and additions of u64 and usize wrap as in a release build. The loops of Frames, Scheduler, PageTable,
-- PeParser, Loader, Gui and Nt run a fixed number of rounds and recur on the number of rounds left. The
-- loops of read and write have one unit of fuel for each byte of the buffer: a round copies at least one
-- byte, so that is enough. The loop of the interpreter has no end of its own: run_rounds gives its state after as many
-- rounds as its fuel says.
-- The spin locks make each operation of a component one step. In Interpreter, nt::dispatch is an
-- argument: a system call may change all of the kernel.
--
-- The addresses of thread_entry_stub and of thread_exit are parameters of Context and Machine, since the
-- linker chooses them, and so are the places of the fields of Process in its block, which the compiler
-- chooses. A process stands in the same memory as the frames, so that a load can write over it.
--
-- Not modelled: the desktop, the font and the cursor, which draw fixed pictures with the operations of
-- the compositor; the assembly of the timer interrupt and of the system call's entry; the placeholders of
-- the translators. Boot code, descriptor tables, interrupt controllers and logging are input and output of
-- the machine.
pub mod Prelude
pub mod Bits
pub mod Memory
pub mod Frames
pub mod EarlyHeap
pub mod PageTable
pub mod Interpreter
pub mod PeParser
pub mod Loader
pub mod Context
pub mod Machine
pub mod Input
pub mod Gui
pub mod Registry
pub mod Nt
pub mod X86Decode
pub mod Aarch64Decode
pub mod Vfs
pub mod Objects
pub mod Scheduler
