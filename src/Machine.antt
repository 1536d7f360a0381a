-- ===== src/Machine.antt =====
-- The kernel with what a process needs: kernel/src/win32/loader.rs (load_pe), nt.rs
-- (create_user_process) and scheduler.rs (create_thread, enter_user_mode, enter_interpreter). The
-- addresses of `thread_entry_stub` and of `thread_exit` are parameters: the linker chooses them.
pub mod Threads
pub mod Loads
pub mod Images
mod Tests
use aperture_os.Prelude.{
  ℕ, ◌+◌, ◌-◌, ◌*◌, ◌/◌, Option, none, some, List, Bool, true, false, not, if◌then◌else◌, ◌==◌,
  length, set, position, u64, wrapping_sub,
}
use aperture_os.Memory.{Memory, read_bytes, write_bytes, write_u64}
use aperture_os.EarlyHeap.{Bump, alloc_early}
use aperture_os.Frames.{FrameAllocator}
use aperture_os.PageTable.{page_table_root, map_region, page_present, page_user, page_writable}
use aperture_os.PeParser.{PeImage, Parsed, parse_pe}
use aperture_os.Objects
use aperture_os.Objects.{Handle, ObjectKind}
use aperture_os.Scheduler.{
  Sched, Thread, ThreadState, new_thread, thread, put_thread, stack_size, max_threads,
}
use aperture_os.Scheduler.Queue.{enqueue}
use aperture_os.Context.{initial_stack}
use aperture_os.Vfs
use aperture_os.Vfs.{Run}
use aperture_os.Vfs.Files
use aperture_os.Nt.{Kernel, Result}
use aperture_os.Nt.Files.{open_vfs_file}
use aperture_os.Loader.{Process, new_process, load_into_process, requires_translation}

-- The statics of the kernel: those of Nt, BUMP_ALLOC, KERNEL_CR3, THREAD_USED and NEXT_TID.
pub record Machine : Type 0 where
  pub kernel : Kernel
  pub heap : Bump
  pub kernel_cr3 : ℕ
  pub thread_used : List Bool
  pub next_tid : ℕ

abbrev pub with_memory : Memory → Machine → Machine
with_memory m s = record s { kernel = record s.kernel { memory = m } }

abbrev pub with_sched : Sched → Machine → Machine
with_sched sched s = record s { kernel = record s.kernel { sched = sched } }

-- `alloc_thread_slot`
unfoldable pub alloc_thread_slot : Machine → Option ℕ
alloc_thread_slot s = position not s.thread_used

abbrev pub user_stack_size : ℕ
user_stack_size = 65536

abbrev pub user_stack_virt : ℕ
user_stack_virt = 0x70000

-- The stack pointer that the user mode starts with, and the memory with the stack's pages mapped, if
-- the thread has a page table of its own.
unfoldable pub place_user_stack : FrameAllocator → ℕ → ℕ → Memory → ℕ × Memory
place_user_stack fa cr3 ustack_base m =
    let mapped : Memory = elim (page_table_root cr3) [
      | none ↦ m
      | some root ↦
          (map_region fa root user_stack_virt ustack_base (user_stack_size / 4096)
            (page_present + page_user + page_writable) m).1
    ] in
    if cr3 == 0
    then (u64 (ustack_base + user_stack_size), m)
    else (user_stack_virt + user_stack_size, mapped)

-- The thread that `create_thread` stores.
unfoldable pub made_thread : ℕ → ℕ → ℕ → ℕ → ℕ → ℕ → ℕ → Thread
made_thread tid pid entry_point cr3 kstack_base initial_rsp user_rsp =
    record (new_thread tid pid entry_point) {
      stack_base = kstack_base;
      stack_limit = kstack_base;
      rsp = initial_rsp;
      user_rsp = user_rsp;
      user_rip = entry_point;
      process_page_table_root = cr3;
      state = ThreadState.ready;
    }

-- The end of `create_thread`: the thread is stored, its slot marked, and the slot queued; a full
-- queue leaves the slot marked.
unfoldable pub publish : ℕ → Thread → Machine → Option ℕ × Machine
publish slot t s =
    let stored = record (with_sched (put_thread slot t s.kernel.sched) s) {
      thread_used = set s.thread_used slot true;
      next_tid = u64 (s.next_tid + 1);
    } in
    elim (enqueue slot s.kernel.sched.queue) [
      | none ↦ (none, stored)
      | some queue ↦ (some slot, with_sched (record stored.kernel.sched { queue = queue }) stored)
    ]

-- `create_thread` once both stacks are there
unfoldable pub start_thread : ℕ → ℕ → ℕ → ℕ → ℕ → ℕ → ℕ → Machine → Option ℕ × Machine
start_thread stub slot pid entry_point cr3 kstack_base ustack_base s =
    let (initial_rsp, m₁) =
      initial_stack stub entry_point (u64 (kstack_base + stack_size)) s.kernel.memory in
    let (user_rsp, m₂) = place_user_stack s.kernel.frames cr3 ustack_base m₁ in
    publish slot (made_thread s.next_tid pid entry_point cr3 kstack_base initial_rsp user_rsp)
      (with_memory m₂ s)

-- `create_thread`. The source writes the kernel stack before it allocates the user stack; `memory₁`
-- is that write, which stays when there is no room for the user stack.
unfoldable pub create_thread : ℕ → ℕ → ℕ → ℕ → Machine → Option ℕ × Machine
create_thread stub pid entry_point cr3 s = elim (alloc_thread_slot s) [
  | none ↦ (none, s)
  | some slot ↦
      let (kstack, h₁) = alloc_early stack_size 16 s.heap in
      elim kstack [
        | none ↦ (none, record s { heap = h₁ })
        | some kstack_base ↦
            let memory₁ =
              (initial_stack stub entry_point (u64 (kstack_base + stack_size)) s.kernel.memory).1 in
            let (ustack, h₂) = alloc_early user_stack_size 4096 h₁ in
            elim ustack [
              | none ↦ (none, record (with_memory memory₁ s) { heap = h₂ })
              | some ustack_base ↦
                  start_thread stub slot pid entry_point cr3 kstack_base ustack_base
                    (record s { heap = h₂ })
            ]
      ]
]

-- What `enter_user_mode` hands to the processor: the page table to load, if it does not keep the
-- old one, the kernel stack for system calls and interrupts, and where the user mode starts.
pub record UserEntry : Type 0 where
  pub load_cr3 : Option ℕ
  pub kstack_top : ℕ
  pub user_rip : ℕ
  pub user_rsp : ℕ

abbrev run_slot : ℕ → Thread → Sched → Sched
run_slot slot t s = record (put_thread slot (record t { state = ThreadState.running }) s) {
  current = some slot;
}

-- `enter_user_mode`, with the address of `thread_exit`. The word that it pushes goes to the address
-- `user_rsp`, which the model writes in physical memory: the table that was just loaded is to map
-- it. Without a thread in the slot the processor halts.
unfoldable pub enter_user_mode : ℕ → ℕ → Machine → Option UserEntry × Machine
enter_user_mode exit slot s = elim (thread slot s.kernel.sched) [
  | none ↦ (none, s)
  | some t ↦
      let kstack_top = u64 (t.stack_base + stack_size) in
      let user_rsp = wrapping_sub t.user_rsp 8 in
      (
        some (record {
          load_cr3 =
              if t.process_page_table_root == 0 then none else some t.process_page_table_root;
          kstack_top = kstack_top;
          user_rip = t.user_rip;
          user_rsp = user_rsp;
        }),
        with_sched (record (run_slot slot t s.kernel.sched) { rsp0 = kstack_top })
            (with_memory (write_u64 user_rsp exit s.kernel.memory) s),
      )
]

-- `enter_interpreter`: where the interpreter's loop starts
unfoldable pub enter_interpreter : ℕ → Machine → Option ℕ × Machine
enter_interpreter slot s = elim (thread slot s.kernel.sched) [
  | none ↦ (none, s)
  | some t ↦ (some t.entry_point, with_sched (run_slot slot t s.kernel.sched) s)
]
