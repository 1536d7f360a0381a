-- ===== src/Nt.antt =====
-- kernel/src/win32/nt.rs: the state that the system calls act on, their results, and the actions
-- that they are made of. The statics of all components are one record; an action takes it and
-- returns it beside its result, or panics where a component does.
pub mod Files
pub mod Pages
pub mod Handlers
pub mod Dispatch
pub mod Numbers
pub mod Sharing
pub mod Leaks
mod Tests
use aperture_os.Prelude.{
  ℕ, ◌+◌, ◌==◌, Option, none, some, List, [], ◌∷◌, Bool, true, false, if◌then◌else◌, not,
}
use aperture_os.Memory.{Memory}
use aperture_os.Frames.{FrameAllocator}
use aperture_os.Objects.{ObjectTable}
use aperture_os.Scheduler.{Sched, Thread, with_current_thread}
use aperture_os.Vfs.{Vfs, Run}
use aperture_os.PageTable.{page_table_root, translate}

pub data NtStatus : Type 0 where
  success pending not_implemented invalid_parameter access_denied buffer_too_small : NtStatus
  object_name_not_found object_name_collision end_of_file : NtStatus

-- `status as u32`
abbrev pub status_code : NtStatus → ℕ
status_code NtStatus.success = 0x00000000
status_code NtStatus.pending = 0x00000103
status_code NtStatus.not_implemented = 0xC0000002
status_code NtStatus.invalid_parameter = 0xC000000D
status_code NtStatus.access_denied = 0xC0000022
status_code NtStatus.buffer_too_small = 0xC0000023
status_code NtStatus.object_name_not_found = 0xC0000034
status_code NtStatus.object_name_collision = 0xC0000035
status_code NtStatus.end_of_file = 0xC0000011

-- The handlers that the dispatch table holds.
pub data Handler : Type 0 where
  close create_file read_file write_file allocate_virtual_memory : Handler
  free_virtual_memory query_system_information query_information_process : Handler
  delay_execution : Handler

-- INITIALIZED, SYSCALL_TABLE, and the statics of the components that the handlers call.
pub record Kernel : Type 0 where
  pub initialized : Bool
  pub table : List (Option Handler)
  pub objects : ObjectTable
  pub vfs : Vfs
  pub frames : FrameAllocator
  pub memory : Memory
  pub sched : Sched

-- `Result<A, NtStatus>`
pub data Result {ℓ} (A : Type ℓ) : Type ℓ where
  ok : A → Result A
  err : NtStatus → Result A

abbrev pub Action : Type 0 → Type 0
Action A = Kernel → Run (Result A × Kernel)

abbrev pub give : {A : Type 0} → A → Action A
give a k = Run.returned (Result.ok a, k)

abbrev pub fail : {A : Type 0} → NtStatus → Action A
fail status k = Run.returned (Result.err status, k)

abbrev pub continue :
    {A B : Type 0} → (A → Action B) → Run (Result A × Kernel) → Run (Result B × Kernel)
continue f Run.panicked = Run.panicked
continue f (Run.returned (Result.ok a, k)) = f a k
continue f (Run.returned (Result.err status, k)) = Run.returned (Result.err status, k)

-- `m?` and what follows it
infixl 5 ◌>>=◌
abbrev pub ◌>>=◌ : {A B : Type 0} → Action A → (A → Action B) → Action B
◌>>=◌ m f k = continue f (m k)

-- `o.ok_or(status)?`
abbrev pub ok_or : {A : Type 0} → NtStatus → Option A → Action A
ok_or status none = fail status
ok_or status (some a) = give a

-- A component's call that may panic.
abbrev pub lift_run : {A : Type 0} → Run (A × Kernel) → Run (Result A × Kernel)
lift_run Run.panicked = Run.panicked
lift_run (Run.returned (a, k)) = Run.returned (Result.ok a, k)

-- The status that a handler returns, whatever its action returned.
abbrev pub status_of : {A : Type 0} → Run (Result A × Kernel) → Run (NtStatus × Kernel)
status_of Run.panicked = Run.panicked
status_of (Run.returned (Result.ok a, k)) = Run.returned (NtStatus.success, k)
status_of (Run.returned (Result.err status, k)) = Run.returned (status, k)

-- `t.process_page_table_root` of the current thread, 0 if there is none
unfoldable pub current_root : Kernel → ℕ
current_root k = elim (with_current_thread (λ t. (t, t.process_page_table_root)) k.sched).0 [
  | none ↦ 0
  | some root ↦ root
]

-- `user_ptr_to_phys`
unfoldable pub user_ptr_to_phys : ℕ → Kernel → Option ℕ
user_ptr_to_phys addr k =
    if addr == 0
    then none
    else if current_root k == 0
    then some addr
    else elim (page_table_root (current_root k)) [
      | none ↦ none
      | some root ↦ translate root addr k.memory
    ]
