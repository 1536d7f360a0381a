-- ===== src/Nt/Dispatch.antt =====
-- kernel/src/win32/nt.rs: the numbers of the system calls, the dispatch table and `dispatch`.
use aperture_os.Prelude.{
  ℕ, Option, none, some, List, true, not, if◌then◌else◌, ◌==◌, get_or, set, replicate,
}
use aperture_os.Vfs.{Run}
use aperture_os.Nt.{Kernel, NtStatus, Handler}
use aperture_os.Nt.Handlers.{
  handle_close, handle_create_file, handle_read_file, handle_write_file,
  handle_allocate_virtual_memory, handle_free_virtual_memory, handle_query_system_information,
  handle_query_information_process, handle_delay_execution,
}

pub data SyscallNumber : Type 0 where
  nt_create_file nt_close nt_read_file nt_write_file nt_allocate_virtual_memory : SyscallNumber
  nt_free_virtual_memory nt_create_process nt_create_thread nt_query_system_information :
      SyscallNumber
  nt_query_information_process nt_set_information_process nt_delay_execution : SyscallNumber
  nt_create_key nt_query_value_key nt_set_value_key nt_wait_for_multiple_objects : SyscallNumber

-- `number as usize`
unfoldable pub number_of : SyscallNumber → ℕ
number_of SyscallNumber.nt_create_file = 0x55
number_of SyscallNumber.nt_close = 0x0F
number_of SyscallNumber.nt_read_file = 0x6F
number_of SyscallNumber.nt_write_file = 0x08
number_of SyscallNumber.nt_allocate_virtual_memory = 0x18
number_of SyscallNumber.nt_free_virtual_memory = 0x1E
number_of SyscallNumber.nt_create_process = 0x4F
number_of SyscallNumber.nt_create_thread = 0x4E
number_of SyscallNumber.nt_query_system_information = 0x36
number_of SyscallNumber.nt_query_information_process = 0x19
number_of SyscallNumber.nt_set_information_process = 0x1C
number_of SyscallNumber.nt_delay_execution = 0x34
number_of SyscallNumber.nt_create_key = 0x1D
number_of SyscallNumber.nt_query_value_key = 0x49
number_of SyscallNumber.nt_set_value_key = 0x5D
number_of SyscallNumber.nt_wait_for_multiple_objects = 0x01

unfoldable pub from_raw : ℕ → Option SyscallNumber
from_raw value =
    if value == 0x55
    then some SyscallNumber.nt_create_file
    else if value == 0x0F
    then some SyscallNumber.nt_close
    else if value == 0x6F
    then some SyscallNumber.nt_read_file
    else if value == 0x08
    then some SyscallNumber.nt_write_file
    else if value == 0x18
    then some SyscallNumber.nt_allocate_virtual_memory
    else if value == 0x1E
    then some SyscallNumber.nt_free_virtual_memory
    else if value == 0x4F
    then some SyscallNumber.nt_create_process
    else if value == 0x4E
    then some SyscallNumber.nt_create_thread
    else if value == 0x36
    then some SyscallNumber.nt_query_system_information
    else if value == 0x19
    then some SyscallNumber.nt_query_information_process
    else if value == 0x1C
    then some SyscallNumber.nt_set_information_process
    else if value == 0x34
    then some SyscallNumber.nt_delay_execution
    else if value == 0x1D
    then some SyscallNumber.nt_create_key
    else if value == 0x49
    then some SyscallNumber.nt_query_value_key
    else if value == 0x5D
    then some SyscallNumber.nt_set_value_key
    else if value == 0x01
    then some SyscallNumber.nt_wait_for_multiple_objects
    else none

-- `SyscallNumber::from(value)`
unfoldable pub from : ℕ → SyscallNumber
from value = elim (from_raw value) [
  | none ↦ SyscallNumber.nt_wait_for_multiple_objects
  | some number ↦ number
]

abbrev pub enter : SyscallNumber → Handler → List (Option Handler) → List (Option Handler)
enter number handler table = set table (number_of number) (some handler)

-- The table that `init_syscall_table` stores.
unfoldable pub handler_table : List (Option Handler)
handler_table = enter SyscallNumber.nt_delay_execution Handler.delay_execution (
    enter SyscallNumber.nt_query_information_process Handler.query_information_process (
      enter SyscallNumber.nt_query_system_information Handler.query_system_information (
        enter SyscallNumber.nt_free_virtual_memory Handler.free_virtual_memory (
          enter SyscallNumber.nt_allocate_virtual_memory Handler.allocate_virtual_memory (
            enter SyscallNumber.nt_write_file Handler.write_file (
              enter SyscallNumber.nt_read_file Handler.read_file (
                enter SyscallNumber.nt_create_file Handler.create_file
                  (enter SyscallNumber.nt_close Handler.close (replicate 256 none)))))))))

unfoldable pub init : Kernel → Kernel
init k = record k { initialized = true }

unfoldable pub init_syscall_table : Kernel → Kernel
init_syscall_table k = record k { table = handler_table }

unfoldable pub call : Handler → List ℕ → Kernel → Run (NtStatus × Kernel)
call Handler.close args k = handle_close args k
call Handler.create_file args k = handle_create_file args k
call Handler.read_file args k = handle_read_file args k
call Handler.write_file args k = handle_write_file args k
call Handler.allocate_virtual_memory args k = handle_allocate_virtual_memory args k
call Handler.free_virtual_memory args k = handle_free_virtual_memory args k
call Handler.query_system_information args k = handle_query_system_information args k
call Handler.query_information_process args k = handle_query_information_process args k
call Handler.delay_execution args k = handle_delay_execution args k

unfoldable pub dispatch : SyscallNumber → List ℕ → Kernel → Run (NtStatus × Kernel)
dispatch number args k =
    if not k.initialized
    then Run.returned (NtStatus.access_denied, k)
    else elim (get_or k.table (number_of number) none) [
      | none ↦ Run.returned (NtStatus.not_implemented, k)
      | some handler ↦ call handler args k
    ]
