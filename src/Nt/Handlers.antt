-- ===== src/Nt/Handlers.antt =====
-- kernel/src/win32/nt.rs: the handlers of the dispatch table. `args` holds the sixteen arguments; a
-- buffer of the guest is a range of physical memory.
use Prim.Native.Nat.{bit_and}
use aperture_os.Prelude.{
  ℕ, ◌==◌, none, some, List, [], ◌∷◌, ◌++◌, not, ◌||◌, if◌then◌else◌, ltb, get_or, replicate, u32,
}
use aperture_os.Memory.{Memory, read_bytes, write_bytes, write_u64}
use aperture_os.Memory.Bytes.{le_bytes}
use aperture_os.Scheduler
use aperture_os.Scheduler.{Sched, schedule}
use aperture_os.Vfs.{Run}
use aperture_os.Nt.{Kernel, NtStatus, Result, Action, continue, status_of, user_ptr_to_phys}
use aperture_os.Nt.Files.{create_file, read_file, write_file, close}
use aperture_os.Nt.Pages.{allocate_virtual_memory, free_virtual_memory}

abbrev pub arg : List ℕ → ℕ → ℕ
arg args i = get_or args i 0

abbrev pub return : NtStatus → Kernel → Run (NtStatus × Kernel)
return status k = Run.returned (status, k)

-- `guest_cstr`: the bytes before the first zero, `max` at most
unfoldable pub until_zero : List ℕ → List ℕ
until_zero [] = []
until_zero (b ∷ bs) = let rest = until_zero bs in if b == 0 then [] else b ∷ rest

abbrev pub guest_cstr : ℕ → ℕ → Memory → List ℕ
guest_cstr phys max m = until_zero (read_bytes phys max m)

-- `user_ptr_to_phys`, with `InvalidParameter` where it fails
abbrev pub with_pointer : ℕ → Kernel → (ℕ → Run (NtStatus × Kernel)) → Run (NtStatus × Kernel)
with_pointer pointer k body = elim (user_ptr_to_phys pointer k) [
  | none ↦ return NtStatus.invalid_parameter k
  | some phys ↦ body phys
]

abbrev pub poke : ℕ → List ℕ → Kernel → Kernel
poke a bs k = record k { memory = write_bytes a bs k.memory }

unfoldable pub handle_close : List ℕ → Kernel → Run (NtStatus × Kernel)
handle_close args k = close (u32 (arg args 0)) k

abbrev pub put_handle : ℕ → ℕ → Action (Unit {0})
put_handle out_phys handle k =
    Run.returned (Result.ok tt, record k { memory = write_u64 out_phys handle k.memory })

unfoldable pub handle_create_file : List ℕ → Kernel → Run (NtStatus × Kernel)
handle_create_file args k =
    if arg args 1 == 0 || arg args 0 == 0
    then return NtStatus.invalid_parameter k
    else with_pointer (arg args 1) k (λ path_phys. with_pointer (arg args 0) k (λ out_phys.
      let path = guest_cstr path_phys 128 k.memory in
      let create = not (arg args 2 == 0) in
      let write_access = not (bit_and (arg args 3) 0x40000000 == 0) || create in
      status_of (continue (put_handle out_phys) (create_file path create write_access k))))

-- the bytes read, written back to the guest's buffer
abbrev pub put_buffer : ℕ → ℕ × List ℕ → Action (Unit {0})
put_buffer phys (n, buf) k = Run.returned (Result.ok tt, poke phys buf k)

unfoldable pub handle_read_file : List ℕ → Kernel → Run (NtStatus × Kernel)
handle_read_file args k =
    if arg args 1 == 0 || arg args 2 == 0
    then return NtStatus.success k
    else with_pointer (arg args 1) k (λ phys. status_of (
        continue (put_buffer phys)
          (read_file (u32 (arg args 0)) (read_bytes phys (arg args 2) k.memory) k)))

unfoldable pub handle_write_file : List ℕ → Kernel → Run (NtStatus × Kernel)
handle_write_file args k =
    if arg args 1 == 0 || arg args 2 == 0
    then return NtStatus.success k
    else with_pointer (arg args 1) k (λ phys.
      status_of (write_file (u32 (arg args 0)) (read_bytes phys (arg args 2) k.memory) k))

abbrev pub put_base : ℕ → ℕ → Action (Unit {0})
put_base pointer base k = Run.returned (
  Result.ok tt,
  if pointer == 0 then k else record k { memory = write_u64 pointer base k.memory },
)

unfoldable pub handle_allocate_virtual_memory : List ℕ → Kernel → Run (NtStatus × Kernel)
handle_allocate_virtual_memory args k =
    status_of (continue (put_base (arg args 1)) (allocate_virtual_memory (arg args 3) k))

unfoldable pub handle_free_virtual_memory : List ℕ → Kernel → Run (NtStatus × Kernel)
handle_free_virtual_memory args k = free_virtual_memory (arg args 0) (arg args 1) k

-- the length that is stored through the return-length pointer, if it can be
abbrev pub put_length : ℕ → ℕ → Kernel → Kernel
put_length pointer len k =
    if pointer == 0
    then k
    else elim (user_ptr_to_phys pointer k) [ none ↦ k | some phys ↦ poke phys (le_bytes 4 len) k ]

unfoldable pub query_system : ℕ → ℕ → ℕ → ℕ → Kernel → Run (NtStatus × Kernel)
query_system class len ret_len_ptr phys k =
    if class == 0
    then (if ltb len 64
        then return NtStatus.buffer_too_small k
        else return NtStatus.success (
            put_length ret_len_ptr 64
              (poke phys (le_bytes 4 4096 ++ (le_bytes 4 0x8000 ++ replicate 56 0)) k)))
    else if class == 1
    then (if ltb len 2
        then return NtStatus.buffer_too_small k
        else return NtStatus.success (put_length ret_len_ptr 2 (poke phys (le_bytes 2 12) k)))
    else return NtStatus.not_implemented k

unfoldable pub handle_query_system_information : List ℕ → Kernel → Run (NtStatus × Kernel)
handle_query_system_information args k =
    if arg args 1 == 0 || arg args 2 == 0
    then return NtStatus.invalid_parameter k
    else with_pointer (arg args 1) k
        (λ phys. query_system (u32 (arg args 0)) (arg args 2) (arg args 3) phys k)

unfoldable pub query_process : ℕ → ℕ → ℕ → ℕ → Kernel → Run (NtStatus × Kernel)
query_process class len ret_len_ptr phys k =
    if class == 0
    then (if ltb len 48
        then return NtStatus.buffer_too_small k
        else return NtStatus.success
            (put_length ret_len_ptr 48 (poke phys (le_bytes 8 1 ++ replicate 40 0) k)))
    else return NtStatus.not_implemented k

unfoldable pub handle_query_information_process : List ℕ → Kernel → Run (NtStatus × Kernel)
handle_query_information_process args k =
    if arg args 2 == 0 || arg args 3 == 0
    then return NtStatus.invalid_parameter k
    else with_pointer (arg args 2) k
        (λ phys. query_process (u32 (arg args 1)) (arg args 3) (arg args 4) phys k)

abbrev pub resumed : Kernel → Scheduler.Outcome × Sched → Run (NtStatus × Kernel)
resumed k (Scheduler.Outcome.panicked, s) = Run.panicked
resumed k (Scheduler.Outcome.stay, s) = Run.returned (NtStatus.success, record k { sched = s })
resumed k (Scheduler.Outcome.switch_to w, s) =
    Run.returned (NtStatus.success, record k { sched = s })

-- The interval is read and not used. The call returns when another thread switches back; the state
-- is that right after it switched away.
unfoldable pub handle_delay_execution : List ℕ → Kernel → Run (NtStatus × Kernel)
handle_delay_execution args k = resumed k (schedule k.sched)
