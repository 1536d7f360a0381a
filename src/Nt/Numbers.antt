-- ===== src/Nt/Numbers.antt =====
-- kernel/src/win32/nt.rs: which handler serves which number, from the raw number to the handler.
use aperture_os.Prelude.{
  ℕ, ◌≡◌, ◌∙◌, refl, ap, sym, Option, none, some, List, arith, if◌then◌else◌, ◌==◌, get_or,
  Option-cases, inl, inr,
}
use aperture_os.Vfs.{Run}
use aperture_os.Nt.{Kernel, NtStatus, Handler}
use aperture_os.Nt.Dispatch.{
  SyscallNumber, number_of, from_raw, from, handler_table, init, init_syscall_table, call, dispatch,
}

-- The calls that the kernel implements, by number.
abbrev pub served : ℕ → Option Handler
served value =
    if value == 0x0F
    then some Handler.close
    else if value == 0x55
    then some Handler.create_file
    else if value == 0x6F
    then some Handler.read_file
    else if value == 0x08
    then some Handler.write_file
    else if value == 0x18
    then some Handler.allocate_virtual_memory
    else if value == 0x1E
    then some Handler.free_virtual_memory
    else if value == 0x36
    then some Handler.query_system_information
    else if value == 0x19
    then some Handler.query_information_process
    else if value == 0x34
    then some Handler.delay_execution
    else none

-- What a running kernel does with a handler, if there is one.
abbrev pub serve : Option Handler → List ℕ → Kernel → Run (NtStatus × Kernel)
serve none args k = Run.returned (NtStatus.not_implemented, k)
serve (some handler) args k = call handler args k

entered : (n : SyscallNumber) → get_or handler_table (number_of n) none ≡ served (number_of n)
unfolding handler_table number_of
entered SyscallNumber.nt_create_file = refl
entered SyscallNumber.nt_close = refl
entered SyscallNumber.nt_read_file = refl
entered SyscallNumber.nt_write_file = refl
entered SyscallNumber.nt_allocate_virtual_memory = refl
entered SyscallNumber.nt_free_virtual_memory = refl
entered SyscallNumber.nt_create_process = refl
entered SyscallNumber.nt_create_thread = refl
entered SyscallNumber.nt_query_system_information = refl
entered SyscallNumber.nt_query_information_process = refl
entered SyscallNumber.nt_set_information_process = refl
entered SyscallNumber.nt_delay_execution = refl
entered SyscallNumber.nt_create_key = refl
entered SyscallNumber.nt_query_value_key = refl
entered SyscallNumber.nt_set_value_key = refl
entered SyscallNumber.nt_wait_for_multiple_objects = refl

raw_number : (value : ℕ) (n : SyscallNumber) → from_raw value ≡ some n → number_of n ≡ value
unfolding from_raw number_of
raw_number value n h = ground arith

raw_unknown : (value : ℕ) → from_raw value ≡ none → served value ≡ none
unfolding from_raw
raw_unknown value h = ground arith

from-served : (value : ℕ) → get_or handler_table (number_of (from value)) none ≡ served value
unfolding from number_of
from-served value = elim (Option-cases (from_raw value)) [
  | inl e ↦
      let n : from value ≡ SyscallNumber.nt_wait_for_multiple_objects = ground arith in
      ap (λ n. get_or handler_table (number_of n) none) n
      ∙ entered SyscallNumber.nt_wait_for_multiple_objects
      ∙ sym (raw_unknown value e)
  | inr (n, e) ↦
      let n' : from value ≡ n = ground arith in
      ap (λ n. get_or handler_table (number_of n) none) n'
      ∙ entered n
      ∙ ap served (raw_number value n e)
]

found :
    (r : Option Handler) (args : List ℕ) (k : Kernel)
    → (elim r as (λ _. Run (NtStatus × Kernel)) [
      | none ↦ Run.returned (NtStatus.not_implemented, k)
      | some handler ↦ call handler args k
    ])
      ≡ serve r args k
found none args k = refl
found (some handler) args k = refl

dispatch_table :
    (n : SyscallNumber) (args : List ℕ) (k : Kernel)
    → dispatch n args (init_syscall_table (init k))
      ≡ serve (get_or handler_table (number_of n) none) args (init_syscall_table (init k))
unfolding dispatch init_syscall_table init
dispatch_table n args k =
    found (get_or handler_table (number_of n) none) args (init_syscall_table (init k))

-- Once `init` and `init_syscall_table` have run, a call with any raw number runs the handler of that
-- number, and with a number that none serves, unknown numbers included, it changes nothing and
-- returns `NotImplemented`.
pub dispatch-served :
    (value : ℕ) (args : List ℕ) (k : Kernel)
    → dispatch (from value) args (init_syscall_table (init k))
      ≡ serve (served value) args (init_syscall_table (init k))
dispatch-served value args k =
    dispatch_table (from value) args k
    ∙ ap (λ h. serve h args (init_syscall_table (init k))) (from-served value)
