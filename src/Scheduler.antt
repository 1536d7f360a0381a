-- ===== src/Scheduler.antt =====
-- kernel/src/win32/scheduler.rs and thread.rs: the thread table, the ready queue, and the two ways
-- to switch threads. Each function takes the statics as one record and returns it.
pub mod Queue
pub mod Invariant
pub mod Rotation
pub mod Preempt
mod Tests
use aperture_os.Prelude.{
  ℕ, ◌+◌, Option, none, some, List, [], ◌∷◌, Bool, true, false, get_elem?, set, if◌then◌else◌, ◌==◌,
  leb, replicate,
}
use Queue.{enqueue, dequeue}

abbrev pub max_threads : ℕ
max_threads = 16

-- `MAX_READY`
abbrev pub max_ready : ℕ
max_ready = max_threads

-- `context_switch::stack_size()`
abbrev pub stack_size : ℕ
stack_size = 65536

pub data ThreadState : Type 0 where
  ready running blocked exited : ThreadState

pub record Thread : Type 0 where
  pub tid : ℕ
  pub pid : ℕ
  pub entry_point : ℕ
  pub stack_base : ℕ
  pub stack_limit : ℕ
  pub rsp : ℕ
  pub user_rsp : ℕ
  pub user_rip : ℕ
  pub process_page_table_root : ℕ
  pub state : ThreadState
  pub regs : List ℕ
  pub interrupt_rsp : ℕ

-- `Thread::new`
unfoldable pub new_thread : ℕ → ℕ → ℕ → Thread
new_thread tid pid entry_point = record {
  tid = tid;
  pid = pid;
  entry_point = entry_point;
  stack_base = 0;
  stack_limit = 0;
  rsp = 0;
  user_rsp = 0;
  user_rip = entry_point;
  process_page_table_root = 0;
  state = ThreadState.ready;
  regs = replicate 16 0;
  interrupt_rsp = 0;
}

-- The statics THREAD_STORAGE, READY_QUEUE and CURRENT_THREAD, with `rsp0`, the kernel stack that
-- `gdt::set_rsp0` last wrote to the task state segment.
pub record Sched : Type 0 where
  pub storage : List Thread
  pub queue : List (Option ℕ)
  pub current : Option ℕ
  pub rsp0 : ℕ

-- `thread` and `thread_mut`: a slot out of range has no thread.
unfoldable pub thread : ℕ → Sched → Option Thread
thread slot s = if leb max_threads slot then none else get_elem? s.storage slot

abbrev pub put_thread : ℕ → Thread → Sched → Sched
put_thread slot t s = record s { storage = set s.storage slot t }

-- `let _ = enqueue_thread(slot)`: a full queue drops the slot.
unfoldable pub enqueue_thread : ℕ → Sched → Sched
enqueue_thread slot s = elim (enqueue slot s.queue) [ none ↦ s | some q ↦ record s { queue = q } ]

unfoldable pub is_exited : ThreadState → Bool
is_exited ThreadState.exited = true
is_exited _ = false

-- The first half of `preempt`: the interrupted thread is saved and queued, unless it has exited.
unfoldable pub save_interrupted : ℕ → Option ℕ → Sched → Sched
save_interrupted interrupt_rsp none s = s
save_interrupted interrupt_rsp (some slot) s = elim (thread slot s) [
  | none ↦ s
  | some cur ↦
      if is_exited cur.state
      then s
      else enqueue_thread slot (
          put_thread slot (record cur { interrupt_rsp = interrupt_rsp; state = ThreadState.ready })
            s)
]

-- The second half: the dequeued thread runs, if it has a saved interrupt frame.
unfoldable pub resume_next : ℕ → ℕ → Thread → Sched → ℕ × Sched
resume_next interrupt_rsp next_slot next s =
    if next.interrupt_rsp == 0 then (interrupt_rsp, enqueue_thread next_slot s) else (
      next.interrupt_rsp,
      record s {
        storage = set s.storage next_slot (record next { state = ThreadState.running });
        current = some next_slot;
        rsp0 = next.stack_base + stack_size;
      },
    )

unfoldable pub preempt_queued : ℕ → Sched → ℕ × Sched
preempt_queued interrupt_rsp s = elim (dequeue s.queue) [
  | none ↦ (interrupt_rsp, s)
  | some (next_slot, q) ↦
      let s' = record s { queue = q } in
      elim (thread next_slot s') [
        | none ↦ (interrupt_rsp, s')
        | some next ↦ resume_next interrupt_rsp next_slot next s'
      ]
]

-- `preempt`: the interrupt frame to return to, and the new state.
unfoldable pub preempt : ℕ → Sched → ℕ × Sched
preempt interrupt_rsp s = preempt_queued interrupt_rsp (save_interrupted interrupt_rsp s.current s)

-- What `schedule` hands to `context_switch::switch`: where the old stack pointer is saved (a
-- thread's slot, or `none` for the idle context), and the stack pointer to load.
pub record Switch : Type 0 where
  pub save_to : Option ℕ
  pub load : ℕ

pub data Outcome : Type 0 where
  -- returned without switching
  stay : Outcome
  switch_to : Switch → Outcome
  -- `expect("current thread missing")`
  panicked : Outcome

unfoldable pub leave_current : ℕ → Option ℕ → Sched → Outcome × Sched
leave_current new_rsp none s = (Outcome.switch_to (record { save_to = none; load = new_rsp }), s)
leave_current new_rsp (some slot) s = elim (thread slot s) [
  | none ↦ (Outcome.panicked, s)
  | some cur ↦ (
    Outcome.switch_to (record { save_to = some slot; load = new_rsp }),
    if is_exited cur.state
        then s
        else enqueue_thread slot (put_thread slot (record cur { state = ThreadState.ready }) s),
  )
]

abbrev enter : ℕ → Outcome × Sched → Outcome × Sched
enter next_slot (Outcome.panicked, s) = (Outcome.panicked, s)
enter next_slot (r, s) = (r, record s { current = some next_slot })

unfoldable pub schedule : Sched → Outcome × Sched
schedule s = elim (dequeue s.queue) [
  | none ↦ (Outcome.stay, s)
  | some (next_slot, q) ↦
      let s' = record s { queue = q } in
      elim (thread next_slot s') [
        | none ↦ (Outcome.stay, s')
        | some next ↦ enter next_slot (
            leave_current next.rsp s.current
              (put_thread next_slot (record next { state = ThreadState.running }) s'))
      ]
]

unfoldable pub mark_exited : Option ℕ → Sched → Sched
mark_exited none s = s
mark_exited (some slot) s = elim (thread slot s) [
  | none ↦ s
  | some cur ↦ put_thread slot (record cur { state = ThreadState.exited }) s
]

-- `thread_exit` up to its switch away; if that comes back, the processor halts.
unfoldable pub thread_exit : Sched → Outcome × Sched
thread_exit s = schedule (mark_exited s.current s)

-- `with_current_thread`
unfoldable pub with_current_thread {ℓ} :
    {R : Type ℓ} → (Thread → Thread × R) → Sched → Option R × Sched
with_current_thread f s = elim s.current [
  | none ↦ (none, s)
  | some slot ↦ elim (thread slot s) [
    | none ↦ (none, s)
    | some t ↦ let (t', r) = f t in (some r, put_thread slot t' s)
  ]
]
