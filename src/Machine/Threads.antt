-- ===== src/Machine/Threads.antt =====
-- kernel/src/win32/scheduler.rs: the thread that `create_thread` makes.
use aperture_os.Prelude.{
  ℕ, ◌+◌, ◌-◌, ◌*◌, ◌%◌, ◌^◌, ◌≤◌, ◌<◌, ◌≡◌, ◌≢◌, ◌∙◌, refl, ap, sym, subst, arith, Option, none,
  some, List, [], ◌∷◌, ◌++◌, true, not, length, set, replicate, position, get_elem?,
  get_elem?-set_self, get_elem?-set_ne, if◌then◌else◌, ◌==◌, leb, ltb, u64,
}
use aperture_os.Memory.{Memory}
use aperture_os.EarlyHeap.{Bump, aligned_from, alloc_early}
use aperture_os.EarlyHeap.Blocks.{aligned_multiple, aligned-le, aligned_below, alloc_early_fits}
use aperture_os.Scheduler.{Thread, ThreadState, new_thread, thread, stack_size, max_threads}
use aperture_os.Scheduler.Queue.{pack, enqueue, enqueue-pack}
use aperture_os.Context.{initial_stack}
use aperture_os.Context.Saved.{Stacked, Pushed}
use aperture_os.Context.Switches.{first_words, initial_stack-Pushed}
use aperture_os.Machine.{
  Machine, alloc_thread_slot, user_stack_size, user_stack_virt, place_user_stack, made_thread,
  publish, start_thread, create_thread, with_memory,
}

module _ (stub pid entry_point cr3 slot kstack ustack : ℕ) (s : Machine) (h₁ h₂ : Bump)
    (free : alloc_thread_slot s ≡ some slot)
    (first : alloc_early stack_size 16 s.heap ≡ (some kstack, h₁))
    (second : alloc_early user_stack_size 4096 h₁ ≡ (some ustack, h₂)) where
  create_start :
      create_thread stub pid entry_point cr3 s
      ≡ start_thread stub slot pid entry_point cr3 kstack ustack (record s { heap = h₂ })
  unfolding create_thread
  create_start = ground (arith, free, first, second)

-- The machine `s` with the thread `t` in the slot, the slot in use and the ready queue `queue`.
abbrev published : ℕ → Thread → List (Option ℕ) → Machine → Machine
published slot t queue s = record s {
  kernel = record s.kernel {
    sched = record s.kernel.sched { storage = set s.kernel.sched.storage slot t; queue = queue };
  };
  thread_used = set s.thread_used slot true;
  next_tid = u64 (s.next_tid + 1);
}

publish_queued :
    (slot : ℕ) (t : Thread) (queue : List (Option ℕ)) (s : Machine)
    → enqueue slot s.kernel.sched.queue ≡ some queue
    → publish slot t s ≡ (some slot, published slot t queue s)
unfolding publish
publish_queued slot t queue s e = ground (arith, e)

-- What `create_thread` promises when it returns the slot `slot`, with `waiting` the threads that
-- were ready: the two stacks of 64 KiB are aligned blocks of the early heap behind all earlier
-- blocks, the thread in the slot is new, ready and last in the queue, and all other threads and
-- marks stay. A thread without a page table of its own has the words of `initial_stack` on its
-- kernel stack.
pub record Creates (stub pid entry_point cr3 slot : ℕ) (waiting : List ℕ) (s s' : Machine)
    : Type 0 where
  pub kstack : ℕ
  pub ustack : ℕ
  pub kstack_aligned : kstack % 16 ≡ 0
  pub ustack_aligned : ustack % 4096 ≡ 0
  pub behind : s.heap.next ≤ kstack
  pub apart : kstack + stack_size ≤ ustack
  pub within : ustack + user_stack_size ≤ s.heap.limit
  pub used_up : s'.heap.next ≡ ustack + user_stack_size
  pub made :
      thread slot s'.kernel.sched
      ≡ some (record {
        tid = s.next_tid;
        pid = pid;
        entry_point = entry_point;
        stack_base = kstack;
        stack_limit = kstack;
        rsp = kstack + stack_size - 64;
        user_rsp = if cr3 == 0 then ustack + user_stack_size else user_stack_virt + user_stack_size;
        user_rip = entry_point;
        process_page_table_root = cr3;
        state = ThreadState.ready;
        regs = replicate 16 0;
        interrupt_rsp = 0;
      })
  pub others : (j : ℕ) → j ≢ slot → thread j s'.kernel.sched ≡ thread j s.kernel.sched
  pub queued : s'.kernel.sched.queue ≡ pack max_threads (waiting ++ slot ∷ [])
  pub marked : s'.thread_used ≡ set s.thread_used slot true
  pub counted : s'.next_tid ≡ u64 (s.next_tid + 1)
  pub words :
      cr3 ≡ 0 → Stacked (first_words stub entry_point) (kstack + stack_size - 64) s'.kernel.memory

-- A machine that can make one more thread: a slot is free, fewer threads than the queue holds are
-- ready, and the heap has room for both stacks and their alignment.
pub record IsReady (slot : ℕ) (waiting : List ℕ) (s : Machine) : Type 0 where
  pub free : position not s.thread_used ≡ some slot
  pub slot-lt : slot < max_threads
  pub storage : length s.kernel.sched.storage ≡ max_threads
  pub queue : s.kernel.sched.queue ≡ pack max_threads waiting
  pub waiting-lt : length waiting < max_threads
  pub room : s.heap.next + 2 * stack_size + 4111 ≤ s.heap.limit
  pub bounded : s.heap.limit + 4096 ≤ 2 ^ 64

module _ (stub pid entry_point cr3 slot : ℕ) (waiting : List ℕ) (s : Machine)
    (ok : IsReady slot waiting s) (st : stub < 2 ^ 64) (en : entry_point < 2 ^ 64) where
  abbrev kstack₀ : ℕ
  kstack₀ = aligned_from s.heap.next (2 ^ 4)

  abbrev heap₁ : Bump
  heap₁ = record s.heap { next = kstack₀ + stack_size }

  abbrev ustack₀ : ℕ
  ustack₀ = aligned_from (kstack₀ + stack_size) (2 ^ 12)

  abbrev heap₂ : Bump
  heap₂ = record s.heap { next = ustack₀ + user_stack_size }

  kstack₀-below : (s.heap.next ≤ kstack₀) × (kstack₀ < s.heap.next + 16)
  kstack₀-below = (
    aligned-le s.heap.next 4 (omega arith) (omega (arith, ok.bounded, ok.room)),
    aligned_below s.heap.next 4 (omega arith) (omega (arith, ok.bounded, ok.room)),
  )

  ustack₀-below : (kstack₀ + stack_size ≤ ustack₀) × (ustack₀ < kstack₀ + stack_size + 4096)
  ustack₀-below = (
    aligned-le (kstack₀ + stack_size) 12 (omega arith)
        (omega (arith, ok.bounded, ok.room, kstack₀-below.1)),
    aligned_below (kstack₀ + stack_size) 12 (omega arith)
        (omega (arith, ok.bounded, ok.room, kstack₀-below.1)),
  )

  first : alloc_early stack_size 16 s.heap ≡ (some kstack₀, heap₁)
  first =
      alloc_early_fits stack_size 16 s.heap (omega (arith, ok.bounded))
        (omega (arith, ok.room, kstack₀-below.1))

  second : alloc_early user_stack_size 4096 heap₁ ≡ (some ustack₀, heap₂)
  second =
      alloc_early_fits user_stack_size 4096 heap₁ (omega (arith, ok.bounded))
        (omega (arith, ok.room, kstack₀-below.1, ustack₀-below.1))

  started :
      create_thread stub pid entry_point cr3 s
      ≡ start_thread stub slot pid entry_point cr3 kstack₀ ustack₀ (record s { heap = heap₂ })
  unfolding alloc_thread_slot
  started =
      create_start stub pid entry_point cr3 slot kstack₀ ustack₀ s heap₁ heap₂ ok.free first second

  abbrev queue₁ : List (Option ℕ)
  queue₁ = pack max_threads (waiting ++ slot ∷ [])

  queued₁ : enqueue slot s.kernel.sched.queue ≡ some queue₁
  queued₁ =
      let t : ltb (length waiting) 16 ≡ true = ground (arith, ok.waiting-lt) in
      ap (enqueue slot) ok.queue
      ∙ enqueue-pack max_threads slot waiting (omega (arith, ok.waiting-lt))
      ∙ ap (λ b. if b then some queue₁ else none) t

  abbrev kernel_stack : ℕ × Memory
  kernel_stack = initial_stack stub entry_point (u64 (kstack₀ + stack_size)) s.kernel.memory

  abbrev user_stack : ℕ × Memory
  user_stack = place_user_stack s.kernel.frames cr3 ustack₀ kernel_stack.1

  abbrev thread₁ : Thread
  thread₁ = made_thread s.next_tid pid entry_point cr3 kstack₀ kernel_stack.0 user_stack.0

  abbrev machine₁ : Machine
  machine₁ = published slot thread₁ queue₁ (with_memory user_stack.1 (record s { heap = heap₂ }))

  created : create_thread stub pid entry_point cr3 s ≡ (some slot, machine₁)
  unfolding start_thread
  created =
      started
      ∙ publish_queued slot thread₁ queue₁ (with_memory user_stack.1 (record s { heap = heap₂ }))
          queued₁

  top-lt : (kstack₀ + stack_size) % 2 ^ 64 ≡ kstack₀ + stack_size
  top-lt = omega (arith, ok.bounded, ok.room, kstack₀-below.1)

  kernel_stack-Pushed :
      Pushed (kstack₀ + stack_size) (first_words stub entry_point) s.kernel.memory kernel_stack
  kernel_stack-Pushed =
      subst
        (λ top.
          Pushed (kstack₀ + stack_size) (first_words stub entry_point) s.kernel.memory
            (initial_stack stub entry_point top s.kernel.memory))
        (sym top-lt)
        (initial_stack-Pushed stub entry_point (kstack₀ + stack_size) s.kernel.memory (omega arith)
          (omega (arith, ok.bounded, ok.room, kstack₀-below.1)) st en)

  rsp_is : kernel_stack.0 ≡ kstack₀ + stack_size - 64
  rsp_is = omega (arith, kernel_stack-Pushed.depth)

  user_rsp_is :
      user_stack.0
      ≡ (if cr3 == 0 then ustack₀ + user_stack_size else user_stack_virt + user_stack_size)
  unfolding place_user_stack
  user_rsp_is =
      let e : (ustack₀ + user_stack_size) % 2 ^ 64 ≡ ustack₀ + user_stack_size =
        omega (arith, ok.bounded, ok.room, kstack₀-below.1, ustack₀-below.1) in
      ground (arith, e)

  interpreted : cr3 ≡ 0 → user_stack.1 ≡ kernel_stack.1
  unfolding place_user_stack
  interpreted z = rw z refl

  thread_is : thread slot machine₁.kernel.sched ≡ some thread₁
  unfolding thread
  thread_is =
      let found : get_elem? (set s.kernel.sched.storage slot thread₁) slot ≡ some thread₁ =
        get_elem?-set_self s.kernel.sched.storage slot thread₁
          (omega (arith, ok.slot-lt, ok.storage)) in
      ground (arith, found, ok.slot-lt)

  others_are : (j : ℕ) → j ≢ slot → thread j machine₁.kernel.sched ≡ thread j s.kernel.sched
  unfolding thread
  others_are j ne =
      let kept : get_elem? (set s.kernel.sched.storage slot thread₁) j
          ≡ get_elem? s.kernel.sched.storage j =
        get_elem?-set_ne s.kernel.sched.storage slot j thread₁ (λ e. ne (sym e)) in
      ap (λ r. if leb max_threads j then none else r) kept

  -- `create_thread` returns the free slot, with a thread in it that is ready to run.
  machine₁-Creates : Creates stub pid entry_point cr3 slot waiting s machine₁
  unfolding made_thread new_thread
  machine₁-Creates = record {
    kstack = kstack₀;
    ustack = ustack₀;
    kstack_aligned =
        aligned_multiple s.heap.next 4 (omega arith) (omega (arith, ok.bounded, ok.room));
    ustack_aligned =
        aligned_multiple (kstack₀ + stack_size) 12 (omega arith)
          (omega (arith, ok.bounded, ok.room, kstack₀-below.1));
    behind = kstack₀-below.0;
    apart = ustack₀-below.0;
    within = omega (arith, ok.room, kstack₀-below.1, ustack₀-below.1);
    used_up = refl;
    made =
        thread_is
        ∙ ap (λ r. some (made_thread s.next_tid pid entry_point cr3 kstack₀ r user_stack.0)) rsp_is
        ∙ ap
            (λ u.
              some
                (made_thread s.next_tid pid entry_point cr3 kstack₀ (kstack₀ + stack_size - 64) u))
            user_rsp_is;
    others = others_are;
    queued = refl;
    marked = refl;
    counted = refl;
    words = λ z.
        subst (λ a. Stacked (first_words stub entry_point) a user_stack.1) rsp_is
          (subst (Stacked (first_words stub entry_point) kernel_stack.0) (sym (interpreted z))
            kernel_stack-Pushed.words);
  }

-- On a machine with a free slot, room in the ready queue and room in the heap for both stacks,
-- create_thread returns the lowest free slot, and the new thread, its stacks and the state of all
-- others are as Creates says.
pub create_thread-Creates :
    (stub pid entry_point cr3 slot : ℕ) (waiting : List ℕ) (s : Machine)
    → IsReady slot waiting s
    → stub < 2 ^ 64
    → entry_point < 2 ^ 64
    → let (r, s') = create_thread stub pid entry_point cr3 s in
      (r ≡ some slot) × Creates stub pid entry_point cr3 slot waiting s s'
create_thread-Creates stub pid entry_point cr3 slot waiting s ok st en =
    let e = created stub pid entry_point cr3 slot waiting s ok st en in
    (
      ap (λ p. p.0) e,
      subst (λ p. Creates stub pid entry_point cr3 slot waiting s p.1) (sym e)
          (machine₁-Creates stub pid entry_point cr3 slot waiting s ok st en),
    )
