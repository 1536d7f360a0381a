-- ===== src/Scheduler/Preempt.antt =====
-- kernel/src/win32/scheduler.rs: `preempt`, the switch that the timer interrupt makes.
use aperture_os.Prelude.{
  ℕ, ◌+◌, ◌<◌, ◌≤◌, ◌≡◌, ◌≢◌, refl, sym, Option, some, List, [], ◌∷◌, ◌++◌, false, arith, All,
  All-snoc, length, length-append, get_elem?-set-some, get_elem?-set_ne, set,
}
use aperture_os.Scheduler.{
  Sched, Thread, ThreadState, max_ready, stack_size, thread, put_thread, is_exited, preempt,
  preempt_queued, save_interrupted, resume_next,
}
use aperture_os.Scheduler.Queue.{pack, dequeue-cons}
use aperture_os.Scheduler.Invariant.{IsLive, All-IsLive-set, thread-live, Runs, enqueue_thread_lem}

-- The thread as the interrupt leaves it.
abbrev pub interrupted : ℕ → Thread → Thread
interrupted rsp t = record t { interrupt_rsp = rsp; state = ThreadState.ready }

abbrev resumed : Thread → Thread
resumed t = record t { state = ThreadState.running }

save_interrupted_lem :
    (rsp c : ℕ) (xs : List ℕ) (s : Sched) (u : Thread)
    → s.queue ≡ pack max_ready xs
    → length xs < max_ready
    → thread c s ≡ some u
    → is_exited u.state ≡ false
    → save_interrupted rsp (some c) s ≡ record s {
      storage = set s.storage c (interrupted rsp u);
      queue = pack max_ready (xs ++ c ∷ []);
    }
unfolding save_interrupted
save_interrupted_lem rsp c xs s u q l h e =
    ground (arith, enqueue_thread_lem c xs (put_thread c (interrupted rsp u) s))

-- The second half, for a first waiting thread that has been in user mode before.
preempt_queued_started :
    (rsp x : ℕ) (xs : List ℕ) (s : Sched) (t : Thread)
    → s.queue ≡ pack max_ready (x ∷ xs)
    → length xs < max_ready
    → thread x s ≡ some t
    → t.interrupt_rsp ≢ 0
    → preempt_queued rsp s ≡ (
      t.interrupt_rsp,
      record s {
        queue = pack max_ready xs;
        storage = set s.storage x (resumed t);
        current = some x;
        rsp0 = t.stack_base + stack_size;
      },
    )
unfolding preempt_queued resume_next thread
preempt_queued_started rsp x xs s t q l h ne = ground (arith, dequeue-cons 15 x xs (omega arith))

-- The second half, for a first waiting thread that has never been in user mode.
preempt_queued_unstarted :
    (rsp x : ℕ) (xs : List ℕ) (s : Sched) (t : Thread)
    → s.queue ≡ pack max_ready (x ∷ xs)
    → length xs < max_ready
    → thread x s ≡ some t
    → t.interrupt_rsp ≡ 0
    → preempt_queued rsp s ≡ (rsp, record s { queue = pack max_ready (xs ++ x ∷ []) })
unfolding preempt_queued resume_next thread
preempt_queued_unstarted rsp x xs s t q l h e = ground (
  arith,
  dequeue-cons 15 x xs (omega arith),
  enqueue_thread_lem x xs (record s { queue = pack max_ready xs }),
)

-- The state once the interrupted thread is saved and queued.
abbrev saved : ℕ → ℕ → Thread → List ℕ → Sched → Sched
saved rsp c u xs s = record s {
  storage = set s.storage c (interrupted rsp u);
  queue = pack max_ready (xs ++ c ∷ []);
}

preempt-saved :
    (rsp c : ℕ) (xs : List ℕ) (s : Sched) (u : Thread)
    → Runs c xs s
    → thread c s ≡ some u
    → is_exited u.state ≡ false
    → preempt rsp s ≡ preempt_queued rsp (saved rsp c u xs s)
unfolding preempt
preempt-saved rsp c xs s u r hu e =
    cc (r.now, save_interrupted_lem rsp c xs s u r.waiting r.room hu e)

thread-saved_ne :
    (rsp c x : ℕ) (u t : Thread) (xs : List ℕ) (s : Sched)
    → thread x s ≡ some t
    → c ≢ x
    → thread x (saved rsp c u xs s) ≡ some t
unfolding thread
thread-saved_ne rsp c x u t xs s h ne =
    ground (arith, get_elem?-set_ne s.storage c x (interrupted rsp u) ne)

thread-saved_self :
    (rsp c : ℕ) (u : Thread) (xs : List ℕ) (s : Sched)
    → thread c s ≡ some u
    → thread c (saved rsp c u xs s) ≡ some (interrupted rsp u)
unfolding thread
thread-saved_self rsp c u xs s h =
    ground (arith, get_elem?-set-some s.storage c u (interrupted rsp u))

thread-requeued :
    (rsp c : ℕ) (u : Thread) (xs ys : List ℕ) (s : Sched)
    → thread c s ≡ some u
    → thread c (record (saved rsp c u xs s) { queue = pack max_ready ys })
      ≡ some (interrupted rsp u)
unfolding thread
thread-requeued rsp c u xs ys s h =
    ground (arith, get_elem?-set-some s.storage c u (interrupted rsp u))

-- A thread stays as it is while another one is resumed.
thread-resumed_ne :
    (c x : ℕ) (s : Sched) (t v : Thread) (q : List (Option ℕ)) (now : Option ℕ) (k : ℕ)
    → thread c s ≡ some v
    → c ≢ x
    → thread c (record { storage = set s.storage x t; queue = q; current = now; rsp0 = k }) ≡ some v
unfolding thread
thread-resumed_ne c x s t v q now k h ne =
    ground (arith, get_elem?-set_ne s.storage x c t (λ e. ne (sym e)))

-- The timer interrupt takes the processor from the running thread: with every running or waiting
-- thread live, when another thread waits first and has a saved interrupt frame, `preempt` returns
-- that frame, that thread becomes the current one with its own kernel stack, and the interrupted
-- thread goes to the end of the queue with its frame saved; the threads stay live.
pub preempt-Runs :
    (rsp c x : ℕ) (xs : List ℕ) (s : Sched) (t : Thread)
    → Runs c (x ∷ xs) s
    → thread x s ≡ some t
    → c ≢ x
    → t.interrupt_rsp ≢ 0
    → ((preempt rsp s).0 ≡ t.interrupt_rsp)
      × Runs x (xs ++ c ∷ []) (preempt rsp s).1
      × ((preempt rsp s).1.rsp0 ≡ t.stack_base + stack_size)
      × ((u : Thread) × (thread c (preempt rsp s).1 ≡ some u) × (u.interrupt_rsp ≡ rsp))
unfolding is_exited
preempt-Runs rsp c x xs s t r ht ne started =
    let (u, hu, e) = thread-live c s r.current_live in
    let s₁ : Sched = saved rsp c u (x ∷ xs) s in
    let l : length (xs ++ c ∷ []) < max_ready = omega (arith, r.room, length-append xs (c ∷ [])) in
    let live : All (λ i. IsLive i (set s₁.storage x (resumed t))) (c ∷ x ∷ xs) =
      All-IsLive-set s₁.storage x (resumed t) (c ∷ x ∷ xs) refl (
        All-IsLive-set s.storage c (interrupted rsp u) (c ∷ x ∷ xs) refl
          (r.current_live, r.waiting_live)) in
    rw
      (
        preempt-saved rsp c (x ∷ xs) s u r hu e,
        preempt_queued_started rsp x (xs ++ c ∷ []) s₁ t refl l
            (thread-saved_ne rsp c x u t (x ∷ xs) s ht ne) started,
      )
      (
        refl,
        record {
          now = refl;
          waiting = refl;
          room = l;
          current_live = live.1.0;
          waiting_live =
              All-snoc (λ i. IsLive i (set s₁.storage x (resumed t))) xs c live.1.1 live.0;
        },
        refl,
        (
          interrupted rsp u,
          thread-resumed_ne c x s₁ (resumed t) (interrupted rsp u) (pack max_ready (xs ++ c ∷ []))
              (some x) (t.stack_base + stack_size) (thread-saved_self rsp c u (x ∷ xs) s hu) ne,
          refl,
        ),
      )

-- With no other thread waiting, the interrupted thread goes on from its own frame.
preempt_alone :
    (rsp c : ℕ) (s : Sched)
    → Runs c [] s
    → rsp ≢ 0
    → ((preempt rsp s).0 ≡ rsp) × Runs c [] (preempt rsp s).1
unfolding is_exited
preempt_alone rsp c s r ne =
    let (u, hu, e) = thread-live c s r.current_live in
    let s₁ : Sched = saved rsp c u [] s in
    let live : All (λ i. IsLive i (set s₁.storage c (resumed (interrupted rsp u)))) (c ∷ []) =
      All-IsLive-set s₁.storage c (resumed (interrupted rsp u)) (c ∷ []) refl
        (All-IsLive-set s.storage c (interrupted rsp u) (c ∷ []) refl (r.current_live, tt)) in
    rw
      (
        preempt-saved rsp c [] s u r hu e,
        preempt_queued_started rsp c [] s₁ (interrupted rsp u) refl (omega arith)
            (thread-saved_self rsp c u [] s hu) ne,
      )
      (
        refl,
        record {
          now = refl;
          waiting = refl;
          room = omega arith;
          current_live = live.0;
          waiting_live = tt;
        },
      )

-- When the thread that waits first has never been in user mode, `preempt` goes on with the
-- interrupted thread, which stays the current one; but that thread has become a waiting one too:
-- its slot is in the ready queue, ahead of the thread that was put back, and its state is ready.
pub preempt_unstarted :
    (rsp c x : ℕ) (xs : List ℕ) (s : Sched) (t : Thread)
    → Runs c (x ∷ xs) s
    → thread x s ≡ some t
    → c ≢ x
    → t.interrupt_rsp ≡ 0
    → length xs + 2 ≤ max_ready
    → ((preempt rsp s).0 ≡ rsp)
      × ((preempt rsp s).1.current ≡ some c)
      × ((preempt rsp s).1.queue ≡ pack max_ready ((xs ++ c ∷ []) ++ x ∷ []))
      × ((u : Thread) × (thread c (preempt rsp s).1 ≡ some u) × (u.state ≡ ThreadState.ready))
preempt_unstarted rsp c x xs s t r ht ne new l =
    let (u, hu, e) = thread-live c s r.current_live in
    let s₁ : Sched = saved rsp c u (x ∷ xs) s in
    let l' : length (xs ++ c ∷ []) < max_ready = omega (arith, l, length-append xs (c ∷ [])) in
    rw
      (
        preempt-saved rsp c (x ∷ xs) s u r hu e,
        preempt_queued_unstarted rsp x (xs ++ c ∷ []) s₁ t refl l'
            (thread-saved_ne rsp c x u t (x ∷ xs) s ht ne) new,
      )
      (
        refl,
        r.now,
        refl,
        (interrupted rsp u, thread-requeued rsp c u (x ∷ xs) ((xs ++ c ∷ []) ++ x ∷ []) s hu, refl),
      )
