-- ===== src/Scheduler/Rotation.antt =====
-- kernel/src/win32/scheduler.rs: `schedule` and `thread_exit`, the cooperative switches.
use mathlib.Core.List.{append_assoc}
use aperture_os.Prelude.{
  ℕ, zero, suc, ◌<◌, ◌≡◌, ◌≢◌, refl, sym, Option, some, List, [], ◌∷◌, ◌++◌, true, false, arith,
  All, All-snoc, length, length-append, get_elem?-set-some, get_elem?-set_ne, set,
}
use aperture_os.Scheduler.{
  Sched, Thread, ThreadState, Outcome, max_ready, thread, put_thread, is_exited, schedule,
  leave_current, thread_exit, mark_exited,
}
use aperture_os.Scheduler.Queue.{pack, dequeue-cons, dequeue-nil}
use aperture_os.Scheduler.Invariant.{
  IsLive, All-IsLive-set, All-IsLive-set_ne, thread-live, Runs, enqueue_thread_lem,
}

abbrev running : Thread → Thread
running t = record t { state = ThreadState.running }

abbrev readied : Thread → Thread
readied t = record t { state = ThreadState.ready }

-- The state before the current thread is left.
abbrev entering : ℕ → Thread → List ℕ → Sched → Sched
entering x t xs s = record s { queue = pack max_ready xs; storage = set s.storage x (running t) }

leave_current_lem :
    (rsp c : ℕ) (u : Thread) (xs : List ℕ) (s : Sched)
    → thread c s ≡ some u
    → is_exited u.state ≡ false
    → s.queue ≡ pack max_ready xs
    → length xs < max_ready
    → leave_current rsp (some c) s ≡ (
      Outcome.switch_to (record { save_to = some c; load = rsp }),
      record s { queue = pack max_ready (xs ++ c ∷ []); storage = set s.storage c (readied u) },
    )
unfolding leave_current
leave_current_lem rsp c u xs s h e q l =
    ground (arith, enqueue_thread_lem c xs (put_thread c (readied u) s))

schedule-step :
    (c x : ℕ) (xs : List ℕ) (s : Sched) (t u : Thread)
    → s.current ≡ some c
    → s.queue ≡ pack max_ready (x ∷ xs)
    → length xs < max_ready
    → thread x s ≡ some t
    → thread c (entering x t xs s) ≡ some u
    → is_exited u.state ≡ false
    → schedule s ≡ (
      Outcome.switch_to (record { save_to = some c; load = t.rsp }),
      record s {
        queue = pack max_ready (xs ++ c ∷ []);
        storage = set (set s.storage x (running t)) c (readied u);
        current = some x;
      },
    )
unfolding schedule thread
schedule-step c x xs s t u now q l ht hu e =
    ground (
      arith,
      dequeue-cons 15 x xs (omega arith),
      leave_current_lem t.rsp c u xs (entering x t xs s),
    )

-- With a thread waiting, `schedule` switches to the one that waited longest: its stack pointer is
-- loaded, the old one is saved in the slot that ran before, and that slot goes to the end of the
-- queue, behind all others. The threads named stay live.
pub schedule-Runs :
    (c x : ℕ) (xs : List ℕ) (s : Sched) (t : Thread)
    → Runs c (x ∷ xs) s
    → thread x s ≡ some t
    → ((schedule s).0 ≡ Outcome.switch_to (record { save_to = some c; load = t.rsp }))
      × Runs x (xs ++ c ∷ []) (schedule s).1
schedule-Runs c x xs s t r ht =
    let s₁ : Sched = entering x t xs s in
    let live : All (λ i. IsLive i s₁.storage) (c ∷ x ∷ xs) =
      All-IsLive-set s.storage x (running t) (c ∷ x ∷ xs) (unfold is_exited in refl)
        (r.current_live, r.waiting_live) in
    let (u, hu, e) = thread-live c s₁ live.0 in
    let out : All (λ i. IsLive i (set s₁.storage c (readied u))) (c ∷ x ∷ xs) =
      All-IsLive-set s₁.storage c (readied u) (c ∷ x ∷ xs) (unfold is_exited in refl) live in
    let l : length xs < max_ready = omega (arith, r.room) in
    rw (schedule-step c x xs s t u r.now r.waiting l ht hu e) (
      refl,
      record {
        now = refl;
        waiting = refl;
        room = omega (arith, length-append xs (c ∷ []), r.room);
        current_live = out.1.0;
        waiting_live = All-snoc (λ i. IsLive i (set s₁.storage c (readied u))) xs c out.1.1 out.0;
      },
    )

-- `n` calls of `schedule`, one after the other.
pub schedule_times : ℕ → Sched → Sched
schedule_times zero s = s
schedule_times (suc n) s = schedule_times n (schedule s).1

-- No thread starves: one that waits behind the slots `ys` runs after `length ys + 1` calls of
-- `schedule`.
pub schedule_reaches :
    (ys : List ℕ) (c x : ℕ) (zs : List ℕ) (s : Sched)
    → Runs c (ys ++ x ∷ zs) s
    → (schedule_times (suc (length ys)) s).current ≡ some x
unfolding schedule_times
schedule_reaches [] c x zs s r =
    let (t, ht, _) = thread-live x s r.waiting_live.0 in (schedule-Runs c x zs s t r ht).1.now
schedule_reaches (y ∷ ys) c x zs s r =
    let (t, ht, _) = thread-live y s r.waiting_live.0 in
    schedule_reaches ys y x (zs ++ c ∷ []) (schedule s).1
      (rw (← append_assoc ys (x ∷ zs) (c ∷ [])) ((schedule-Runs c y (ys ++ x ∷ zs) s t r ht).1))

-- With nothing waiting, `schedule` returns to its caller and changes nothing.
pub schedule-nil : (s : Sched) → s.queue ≡ pack max_ready [] → schedule s ≡ (Outcome.stay, s)
unfolding schedule
schedule-nil s q = ground (arith, dequeue-nil 16)

leave_exited :
    (rsp c : ℕ) (u : Thread) (s : Sched)
    → thread c s ≡ some u
    → is_exited u.state ≡ true
    → leave_current rsp (some c) s
      ≡ (Outcome.switch_to (record { save_to = some c; load = rsp }), s)
unfolding leave_current
leave_exited rsp c u s h e = ground arith

abbrev exited : Thread → Thread
exited t = record t { state = ThreadState.exited }

thread_exit-step :
    (c x : ℕ) (xs : List ℕ) (s : Sched) (t u : Thread)
    → s.current ≡ some c
    → s.queue ≡ pack max_ready (x ∷ xs)
    → length xs < max_ready
    → thread c s ≡ some u
    → thread x s ≡ some t
    → c ≢ x
    → thread_exit s ≡ (
      Outcome.switch_to (record { save_to = some c; load = t.rsp }),
      record s {
        queue = pack max_ready xs;
        storage = set (set s.storage c (exited u)) x (running t);
        current = some x;
      },
    )
unfolding thread_exit mark_exited schedule thread is_exited
thread_exit-step c x xs s t u now q l hu ht ne =
    let s₁ : Sched = put_thread c (exited u) s in
    ground (
      arith,
      dequeue-cons 15 x xs (omega arith),
      get_elem?-set-some s.storage c u (exited u),
      get_elem?-set_ne s.storage c x (exited u) ne,
      get_elem?-set_ne (set s.storage c (exited u)) x c (running t),
      leave_exited t.rsp c (exited u) (entering x t xs s₁),
    )

thread-put_twice :
    (c x : ℕ) (t u v : Thread) (q : List (Option ℕ)) (now : Option ℕ) (s : Sched)
    → thread c s ≡ some u
    → c ≢ x
    → thread c (record s { storage = set (set s.storage c v) x t; queue = q; current = now })
      ≡ some v
unfolding thread
thread-put_twice c x t u v q now s h ne =
    ground (arith, get_elem?-set-some s.storage c u v, get_elem?-set_ne (set s.storage c v) x c t)

-- `thread_exit` marks the running thread exited and switches to the one that waited longest; the
-- exited thread's slot is not queued, so the rest of the queue just moves up.
pub thread_exit-Runs :
    (c x : ℕ) (xs : List ℕ) (s : Sched)
    → Runs c (x ∷ xs) s
    → All (λ i. i ≢ c) (x ∷ xs)
    → Runs x xs (thread_exit s).1
      × ((u : Thread) × (thread c (thread_exit s).1 ≡ some u) × (u.state ≡ ThreadState.exited))
unfolding is_exited
thread_exit-Runs c x xs s r ne =
    let (u, hu, _) = thread-live c s r.current_live in
    let (t, ht, _) = thread-live x s r.waiting_live.0 in
    let apart : c ≢ x = λ e. ne.0 (sym e) in
    let gone : List Thread = set s.storage c (exited u) in
    let live : All (λ i. IsLive i (set gone x (running t))) (x ∷ xs) =
      All-IsLive-set gone x (running t) (x ∷ xs) refl
        (All-IsLive-set_ne s.storage c (exited u) (x ∷ xs) ne r.waiting_live) in
    rw (thread_exit-step c x xs s t u r.now r.waiting (omega (arith, r.room)) hu ht apart) (
      record {
        now = refl;
        waiting = refl;
        room = omega (arith, r.room);
        current_live = live.0;
        waiting_live = live.1;
      },
      (
        exited u,
        thread-put_twice c x (running t) u (exited u) (pack max_ready xs) (some x) s hu apart,
        refl,
      ),
    )
