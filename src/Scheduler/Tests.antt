-- ===== src/Scheduler/Tests.antt =====
-- kernel/src/win32/scheduler.rs: runs of the scheduler, and its theorems at concrete states.
use aperture_os.Prelude.{ℕ, ◌≡◌, refl, some, [], ◌∷◌, arith, replicate, position}
use aperture_os.Scheduler.{
  Sched, Thread, ThreadState, max_ready, thread, enqueue_thread, is_exited, preempt, preempt_queued,
  save_interrupted, resume_next,
}
use aperture_os.Scheduler.Queue.{
  pack, enqueue, dequeue, shift_down, remove_head, Reply, put, take_oldest, run_array, run_fifo,
  run_refines,
}
use aperture_os.Scheduler.Invariant.{Runs}
use aperture_os.Scheduler.Rotation.{schedule_times, schedule_reaches}
use aperture_os.Scheduler.Preempt.{preempt-Runs, preempt_unstarted}

-- A thread with kernel stack pointer `k`, whose saved interrupt frame is at `i`.
abbrev sample : ℕ → ℕ → Thread
sample k i = record {
  tid = k;
  pid = 1;
  entry_point = 4096;
  stack_base = 0;
  stack_limit = 0;
  rsp = k;
  user_rsp = 0;
  user_rip = 4096;
  process_page_table_root = 0;
  state = ThreadState.ready;
  regs = [];
  interrupt_rsp = i;
}

-- Slot 0 runs, slots 1 and 2 wait; the thread of slot 2 has never been in user mode.
abbrev three : Sched
three = record {
  storage = sample 10 100 ∷ sample 11 101 ∷ sample 12 0 ∷ replicate 13 (sample 0 0);
  queue = pack max_ready (1 ∷ 2 ∷ []);
  current = some 0;
  rsp0 = 0;
}

abbrev waiting_new : Sched
waiting_new = record three { queue = pack max_ready (2 ∷ []) }

three-Runs : Runs 0 (1 ∷ 2 ∷ []) three
unfolding is_exited
three-Runs = record {
  now = refl;
  waiting = refl;
  room = omega arith;
  current_live = (omega arith, refl);
  waiting_live = ((omega arith, refl), ((omega arith, refl), tt));
}

three_first : thread 1 three ≡ some (sample 11 101)
unfolding thread
three_first = refl

waiting_new-Runs : Runs 0 (2 ∷ []) waiting_new
unfolding is_exited
waiting_new-Runs = record {
  now = refl;
  waiting = refl;
  room = omega arith;
  current_live = (omega arith, refl);
  waiting_live = ((omega arith, refl), tt);
}

queue_run :
    run_array (pack 2 []) (put 5 ∷ put 6 ∷ put 7 ∷ take_oldest ∷ take_oldest ∷ take_oldest ∷ []) ≡ (
      Reply.accepted
          ∷ Reply.accepted
          ∷ Reply.refused
          ∷ Reply.slot 5
          ∷ Reply.slot 6
          ∷ Reply.empty
          ∷ [],
      pack 2 [],
    )
unfolding run_array enqueue dequeue shift_down remove_head position
queue_run = refl

run_refines_example :
    let (rs, ys) = run_fifo 2 (5 ∷ []) (put 6 ∷ take_oldest ∷ []) in
    run_array (pack 2 (5 ∷ [])) (put 6 ∷ take_oldest ∷ []) ≡ (rs, pack 2 ys)
run_refines_example = run_refines 2 (put 6 ∷ take_oldest ∷ []) (5 ∷ []) (omega arith)

schedule_reaches_example : (schedule_times 2 three).current ≡ some 2
schedule_reaches_example = schedule_reaches (1 ∷ []) 0 2 [] three three-Runs

preempt-Runs_example :
    ((preempt 500 three).0 ≡ 101)
    × Runs 1 (2 ∷ 0 ∷ []) (preempt 500 three).1
    × ((preempt 500 three).1.rsp0 ≡ 65536)
    × ((u : Thread) × (thread 0 (preempt 500 three).1 ≡ some u) × (u.interrupt_rsp ≡ 500))
preempt-Runs_example =
    preempt-Runs 500 0 1 (2 ∷ []) three (sample 11 101) three-Runs three_first (omega arith)
      (omega arith)

preempt_unstarted_example :
    ((preempt 500 waiting_new).0 ≡ 500)
    × ((preempt 500 waiting_new).1.current ≡ some 0)
    × ((preempt 500 waiting_new).1.queue ≡ pack max_ready (0 ∷ 2 ∷ []))
    × ((u : Thread) × (thread 0 (preempt 500 waiting_new).1 ≡ some u)
        × (u.state ≡ ThreadState.ready))
unfolding thread
preempt_unstarted_example =
    preempt_unstarted 500 0 2 [] waiting_new (sample 12 0) waiting_new-Runs refl (omega arith) refl
      (omega arith)

preempt_run : (preempt 500 three).1.queue ≡ pack max_ready (2 ∷ 0 ∷ [])
unfolding preempt preempt_queued save_interrupted resume_next thread is_exited enqueue_thread
    enqueue dequeue shift_down remove_head position
preempt_run = refl
