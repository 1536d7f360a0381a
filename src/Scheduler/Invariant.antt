-- ===== src/Scheduler/Invariant.antt =====
-- kernel/src/win32/scheduler.rs: the state that the switching functions rely on, and what each
-- part of them does to it.
use aperture_os.Prelude.{
  ℕ, zero, suc, ◌<◌, ◌≡◌, ◌≢◌, sym, Option, none, some, List, [], ◌∷◌, ◌++◌, Bool, true, false, not,
  arith, All, length, get_elem?, get_elem?-set_ne, set, Option-cases, inl, inr,
}
use aperture_os.Scheduler.{Sched, Thread, max_threads, max_ready, thread, enqueue_thread, is_exited}
use aperture_os.Scheduler.Queue.{pack, enqueue-pack}

abbrev is_live : Option Thread → Bool
is_live none = false
is_live (some t) = not (is_exited t.state)

-- Slot `i` is in range and holds a thread that has not exited.
abbrev pub IsLive : ℕ → List Thread → Type 0
IsLive i threads = (i < max_threads) × (is_live (get_elem? threads i) ≡ true)

live-set :
    (threads : List Thread) (i j : ℕ) (t : Thread)
    → is_exited t.state ≡ false
    → is_live (get_elem? threads i) ≡ true
    → is_live (get_elem? (set threads j t) i) ≡ true
live-set [] i j t e h = h
live-set (u ∷ threads) zero zero t e h = ground arith
live-set (u ∷ threads) zero (suc j) t e h = h
live-set (u ∷ threads) (suc i) zero t e h = h
live-set (u ∷ threads) (suc i) (suc j) t e h = live-set threads i j t e h

-- Giving a slot another thread that has not exited keeps the live slots live.
pub All-IsLive-set :
    (threads : List Thread) (j : ℕ) (t : Thread) (xs : List ℕ)
    → is_exited t.state ≡ false
    → All (λ i. IsLive i threads) xs
    → All (λ i. IsLive i (set threads j t)) xs
All-IsLive-set threads j t [] e h = tt
All-IsLive-set threads j t (x ∷ xs) e h =
    ((h.0.0, live-set threads x j t e h.0.1), All-IsLive-set threads j t xs e h.1)

-- Changing the thread of a slot that is not among them keeps the live slots live.
pub All-IsLive-set_ne :
    (threads : List Thread) (j : ℕ) (t : Thread) (xs : List ℕ)
    → All (λ i. i ≢ j) xs
    → All (λ i. IsLive i threads) xs
    → All (λ i. IsLive i (set threads j t)) xs
All-IsLive-set_ne threads j t [] ne h = tt
All-IsLive-set_ne threads j t (x ∷ xs) ne h = (
  (h.0.0, rw (get_elem?-set_ne threads j x t (λ e. ne.0 (sym e))) h.0.1),
  All-IsLive-set_ne threads j t xs ne.1 h.1,
)

pub thread-live :
    (i : ℕ) (s : Sched)
    → IsLive i s.storage
    → (t : Thread) × (thread i s ≡ some t) × (is_exited t.state ≡ false)
unfolding thread
thread-live i s h = elim (Option-cases (get_elem? s.storage i)) [
  | inl gone ↦ ground arith
  | inr (t, found) ↦ (t, ground arith, ground arith)
]

-- `s` runs slot `c`; the slots `xs` wait in this order; none of these threads has exited.
pub record Runs (c : ℕ) (xs : List ℕ) (s : Sched) : Type 0 where
  pub now : s.current ≡ some c
  pub waiting : s.queue ≡ pack max_ready xs
  pub room : length xs < max_ready
  pub current_live : IsLive c s.storage
  pub waiting_live : All (λ i. IsLive i s.storage) xs

pub enqueue_thread_lem :
    (c : ℕ) (xs : List ℕ) (s : Sched)
    → s.queue ≡ pack max_ready xs
    → length xs < max_ready
    → enqueue_thread c s ≡ record s { queue = pack max_ready (xs ++ c ∷ []) }
unfolding enqueue_thread
enqueue_thread_lem c xs s q l = ground (arith, enqueue-pack max_ready c xs)
