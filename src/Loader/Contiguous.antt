-- ===== src/Loader/Contiguous.antt =====
-- kernel/src/win32/loader.rs: the frames of `allocate_contiguous`.
use native.Mathlib.Decide.{ℕ_discrete}
use aperture_os.Prelude.{
  ℕ, zero, suc, ◌+◌, ◌*◌, ◌≤◌, ◌<◌, ◌≡◌, ◌≢◌, refl, subst, true, false, Option, none, some, arith,
  if◌then◌else◌, ◌==◌, ◌⊎◌,
}
use aperture_os.Memory.{Memory}
use aperture_os.Frames.{FrameAllocator, frame_size, allocate_frame}
use aperture_os.Frames.Bitmap.{used}
use aperture_os.Frames.Allocate.{
  Taken, IsCovered, Allocates, took, ran_out, allocate_frame-Allocates,
}
use aperture_os.Loader.{contiguous_from, allocate_contiguous}

abbrev pub address : FrameAllocator → ℕ → ℕ
address fa i = fa.first_frame + i * frame_size

-- From `m` to `m'`, the `k` frames from `i` on came into use: they were free, every frame below
-- them was in use, and no frame of the allocator that was in use became free.
pub record Claimed (fa : FrameAllocator) (m m' : Memory) (i k : ℕ) : Type 0 where
  pub in_range : i + k ≤ fa.frame_count
  pub were_free : (j : ℕ) → i ≤ j → j < i + k → used fa m j ≡ 0
  pub lowest : (j : ℕ) → j < i → used fa m j ≡ 1
  pub now_used : (j : ℕ) → i ≤ j → j < i + k → used fa m' j ≡ 1
  pub kept : (j : ℕ) → j < fa.frame_count → used fa m j ≡ 1 → used fa m' j ≡ 1

-- What `allocate_contiguous` does with the lowest free frame and the free frames that follow it:
-- it returns the first of `pages` of them, and no other frame changes, or there are only `k` of them,
-- it returns nothing, and they are in use.
pub data Chosen (fa : FrameAllocator) (m : Memory) (pages : ℕ) : Option ℕ × Memory → Type 0 where
  given :
      {m' : Memory} {base : ℕ} (i : ℕ)
      → base ≡ address fa i
      → Claimed fa m m' i pages
      → ((j : ℕ) → j < fa.frame_count → (j < i) ⊎ (i + pages ≤ j) → used fa m' j ≡ used fa m j)
      → Chosen fa m pages (some base, m')
  refused :
      {m' : Memory} (i k : ℕ)
      → k < pages
      → Claimed fa m m' i k
      → (i + k < fa.frame_count → used fa m (i + k) ≡ 1)
      → Chosen fa m pages (none, m')

-- The state in the loop: `k` frames from `i` on were taken, and nothing else changed.
record Taking (fa : FrameAllocator) (m m₁ : Memory) (i k : ℕ) : Type 0 where
  in_range : i + k ≤ fa.frame_count
  were_free : (j : ℕ) → i ≤ j → j < i + k → used fa m j ≡ 0
  lowest : (j : ℕ) → j < i → used fa m j ≡ 1
  now_used : (j : ℕ) → i ≤ j → j < i + k → used fa m₁ j ≡ 1
  others : (j : ℕ) → j < fa.frame_count → (j < i) ⊎ (i + k ≤ j) → used fa m₁ j ≡ used fa m j

module _ (fa : FrameAllocator) (m m₁ : Memory) (i k : ℕ) (s : Taking fa m m₁ i k) where
  Taking-Claimed :
      (m₂ : Memory)
      → ((j : ℕ) → j < fa.frame_count → used fa m₁ j ≡ 1 → used fa m₂ j ≡ 1)
      → Claimed fa m m₂ i k
  Taking-Claimed m₂ more = record {
    in_range = s.in_range;
    were_free = s.were_free;
    lowest = s.lowest;
    now_used = λ j p q. more j (omega (arith, s.in_range)) (s.now_used j p q);
    kept = λ j l u. more j l (ground (arith, s.now_used j, s.others j l));
  }

  -- The next frame was taken.
  Taking-next : (m₂ : Memory) → Taken fa m₁ m₂ (i + k) → Taking fa m m₂ i (k + 1)
  Taking-next m₂ t = record {
    in_range = omega (arith, t.in_range);
    were_free = λ j p q. ground (arith, s.were_free j, s.others j, t.was_free, t.in_range);
    lowest = s.lowest;
    now_used = λ j p q. ground (arith, s.now_used j, t.marked j, t.in_range);
    others = λ j l o. ground (arith, s.others j l, t.marked j l);
  }

  -- The lowest free frame is not the next one, so the next one is in use.
  Taking-gap :
      (n : ℕ) (m₂ : Memory)
      → Taken fa m₁ m₂ n
      → n ≢ i + k
      → i + k < fa.frame_count
      → used fa m (i + k) ≡ 1
  Taking-gap n m₂ t ne l = ground (
    arith,
    s.others (i + k) l,
    s.others n t.in_range,
    t.lowest (i + k),
    t.was_free,
    s.now_used n,
    s.lowest n,
  )

module _ (fa : FrameAllocator) (m : Memory) (i : ℕ) where
  -- the body of the loop on what `allocate_frame` returned
  abbrev go_on : ℕ → ℕ → Option ℕ × Memory → Option ℕ × Memory
  go_on left last r = elim r.0 [
    | none ↦ (none, r.1)
    | some frame ↦
        if frame == last + 4096
        then contiguous_from left (address fa i) frame fa r.1
        else (none, r.1)
  ]

  go_on-Chosen :
      (m₁ : Memory) (k left last : ℕ) (r : Option ℕ × Memory)
      → last + 4096 ≡ address fa (i + k)
      → Taking fa m m₁ i k
      → ((m₂ : Memory) (frame : ℕ)
          → frame + 4096 ≡ address fa (i + (k + 1))
          → Taking fa m m₂ i (k + 1)
          → Chosen fa m (k + 1 + left) (contiguous_from left (address fa i) frame fa m₂))
      → Allocates fa m₁ r
      → Chosen fa m (k + 1 + left) (go_on left last r)
  go_on-Chosen m₁ k left last r at s ih (took {m' = m'} n frame e t) = elim (ℕ_discrete n (i + k)) [
    | yes same ↦
        let test : (frame == last + 4096) ≡ true = ground arith in
        rw test
          (ih m' frame (omega arith) (Taking-next fa m m₁ i k s m' (subst (Taken fa m₁ m') same t)))
    | no ne ↦
        let test : (frame == last + 4096) ≡ false = ground arith in
        rw test (
          Chosen.refused i k (omega arith)
            (Taking-Claimed fa m m₁ i k s m' (λ j l u. ground (arith, t.marked j l)))
            (Taking-gap fa m m₁ i k s n m' t ne))
  ]
  go_on-Chosen m₁ k left last r at s ih (ran_out {m' = m'} x) =
      Chosen.refused i k (omega arith) (Taking-Claimed fa m m₁ i k s m' (λ j l u. x.kept j l))
        (λ l. ground (arith, s.others (i + k) l, x.all_used (i + k) l))

  contiguous_from-Chosen :
      (left k last : ℕ) (m₁ : Memory)
      → IsCovered fa
      → last + 4096 ≡ address fa (i + k)
      → Taking fa m m₁ i k
      → Chosen fa m (k + left) (contiguous_from left (address fa i) last fa m₁)
  unfolding contiguous_from
  contiguous_from-Chosen zero k last m₁ c at s =
      let e : k ≡ k + 0 = omega arith in
      subst (λ n. Chosen fa m n (some (address fa i), m₁)) e
        (Chosen.given i refl (Taking-Claimed fa m m₁ i k s m₁ (λ j l u. u)) s.others)
  contiguous_from-Chosen (suc left) k last m₁ c at s =
      let e : k + 1 + left ≡ k + suc left = omega arith in
      subst (λ n. Chosen fa m n (go_on left last (allocate_frame fa m₁))) e
        (go_on-Chosen m₁ k left last (allocate_frame fa m₁) at s
          (λ m₂ frame at' s'. contiguous_from-Chosen left (k + 1) frame m₂ c at' s')
          (allocate_frame-Allocates fa m₁ c))

contiguous_first :
    (fa : FrameAllocator) (m : Memory) (pages : ℕ) (r : Option ℕ × Memory)
    → IsCovered fa
    → Allocates fa m r
    → Chosen fa m
        (suc pages)
        (elim r.0 [ none ↦ (none, r.1) | some first ↦ contiguous_from pages first first fa r.1 ])
contiguous_first fa m pages r c (took {m' = m'} n frame e t) =
    let s : Taking fa m m' n 1 = record {
      in_range = omega (arith, t.in_range);
      were_free = λ j p q. ground (arith, t.was_free);
      lowest = t.lowest;
      now_used = λ j p q. ground (arith, t.marked j, t.in_range);
      others = λ j l o. ground (arith, t.marked j l);
    } in
    let sum : 1 + pages ≡ suc pages = omega arith in
    rw e (
      subst (λ k. Chosen fa m k (contiguous_from pages (address fa n) (address fa n) fa m')) sum
        (contiguous_from-Chosen fa m n pages 1 (address fa n) m' c (omega arith) s))
contiguous_first fa m pages r c (ran_out {m' = m'} x) =
    Chosen.refused 0 0 (omega arith)
      (record {
        in_range = omega arith;
        were_free = λ j p q. absurd (omega arith);
        lowest = λ j l. absurd (omega arith);
        now_used = λ j p q. absurd (omega arith);
        kept = λ j l u. x.kept j l;
      })
      (λ l. x.all_used 0 l)

-- `allocate_contiguous` looks at the lowest free frame and the free frames that follow it at once.
-- If they are at least `pages`, it returns the first and marks the first `pages` of them, and no
-- other frame of the allocator, as in use; else it returns nothing, and they are in use all the same.
pub allocate_contiguous-Chosen :
    (pages : ℕ) (fa : FrameAllocator) (m : Memory)
    → IsCovered fa
    → Chosen fa m (suc pages) (allocate_contiguous (suc pages) fa m)
unfolding allocate_contiguous
allocate_contiguous-Chosen pages fa m c =
    contiguous_first fa m pages (allocate_frame fa m) c (allocate_frame-Allocates fa m c)
