-- ===== src/Frames/Ownership.antt =====
-- kernel/src/mm/frame_allocator.rs: a client's calls of the allocator in any order. No frame is
-- handed out while it is held.
use aperture_os.Prelude.{
  ℕ, ◌+◌, ◌*◌, ◌<◌, ◌≡◌, ◌≢◌, sym, some, List, [], ◌∷◌, arith, All, All-map, All-zip,
}
use aperture_os.Memory.{Memory}
use aperture_os.Frames.{FrameAllocator, frame_size, allocate_frame, free_frame}
use aperture_os.Frames.Bitmap.{used}
use aperture_os.Frames.Allocate.{Taken, IsCovered, allocated}
use aperture_os.Frames.Free.{free_frame_lem, index_of_frame}

-- One of the elements of a list, and the list without it.
pub data Picks {ℓ} {A : Type ℓ} (x : A) : List A → List A → Type ℓ where
  first : {xs : List A} → Picks x (x ∷ xs) xs
  later : {y : A} {xs ys : List A} → Picks x xs ys → Picks x (y ∷ xs) (y ∷ ys)

-- The states that a client can reach, with the frames that it holds: it calls `allocate_frame` as
-- it likes, and `free_frame` on frames that it holds.
pub data Reach (fa : FrameAllocator) : Memory → List ℕ → Type 0 where
  start : (m : Memory) → Reach fa m []
  allocates :
      {m m' : Memory} {held : List ℕ} {frame : ℕ}
      → Reach fa m held
      → allocate_frame fa m ≡ (some frame, m')
      → Reach fa m' (frame ∷ held)
  frees :
      {m m' : Memory} {held rest : List ℕ} {frame : ℕ}
      → Reach fa m held
      → Picks frame held rest
      → m' ≡ free_frame frame fa m
      → Reach fa m' rest

-- The address is that of a frame of the allocator which is marked as in use.
abbrev pub IsHeld : FrameAllocator → Memory → ℕ → Type 0
IsHeld fa m frame =
    (i : ℕ) × (frame ≡ fa.first_frame + i * frame_size) × (i < fa.frame_count) × (used fa m i ≡ 1)

abbrev pub Distinct {ℓ} : {A : Type ℓ} → List A → Type ℓ
Distinct [] = Unit
Distinct (x ∷ xs) = All (λ y. y ≢ x) xs × Distinct xs

All-pick {ℓ κ} :
    {A : Type ℓ} (P : A → Type κ) {x : A} {xs ys : List A}
    → Picks x xs ys
    → All P xs
    → P x × All P ys
All-pick P first h = h
All-pick P (later p) h = let (px, pys) = All-pick P p h.1 in (px, (h.0, pys))

Distinct-pick {ℓ} :
    {A : Type ℓ} {x : A} {xs ys : List A}
    → Picks x xs ys
    → Distinct xs
    → All (λ y. y ≢ x) ys × Distinct ys
Distinct-pick first d = d
Distinct-pick {x} (later {y} p) d =
    let (x-ne, rest-ne) = All-pick (λ z. z ≢ y) p d.0 in
    let (apart, inner) = Distinct-pick p d.1 in ((λ e. x-ne (sym e), apart), (rest-ne, inner))

pub IsHeld-allocate :
    (fa : FrameAllocator) (m m' : Memory) (frame i g : ℕ)
    → frame ≡ fa.first_frame + i * frame_size
    → Taken fa m m' i
    → IsHeld fa m g
    → (g ≢ frame) × IsHeld fa m' g
IsHeld-allocate fa m m' frame i g at t (j, gat, l, u) =
    (λ e. absurd (ground (arith, t.was_free)), (j, gat, l, ground (arith, t.marked j, t.was_free)))

IsHeld-free :
    (fa : FrameAllocator) (m : Memory) (frame g : ℕ)
    → IsHeld fa m frame
    → IsHeld fa m g
    → g ≢ frame
    → IsHeld fa (free_frame frame fa m) g
IsHeld-free fa m frame g (i, at, k, v) (j, gat, l, u) ne =
    (j, gat, l, ground (arith, free_frame_lem fa m frame j l, index_of_frame fa i))

-- Whatever the order of the client's calls, the frames that it holds are distinct frames of the
-- allocator, each marked as in use: so no call of `allocate_frame` returns a frame that is held.
pub Reach-Distinct :
    (fa : FrameAllocator) (m : Memory) (held : List ℕ)
    → IsCovered fa
    → Reach fa m held
    → Distinct held × All (IsHeld fa m) held
Reach-Distinct fa m held c (start _) = (tt, tt)
Reach-Distinct fa m held c (allocates {m = m₀} {held = held₀} {frame = frame} r e) =
    let (d, h) = Reach-Distinct fa m₀ held₀ c r in
    let (i, at, t) = allocated fa m₀ m frame c e in
    let kept : All (λ g. (g ≢ frame) × IsHeld fa m g) held₀ =
      All-map (λ g x. IsHeld-allocate fa m₀ m frame i g at t x) held₀ h in
    (
      (All-map (λ g p. p.0) held₀ kept, d),
      (
        (i, at, t.in_range, ground (arith, t.marked i, t.in_range)),
        All-map (λ g p. p.1) held₀ kept,
      ),
    )
Reach-Distinct fa m held c (frees {m = m₀} {held = held₀} {frame = frame} r p e) =
    let (d, h) = Reach-Distinct fa m₀ held₀ c r in
    let (mine, others) = All-pick (IsHeld fa m₀) p h in
    let (apart, d') = Distinct-pick p d in
    (d', rw e (All-zip (λ g hg ne. IsHeld-free fa m₀ frame g mine hg ne) held others apart))
