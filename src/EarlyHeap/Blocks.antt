-- ===== src/EarlyHeap/Blocks.antt =====
-- kernel/src/mm/mod.rs: where `alloc_early` puts a block, and that the blocks of a run are apart.
use native.Mathlib.Nat.{
  pow-suc, one-le-pow, mul_comm, div-lt_iff_lt-mul, mul-div-le, lt-mul-div-succ, mul-mod_right,
  mod-add-div, mul-le-mul_left,
}
use native.Mathlib.Decide.{dec_lt}
use aperture_os.Prelude.{
  ℕ, zero, suc, ◌+◌, ◌-◌, ◌*◌, ◌/◌, ◌%◌, ◌^◌, ◌≤◌, ◌<◌, ◌≡◌, ap, sym, subst, ◌∙◌, Option, none,
  some, List, [], ◌∷◌, arith, All, All-map,
}
use aperture_os.Bits.Mask.{two_mul_pow}
use aperture_os.Bits.Field.{bit_and-high}
use aperture_os.Frames.{u64_max}
use aperture_os.EarlyHeap.{Bump, init_heap, aligned_from, alloc_early}

pow-add : (k j : ℕ) → 2 ^ (k + j) ≡ 2 ^ k * 2 ^ j
pow-add zero j = ground arith
pow-add (suc k) j =
    let e : suc k + j ≡ suc (k + j) = omega arith in
    omega (arith, pow-add k j, two_mul_pow k (2 ^ j), pow-suc 2 (k + j), ap (λ t. 2 ^ t) e)

-- `!(2^k - 1)` on 64 bits
mask_high : (k : ℕ) → k ≤ 64 → u64_max - (2 ^ k - 1) ≡ 2 ^ k * (2 ^ (64 - k) - 1)
mask_high k l =
    let e : k + (64 - k) ≡ 64 = omega arith in
    let p : 2 ^ (k + (64 - k)) ≡ 2 ^ 64 = ap (λ t. 2 ^ t) e in
    let e' : 2 ^ (64 - k) ≡ 2 ^ (64 - k) - 1 + 1 = omega (arith, one-le-pow (64 - k) 2) in
    omega (arith, p, pow-add k (64 - k), one-le-pow k 2, ap (λ t. 2 ^ k * t) e')

-- The number of blocks of `2 ^ k` bytes below the next aligned address.
abbrev rounds_up : ℕ → ℕ → ℕ
rounds_up next k = (next + (2 ^ k - 1)) / 2 ^ k

rounds_up-lt : (next k : ℕ) → k ≤ 64 → next + 2 ^ k ≤ 2 ^ 64 → rounds_up next k < 2 ^ (64 - k)
rounds_up-lt next k l h =
    let e : k + (64 - k) ≡ 64 = omega arith in
    let p : 1 ≤ 2 ^ k = one-le-pow k 2 (omega arith) in
    let c : 2 ^ (k + (64 - k)) ≡ 2 ^ 64 = ap (λ t. 2 ^ t) e in
    (div-lt_iff_lt-mul {k = 2 ^ k} {x = next + (2 ^ k - 1)} {y = 2 ^ (64 - k)} p).1
      (omega (arith, c, pow-add k (64 - k), mul_comm (2 ^ k) (2 ^ (64 - k))))

aligned_from_lem :
    (next k : ℕ)
    → k ≤ 64
    → next + 2 ^ k ≤ 2 ^ 64
    → aligned_from next (2 ^ k) ≡ 2 ^ k * rounds_up next k
unfolding aligned_from
aligned_from_lem next k l h =
    let p : 1 ≤ 2 ^ k = one-le-pow k 2 (omega arith) in
    let e : (2 ^ k + 2 ^ 64 - 1) % 2 ^ 64 ≡ 2 ^ k - 1 = omega arith in
    let s : (next + (2 ^ k - 1)) % 2 ^ 64 ≡ next + (2 ^ k - 1) = omega arith in
    rw (e, s, mask_high k l)
      (bit_and-high k (64 - k) (next + (2 ^ k - 1)) (rounds_up-lt next k l h))

-- What `alloc_early` promises for `size` bytes at a multiple of `2 ^ k`: the lowest such address
-- from `next` on, if the block ends at the limit or before; else nothing, and then no such block
-- fits.
pub data Serves (h : Bump) (size k : ℕ) : Option ℕ × Bump → Type 0 where
  placed :
      (a : ℕ)
      → a % 2 ^ k ≡ 0
      → h.next ≤ a
      → ((b : ℕ) → b % 2 ^ k ≡ 0 → h.next ≤ b → a ≤ b)
      → a + size ≤ h.limit
      → Serves h size k (some a, record h { next = a + size })
  refused : ((b : ℕ) → b % 2 ^ k ≡ 0 → h.next ≤ b → h.limit < b + size) → Serves h size k (none, h)

module _ (next k : ℕ) (l : k ≤ 64) (f : next + 2 ^ k ≤ 2 ^ 64) where
  pub aligned_multiple : aligned_from next (2 ^ k) % 2 ^ k ≡ 0
  aligned_multiple =
      ap (λ t. t % 2 ^ k) (aligned_from_lem next k l f) ∙ mul-mod_right (2 ^ k) (rounds_up next k)

  pub aligned-le : next ≤ aligned_from next (2 ^ k)
  aligned-le = omega (
    arith,
    aligned_from_lem next k l f,
    one-le-pow k 2,
    lt-mul-div-succ (next + (2 ^ k - 1)) (one-le-pow k 2 (omega arith)),
  )

  pub aligned_below : aligned_from next (2 ^ k) < next + 2 ^ k
  aligned_below =
      omega (
        arith,
        aligned_from_lem next k l f,
        one-le-pow k 2,
        mul-div-le (next + (2 ^ k - 1)) (2 ^ k),
      )

  aligned_least : (b : ℕ) → b % 2 ^ k ≡ 0 → next ≤ b → aligned_from next (2 ^ k) ≤ b
  aligned_least b d q =
      let g : (next + (2 ^ k - 1)) / 2 ^ k < b / 2 ^ k + 1 =
        (div-lt_iff_lt-mul {k = 2 ^ k} {x = next + (2 ^ k - 1)} {y = b / 2 ^ k + 1}
            (one-le-pow k 2 (omega arith))).1
          (omega (arith, mod-add-div b (2 ^ k), one-le-pow k 2)) in
      omega (
        arith,
        aligned_from_lem next k l f,
        mod-add-div b (2 ^ k),
        mul-le-mul_left {m = rounds_up next k} {n = b / 2 ^ k} (2 ^ k) (omega arith),
      )

pub alloc_early_fits :
    (size align : ℕ) (h : Bump)
    → h.limit < 2 ^ 64
    → aligned_from h.next align + size ≤ h.limit
    → alloc_early size align h
      ≡ (some (aligned_from h.next align), record h { next = aligned_from h.next align + size })
unfolding alloc_early
alloc_early_fits size align h g l = ground arith

alloc_early_full :
    (size align : ℕ) (h : Bump)
    → h.limit < aligned_from h.next align + size
    → alloc_early size align h ≡ (none, h)
unfolding alloc_early
alloc_early_full size align h l = ground arith

-- When rounding up does not pass 2 ^ 64, alloc_early gives the lowest multiple of the alignment
-- from `next` on, if the block ends within the heap, and moves `next` to its end; otherwise no
-- aligned block fits, and nothing changes.
pub alloc_early-Serves :
    (h : Bump) (size k : ℕ)
    → k ≤ 64
    → h.next + 2 ^ k ≤ 2 ^ 64
    → h.limit < 2 ^ 64
    → Serves h size k (alloc_early size (2 ^ k) h)
alloc_early-Serves h size k l f g =
    let a : ℕ = aligned_from h.next (2 ^ k) in
    elim (dec_lt h.limit (a + size)) [
      | yes q ↦
          subst (Serves h size k) (sym (alloc_early_full size (2 ^ k) h q))
            (Serves.refused (λ b d n. omega (arith, aligned_least h.next k l f b d n)))
      | no q ↦ subst (Serves h size k) (sym (alloc_early_fits size (2 ^ k) h g (omega arith))) (
          Serves.placed a (aligned_multiple h.next k l f) (aligned-le h.next k l f)
            (aligned_least h.next k l f) (omega arith))
    ]

-- A call of `alloc_early`: `size` bytes at a multiple of `2 ^ power`.
pub record Request : Type 0 where
  pub size : ℕ
  pub power : ℕ

pub record Block : Type 0 where
  pub address : ℕ
  pub size : ℕ

-- The block of one call before those of the later calls; a refused call gives none.
abbrev granted : Option ℕ → ℕ → List Block → List Block
granted (some a) size bs = record { address = a; size = size } ∷ bs
granted none size bs = bs

-- The blocks that a run of calls gives, the first one first.
unfoldable pub blocks : List Request → Bump → List Block
blocks [] h = []
blocks (r ∷ rs) h =
    let (result, h') = alloc_early r.size (2 ^ r.power) h in granted result r.size (blocks rs h')

-- The block lies in the heap, from `start` to `stop`.
abbrev pub Within : ℕ → ℕ → Block → Type 0
Within start stop b = (start ≤ b.address) × (b.address + b.size ≤ stop)

-- Each block ends where the later ones start, or before.
abbrev pub Apart : List Block → Type 0
Apart [] = Unit
Apart (b ∷ bs) = All (λ c. b.address + b.size ≤ c.address) bs × Apart bs

abbrev after : ℕ → Bump → Bump
after stop h = record h { next = stop }

blocks_fits :
    (r : Request) (rs : List Request) (h : Bump)
    → h.limit < 2 ^ 64
    → aligned_from h.next (2 ^ r.power) + r.size ≤ h.limit
    → blocks (r ∷ rs) h
      ≡ record { address = aligned_from h.next (2 ^ r.power); size = r.size }
        ∷ blocks rs (after (aligned_from h.next (2 ^ r.power) + r.size) h)
unfolding blocks
blocks_fits r rs h g l =
    ap (λ p. granted p.0 r.size (blocks rs p.1)) (alloc_early_fits r.size (2 ^ r.power) h g l)

blocks_full :
    (r : Request) (rs : List Request) (h : Bump)
    → h.limit < aligned_from h.next (2 ^ r.power) + r.size
    → blocks (r ∷ rs) h ≡ blocks rs h
unfolding blocks
blocks_full r rs h l =
    ap (λ p. granted p.0 r.size (blocks rs p.1)) (alloc_early_full r.size (2 ^ r.power) h l)

abbrev Good : Bump → List Block → Type 0
Good h bs = All (Within h.next h.limit) bs × Apart bs

blocks-Good :
    (rs : List Request) (h : Bump)
    → All (λ r. (r.power ≤ 64) × (h.limit + 2 ^ r.power ≤ 2 ^ 64)) rs
    → h.next ≤ h.limit
    → h.limit < 2 ^ 64
    → Good h (blocks rs h)
blocks-Good [] h a n g = unfold blocks in (tt, tt)
blocks-Good (r ∷ rs) h a n g =
    let p : ℕ = aligned_from h.next (2 ^ r.power) in
    let low : h.next ≤ p = aligned-le h.next r.power a.0.0 (omega (arith, a.0.1)) in
    elim (dec_lt h.limit (p + r.size)) [
      | yes q ↦ subst (Good h) (sym (blocks_full r rs h q)) (blocks-Good rs h a.1 n g)
      | no q ↦ subst (Good h) (sym (blocks_fits r rs h g (omega arith))) (
          let rest : Good (after (p + r.size) h) (blocks rs (after (p + r.size) h)) =
            blocks-Good rs (after (p + r.size) h) a.1 (omega arith) g in
          (
            ((low, omega arith), All-map (λ c w. (omega (arith, w.0), w.1)) _ rest.0),
            (All-map (λ c w. w.0) _ rest.0, rest.1),
          ))
    ]

-- On a heap from `start` to `stop` that ends early enough for the alignments asked for, the blocks
-- of any run of alloc_early lie in the heap, each behind the earlier ones.
pub blocks-Apart :
    (start stop : ℕ) (rs : List Request) (h : Bump)
    → start ≤ stop
    → stop < 2 ^ 64
    → All (λ r. (r.power ≤ 64) × (stop + 2 ^ r.power ≤ 2 ^ 64)) rs
    → All (Within start stop) (blocks rs (init_heap start stop h))
      × Apart (blocks rs (init_heap start stop h))
blocks-Apart start stop rs h n g a =
    unfold init_heap in blocks-Good rs (init_heap start stop h) a n g
