-- ===== src/Objects/Dense.antt =====
-- kernel/src/win32/objects.rs: handles are resolved by their number, objects are stored at the
-- first free slot. The two agree as long as no handle is closed, and part ways after a `close`.
use aperture_os.Prelude.{
  ℕ, ◌+◌, ◌<◌, ◌≤◌, ◌≡◌, ◌≢◌, Option, none, some, false, arith, length, get_or, position,
  position_at, is_none, Option-cases, inl, inr, length-set, get_or-set_self, get_or-set_ne,
  length-replicate, get_or-replicate, refl,
}
use native.Mathlib.Decide.{ℕ_discrete}
use aperture_os.Objects.{
  ObjectKind, ObjectHeader, ObjectTable, Handle, max_handles, initial, allocate, slot_of, lookup,
  close,
}
use aperture_os.Objects.Laws.{IsValid, slot_of-lt, Allocated, allocate_found, close-IsValid}

-- The table after `n` allocations and no `close`: the first `n` slots are in use.
pub record IsDense (n : ℕ) (t : ObjectTable) : Type 0 where
  pub size : length t.slots ≡ max_handles
  pub counter : t.next ≡ n + 1
  pub filled : (j : ℕ) → j < n → is_none (get_or t.slots j none) ≡ false
  pub free : (j : ℕ) → n ≤ j → get_or t.slots j none ≡ none

abbrev pub header : ObjectKind → ℕ → ObjectHeader
header kind payload = record { kind = kind; payload = payload }

dense-IsValid : {n : ℕ} {t : ObjectTable} → n < max_handles → IsDense n t → IsValid t
dense-IsValid l d = record { size = d.size; counter = ground (arith, d.counter) }

slot_of_small : (h : Handle) → 0 < h → h ≤ max_handles → slot_of h + 1 ≡ h
unfolding slot_of
slot_of_small h p q = omega arith

position_dense :
    {n : ℕ} (t : ObjectTable) → n < max_handles → IsDense n t → position is_none t.slots ≡ some n
position_dense {n} t l d =
    position_at is_none t.slots none n (ground (arith, d.size)) (ground (arith, d.free n)) d.filled

allocate_dense :
    (kind : ObjectKind) (payload n : ℕ) (t : ObjectTable)
    → n < max_handles
    → IsDense n t
    → ((allocate kind payload t).0 ≡ some t.next)
      × Allocated kind payload t (allocate kind payload t).1 n
allocate_dense kind payload n t l d =
    allocate_found kind payload t n (dense-IsValid l d) (position_dense t l d)

length-allocate :
    (kind : ObjectKind) (payload : ℕ) (t : ObjectTable)
    → length (allocate kind payload t).1.slots ≡ length t.slots
unfolding allocate
length-allocate kind payload t = elim (Option-cases (position is_none t.slots)) [
  | inl full ↦ ground arith
  | inr (i, found) ↦ ground (arith, length-set t.slots i (some (header kind payload)))
]

pub IsDense-initial : IsDense 0 initial
unfolding initial
IsDense-initial = record {
  size = length-replicate {A = Option ObjectHeader} 1024 none;
  counter = refl;
  filled = λ j l. absurd (omega arith);
  free = λ j l. get_or-replicate 1024 j none;
}

allocate-IsDense :
    (kind : ObjectKind) (payload n : ℕ) (t : ObjectTable)
    → n < max_handles
    → IsDense n t
    → IsDense (n + 1) (allocate kind payload t).1
allocate-IsDense kind payload n t l d =
    let (r, a) = allocate_dense kind payload n t l d in
    record {
      size = ground (arith, length-allocate kind payload t, d.size);
      counter = ground (arith, a.counter, d.counter);
      filled = λ j m. elim (ℕ_discrete j n) [
        | yes e ↦ ground (arith, a.stored)
        | no ne ↦ ground (arith, a.others j, d.filled j)
      ];
      free = λ j m. ground (arith, a.others j, d.free j);
    }

-- While nothing was closed, the next allocation (with room left) returns the handle `n + 1`, which
-- resolves to the new object; every handle given out before resolves as before; and the table is
-- again one to which nothing was closed.
pub lookup-allocate :
    (kind : ObjectKind) (payload n : ℕ) (t : ObjectTable)
    → n < max_handles
    → IsDense n t
    → let (r, t') = allocate kind payload t in
      (r ≡ some (n + 1))
      × (lookup (n + 1) t' ≡ some (header kind payload))
      × ((h : Handle) → 0 < h → h ≤ n → lookup h t' ≡ lookup h t)
      × IsDense (n + 1) t'
unfolding lookup
lookup-allocate kind payload n t l d =
    let (r, a) = allocate_dense kind payload n t l d in
    (
      ground (arith, d.counter),
      ground (arith, a.stored, slot_of_small (n + 1)),
      λ h p q. ground (arith, a.others (slot_of h), slot_of_small h),
      allocate-IsDense kind payload n t l d,
    )

-- The first slot that is free after one handle of such a table was closed.
position_after_close :
    (h n : ℕ) (t : ObjectTable)
    → 0 < h
    → h ≤ n
    → n < max_handles
    → IsDense n t
    → position is_none (close h t).1.slots ≡ some (slot_of h)
unfolding close
position_after_close h n t p q l d =
    position_at is_none (close h t).1.slots none (slot_of h)
      (ground (arith, length-set t.slots (slot_of h) none, slot_of-lt h, d.size))
      (ground (arith, get_or-set_self t.slots (slot_of h) none none, slot_of-lt h, d.size))
      (λ j m.
        ground (arith, get_or-set_ne t.slots (slot_of h) j none none, d.filled j, slot_of_small h))

next-close : (h : Handle) (t : ObjectTable) → (close h t).1.next ≡ t.next
unfolding close
next-close h t = ground arith

slots-close :
    (h : Handle) (t : ObjectTable) (j : ℕ)
    → j ≢ slot_of h
    → get_or (close h t).1.slots j none ≡ get_or t.slots j none
unfolding close
slots-close h t j ne = ground (arith, get_or-set_ne t.slots (slot_of h) j none none)

-- After a handle `h` was closed the two parts of the table disagree: the next allocation returns
-- the fresh handle `n + 1`, but that handle resolves to nothing, and the closed handle `h`
-- resolves to the new object.
pub stale_handle :
    (kind : ObjectKind) (payload n : ℕ) (t : ObjectTable) (h : Handle)
    → 0 < h
    → h ≤ n
    → n < max_handles
    → IsDense n t
    → let (r, t') = allocate kind payload (close h t).1 in
      (r ≡ some (n + 1)) × (lookup (n + 1) t' ≡ none) × (lookup h t' ≡ some (header kind payload))
unfolding lookup
stale_handle kind payload n t h p q l d =
    let v : IsValid (close h t).1 = close-IsValid h t (dense-IsValid l d) in
    let found : position is_none (close h t).1.slots ≡ some (slot_of h) =
      position_after_close h n t p q l d in
    let (r, a) = allocate_found kind payload (close h t).1 (slot_of h) v found in
    (
      ground (arith, next-close h t, d.counter),
      ground (
        arith,
        a.others (slot_of (n + 1)),
        slot_of_small (n + 1),
        slot_of_small h,
        d.free n,
        slots-close h t (slot_of (n + 1)),
      ),
      ground (arith, a.stored),
    )
