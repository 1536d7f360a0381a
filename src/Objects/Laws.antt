-- ===== src/Objects/Laws.antt =====
-- kernel/src/win32/objects.rs: what each operation of the handle table does, on every branch.
use aperture_os.Prelude.{
  ℕ, ◌+◌, ◌^◌, ◌<◌, ◌≡◌, ◌≢◌, Option, none, some, false, arith, length, get_or, length-set,
  get_or-set_self, get_or-set_ne, position, position_found, position_first, position-none, is_none,
  is_some, u32, ◌↔◌, Option-cases, length-replicate, inl, inr,
}
use aperture_os.Objects.{
  ObjectKind, ObjectHeader, ObjectTable, Handle, max_handles, initial, allocate, slot_of, lookup,
  close,
}

pub record IsValid (t : ObjectTable) : Type 0 where
  pub size : length t.slots ≡ max_handles
  pub counter : t.next < 2 ^ 32

pub slot_of-lt : (h : Handle) → slot_of h < max_handles
unfolding slot_of
slot_of-lt h = omega arith

pub IsValid-initial : IsValid initial
unfolding initial
IsValid-initial = record {
  size = length-replicate {A = Option ObjectHeader} 1024 none;
  counter = omega arith;
}

-- Allocation keeps the table at its size and the counter a `u32`.
pub allocate-IsValid :
    (kind : ObjectKind) (payload : ℕ) (t : ObjectTable)
    → IsValid t
    → IsValid (allocate kind payload t).1
unfolding allocate
allocate-IsValid kind payload t v = elim (Option-cases (position is_none t.slots)) [
  | inl full ↦ ground arith
  | inr (i, found) ↦
      ground (arith, length-set t.slots i (some (record { kind = kind; payload = payload })))
]

pub close-IsValid : (h : Handle) (t : ObjectTable) → IsValid t → IsValid (close h t).1
unfolding close
close-IsValid h t v = ground (arith, length-set t.slots (slot_of h) none)

-- `close` reports whether the handle resolved; afterwards the handle resolves to nothing, and
-- every handle of another slot resolves as before.
close_lem :
    (h : Handle) (t : ObjectTable)
    → IsValid t
    → ((close h t).0 ≡ is_some (lookup h t))
      × (lookup h (close h t).1 ≡ none)
      × ((j : Handle) → slot_of j ≢ slot_of h → lookup j (close h t).1 ≡ lookup j t)
unfolding close lookup
close_lem h t v = (
  ground arith,
  ground (arith, slot_of-lt h, get_or-set_self t.slots (slot_of h) none none),
  λ j ne. ground (arith, get_or-set_ne t.slots (slot_of h) (slot_of j) none none),
)

-- Allocation fails, and changes nothing, exactly when every slot is in use; when it succeeds the
-- new object goes to the first free slot, all other slots keep theirs, and the handle is the
-- counter's value.
pub record Allocated (kind : ObjectKind) (payload : ℕ) (t t' : ObjectTable) (i : ℕ) : Type 0 where
  pub in_range : i < max_handles
  pub was_free : get_or t.slots i none ≡ none
  pub first : (j : ℕ) → j < i → is_none (get_or t.slots j none) ≡ false
  pub stored : get_or t'.slots i none ≡ some (record { kind = kind; payload = payload })
  pub others : (j : ℕ) → i ≢ j → get_or t'.slots j none ≡ get_or t.slots j none
  pub counter : t'.next ≡ u32 (t.next + 1)

pub allocate_found :
    (kind : ObjectKind) (payload : ℕ) (t : ObjectTable) (i : ℕ)
    → IsValid t
    → position is_none t.slots ≡ some i
    → ((allocate kind payload t).0 ≡ some t.next)
      × Allocated kind payload t (allocate kind payload t).1 i
unfolding allocate
allocate_found kind payload t i v found = (
  ground arith,
  record {
    in_range = ground (arith, position_found is_none t.slots none i);
    was_free = ground (arith, position_found is_none t.slots none i);
    first = λ j l. position_first is_none t.slots none i j found l;
    stored = ground (
      arith,
      position_found is_none t.slots none i,
      get_or-set_self t.slots i (some (record { kind = kind; payload = payload })) none,
    );
    others = λ j ne.
        ground (
          arith,
          get_or-set_ne t.slots i j (some (record { kind = kind; payload = payload })) none,
        );
    counter = ground arith;
  },
)

-- Allocation fails exactly when every slot of the table is in use.
allocate_full :
    (kind : ObjectKind) (payload : ℕ) (t : ObjectTable)
    → IsValid t
    → ((allocate kind payload t).0 ≡ none)
      ↔ ((j : ℕ) → j < max_handles → is_none (get_or t.slots j none) ≡ false)
unfolding allocate
allocate_full kind payload t v = (
  λ full j l. ground (arith, position-none is_none t.slots none j),
  λ used. elim (Option-cases (position is_none t.slots)) [
    | inl full ↦ ground arith
    | inr (i, found) ↦ ground (arith, used i, position_found is_none t.slots none i)
  ],
)
