-- ===== src/Objects.antt =====
-- kernel/src/win32/objects.rs: the NT-style handle table. Each function takes the table (the
-- statics HANDLE_TABLE and NEXT_HANDLE) and returns it beside its result.
pub mod Laws
pub mod Dense
mod Tests
use aperture_os.Prelude.{
  ℕ, ◌+◌, ◌%◌, Option, none, some, List, Bool, true, false, get_or, set, replicate, position,
  is_none, u32, wrapping_sub,
}

abbrev pub max_handles : ℕ
max_handles = 1024

pub data ObjectKind : Type 0 where
  process thread file registry_key window_station desktop : ObjectKind

-- `payload` is the source's field `data`, a pointer or a small number.
pub record ObjectHeader : Type 0 where
  pub kind : ObjectKind
  pub payload : ℕ

-- A handle is its `u32`.
abbrev pub Handle : Type 0
Handle = ℕ

pub record ObjectTable : Type 0 where
  pub slots : List (Option ObjectHeader)
  pub next : ℕ

unfoldable pub initial : ObjectTable
initial = record { slots = replicate max_handles none; next = 1 }

unfoldable pub allocate : ObjectKind → ℕ → ObjectTable → Option Handle × ObjectTable
allocate kind payload t = elim (position is_none t.slots) [
  | none ↦ (none, t)
  | some index ↦ (
    some t.next,
    record t {
      slots = set t.slots index (some (record { kind = kind; payload = payload }));
      next = u32 (t.next + 1);
    },
  )
]

-- the index that `lookup` and `close` compute from a handle
unfoldable pub slot_of : Handle → ℕ
slot_of handle = wrapping_sub handle 1 % max_handles

unfoldable pub lookup : Handle → ObjectTable → Option ObjectHeader
lookup handle t = get_or t.slots (slot_of handle) none

unfoldable pub close : Handle → ObjectTable → Bool × ObjectTable
close handle t = elim (get_or t.slots (slot_of handle) none) [
  | some _ ↦ (true, record t { slots = set t.slots (slot_of handle) none })
  | none ↦ (false, t)
]
