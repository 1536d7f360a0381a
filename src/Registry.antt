-- ===== src/Registry.antt =====
-- kernel/src/win32/registry.rs: the flat table of registry values. Names are the bytes of their
-- texts. The key that an entry keeps is a copy in the early heap, which no one else has, and so a
-- value.
pub mod Lookups
pub mod Names
mod Tests
use aperture_os.Prelude.{
  ℕ, ◌-◌, Option, none, some, List, [], ◌∷◌, ◌++◌, Bool, true, false, if◌then◌else◌, leb, min,
  length, take, get_or, set, replicate, position, is_none, is_utf8,
}
use aperture_os.EarlyHeap.{Bump, alloc_early}
use aperture_os.Vfs.{Run, bytes_eq}

pub data RegValueType : Type 0 where
  dword qword string binary : RegValueType

-- `payload` is the source's field `data`, a buffer of 256 bytes.
pub record RegValue : Type 0 where
  pub ty : RegValueType
  pub payload : List ℕ
  pub len : ℕ

-- The static REGISTRY, an array of 256 entries.
abbrev pub Registry : Type 0
Registry = List (Option (List ℕ × RegValue))

-- One of the loops of `format_path`, which copies bytes while the buffer has room; `buf` is the
-- part of the buffer that is filled.
unfoldable pub push_bytes : List ℕ → List ℕ → List ℕ
push_bytes buf [] = buf
push_bytes buf (b ∷ bs) =
    let rest = push_bytes (buf ++ b ∷ []) bs in if leb 256 (length buf) then buf else rest

unfoldable pub format_path : List ℕ → List ℕ → List ℕ
format_path key value =
    let key_part = push_bytes [] key in
    let path =
      push_bytes (if leb 256 (length key_part) then key_part else key_part ++ 92 ∷ []) value in
    if is_utf8 path then path else []

unfoldable pub has_path : List ℕ → Option (List ℕ × RegValue) → Bool
has_path path none = false
has_path path (some (k, v)) = bytes_eq k path

-- the entry that `set_value` stores
unfoldable pub new_value : RegValueType → List ℕ → RegValue
new_value ty bytes =
    let len = min (length bytes) 256 in
    record { ty = ty; payload = take len bytes ++ replicate (256 - len) 0; len = len }

unfoldable pub store : List ℕ → RegValue → Registry → Bool × Registry
store path entry reg = elim (position (has_path path) reg) [
  | some slot ↦ (true, set reg slot (some (path, entry)))
  | none ↦ elim (position is_none reg) [
    | some slot ↦ (true, set reg slot (some (path, entry)))
    | none ↦ (false, reg)
  ]
]

-- `set_value`; it panics when the heap has no room for the copy of the key (`leak_str`).
unfoldable pub set_value :
    List ℕ → List ℕ → RegValueType → List ℕ → Bump → Registry → Run (Bool × Bump × Registry)
set_value key value ty bytes h reg =
    let path = format_path key value in
    let (copy, h') = alloc_early (length path) 1 h in
    let (stored, reg') = store path (new_value ty bytes) reg in
    elim copy [ none ↦ Run.panicked | some _ ↦ Run.returned (stored, h', reg') ]

unfoldable pub value_of : Option (List ℕ × RegValue) → Option RegValue
value_of none = none
value_of (some (k, v)) = some v

-- the search of `get_value`
unfoldable pub find_value : List ℕ → Registry → Option RegValue
find_value path reg = elim (position (has_path path) reg) [
  | none ↦ none
  | some slot ↦ value_of (get_or reg slot none)
]

unfoldable pub get_value : List ℕ → List ℕ → Registry → Option RegValue
get_value key value reg = find_value (format_path key value) reg
