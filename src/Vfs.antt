-- ===== src/Vfs.antt =====
-- kernel/src/vfs/mod.rs: the in-memory file system. The statics are one record; each function takes
-- it and returns it. A text is the list of its bytes. Rust checks an index into a static array and
-- panics where it is out of range: such a call is `panicked`.
pub mod Names
pub mod Paths
pub mod Handles
pub mod Files
mod Tests
use aperture_os.Prelude.{
  ℕ, zero, suc, ◌+◌, ◌-◌, Option, none, some, List, [], ◌∷◌, ◌++◌, Bool, true, false, ◌&&◌, not,
  if◌then◌else◌, ltb, leb, ◌==◌, length, get_or, set, take, replicate, position, is_none,
}

abbrev pub max_name_len : ℕ
max_name_len = 64

abbrev pub max_nodes : ℕ
max_nodes = 256

abbrev pub max_open_files : ℕ
max_open_files = 64

abbrev pub file_data_frames : ℕ
file_data_frames = 16

pub data NodeKind : Type 0 where
  directory file : NodeKind

-- `name` is the whole buffer of `max_name_len` bytes.
pub record Node : Type 0 where
  pub kind : NodeKind
  pub parent : Option ℕ
  pub name : List ℕ
  pub name_len : ℕ

pub record OpenFile : Type 0 where
  pub node : ℕ
  pub position : ℕ
  pub writable : Bool

-- The statics NODES, FILE_DATA, FILE_SIZES and OPEN_FILES.
pub record Vfs : Type 0 where
  pub nodes : List (Option Node)
  pub file_data : List (List (Option ℕ))
  pub file_sizes : List ℕ
  pub open_files : List (Option OpenFile)

pub data Run {ℓ} (A : Type ℓ) : Type ℓ where
  returned : A → Run A
  panicked : Run A

abbrev pub root : Node
root = record { kind = NodeKind.directory; parent = none; name = 47 ∷ replicate 63 0; name_len = 1 }

-- the statics before `init`
unfoldable pub blank : Vfs
blank = record {
  nodes = replicate max_nodes none;
  file_data = replicate max_nodes (replicate file_data_frames none);
  file_sizes = replicate max_nodes 0;
  open_files = replicate max_open_files none;
}

unfoldable pub init : Vfs → Vfs
init v = record v { nodes = set v.nodes 0 (some root) }

-- `name_str`; the bytes come from a text, so they are valid UTF-8.
unfoldable pub name_str : Node → List ℕ
name_str n = take n.name_len n.name

unfoldable pub bytes_eq : List ℕ → List ℕ → Bool
bytes_eq [] [] = true
bytes_eq [] (y ∷ ys) = false
bytes_eq (x ∷ xs) [] = false
bytes_eq (x ∷ xs) (y ∷ ys) = x == y && bytes_eq xs ys

abbrev is_parent : Option ℕ → ℕ → Bool
is_parent none parent = false
is_parent (some p) parent = p == parent

-- the test of the loop of `find_child` on one slot
unfoldable pub is_child : ℕ → List ℕ → Option Node → Bool
is_child parent name none = false
is_child parent name (some n) = is_parent n.parent parent && bytes_eq (name_str n) name

unfoldable pub find_child : ℕ → List ℕ → Vfs → Option ℕ
find_child parent name v = position (is_child parent name) v.nodes

-- the node that `create` stores
unfoldable pub new_node : ℕ → List ℕ → NodeKind → Node
new_node parent name kind = record {
  kind = kind;
  parent = some parent;
  name = name ++ replicate (max_name_len - length name) 0;
  name_len = length name;
}

unfoldable pub store_node : Node → Vfs → Option ℕ × Vfs
store_node n v = elim (position is_none v.nodes) [
  | none ↦ (none, v)
  | some index ↦ (some index, record v { nodes = set v.nodes index (some n) })
]

unfoldable pub create : ℕ → List ℕ → NodeKind → Vfs → Option ℕ × Vfs
create parent name kind v =
    if ltb max_name_len (length name) then (none, v) else elim (find_child parent name v) [
      | some _ ↦ (none, v)
      | none ↦ store_node (new_node parent name kind) v
    ]

-- `path.split('/')`
unfoldable pub split : List ℕ → List (List ℕ)
split [] = [] ∷ []
split (b ∷ bs) = elim (split bs) [
  | [] ↦ (b ∷ []) ∷ []
  | piece ∷ pieces ↦ if b == 47 then [] ∷ piece ∷ pieces else (b ∷ piece) ∷ pieces
]

-- The two halves of `path.trim_matches('/')`.
unfoldable pub trim_start : List ℕ → List ℕ
trim_start [] = []
trim_start (b ∷ bs) = let rest = trim_start bs in if b == 47 then rest else b ∷ bs

unfoldable pub trim_end : List ℕ → List ℕ
trim_end [] = []
trim_end (b ∷ bs) = elim (trim_end bs) [ [] ↦ if b == 47 then [] else b ∷ [] | c ∷ cs ↦ b ∷ c ∷ cs ]

-- The loop of `lookup` over the components, from the node `current`.
unfoldable pub walk : ℕ → List (List ℕ) → Vfs → Option ℕ
walk current [] v = some current
walk current ([] ∷ rest) v = walk current rest v
walk current ((b ∷ name) ∷ rest) v = elim (find_child current (b ∷ name) v) [
  | none ↦ none
  | some next ↦ walk next rest v
]

unfoldable pub lookup : List ℕ → Vfs → Option ℕ
lookup path v = elim (trim_end (trim_start path)) [
  | [] ↦ some 0
  | b ∷ bs ↦ walk 0 (split (b ∷ bs)) v
]

unfoldable pub is_file : NodeKind → Bool
is_file NodeKind.file = true
is_file NodeKind.directory = false

unfoldable pub open_slot : ℕ → Bool → Vfs → Option ℕ × Vfs
open_slot node writable v = elim (position is_none v.open_files) [
  | none ↦ (none, v)
  | some index ↦ (
    some index,
    record v {
      open_files =
          set v.open_files index (some (record { node = node; position = 0; writable = writable }));
    },
  )
]

unfoldable pub open_file : ℕ → Bool → Vfs → Run (Option ℕ × Vfs)
open_file node writable v =
    if leb max_nodes node then Run.panicked else elim (get_or v.nodes node none) [
      | none ↦ Run.returned (none, v)
      | some n ↦ Run.returned (if is_file n.kind then open_slot node writable v else (none, v))
    ]

unfoldable pub file_size : ℕ → Vfs → Run (Option ℕ)
file_size handle v =
    if leb max_open_files handle then Run.panicked else elim (get_or v.open_files handle none) [
      | none ↦ Run.returned none
      | some f ↦
          if leb max_nodes f.node
          then Run.panicked
          else Run.returned (some (get_or v.file_sizes f.node 0))
    ]

unfoldable pub close : ℕ → Vfs → Run (Bool × Vfs)
close handle v =
    if leb max_open_files handle then Run.panicked else elim (get_or v.open_files handle none) [
      | none ↦ Run.returned (false, v)
      | some _ ↦ Run.returned (true, record v { open_files = set v.open_files handle none })
    ]
