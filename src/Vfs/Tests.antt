-- ===== src/Vfs/Tests.antt =====
-- kernel/src/vfs/mod.rs: runs of the file system, and its theorems at concrete states.
use aperture_os.Prelude.{
  ℕ, ◌≡◌, ◌≤◌, ◌&&◌, refl, some, none, List, [], ◌∷◌, true, arith, length, replicate, position,
  if◌then◌else◌, ◌==◌,
}
use aperture_os.Vfs.{
  Vfs, blank, NodeKind, init, find_child, is_child, name_str, new_node, store_node, create,
  bytes_eq, split, trim_start, trim_end, walk, lookup, open_file, open_slot, is_file, Run,
}
use aperture_os.Vfs.Handles.{at_start}
use aperture_os.Vfs.Names.{init-IsUnique, IsUnique, find_child-create}
use aperture_os.Vfs.Paths.{and_then, lookup-slash}

-- "C:"
abbrev drive : List ℕ
drive = 67 ∷ 58 ∷ []

abbrev started : Vfs
started = init blank

abbrev with_drive : Vfs
with_drive = (create 0 drive NodeKind.directory started).1

-- "a" in the drive
abbrev with_file : Vfs
with_file = (create 1 (97 ∷ []) NodeKind.file with_drive).1

created_drive : (create 0 drive NodeKind.directory started).0 ≡ some 1
unfolding create find_child is_child name_str bytes_eq store_node new_node position init blank
created_drive = refl

-- "/C://a/" is found.
lookup_run : lookup (47 ∷ 67 ∷ 58 ∷ 47 ∷ 47 ∷ 97 ∷ 47 ∷ []) with_file ≡ some 2
unfolding lookup walk split trim_start trim_end create find_child is_child name_str bytes_eq
    store_node new_node position init blank
lookup_run = refl

find_child-create_example :
    ((p : ℕ) (s : List ℕ)
      → find_child p s with_drive
        ≡ (if 0 == p && bytes_eq drive s then some 1 else find_child p s started))
    × IsUnique with_drive
find_child-create_example =
    find_child-create 0 drive NodeKind.directory started 1 init-IsUnique created_drive

lookup-slash_example :
    lookup (47 ∷ 67 ∷ 58 ∷ 47 ∷ 97 ∷ []) with_file
    ≡ and_then (lookup (47 ∷ 67 ∷ 58 ∷ []) with_file) (λ n. find_child n (97 ∷ []) with_file)
lookup-slash_example =
    lookup-slash (47 ∷ 67 ∷ 58 ∷ []) 97 [] with_file ((λ e. absurd (omega arith)), tt)

abbrev with_open : Vfs
with_open = record with_file { open_files = some (at_start 2 true) ∷ replicate 63 none }

open_run : open_file 2 true with_file ≡ Run.returned (some 0, with_open)
unfolding open_file open_slot is_file create find_child is_child name_str bytes_eq store_node
    new_node position init blank
open_run = refl

open_room : length with_file.open_files ≤ 64
unfolding create find_child is_child name_str bytes_eq store_node new_node position init blank
open_room = omega arith
