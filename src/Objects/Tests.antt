-- ===== src/Objects/Tests.antt =====
-- kernel/src/win32/objects.rs: runs of the handle table, and its theorems at concrete tables.
use aperture_os.Prelude.{◌≡◌, refl, none, some, arith, position}
use aperture_os.Objects.{ObjectKind, ObjectTable, initial, allocate, lookup, close}
use aperture_os.Objects.Dense.{IsDense, IsDense-initial, header, lookup-allocate, stale_handle}

abbrev one_file : ObjectTable
one_file = (allocate ObjectKind.file 7 initial).1

first_handle : (allocate ObjectKind.file 7 initial).0 ≡ some 1
unfolding allocate initial position
first_handle = refl

one_file-IsDense : IsDense 1 one_file
one_file-IsDense = (lookup-allocate ObjectKind.file 7 0 initial (omega arith) IsDense-initial).3

stale_handle_example :
    let (r, t) = allocate ObjectKind.thread 9 (close 1 one_file).1 in
    (r ≡ some 2) × (lookup 2 t ≡ none) × (lookup 1 t ≡ some (header ObjectKind.thread 9))
stale_handle_example =
    stale_handle ObjectKind.thread 9 1 one_file 1 (omega arith) (omega arith) (omega arith)
      one_file-IsDense
