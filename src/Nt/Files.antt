-- ===== src/Nt/Files.antt =====
-- kernel/src/win32/nt.rs: the system calls on files. A path is the list of its bytes; it is UTF-8.
use aperture_os.Prelude.{
  ℕ, suc, ◌==◌, Option, none, some, List, [], ◌∷◌, Bool, true, false, if◌then◌else◌, take, drop,
}
use aperture_os.Objects
use aperture_os.Objects.{Handle, ObjectKind}
use aperture_os.Vfs
use aperture_os.Vfs.{Run, NodeKind}
use aperture_os.Vfs.Files
use aperture_os.Nt.{Kernel, NtStatus, Result, Action, give, fail, ◌>>=◌, ok_or, lift_run}

-- `path.rfind('/')`
unfoldable pub rfind : List ℕ → Option ℕ
rfind [] = none
rfind (b ∷ path) = elim (rfind path) [
  | some i ↦ some (suc i)
  | none ↦ if b == 47 then some 0 else none
]

unfoldable pub parent : List ℕ → List ℕ
parent path = elim (rfind path) [
  | none ↦ 47 ∷ []
  | some idx ↦ if idx == 0 then 47 ∷ [] else take idx path
]

unfoldable pub file_name : List ℕ → List ℕ
file_name path = elim (rfind path) [ none ↦ path | some idx ↦ drop (suc idx) path ]

-- `vfs::create(parent, name, NodeKind::File)` and `vfs::open(node, writable)`
abbrev pub create_node : ℕ → List ℕ → Action (Option ℕ)
create_node parent_node name k =
    let (r, v) = Vfs.create parent_node name NodeKind.file k.vfs in
    Run.returned (Result.ok r, record k { vfs = v })

abbrev pub with_vfs : Kernel → Run (Option ℕ × Vfs.Vfs) → Run (Option ℕ × Kernel)
with_vfs k Run.panicked = Run.panicked
with_vfs k (Run.returned (r, v)) = Run.returned (r, record k { vfs = v })

abbrev pub open_node : ℕ → Bool → Action (Option ℕ)
open_node node writable k = lift_run (with_vfs k (Vfs.open_file node writable k.vfs))

-- The node that `open_vfs_file` opens, made if it has to be.
unfoldable pub node_for : List ℕ → Bool → Action ℕ
node_for path create k = elim (Vfs.lookup path k.vfs) [
  | some n ↦ if create then fail NtStatus.object_name_collision k else give n k
  | none ↦
      if create
      then (do
        parent_node ← ok_or NtStatus.object_name_not_found (Vfs.lookup (parent path) k.vfs)
        created ← create_node parent_node (file_name path)
        ok_or NtStatus.invalid_parameter created)
          k
      else fail NtStatus.object_name_not_found k
]

unfoldable pub open_vfs_file : List ℕ → Bool → Bool → Action ℕ
open_vfs_file path create write_access = do
  node ← node_for path create
  opened ← open_node node write_access
  ok_or NtStatus.invalid_parameter opened

-- `objects::allocate(ObjectKind::File, vfs_handle)`
abbrev pub new_object : ℕ → Action (Option Handle)
new_object payload k =
    let (r, t) = Objects.allocate ObjectKind.file payload k.objects in
    Run.returned (Result.ok r, record k { objects = t })

unfoldable pub create_file : List ℕ → Bool → Bool → Action Handle
create_file path create write_access = do
  vfs_handle ← open_vfs_file path create write_access
  handle ← new_object vfs_handle
  ok_or NtStatus.invalid_parameter handle

unfoldable pub is_file_object : ObjectKind → Bool
is_file_object ObjectKind.file = true
is_file_object _ = false

-- `vfs_file_from_object`
unfoldable pub vfs_file_from_object : Handle → Action ℕ
vfs_file_from_object handle k = elim (Objects.lookup handle k.objects) [
  | none ↦ fail NtStatus.invalid_parameter k
  | some header ↦
      if is_file_object header.kind
      then give header.payload k
      else fail NtStatus.invalid_parameter k
]

-- `vfs::read` into the buffer `buf`: the count, the buffer afterwards, and the state
abbrev pub with_read :
    Kernel → Run (Option ℕ × List ℕ × Vfs.Vfs) → Run (Result (Option ℕ × List ℕ) × Kernel)
with_read k Run.panicked = Run.panicked
with_read k (Run.returned (r, buf, v)) = Run.returned (Result.ok (r, buf), record k { vfs = v })

abbrev pub read_vfs : ℕ → List ℕ → Action (Option ℕ × List ℕ)
read_vfs vfs_handle buf k = with_read k (Files.read vfs_handle buf k.vfs k.memory)

abbrev pub counted : Option ℕ × List ℕ → Action (ℕ × List ℕ)
counted (none, buf) = fail NtStatus.invalid_parameter
counted (some n, buf) = give (n, buf)

-- The buffer that a call was given is filled in place: it is part of the result.
unfoldable pub read_file : Handle → List ℕ → Action (ℕ × List ℕ)
read_file handle buf = do
  vfs_handle ← vfs_file_from_object handle
  done ← read_vfs vfs_handle buf
  counted done

abbrev pub with_write :
    Kernel → Run (Option ℕ × Vfs.Vfs × (ℕ → ℕ)) → Run (Result (Option ℕ) × Kernel)
with_write k Run.panicked = Run.panicked
with_write k (Run.returned (r, v, m)) = Run.returned (Result.ok r, record k { vfs = v; memory = m })

abbrev pub write_vfs : ℕ → List ℕ → Action (Option ℕ)
write_vfs vfs_handle bs k = with_write k (Files.write vfs_handle bs k.frames k.vfs k.memory)

unfoldable pub write_file : Handle → List ℕ → Action ℕ
write_file handle bs = do
  vfs_handle ← vfs_file_from_object handle
  done ← write_vfs vfs_handle bs
  ok_or NtStatus.invalid_parameter done

-- What `close` does once the handle is known to be a file's: `vfs::close`, then `objects::close`.
abbrev pub close_object : Handle → Kernel → Run (Bool × Vfs.Vfs) → Run (NtStatus × Kernel)
close_object handle k Run.panicked = Run.panicked
close_object handle k (Run.returned (_, v)) =
    let (closed, t) = Objects.close handle k.objects in
    Run.returned (
      if closed then NtStatus.success else NtStatus.invalid_parameter,
      record k { vfs = v; objects = t },
    )

unfoldable pub close : Handle → Kernel → Run (NtStatus × Kernel)
close handle k = elim (Objects.lookup handle k.objects) [
  | none ↦ Run.returned (NtStatus.invalid_parameter, k)
  | some header ↦
      if is_file_object header.kind
      then close_object handle k (Vfs.close header.payload k.vfs)
      else Run.returned (NtStatus.invalid_parameter, k)
]
