-- ===== src/Nt/Sharing.antt =====
-- kernel/src/win32/nt.rs: a handle of `create_file` stands for the open file of the file system.
use aperture_os.Prelude.{
  ℕ, ◌+◌, ◌<◌, ◌≤◌, ◌≡◌, ◌∙◌, ap, Option, some, List, Bool, true, false, arith, length,
}
use aperture_os.Objects
use aperture_os.Objects.{ObjectKind, ObjectTable, Handle, max_handles}
use aperture_os.Objects.Dense.{IsDense, header, lookup-allocate}
use aperture_os.Vfs
use aperture_os.Vfs.{Run, max_nodes, max_open_files}
use aperture_os.Vfs.Handles.{open_file-Reopens}
use aperture_os.Nt.{Kernel, NtStatus, Result, continue, ok_or}
use aperture_os.Nt.Files.{
  create_file, open_vfs_file, node_for, vfs_file_from_object, read_file, read_vfs, counted,
  write_file, write_vfs, close, is_file_object,
}

-- The last step of `create_file`: the object of the open file, or `InvalidParameter`.
abbrev pub with_object : Kernel → Option Handle × ObjectTable → Run (Result Handle × Kernel)
with_object k r = ok_or NtStatus.invalid_parameter r.0 (record k { objects = r.1 })

node_for_found :
    (path : List ℕ) (k : Kernel) (node : ℕ)
    → Vfs.lookup path k.vfs ≡ some node
    → node_for path false k ≡ Run.returned (Result.ok node, k)
unfolding node_for
node_for_found path k node found = ground arith

open_found :
    (path : List ℕ) (write : Bool) (k : Kernel) (node vfs_handle : ℕ) (v : Vfs.Vfs)
    → Vfs.lookup path k.vfs ≡ some node
    → Vfs.open_file node write k.vfs ≡ Run.returned (some vfs_handle, v)
    → open_vfs_file path false write k ≡ Run.returned (Result.ok vfs_handle, record k { vfs = v })
unfolding open_vfs_file
open_found path write k node vfs_handle v found opened =
    ground (arith, node_for_found path k node found)

-- `create_file` of a file that is there.
pub create_file_found :
    (path : List ℕ) (write : Bool) (k : Kernel) (node vfs_handle : ℕ) (v : Vfs.Vfs)
    → Vfs.lookup path k.vfs ≡ some node
    → Vfs.open_file node write k.vfs ≡ Run.returned (some vfs_handle, v)
    → create_file path false write k
      ≡ with_object (record k { vfs = v }) (Objects.allocate ObjectKind.file vfs_handle k.objects)
unfolding create_file
create_file_found path write k node vfs_handle v found opened =
    ground (arith, open_found path write k node vfs_handle v found opened)

-- The state after `create_file` opened a file that is there.
abbrev pub opened_state : ℕ → Vfs.Vfs → Kernel → Kernel
opened_state vfs_handle v k = record k {
  vfs = v;
  objects = (Objects.allocate ObjectKind.file vfs_handle k.objects).1;
}

resolves :
    (handle vfs_handle : ℕ) (k : Kernel)
    → Objects.lookup handle k.objects ≡ some (header ObjectKind.file vfs_handle)
    → vfs_file_from_object handle k ≡ Run.returned (Result.ok vfs_handle, k)
unfolding vfs_file_from_object is_file_object
resolves handle vfs_handle k e = ground arith

reads :
    (handle vfs_handle : ℕ) (buf : List ℕ) (k : Kernel)
    → Objects.lookup handle k.objects ≡ some (header ObjectKind.file vfs_handle)
    → read_file handle buf k ≡ continue counted (read_vfs vfs_handle buf k)
unfolding read_file
reads handle vfs_handle buf k e = ground (arith, resolves handle vfs_handle k e)

writes :
    (handle vfs_handle : ℕ) (bs : List ℕ) (k : Kernel)
    → Objects.lookup handle k.objects ≡ some (header ObjectKind.file vfs_handle)
    → write_file handle bs k
      ≡ continue (λ done. ok_or NtStatus.invalid_parameter done) (write_vfs vfs_handle bs k)
unfolding write_file
writes handle vfs_handle bs k e = ground (arith, resolves handle vfs_handle k e)

object-close :
    (handle vfs_handle : ℕ) (t : ObjectTable)
    → Objects.lookup handle t ≡ some (header ObjectKind.file vfs_handle)
    → (Objects.close handle t).0 ≡ true
unfolding Objects.close Objects.lookup
object-close handle vfs_handle t e = ground arith

closes :
    (handle vfs_handle : ℕ) (k : Kernel) (v : Vfs.Vfs)
    → Objects.lookup handle k.objects ≡ some (header ObjectKind.file vfs_handle)
    → Vfs.close vfs_handle k.vfs ≡ Run.returned (true, v)
    → close handle k
      ≡ Run.returned
          (NtStatus.success, record k { vfs = v; objects = (Objects.close handle k.objects).1 })
unfolding close is_file_object
closes handle vfs_handle k v e c = ground (arith, object-close handle vfs_handle k.objects e)

-- What a call of `create_file` that returned the handle `handle` promises of the state `k'` after it:
-- reads and writes through the handle are those of the open file `vfs_handle`, and closing it gives
-- the file system `v` back that there was before.
pub record Serves (handle vfs_handle : ℕ) (v : Vfs.Vfs) (k' : Kernel) : Type 0 where
  pub reads :
      (buf : List ℕ) → read_file handle buf k' ≡ continue counted (read_vfs vfs_handle buf k')
  pub writes :
      (bs : List ℕ)
      → write_file handle bs k'
        ≡ continue (λ done. ok_or NtStatus.invalid_parameter done) (write_vfs vfs_handle bs k')
  pub closes :
      close handle k'
      ≡ Run.returned
          (NtStatus.success, record k' { vfs = v; objects = (Objects.close handle k'.objects).1 })

-- While no handle was closed and there is room in the handle table, `create_file` without the create
-- flag, of a file that the file system finds and opens, returns the next handle. Through that handle
-- `read_file` and `write_file` act on the open file, `close` succeeds and gives the file system back
-- as it was, and the handles given out before resolve to the same objects.
pub create_file-Serves :
    (path : List ℕ) (write : Bool) (k : Kernel) (n node vfs_handle : ℕ) (v : Vfs.Vfs)
    → n < max_handles
    → IsDense n k.objects
    → node < max_nodes
    → length k.vfs.open_files ≤ max_open_files
    → Vfs.lookup path k.vfs ≡ some node
    → Vfs.open_file node write k.vfs ≡ Run.returned (some vfs_handle, v)
    → let k' = opened_state vfs_handle v k in
      (create_file path false write k ≡ Run.returned (Result.ok (n + 1), k'))
      × Serves (n + 1) vfs_handle k.vfs k'
      × ((h : Handle) → 0 < h → h ≤ n → Objects.lookup h k'.objects ≡ Objects.lookup h k.objects)
create_file-Serves path write k n node vfs_handle v room dense l size found opened =
    let k' = opened_state vfs_handle v k in
    let (given, now, others, _) =
      lookup-allocate ObjectKind.file vfs_handle n k.objects room dense in
    (
      create_file_found path write k node vfs_handle v found opened
          ∙ ap (λ r. ok_or NtStatus.invalid_parameter r k') given,
      record {
        reads = λ buf. reads (n + 1) vfs_handle buf k' now;
        writes = λ bs. writes (n + 1) vfs_handle bs k' now;
        closes =
            closes (n + 1) vfs_handle k' k.vfs now
              (open_file-Reopens node write k.vfs vfs_handle v l size opened).closed;
      },
      others,
    )
