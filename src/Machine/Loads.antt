-- ===== src/Machine/Loads.antt =====
-- kernel/src/win32/loader.rs (load_pe) and nt.rs (create_user_process): a process from the bytes of
-- a PE file, and from a file of the file system.
use aperture_os.Prelude.{ℕ, Option, none, some, List, Bool, false, if◌then◌else◌, ◌==◌}
use aperture_os.Memory.{read_bytes, write_bytes}
use aperture_os.EarlyHeap.{alloc_early}
use aperture_os.PeParser.{PeImage, Parsed, parse_pe}
use aperture_os.Objects
use aperture_os.Objects.{Handle, ObjectKind}
use aperture_os.Vfs
use aperture_os.Vfs.{Run}
use aperture_os.Vfs.Files
use aperture_os.Nt.{Kernel, Result}
use aperture_os.Nt.Files.{open_vfs_file}
use aperture_os.Loader.{Layout, write_process, new_process, load_into_process, requires_translation}
use aperture_os.Machine.{Machine, with_memory}

-- `size_of::<Process>()` and `align_of::<Process>()`: seven words of 64 bits and one of 32
abbrev pub process_size : ℕ
process_size = 64

abbrev pub process_align : ℕ
process_align = 8

-- The end of `load_pe`: the object of the process.
unfoldable pub name_process : PeImage → ℕ → Machine → Option (Handle × Bool) × Machine
name_process image address s =
    let (handle, table) = Objects.allocate ObjectKind.process address s.kernel.objects in
    elim handle [
      | none ↦ (none, s)
      | some handle ↦ (
        some (handle, requires_translation image.machine),
        record s { kernel = record s.kernel { objects = table } },
      )
    ]

-- `load_pe` once the file is parsed: the process is written to its block, and then loaded there.
unfoldable pub load_image :
    Layout → PeImage → List ℕ → ℕ → Machine → Option (Handle × Bool) × Machine
load_image o image bytes pid s =
    let (block, h) = alloc_early process_size process_align s.heap in
    elim block [
      | none ↦ (none, record s { heap = h })
      | some ptr ↦
          let (loaded, m) =
            load_into_process o ptr s.kernel_cr3 s.kernel.frames image bytes
              (write_process o ptr (new_process pid) s.kernel.memory) in
          let stored = with_memory m (record s { heap = h }) in
          let named = name_process image ptr stored in if loaded then named else (none, stored)
    ]

unfoldable pub load_pe : Layout → List ℕ → ℕ → Machine → Run (Option (Handle × Bool) × Machine)
load_pe o bytes pid s = elim (parse_pe bytes) [
  | Parsed.panicked ↦ Run.panicked
  | Parsed.absent ↦ Run.returned (none, s)
  | Parsed.found image ↦ Run.returned (load_image o image bytes pid s)
]

abbrev with_kernel : Kernel → Machine → Machine
with_kernel k s = record s { kernel = k }

-- `let _ = vfs::close(file)` and the rest of `create_user_process`
unfoldable pub close_and_load :
    Layout → ℕ → List ℕ → Machine → Run (Option (Handle × Bool) × Machine)
close_and_load o file bytes s = elim (Vfs.close file s.kernel.vfs) [
  | Run.panicked ↦ Run.panicked
  | Run.returned r ↦ load_pe o bytes 1 (record s { kernel = record s.kernel { vfs = r.1 } })
]

-- The buffer at `buf` is filled with the file.
unfoldable pub read_and_load : Layout → ℕ → ℕ → ℕ → Machine → Run (Option (Handle × Bool) × Machine)
read_and_load o file size buf s =
    elim (Vfs.Files.read file (read_bytes buf size s.kernel.memory) s.kernel.vfs s.kernel.memory) [
      | Run.panicked ↦ Run.panicked
      | Run.returned r ↦
          let (count, bytes, v) = r in
          let s' = record s {
            kernel = record s.kernel { vfs = v; memory = write_bytes buf bytes s.kernel.memory };
          } in
          elim count [
            | none ↦ Run.returned (none, s')
            | some n ↦
                let loaded = close_and_load o file bytes s' in
                if n == size then loaded else Run.returned (none, s')
          ]
    ]

unfoldable pub load_open_file : Layout → ℕ → Machine → Run (Option (Handle × Bool) × Machine)
load_open_file o file s = elim (Vfs.file_size file s.kernel.vfs) [
  | Run.panicked ↦ Run.panicked
  | Run.returned none ↦ Run.returned (none, s)
  | Run.returned (some size) ↦
      let (buf, h) = alloc_early size 1 s.heap in
      elim buf [
        | none ↦ Run.returned (none, record s { heap = h })
        | some buf ↦ read_and_load o file size buf (record s { heap = h })
      ]
]

unfoldable pub create_user_process :
    Layout → List ℕ → Machine → Run (Option (Handle × Bool) × Machine)
create_user_process o path s = elim (open_vfs_file path false false s.kernel) [
  | Run.panicked ↦ Run.panicked
  | Run.returned (Result.err status, k) ↦ Run.returned (none, with_kernel k s)
  | Run.returned (Result.ok file, k) ↦ load_open_file o file (with_kernel k s)
]
