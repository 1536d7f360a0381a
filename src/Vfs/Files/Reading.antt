-- ===== src/Vfs/Files/Reading.antt =====
-- kernel/src/vfs/mod.rs: `read` copies the file's bytes from the position on.
use aperture_os.Prelude.{
  ℕ, zero, suc, ◌+◌, ◌-◌, ◌*◌, ◌%◌, ◌≤◌, ◌<◌, ◌≡◌, refl, ap, ap₂, Option, none, some, List, [],
  ◌++◌, arith, length, get_or, drop, min, sym, ◌∙◌, ◌≢◌,
}
use native.Mathlib.Decide.{ℕ_discrete}
use aperture_os.Memory.{Memory}
use aperture_os.Vfs.{Vfs, Run, OpenFile, max_nodes, max_open_files, file_data_frames}
use aperture_os.Vfs.Files.{add_chunk, read_loop, put_position, read}
use aperture_os.Vfs.Files.Contents.{byte_at, span, length-span, span-add, read_chunk-span}

module _ (row : List (Option ℕ)) (size : ℕ) (m : Memory) where
  -- How many bytes one round copies, and how many all rounds copy.
  abbrev round : ℕ → ℕ → ℕ
  round left position = min left (min (4096 - position % 4096) (size - position))

  abbrev total : ℕ → ℕ → ℕ
  total left position = min left (size - position)

  abbrev copied : ℕ → ℕ → Run (List ℕ × ℕ)
  copied left position =
      Run.returned
        (span (byte_at row m) position (total left position), position + total left position)

  loop_ends :
      (fuel left position : ℕ)
      → total left position ≡ 0
      → read_loop fuel row size left position m ≡ copied left position
  unfolding read_loop
  loop_ends zero left position z = let e : position + 0 ≡ position = omega arith in rw z (rw e refl)
  loop_ends (suc fuel) left position z =
      let e : position + 0 ≡ position = omega arith in rw z (rw e (ground arith))

  loop_rounds :
      (fuel left position : ℕ)
      → total left position ≢ 0
      → size ≤ file_data_frames * 4096
      → read_loop (suc fuel) row size left position m
        ≡ add_chunk (span (byte_at row m) position (round left position)) (
            read_loop fuel row size (left - round left position) (position + round left position) m)
  unfolding read_loop
  loop_rounds fuel left position nz small =
      let e = read_chunk-span row position (round left position) m (omega arith) in
      rw (sym e) (ground arith)

  add_chunk-copied :
      (left position : ℕ)
      → total left position ≢ 0
      → add_chunk
          (span (byte_at row m) position (round left position))
          (copied (left - round left position) (position + round left position))
        ≡ copied left position
  unfolding add_chunk
  add_chunk-copied left position nz =
      let n : ℕ = round left position in
      let k : ℕ = total (left - n) (position + n) in
      let e : n + k ≡ total left position = omega arith in
      let d : position + n + k ≡ position + total left position = omega arith in
      ap₂ (λ xs q. Run.returned (xs, q))
        (span-add (byte_at row m) position n k ∙ ap (span (byte_at row m) position) e) d

  -- Fuel for the bytes that are left is enough.
  read_loop_lem :
      (fuel left position : ℕ)
      → left ≤ fuel
      → size ≤ file_data_frames * 4096
      → read_loop fuel row size left position m ≡ copied left position
  read_loop_lem zero left position enough small = loop_ends 0 left position (omega arith)
  read_loop_lem (suc fuel) left position enough small = elim (ℕ_discrete (total left position) 0) [
    | yes z ↦ loop_ends (suc fuel) left position z
    | no nz ↦
        let n : ℕ = round left position in
        loop_rounds fuel left position nz small
        ∙ ap (add_chunk (span (byte_at row m) position n))
            (read_loop_lem fuel (left - n) (position + n) (omega arith) small)
        ∙ add_chunk-copied left position nz
  ]

-- `read` on an open handle fills the start of the buffer with the bytes of the file from the
-- position on, as many as the buffer and the file have, leaves the rest of the buffer, and moves
-- the position behind them; for a file of at most 64 KiB.
pub read_lem :
    (handle : ℕ) (buf : List ℕ) (v : Vfs) (m : Memory) (f : OpenFile)
    → handle < max_open_files
    → get_or v.open_files handle none ≡ some f
    → f.node < max_nodes
    → get_or v.file_sizes f.node 0 ≤ file_data_frames * 4096
    → let n = min (length buf) (get_or v.file_sizes f.node 0 - f.position) in
      read handle buf v m
      ≡ Run.returned (
        some n,
        span (byte_at (get_or v.file_data f.node []) m) f.position n ++ drop n buf,
        put_position handle f (f.position + n) v,
      )
unfolding read
read_lem handle buf v m f l at in_range small =
    let row : List (Option ℕ) = get_or v.file_data f.node [] in
    let size : ℕ = get_or v.file_sizes f.node 0 in
    let n : ℕ = min (length buf) (size - f.position) in
    let loop = read_loop_lem row size m (length buf) (length buf) f.position (omega arith) small in
    ground (arith, loop, length-span (byte_at row m) f.position n)
