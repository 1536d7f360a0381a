-- ===== src/Vfs/Files/Ends.antt =====
-- kernel/src/vfs/mod.rs: the loops of `read` and `write` end after as many rounds as there are bytes.
use native.Mathlib.Decide.{dec_lt}
use aperture_os.Prelude.{
  ℕ, zero, suc, ◌+◌, ◌-◌, ◌/◌, ◌%◌, ◌≤◌, ◌<◌, ◌≡◌, refl, ap, arith, Option, none, some, List, [],
  Option-cases, inl, inr, length, get_or, take, drop, min, length-drop, if◌then◌else◌, ltb, leb,
  ◌==◌, ◌&&◌,
}
use aperture_os.Memory.{Memory}
use aperture_os.Frames.{FrameAllocator}
use aperture_os.Vfs.{Run, file_data_frames}
use aperture_os.Vfs.Files.{
  read_chunk, add_chunk, read_loop, Progress, ensure_frame, place, copy_chunk, add_written,
  write_loop,
}

-- The loop of read ends by itself: once its fuel is as many rounds as bytes of the buffer are still
-- to be filled, any fuel gives the same result.
pub read_loop_ends :
    (f g : ℕ) (row : List (Option ℕ)) (size left position : ℕ) (m : Memory)
    → left ≤ f
    → left ≤ g
    → read_loop f row size left position m ≡ read_loop g row size left position m
unfolding read_loop
read_loop_ends zero zero row size left position m a b = refl
read_loop_ends zero (suc g) row size left position m a b = ground arith
read_loop_ends (suc f) zero row size left position m a b = ground arith
read_loop_ends (suc f) (suc g) row size left position m a b =
    let offset : ℕ = position % 4096 in
    let n : ℕ = min left (min (4096 - offset) (size - position)) in
    let rest : 0 < left
        → position < size
        → read_loop f row size (left - n) (position + n) m
          ≡ read_loop g row size (left - n) (position + n) m =
      λ l p. read_loop_ends f g row size (left - n) (position + n) m (omega arith) (omega arith) in
    elim (dec_lt 0 left) [
      | yes l ↦ elim (dec_lt position size) [
        | yes p ↦
            ap
              (λ r.
                if ltb 0 left && ltb position size
                then if leb file_data_frames (position / 4096)
                  then Run.panicked
                  else add_chunk (read_chunk (get_or row (position / 4096) none) offset n m) r
                else Run.returned ([], position))
              (rest l p)
        | no p ↦ ground arith
      ]
      | no l ↦ ground arith
    ]

-- One round of `write` over what the rounds after it do.
abbrev write_round :
    FrameAllocator
    → List ℕ
    → Progress
    → (List ℕ → Progress → Option ℕ × Progress)
    → Option ℕ × Progress
write_round fa bs p more =
    let frame_index = p.position / 4096 in
    let to_write = min (length bs) (4096 - p.position % 4096) in
    let (slot, m) = ensure_frame fa (get_or p.row frame_index none) p.memory in
    let placed = place frame_index slot m p in
    let next : Option ℕ × Progress = elim slot [
      | none ↦ (none, placed)
      | some frame ↦
          add_written to_write
            (more (drop to_write bs) (copy_chunk frame (take to_write bs) placed))
    ] in
    if length bs == 0
    then (some 0, p)
    else if leb file_data_frames frame_index
    then (some 0, p)
    else next

write_round_ext :
    (fa : FrameAllocator) (bs : List ℕ) (p : Progress)
    (f g : List ℕ → Progress → Option ℕ × Progress)
    → ((q : Progress)
        → (to_write : ℕ) → 0 < to_write
        → f (drop to_write bs) q ≡ g (drop to_write bs) q)
    → write_round fa bs p f ≡ write_round fa bs p g
write_round_ext fa bs p f g h = elim (dec_lt 0 (length bs)) [
  | no l ↦ ground arith
  | yes l ↦
      elim (Option-cases (ensure_frame fa (get_or p.row (p.position / 4096) none) p.memory).0) [
        | inl gone ↦ ground (arith, gone)
        | inr (frame, found) ↦
            let n : ℕ = min (length bs) (4096 - p.position % 4096) in
            let m : Memory = (ensure_frame fa (get_or p.row (p.position / 4096) none) p.memory).1 in
            let q : Progress =
              copy_chunk frame (take n bs) (place (p.position / 4096) (some frame) m p) in
            let same = h q n (omega arith) in ground (arith, found, same)
      ]
]

-- The loop of write ends by itself: once its fuel is as many rounds as bytes are to be written, any
-- fuel gives the same result.
pub write_loop_ends :
    (f g : ℕ) (fa : FrameAllocator) (bs : List ℕ) (p : Progress)
    → length bs ≤ f
    → length bs ≤ g
    → write_loop f fa bs p ≡ write_loop g fa bs p
unfolding write_loop
write_loop_ends zero zero fa bs p a b = refl
write_loop_ends zero (suc g) fa bs p a b = ground arith
write_loop_ends (suc f) zero fa bs p a b = ground arith
write_loop_ends (suc f) (suc g) fa bs p a b =
    write_round_ext fa bs p (write_loop f fa) (write_loop g fa) (λ q n l.
      write_loop_ends f g fa (drop n bs) q (omega (arith, length-drop bs n))
        (omega (arith, length-drop bs n)))
