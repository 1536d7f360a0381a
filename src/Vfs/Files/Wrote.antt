-- ===== src/Vfs/Files/Wrote.antt =====
-- kernel/src/vfs/mod.rs: what `write` has done when it stops, and how its rounds join.
use native.Mathlib.Decide.{dec_lt}
use aperture_os.Prelude.{
  ℕ, ◌+◌, ◌-◌, ◌*◌, ◌/◌, ◌≤◌, ◌<◌, ◌≡◌, Option, none, some, List, arith, length, get_or, drop,
  length-drop, get_or-drop, leb, ltb, min, if◌then◌else◌, max, ◌&&◌,
}
use aperture_os.Frames.{FrameAllocator, allocate_frame}
use aperture_os.Vfs.{file_data_frames}
use aperture_os.Vfs.Files.{Progress, place, add_written}
use aperture_os.Vfs.Files.Contents.{byte_at}
use aperture_os.Vfs.Files.Owned.{IsOwned}

-- `q` is `p` after the first `n` bytes of `bs` were written.
pub record Wrote (fa : FrameAllocator) (bs : List ℕ) (n : ℕ) (p q : Progress) : Type 0 where
  pub owned : IsOwned fa q
  pub position_moved : q.position ≡ p.position + n
  pub size_grown : q.size ≡ max p.size (p.position + n)
  pub bytes :
      (i : ℕ)
      → i < q.size
      → byte_at q.row q.memory i ≡ (
          if leb p.position i && ltb i (p.position + n)
          then get_or bs (i - p.position) 0
          else byte_at p.row p.memory i)

pub Wrote-none :
    (fa : FrameAllocator) (bs : List ℕ) (p : Progress) → IsOwned fa p → Wrote fa bs 0 p p
Wrote-none fa bs p o = record {
  owned = o;
  position_moved = omega arith;
  size_grown = omega (arith, o.at_end);
  bytes = λ i l. ground arith;
}

Wrote-join :
    (fa : FrameAllocator) (bs : List ℕ) (n k : ℕ) (p q r : Progress)
    → Wrote fa bs n p q
    → Wrote fa (drop n bs) k q r
    → Wrote fa bs (n + k) p r
Wrote-join fa bs n k p q r w u = record {
  owned = u.owned;
  position_moved = omega (arith, w.position_moved, u.position_moved);
  size_grown = omega (arith, w.position_moved, w.size_grown, u.size_grown);
  bytes = λ i l. elim (dec_lt i q.position) [
    | yes before ↦
        ground (arith, u.bytes i l, w.bytes i (omega (arith, w.owned.at_end)), w.position_moved)
    | no start ↦ elim (dec_lt i (q.position + k)) [
      | yes within ↦
          let e : n + (i - q.position) ≡ i - p.position = omega (arith, w.position_moved) in
          ground (arith, u.bytes i l, rw e at (get_or-drop bs n (i - q.position)), w.position_moved)
      | no after ↦
          ground (arith, u.bytes i l, w.bytes i (omega (arith, u.size_grown)), w.position_moved)
    ]
  ];
}

-- How many bytes `write` has room for.
abbrev pub room : List ℕ → Progress → ℕ
room bs p = min (length bs) (file_data_frames * 4096 - p.position)

-- What the loop of `write` promises, by its result.
pub data Outcome (fa : FrameAllocator) (bs : List ℕ) (p : Progress)
    : Option ℕ × Progress → Type 0 where
  wrote : (q : Progress) → Wrote fa bs (room bs p) p q → Outcome fa bs p (some (room bs p), q)
  no_frame :
      (n : ℕ) (q : Progress)
      → n < room bs p
      → Wrote fa bs n p q
      → (allocate_frame fa q.memory).0 ≡ none
      → Outcome fa bs p (none, place (q.position / 4096) none (allocate_frame fa q.memory).1 q)

pub Outcome-add_written :
    (fa : FrameAllocator) (bs : List ℕ) (n : ℕ) (p q : Progress) (r : Option ℕ × Progress)
    → Wrote fa bs n p q
    → n ≤ room bs p
    → 0 < n
    → Outcome fa (drop n bs) q r
    → Outcome fa bs p (add_written n r)
unfolding add_written
Outcome-add_written fa bs n p q r w l s (Outcome.wrote q' u) =
    let e : n + room (drop n bs) q ≡ room bs p =
      omega (arith, length-drop bs n, w.position_moved) in
    let joined = Wrote-join fa bs n (room (drop n bs) q) p q q' w u in
    rw e (Outcome.wrote q' (rw e at joined))
Outcome-add_written fa bs n p q r w l s (Outcome.no_frame k q' k-lt u gone) =
    let k-below : n + k < room bs p = omega (arith, length-drop bs n, w.position_moved, k-lt) in
    Outcome.no_frame (n + k) q' k-below (Wrote-join fa bs n k p q q' w u) gone
