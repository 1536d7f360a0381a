-- ===== src/Vfs/Files/Writing.antt =====
-- kernel/src/vfs/mod.rs: `write` stores its bytes at the position and keeps the rest of the file.
use native.Mathlib.Decide.{ℕ_discrete, dec_lt}
use aperture_os.Prelude.{
  get_or-take, length-take_le, length-drop, ℕ, zero, suc, ◌+◌, ◌-◌, ◌/◌, ◌%◌, ◌≤◌, ◌<◌, ◌≡◌, ◌∙◌,
  refl, ap, sym, subst, Option, none, some, List, [], ◌∷◌, Bool, arith, length, get_or, set, take,
  drop, get_or-set_self, true, false, leb, ◌==◌, min, if◌then◌else◌,
}
use aperture_os.Memory.{Memory}
use aperture_os.Frames.{FrameAllocator, allocate_frame}
use aperture_os.Frames.Allocate.{IsCovered}
use aperture_os.Vfs.{file_data_frames}
use aperture_os.Vfs.Files.{Progress, ensure_frame, place, copy_chunk, add_written, write_loop}
use aperture_os.Vfs.Files.Contents.{byte_at}
use aperture_os.Vfs.Files.Owned.{IsOwned, Keeps, place-IsOwned, place-Keeps}
use aperture_os.Vfs.Files.Copying.{Writes, copy-IsOwned, copy-Writes}
use aperture_os.Vfs.Files.Wrote.{Wrote, Wrote-none, room, Outcome, Outcome-add_written}

set-get_or : (xs : List (Option ℕ)) (i : ℕ) → set xs i (get_or xs i none) ≡ xs
set-get_or [] i = refl
set-get_or (x ∷ xs) zero = refl
set-get_or (x ∷ xs) (suc i) = ap (λ ys. x ∷ ys) (set-get_or xs i)

-- What the allocation of the frame at the position promises.
data Placed (fa : FrameAllocator) (p : Progress) : Option ℕ × Memory → Type 0 where
  got :
      (frame : ℕ) (m : Memory)
      → (let q = place (p.position / 4096) (some frame) m p in
          IsOwned fa q × Keeps p q × (get_or q.row (p.position / 4096) none ≡ some frame))
      → Placed fa p (some frame, m)
  out : (allocate_frame fa p.memory).0 ≡ none → Placed fa p (none, (allocate_frame fa p.memory).1)

allocate-Placed :
    (fa : FrameAllocator) (p : Progress) (r : Option ℕ) (m : Memory)
    → IsCovered fa
    → IsOwned fa p
    → get_or p.row (p.position / 4096) none ≡ none
    → p.position / 4096 < file_data_frames
    → allocate_frame fa p.memory ≡ (r, m)
    → Placed fa p (r, m)
allocate-Placed fa p none m c o free l e =
    let gone : (allocate_frame fa p.memory).0 ≡ none = ap (λ (x : Option ℕ × Memory). x.0) e in
    let same : (allocate_frame fa p.memory).1 ≡ m = ap (λ (x : Option ℕ × Memory). x.1) e in
    subst (λ m'. Placed fa p (none, m')) same (Placed.out gone)
allocate-Placed fa p (some frame) m c o free l e = Placed.got frame m (
  place-IsOwned fa p frame m c o free l e,
  place-Keeps fa p frame m c o free l e,
  get_or-set_self p.row (p.position / 4096) (some frame) none (omega (arith, o.full_row)),
)

ensure-Placed :
    (fa : FrameAllocator) (p : Progress) (slot : Option ℕ)
    → IsCovered fa
    → IsOwned fa p
    → p.position / 4096 < file_data_frames
    → get_or p.row (p.position / 4096) none ≡ slot
    → Placed fa p (ensure_frame fa slot p.memory)
unfolding ensure_frame
ensure-Placed fa p none c o l at =
    allocate-Placed fa p (allocate_frame fa p.memory).0 (allocate_frame fa p.memory).1 c o at l refl
ensure-Placed fa p (some frame) c o l at =
    let same : set p.row (p.position / 4096) (some frame) ≡ p.row =
      rw at at (set-get_or p.row (p.position / 4096)) in
    Placed.got frame p.memory (
      subst (λ row. IsOwned fa (record p { row = row })) (sym same) o,
      (λ i k. ap (λ row. byte_at row p.memory i) same),
      ap (λ row. get_or row (p.position / 4096) none) same ∙ at,
    )

-- A round that got its frame has written `n` bytes.
copy-Wrote :
    (fa : FrameAllocator) (bs : List ℕ) (n : ℕ) (p : Progress) (frame : ℕ) (m : Memory)
    → IsCovered fa
    → (let q = place (p.position / 4096) (some frame) m p in
        n ≤ length bs
        → p.position % 4096 + n ≤ 4096
        → IsOwned fa q
        → Keeps p q
        → get_or q.row (p.position / 4096) none ≡ some frame
        → p.position ≤ p.size
        → Wrote fa bs n p (copy_chunk frame (take n bs) q))
unfolding copy_chunk
copy-Wrote fa bs n p frame m c l fits o keeps at low =
    let q : Progress = place (p.position / 4096) (some frame) m p in
    let len : length (take n bs) ≡ n = length-take_le bs n l in
    let fits' : q.position % 4096 + length (take n bs) ≤ 4096 = omega (arith, len) in
    let done : Writes (take n bs) q (copy_chunk frame (take n bs) q) =
      copy-Writes fa q frame (take n bs) c o at fits' in
    record {
      owned = copy-IsOwned fa q frame (take n bs) c o at fits';
      position_moved = omega (arith, len);
      size_grown = omega (arith, len);
      bytes = λ i k. elim (dec_lt i p.position) [
        | yes before ↦ ground (arith, done i k, keeps i (omega arith), len)
        | no start ↦ elim (dec_lt i (p.position + n)) [
          | yes within ↦
              ground (arith, done i k, get_or-take bs n (i - p.position) (omega arith), len)
          | no after ↦ ground (arith, done i k, keeps i (omega (arith, len, k)), len)
        ]
      ];
    }

-- One round, given what the rounds after it do.
round_lem :
    (fa : FrameAllocator) (bs : List ℕ) (p : Progress) (r : Option ℕ × Memory)
    → (rest : Progress → Option ℕ × Progress) → IsCovered fa
    → IsOwned fa p
    → 0 < length bs
    → p.position / 4096 < file_data_frames
    → (let n = min (length bs) (4096 - p.position % 4096) in
        ((q : Progress) → IsOwned fa q → Outcome fa (drop n bs) q (rest q))
        → Placed fa p r
        → Outcome fa bs p (elim r.0 [
          | none ↦ (none, place (p.position / 4096) r.0 r.1 p)
          | some frame ↦
              add_written n
                (rest (copy_chunk frame (take n bs) (place (p.position / 4096) r.0 r.1 p)))
        ]))
round_lem fa bs p r rest c o s l ih (Placed.out gone) =
    Outcome.no_frame 0 p (omega arith) (Wrote-none fa bs p o) gone
round_lem fa bs p r rest c o s l ih (Placed.got frame m h) =
    let n : ℕ = min (length bs) (4096 - p.position % 4096) in
    let q : Progress = copy_chunk frame (take n bs) (place (p.position / 4096) (some frame) m p) in
    let w : Wrote fa bs n p q =
      copy-Wrote fa bs n p frame m c (omega arith) (omega arith) h.0 h.1 h.2 o.at_end in
    Outcome-add_written fa bs n p q (rest q) w (omega arith) (omega arith) (ih q w.owned)

Outcome-stop :
    (fa : FrameAllocator) (bs : List ℕ) (p : Progress)
    → IsOwned fa p
    → 0 ≡ room bs p
    → Outcome fa bs p (some 0, p)
Outcome-stop fa bs p o z =
    subst (λ n. Outcome fa bs p (some n, p)) (sym z)
      (Outcome.wrote p (subst (λ n. Wrote fa bs n p p) z (Wrote-none fa bs p o)))

if_neither :
    {A : Type 0} (P : A → Type 0) (a b : Bool) (x y z : A)
    → a ≡ false
    → b ≡ false
    → P z
    → P (if a then x else if b then y else z)
if_neither P true b x y z h k t = absurd (ground arith)
if_neither P false true x y z h k t = absurd (ground arith)
if_neither P false false x y z h k t = t

-- The loop of `write`, with fuel for the bytes that are left: it writes as many of them as a file
-- of 64 KiB has room for, or stops where no frame is left, with the bytes before it written.
pub write_loop-Outcome :
    (fuel : ℕ) (fa : FrameAllocator) (bs : List ℕ) (p : Progress)
    → IsCovered fa
    → IsOwned fa p
    → length bs ≤ fuel
    → Outcome fa bs p (write_loop fuel fa bs p)
unfolding write_loop
write_loop-Outcome zero fa bs p c o enough = Outcome-stop fa bs p o (omega arith)
write_loop-Outcome (suc fuel) fa bs p c o enough = elim (ℕ_discrete (room bs p) 0) [
  | yes z ↦
      let e : write_loop (suc fuel) fa bs p ≡ (some 0, p) = ground arith in
      subst (Outcome fa bs p) (sym e) (Outcome-stop fa bs p o (sym z))
  | no nz ↦
      let n : ℕ = min (length bs) (4096 - p.position % 4096) in
      let slot : Option ℕ = get_or p.row (p.position / 4096) none in
      let s : 0 < length bs = omega arith in
      let l : p.position / 4096 < file_data_frames = omega arith in
      if_neither (Outcome fa bs p) (length bs == 0) (leb file_data_frames (p.position / 4096)) _ _ _
        (ground arith) (ground arith)
        (round_lem fa bs p (ensure_frame fa slot p.memory) (write_loop fuel fa (drop n bs)) c o s l
          (λ q o'. write_loop-Outcome fuel fa (drop n bs) q c o' (omega (arith, length-drop bs n)))
          (ensure-Placed fa p slot c o l refl))
]
