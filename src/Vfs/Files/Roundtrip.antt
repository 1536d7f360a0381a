-- ===== src/Vfs/Files/Roundtrip.antt =====
-- kernel/src/vfs/mod.rs: `write` through one handle and `read` through another.
use native.Mathlib.Decide.{dec_lt}
use aperture_os.Prelude.{
  ℕ, zero, suc, ◌+◌, ◌-◌, ◌*◌, ◌≤◌, ◌<◌, ◌≡◌, ◌≢◌, ◌∙◌, refl, ap, ap₂, sym, subst, Option, none,
  some, List, [], ◌∷◌, ◌++◌, true, arith, length, get_or, take, drop, get_or-set_self,
  get_or-set_ne, min,
}
use aperture_os.Memory.{Memory}
use aperture_os.Frames.{FrameAllocator}
use aperture_os.Frames.Allocate.{IsCovered}
use aperture_os.Vfs.{Vfs, Run, OpenFile, max_nodes, max_open_files, file_data_frames}
use aperture_os.Vfs.Files.{
  Progress, progress_of, put_progress, put_position, write_loop, write, read,
}
use aperture_os.Vfs.Files.Contents.{byte_at, span}
use aperture_os.Vfs.Files.Reading.{read_lem}
use aperture_os.Vfs.Files.Owned.{IsOwned}
use aperture_os.Vfs.Files.Wrote.{Wrote, Outcome, room}
use aperture_os.Vfs.Files.Writing.{write_loop-Outcome}

-- What a call of `write` on an open, writable handle promises: the new file contents as `Outcome`
-- says, stored with the new position, frames and size.
pub record WriteResult (handle : ℕ) (bs : List ℕ) (fa : FrameAllocator) (v : Vfs) (m : Memory)
    (f : OpenFile) (result : Run (Option ℕ × Vfs × Memory)) : Type 0 where
  pub count : Option ℕ
  pub progress : Progress
  pub outcome : Outcome fa bs (progress_of f v m) (count, progress)
  pub returns : result ≡ Run.returned (count, put_progress handle f progress v, progress.memory)

-- `write` through an open, writable handle of a file whose frames are in order (`IsOwned`) stores the
-- bytes that it was given, as many as 64 KiB have room for, and keeps the rest of the file; it
-- returns nothing only when no frame is left, and then a shorter part was stored.
pub write-WriteResult :
    (handle : ℕ) (bs : List ℕ) (fa : FrameAllocator) (v : Vfs) (m : Memory) (f : OpenFile)
    → handle < max_open_files
    → get_or v.open_files handle none ≡ some f
    → f.writable ≡ true
    → f.node < max_nodes
    → IsCovered fa
    → IsOwned fa (progress_of f v m)
    → WriteResult handle bs fa v m f (write handle bs fa v m)
unfolding write
write-WriteResult handle bs fa v m f l at writable in_range c o = record {
  count = (write_loop (length bs) fa bs (progress_of f v m)).0;
  progress = (write_loop (length bs) fa bs (progress_of f v m)).1;
  outcome = write_loop-Outcome (length bs) fa bs (progress_of f v m) c o (omega arith);
  returns = ground arith;
}

get_or_beyond : (xs : List (Option ℕ)) (i : ℕ) → length xs ≤ i → get_or xs i none ≡ none
get_or_beyond [] i l = refl
get_or_beyond (x ∷ xs) zero l = absurd (omega arith)
get_or_beyond (x ∷ xs) (suc i) l = get_or_beyond xs i (omega arith)

-- The frames of a file bound its size.
size_bound : (fa : FrameAllocator) (p : Progress) → IsOwned fa p → p.size ≤ file_data_frames * 4096
size_bound fa p o = elim (dec_lt 65536 p.size) [
  | yes big ↦
      absurd
        (ground (arith, o.backed 65536 big, get_or_beyond p.row 16 (omega (arith, o.full_row))))
  | no small ↦ omega arith
]

span-take :
    (f : ℕ → ℕ) (i n : ℕ) (bs : List ℕ)
    → n ≤ length bs
    → ((j : ℕ) → j < n → f (i + j) ≡ get_or bs j 0)
    → span f i n ≡ take n bs
span-take f i zero bs l h = refl
span-take f i (suc n) [] l h = absurd (omega arith)
span-take f i (suc n) (b ∷ bs) l h =
    let e : i + 0 ≡ i = omega arith in
    ap₂ ◌∷◌ (rw e at (h 0 (omega arith))) (
      span-take f (i + 1) n bs (omega arith)
        (λ j k. let e' : i + suc j ≡ i + 1 + j = omega arith in rw e' at (h (suc j) (omega arith))))

drop_all : (xs : List ℕ) (n : ℕ) → length xs ≡ n → drop n xs ≡ []
drop_all [] zero h = refl
drop_all [] (suc n) h = refl
drop_all (x ∷ xs) zero h = absurd (ground arith)
drop_all (x ∷ xs) (suc n) h = drop_all xs n (omega arith)

append_nil : (xs : List ℕ) → xs ++ [] ≡ xs
append_nil [] = refl
append_nil (x ∷ xs) = ap (λ ys. x ∷ ys) (append_nil xs)

abbrev value_of : {A : Type 0} → A → Run A → A
value_of d (Run.returned a) = a
value_of d Run.panicked = d

-- Reading `n` bytes where `write` has just put the first `n` bytes of `bs`.
Wrote-span :
    (fa : FrameAllocator) (bs : List ℕ) (n : ℕ) (p q : Progress)
    → n ≤ length bs
    → Wrote fa bs n p q
    → span (byte_at q.row q.memory) p.position n ≡ take n bs
Wrote-span fa bs n p q l w = span-take (byte_at q.row q.memory) p.position n bs l (λ j k.
    let e : p.position + j - p.position ≡ j = omega arith in
    ground (arith, w.bytes (p.position + j) (omega (arith, w.size_grown)), e))

module _ (handle reader : ℕ) (bs buf : List ℕ) (fa : FrameAllocator) (v : Vfs) (m : Memory)
    (f g : OpenFile) (c : IsCovered fa) (o : IsOwned fa (progress_of f v m))
    (apart : handle ≢ reader) (l : reader < max_open_files)
    (at : get_or v.open_files reader none ≡ some g) (same : g.node ≡ f.node)
    (start : g.position ≡ f.position) (in_range : f.node < max_nodes)
    (in_data : f.node < length v.file_data) (in_sizes : f.node < length v.file_sizes) where
  -- The state and memory after the write, seen by the reader.
  stored_read :
      (n : ℕ) (q : Progress)
      → n ≤ length bs
      → Wrote fa bs n (progress_of f v m) q
      → length buf ≡ n
      → read reader buf (put_progress handle f q v) q.memory
        ≡ Run.returned
            (some n, take n bs, put_position reader g (f.position + n) (put_progress handle f q v))
  unfolding put_progress
  stored_read n q fits w len =
      let v' : Vfs = put_progress handle f q v in
      let answer : ℕ → List ℕ → ℕ → Run (Option ℕ × List ℕ × Vfs) =
        λ k xs x. Run.returned (some k, xs, put_position reader g (x + k) v') in
      let open_now : get_or v'.open_files reader none ≡ some g =
        get_or-set_ne v.open_files handle reader _ none apart ∙ at in
      let size_now : get_or v'.file_sizes g.node 0 ≡ q.size =
        ap (λ k. get_or v'.file_sizes k 0) same
        ∙ get_or-set_self v.file_sizes f.node q.size 0 in_sizes in
      let row_now : get_or v'.file_data g.node [] ≡ q.row =
        ap (λ k. get_or v'.file_data k []) same
        ∙ get_or-set_self v.file_data f.node q.row [] in_data in
      let count : min (length buf) (get_or v'.file_sizes g.node 0 - g.position) ≡ n =
        omega (arith, size_now, w.size_grown, start, len) in
      let bytes : span (byte_at q.row q.memory) f.position n ++ drop n buf ≡ take n bs =
        ap₂ (λ xs ys. xs ++ ys) (Wrote-span fa bs n (progress_of f v m) q fits w)
          (drop_all buf n len)
        ∙ append_nil (take n bs) in
      read_lem reader buf v' q.memory g l open_now (rw same in_range)
        (rw size_now (size_bound fa q w.owned))
      ∙ ap
          (λ k.
            answer k
              (span (byte_at (get_or v'.file_data g.node []) q.memory) g.position k ++ drop k buf)
              g.position)
          count
      ∙ ap₂ (λ row x. answer n (span (byte_at row q.memory) x n ++ drop n buf) x) row_now start
      ∙ ap (λ xs. answer n xs f.position) bytes

  Outcome-read :
      (n : ℕ) (r : Option ℕ × Progress)
      → Outcome fa bs (progress_of f v m) r
      → r.0 ≡ some n
      → length buf ≡ n
      → read reader buf (put_progress handle f r.1 v) r.1.memory
        ≡ Run.returned (
          some n,
          take n bs,
          put_position reader g (f.position + n) (put_progress handle f r.1 v),
        )
  Outcome-read n r (Outcome.wrote q w) e len =
      let k : ℕ = room bs (progress_of f v m) in
      let d : k ≡ n = ground arith in
      stored_read n q (omega arith) (subst (λ j. Wrote fa bs j (progress_of f v m) q) d w) len
  Outcome-read n r (Outcome.no_frame k q s w gone) e len = absurd (ground arith)

  -- When `write` through an open, writable handle of a file whose frames are in order reports `n`
  -- bytes, a read of `n` bytes through another handle of the same file, at the same position,
  -- returns the first `n` of the bytes that were written.
  pub read-write :
      (n : ℕ) (v' : Vfs) (m' : Memory)
      → handle < max_open_files
      → get_or v.open_files handle none ≡ some f
      → f.writable ≡ true
      → write handle bs fa v m ≡ Run.returned (some n, v', m')
      → length buf ≡ n
      → read reader buf v' m'
        ≡ Run.returned (some n, take n bs, put_position reader g (f.position + n) v')
  read-write n v' m' k open_f writable e len =
      let w = write-WriteResult handle bs fa v m f k open_f writable in_range c o in
      let same_result : (w.count, put_progress handle f w.progress v, w.progress.memory)
          ≡ (some n, v', m') =
        ap (value_of (some n, v', m')) (sym w.returns ∙ e) in
      subst
        (λ (t : Option ℕ × Vfs × Memory).
          read reader buf t.1 t.2
          ≡ Run.returned (some n, take n bs, put_position reader g (f.position + n) t.1))
        same_result
        (Outcome-read n (w.count, w.progress) w.outcome
          (ap (λ (t : Option ℕ × Vfs × Memory). t.0) same_result) len)
