-- ===== src/Vfs/Files/Copying.antt =====
-- kernel/src/vfs/mod.rs: the copy of one round of `write` into a frame.
use native.Mathlib.Decide.{ℕ_discrete, dec_lt}
use aperture_os.Prelude.{
  ℕ, ◌+◌, ◌-◌, ◌/◌, ◌%◌, ◌≤◌, ◌<◌, ◌≡◌, ◌≢◌, ◌⊎◌, ◌∙◌, refl, ap, ap₂, sym, Option, none, some, List,
  arith, length, get_or, inl, inr, leb, ltb, if◌then◌else◌, ◌&&◌,
}
use aperture_os.Memory.{Memory, write_bytes}
use aperture_os.Memory.Laws.{write_bytes_outside}
use aperture_os.Frames.{FrameAllocator}
use aperture_os.Frames.Bitmap.{used}
use aperture_os.Frames.Allocate.{IsCovered}
use aperture_os.Frames.Outside.{used_ext}
use aperture_os.Vfs.Files.{Progress, copy_chunk}
use aperture_os.Vfs.Files.Contents.{byte_at, slot_byte}
use aperture_os.Vfs.Files.Owned.{IsOwned}

-- The bytes of the file `q` are those of `p`, with `bs` written at the position of `p`.
abbrev pub Writes : List ℕ → Progress → Progress → Type 0
Writes bs p q =
    (i : ℕ)
    → i < q.size
    → byte_at q.row q.memory i ≡ (
        if leb p.position i && ltb i (p.position + length bs)
        then get_or bs (i - p.position) 0
        else byte_at p.row p.memory i)

module _ (fa : FrameAllocator) (p : Progress) (frame : ℕ) (bs : List ℕ) where
  abbrev copied : Memory
  copied = write_bytes (frame + p.position % 4096) bs p.memory

  copied_inside : (j : ℕ) → j < length bs → copied (frame + (p.position % 4096 + j)) ≡ get_or bs j 0
  unfolding write_bytes
  copied_inside j l =
      let e : frame + (p.position % 4096 + j) - (frame + p.position % 4096) ≡ j = omega arith in
      rw e (ground arith)

  module _ (c : IsCovered fa) (o : IsOwned fa p)
      (at : get_or p.row (p.position / 4096) none ≡ some frame)
      (fits : p.position % 4096 + length bs ≤ 4096) where
    copied_apart :
        (a : ℕ)
        → (a < frame + p.position % 4096) ⊎ (frame + p.position % 4096 + length bs ≤ a)
        → copied a ≡ p.memory a
    copied_apart a h = write_bytes_outside (frame + p.position % 4096) bs p.memory a h

    used-copied : (i : ℕ) → i < fa.frame_count → used fa copied i ≡ used fa p.memory i
    used-copied i l =
        let far = o.clear (p.position / 4096) frame at in
        used_ext fa copied p.memory i (omega (arith, c.covered))
          (λ a low high. copied_apart a (ground (arith, far)))

    -- The copy keeps the file's frames in order.
    pub copy-IsOwned : IsOwned fa (copy_chunk frame bs p)
    unfolding copy_chunk
    copy-IsOwned = record {
      reserved = record { clear = λ i l free. o.reserved.clear i l (sym (used-copied i l) ∙ free) };
      held = λ k g k-at. let (i, is, l, u) = o.held k g k-at in (i, is, l, used-copied i l ∙ u);
      clear = o.clear;
      distinct = o.distinct;
      backed = λ i l. elim (dec_lt i p.size) [
        | yes k ↦ o.backed i k
        | no k ↦ let e : i / 4096 ≡ p.position / 4096 = omega arith in rw e (rw at refl)
      ];
      at_end = omega arith;
      full_row = o.full_row;
    }

    other_frame :
        (k g : ℕ)
        → get_or p.row k none ≡ some g
        → k ≢ p.position / 4096
        → (g + 4096 ≤ frame) ⊎ (frame + 4096 ≤ g)
    other_frame k g k-at ne =
        let (i, is, l, u) = o.held k g k-at in
        let (j, js, l', u') = o.held (p.position / 4096) frame at in
        let apart : g ≢ frame =
          λ e. ne (o.distinct k (p.position / 4096) frame (k-at ∙ ap some e) at) in
        ground arith

    slot_kept :
        (i k : ℕ) (slot : Option ℕ)
        → (i < p.position) ⊎ (p.position + length bs ≤ i)
        → i / 4096 ≡ k
        → get_or p.row k none ≡ slot
        → slot_byte slot (i % 4096) copied ≡ slot_byte slot (i % 4096) p.memory
    slot_kept i k none out e k-at = refl
    slot_kept i k (some g) out e k-at = elim (ℕ_discrete k (p.position / 4096)) [
      | yes same ↦
          let new : g ≡ frame = ground (arith, k-at, at) in
          copied_apart (g + i % 4096) (ground (arith, new, e, out))
      | no ne ↦ copied_apart (g + i % 4096) (ground (arith, other_frame k g k-at ne))
    ]

    byte_written :
        (i : ℕ)
        → p.position ≤ i
        → i < p.position + length bs
        → byte_at p.row copied i ≡ get_or bs (i - p.position) 0
    byte_written i l k =
        let e : i / 4096 ≡ p.position / 4096 = omega arith in
        let r : i % 4096 ≡ p.position % 4096 + (i - p.position) = omega arith in
        ap₂ (λ x y. slot_byte (get_or p.row x none) y copied) e r
        ∙ ap (λ slot. slot_byte slot (p.position % 4096 + (i - p.position)) copied) at
        ∙ copied_inside (i - p.position) (omega arith)

    byte_kept :
        (i : ℕ)
        → (i < p.position) ⊎ (p.position + length bs ≤ i)
        → byte_at p.row copied i ≡ byte_at p.row p.memory i
    byte_kept i out = slot_kept i (i / 4096) (get_or p.row (i / 4096) none) out refl refl

    -- It writes its bytes at the position and changes no other byte of the file.
    pub copy-Writes : Writes bs p (copy_chunk frame bs p)
    unfolding copy_chunk
    copy-Writes i l = elim (dec_lt i p.position) [
      | yes before ↦ byte_kept i (inl before) ∙ ground (arith)
      | no k ↦ elim (dec_lt i (p.position + length bs)) [
        | yes within ↦ byte_written i (omega arith) within ∙ ground arith
        | no after ↦ byte_kept i (inr (omega arith)) ∙ ground arith
      ]
    ]
