-- ===== src/Vfs/Files/Owned.antt =====
-- kernel/src/vfs/mod.rs: the frames of a file under `write`. They stay held, distinct and clear of
-- the allocator's bitmap.
use native.Mathlib.Decide.{ℕ_discrete}
use aperture_os.Prelude.{
  ℕ, ◌+◌, ◌/◌, ◌%◌, ◌≤◌, ◌<◌, ◌≡◌, ◌≢◌, ◌∙◌, refl, ap, sym, subst, Option, none, some, arith,
  length, get_or, length-set, get_or-set_self, get_or-set_ne, is_some, true,
}
use aperture_os.Memory.{Memory}
use aperture_os.Frames.{FrameAllocator, allocate_frame}
use aperture_os.Frames.Allocate.{IsCovered, allocated}
use aperture_os.Frames.Ownership.{IsHeld, IsHeld-allocate}
use aperture_os.Frames.Outside.{IsOutside, IsClear, IsReserved, allocate_frame_outside}
use aperture_os.Vfs.{file_data_frames}
use aperture_os.Vfs.Files.{Progress, place}
use aperture_os.Vfs.Files.Contents.{byte_at, slot_byte}

-- The frames of a file are held, distinct and clear of the bitmap, and cover its size.
pub record IsOwned (fa : FrameAllocator) (p : Progress) : Type 0 where
  pub reserved : IsReserved fa p.memory
  pub held : (k frame : ℕ) → get_or p.row k none ≡ some frame → IsHeld fa p.memory frame
  pub clear : (k frame : ℕ) → get_or p.row k none ≡ some frame → IsClear fa frame
  pub distinct :
      (k l frame : ℕ) → get_or p.row k none ≡ some frame → get_or p.row l none ≡ some frame → k ≡ l
  pub backed : (i : ℕ) → i < p.size → is_some (get_or p.row (i / 4096) none) ≡ true
  pub at_end : p.position ≤ p.size
  pub full_row : length p.row ≡ file_data_frames

-- The places below the size show the same bytes.
abbrev pub Keeps : Progress → Progress → Type 0
Keeps p q = (i : ℕ) → i < p.size → byte_at q.row q.memory i ≡ byte_at p.row p.memory i

module _ (fa : FrameAllocator) (p : Progress) (frame : ℕ) (m' : Memory) where
  abbrev index : ℕ
  index = p.position / 4096

  abbrev placed : Progress
  placed = place index (some frame) m' p

  module _ (c : IsCovered fa) (o : IsOwned fa p) (free : get_or p.row index none ≡ none)
      (l : index < file_data_frames) (e : allocate_frame fa p.memory ≡ (some frame, m')) where
    here : get_or placed.row index none ≡ some frame
    here = get_or-set_self p.row index (some frame) none (omega (arith, o.full_row))

    there : (k : ℕ) → index ≢ k → get_or placed.row k none ≡ get_or p.row k none
    there k ne = get_or-set_ne p.row index k (some frame) none ne

    fresh-IsHeld : (k g : ℕ) → get_or p.row k none ≡ some g → (g ≢ frame) × IsHeld fa m' g
    fresh-IsHeld k g at =
        let (i, is, t) = allocated fa p.memory m' frame c e in
        IsHeld-allocate fa p.memory m' frame i g is t (o.held k g at)

    outside : (a : ℕ) → IsOutside fa a → m' a ≡ p.memory a
    outside a h = rw e at (allocate_frame_outside fa p.memory a h)

    placed-IsHeld : (k g : ℕ) → get_or placed.row k none ≡ some g → IsHeld fa m' g × IsClear fa g
    placed-IsHeld k g at =
        let (i, is, t) = allocated fa p.memory m' frame c e in
        elim (ℕ_discrete index k) [
          | yes same ↦
              let new : frame ≡ g = ground (arith, here) in
              (
                (i, ground arith, t.in_range, ground (arith, t.marked i, t.in_range)),
                subst (IsClear fa) (sym is ∙ new) (o.reserved.clear i t.in_range t.was_free),
              )
          | no other ↦
              let old : get_or p.row k none ≡ some g = sym (there k other) ∙ at in
              ((fresh-IsHeld k g old).1, o.clear k g old)
        ]

    placed-distinct :
        (k j g : ℕ) → get_or placed.row k none ≡ some g → get_or placed.row j none ≡ some g → k ≡ j
    placed-distinct k j g at at' = elim (ℕ_discrete index k) [
      | yes same ↦ elim (ℕ_discrete index j) [
        | yes same' ↦ omega arith
        | no other ↦ absurd (ground (arith, here, (fresh-IsHeld j g (sym (there j other) ∙ at')).0))
      ]
      | no other ↦ elim (ℕ_discrete index j) [
        | yes same' ↦ absurd (ground (arith, here, (fresh-IsHeld k g (sym (there k other) ∙ at)).0))
        | no other' ↦ o.distinct k j g (sym (there k other) ∙ at) (sym (there j other') ∙ at')
      ]
    ]

    elsewhere : (i : ℕ) → i < p.size → index ≢ i / 4096
    elsewhere i k same = absurd (ground (arith, o.backed i k, free))

    -- Allocating the frame of an empty slot keeps the file's frames in order.
    pub place-IsOwned : IsOwned fa placed
    place-IsOwned = record {
      reserved =
          let (i, is, t) = allocated fa p.memory m' frame c e in
          record {
            clear = λ j k unused. o.reserved.clear j k (ground (arith, t.marked j, k, unused));
          };
      held = λ k g at. (placed-IsHeld k g at).0;
      clear = λ k g at. (placed-IsHeld k g at).1;
      distinct = placed-distinct;
      backed = λ i k. rw (there (i / 4096) (elsewhere i k)) (o.backed i k);
      at_end = o.at_end;
      full_row = length-set p.row index (some frame) ∙ o.full_row;
    }

    old_byte :
        (k offset : ℕ) (slot : Option ℕ)
        → get_or p.row k none ≡ slot
        → offset < 4096
        → slot_byte slot offset m' ≡ slot_byte slot offset p.memory
    old_byte k offset none at lt = refl
    old_byte k offset (some g) at lt = outside (g + offset) (ground (arith, o.clear k g at))

    -- The bytes of the file stay.
    pub place-Keeps : Keeps p placed
    place-Keeps i k =
        ap (λ slot. slot_byte slot (i % 4096) m') (there (i / 4096) (elsewhere i k))
        ∙ old_byte (i / 4096) (i % 4096) (get_or p.row (i / 4096) none) refl (omega arith)
