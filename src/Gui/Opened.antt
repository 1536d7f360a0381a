-- ===== src/Gui/Opened.antt =====
-- kernel/src/gui/compositor.rs: the ids of windows, and what `create_window` opens.
use native.Mathlib.Decide.{ℕ_discrete}
use aperture_os.Prelude.{
  ℕ, ◌+◌, ◌*◌, ◌^◌, ◌<◌, ◌≡◌, ◌≢◌, ◌∙◌, refl, ap, sym, arith, Option, none, some, List, true, false,
  ◌⊎◌, inl, inr, Option-cases, length, length-set, get_or, set, get_or-set_self, get_or-set_ne,
  replicate, position, position_found, position_at, position-none, is_none, ℤ, u64,
}
use aperture_os.EarlyHeap.{Bump, alloc_early}
use aperture_os.Vfs.{Run}
use aperture_os.Gui.{Color, rgb}
use aperture_os.Gui.Windows.{
  Window, Compositor, as_usize, as_u32, title_buf, create_window, has_id, window_mut, clear_window,
}

-- The ids of the windows are below the next one, and no two windows have the same.
pub record IsNumbered (c : Compositor) : Type 0 where
  pub below : (j : ℕ) (w : Window) → get_or c.windows j none ≡ some w → w.id < c.next_id
  pub distinct :
      (i j : ℕ) (v w : Window)
      → get_or c.windows i none ≡ some v
      → get_or c.windows j none ≡ some w
      → v.id ≡ w.id
      → i ≡ j

has_id_self : (w : Window) → has_id w.id (some w) ≡ true
unfolding has_id
has_id_self w = ground arith

module _ (c : Compositor) (n : IsNumbered c) (i : ℕ) (w : Window)
    (at : get_or c.windows i none ≡ some w) (l : i < length c.windows) where
  elsewhere :
      (j : ℕ) (o : Option Window) → get_or c.windows j none ≡ o → j < i → has_id w.id o ≡ false
  unfolding has_id
  elsewhere j none e m = refl
  elsewhere j (some v) e m = elim (ℕ_discrete v.id w.id) [
    | yes same ↦ absurd (omega (arith, n.distinct j i v w e at same))
    | no other ↦ ground (arith, other)
  ]

  found : position (has_id w.id) c.windows ≡ some i
  found =
      position_at (has_id w.id) c.windows none i l (ap (has_id w.id) at ∙ has_id_self w)
        (λ j m. elsewhere j (get_or c.windows j none) refl m)

  -- A change by a window's id reaches that window, and no other.
  pub window_mut_at :
      (change : Window → Window)
      → window_mut w.id change c ≡ record c { windows = set c.windows i (some (change w)) }
  unfolding window_mut
  window_mut_at change = ground (arith, found, at)

held : Window → Option Window → Window
held w none = w
held w (some v) = v

held_eq : {v w : Window} → some v ≡ some w → v ≡ w
unfolding held
held_eq {v} e = ap (held v) e

-- A window with the next id in a free place.
module _ (c : Compositor) (n : IsNumbered c) (slot : ℕ) (w : Window) (l : slot < length c.windows)
    (free : get_or c.windows slot none ≡ none) (fresh : w.id ≡ c.next_id)
    (room : c.next_id + 1 < 2 ^ 64) where
  abbrev pub opened : Compositor
  opened = record c { next_id = u64 (c.next_id + 1); windows = set c.windows slot (some w) }

  pub opened_slot : get_or opened.windows slot none ≡ some w
  opened_slot = get_or-set_self c.windows slot (some w) none l

  pub opened_kept : (j : ℕ) → slot ≢ j → get_or opened.windows j none ≡ get_or c.windows j none
  opened_kept j away = get_or-set_ne c.windows slot j (some w) none away

  -- A window of the new table is the new one, or an earlier one with a smaller id.
  which :
      (j : ℕ) (v : Window)
      → get_or opened.windows j none ≡ some v
      → ((slot ≡ j) × (w ≡ v)) ⊎ ((slot ≢ j) × (get_or c.windows j none ≡ some v))
  which j v e = elim (ℕ_discrete slot j) [
    | yes same ↦
        inl (same, held_eq (sym opened_slot ∙ ap (λ k. get_or opened.windows k none) same ∙ e))
    | no away ↦ inr (away, sym (opened_kept j away) ∙ e)
  ]

  pub opened-IsNumbered : IsNumbered opened
  opened-IsNumbered = record {
    below = λ j v e. elim (which j v e) [
      | inl (_, same) ↦ let k : w.id ≡ v.id = ap (λ o. o.id) same in omega (arith, fresh, k)
      | inr (_, old) ↦ ground (arith, n.below j v old)
    ];
    distinct = λ i j u v e f same. elim (which i u e) [
      | inl (p, this) ↦ elim (which j v f) [
        | inl (q, _) ↦ sym p ∙ q
        | inr (_, old) ↦ absurd (
            let k : w.id ≡ u.id = ap (λ o. o.id) this in
            omega (arith, n.below j v old, fresh, k, same))
      ]
      | inr (_, old) ↦ elim (which j v f) [
        | inl (_, this) ↦ absurd (
            let k : w.id ≡ v.id = ap (λ o. o.id) this in
            omega (arith, n.below i u old, fresh, k, same))
        | inr (_, old') ↦ n.distinct i j u v old old' same
      ]
    ];
  }

-- The window that create_window puts into a free place.
abbrev pub new_window : List ℕ → ℤ → ℤ → ℤ → ℤ → Compositor → Window
new_window title x y width height c = record {
  id = c.next_id;
  title = title_buf title;
  x = x;
  y = y;
  width = width;
  height = height;
  visible = true;
  backbuffer = replicate (as_usize (as_u32 width * as_u32 height)) (rgb 255 255 255);
}

-- From `c` to `c'` the window `w` with the id `id` has come into a free place: the ids stay apart,
-- the other places are as before, and clear_window by the id reaches the pixels of `w` and nothing
-- else.
pub record Opens (id : ℕ) (w : Window) (c c' : Compositor) : Type 0 where
  pub numbered : IsNumbered c'
  pub slot : ℕ
  pub free : get_or c.windows slot none ≡ none
  pub there : get_or c'.windows slot none ≡ some w
  pub kept : (j : ℕ) → slot ≢ j → get_or c'.windows j none ≡ get_or c.windows j none
  pub cleared :
      (color : Color)
      → clear_window id color c' ≡ record c' {
        windows =
            set c'.windows slot
              (some (record w { backbuffer = replicate (length w.backbuffer) color }));
      }

free_at : (o : Option Window) → is_none o ≡ true → o ≡ none
free_at none e = refl
free_at (some w) e = ground arith

-- When the heap has room for the pixels and a place is free, create_window on windows with
-- different ids below the next one returns that next id, and opens a white window with it as Opens
-- says.
pub create_window-Opens :
    (title : List ℕ) (x y width height : ℤ) (h h' : Bump) (c : Compositor) (a place : ℕ)
    → IsNumbered c
    → c.next_id + 1 < 2 ^ 64
    → alloc_early (u64 (as_usize (as_u32 width * as_u32 height) * 4)) 1 h ≡ (some a, h')
    → place < length c.windows
    → get_or c.windows place none ≡ none
    → (c' : Compositor) × (create_window title x y width height h c
        ≡ Run.returned (c.next_id, h', c'))
      × Opens c.next_id (new_window title x y width height c) c c'
unfolding create_window clear_window
create_window-Opens title x y width height h h' c a place n room block l f =
    elim (Option-cases (position is_none c.windows)) [
      | inl nowhere ↦ absurd (
          let taken : is_none (get_or c.windows place none) ≡ false =
            position-none is_none c.windows none place nowhere l in
          let isfree : is_none (get_or c.windows place none) ≡ true = ap is_none f in cc)
      | inr (slot, at) ↦
          let (l', empty) = position_found is_none c.windows none slot at in
          let w = new_window title x y width height c in
          let gap : get_or c.windows slot none ≡ none =
            free_at (get_or c.windows slot none) empty in
          let c' = opened c n slot w l' gap refl room in
          (
            c',
            ground (arith, block, at),
            record {
              numbered = opened-IsNumbered c n slot w l' gap refl room;
              slot = slot;
              free = gap;
              there = opened_slot c n slot w l' gap refl room;
              kept = opened_kept c n slot w l' gap refl room;
              cleared = λ color.
                  window_mut_at c' (opened-IsNumbered c n slot w l' gap refl room) slot w
                    (opened_slot c n slot w l' gap refl room)
                    (omega (arith, length-set c.windows slot (some w)))
                    (λ v. record v { backbuffer = replicate (length v.backbuffer) color });
            },
          )
    ]
