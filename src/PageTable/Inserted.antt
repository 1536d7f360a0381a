-- ===== src/PageTable/Inserted.antt =====
-- kernel/src/mm/page_table.rs: what storing an entry at the end of a path changes, for any number of
-- levels.
use aperture_os.Prelude.{
  ℕ, suc, ◌^◌, ◌≤◌, ◌<◌, ◌≡◌, ◌≢◌, ◌∙◌, refl, ap, ap₂, sym, arith, some, List, [], ◌∷◌, length, All,
  inl, inr, Option-cases,
}
use aperture_os.Memory.{Memory}
use aperture_os.Frames.{FrameAllocator}
use aperture_os.Frames.Bitmap.{used}
use aperture_os.PageTable.{entry, put_entry, find_table}
use aperture_os.PageTable.Insert.{leaf, IsIndex, leaf_found, leaf_missing}
use aperture_os.PageTable.Tree.{IsTree, IsPlaced, find_table_ext, keep-IsTree}
use aperture_os.PageTable.Writes.{entry-put_entry_self, entry-put_entry_other, used-put_entry}

-- The memory `m'` has the entry `v` at the end of the path `is`, `j` from the table `t`; the entry at
-- the end of any other path from a table of the same level is as in `m`, and so are the tables above.
pub record IsInserted (fa : FrameAllocator) (level : ℕ → ℕ) (t : ℕ) (is : List ℕ) (j v : ℕ)
    (m m' : Memory) : Type 0 where
  pub levels : ℕ → ℕ
  pub tree : IsTree fa levels m'
  pub placed : IsPlaced fa m'
  pub grows : (u : ℕ) → level u ≢ 0 → levels u ≡ level u
  pub stored : leaf t is j m' ≡ v
  pub upper : (u k : ℕ) → suc (suc (length is)) ≤ level u → k < 512 → entry u k m' ≡ entry u k m
  pub others :
      (w : ℕ) (js : List ℕ) (k : ℕ)
      → level w ≡ suc (length is)
      → length js ≡ length is
      → All IsIndex js
      → k < 512
      → (w ≡ t → js ≡ is → k ≢ j)
      → leaf w js k m' ≡ leaf w js k m

module _ (fa : FrameAllocator) (level : ℕ → ℕ) (m : Memory) (tree : IsTree fa level m)
    (placed : IsPlaced fa m) where
  module _ (t j v : ℕ) (lt : level t ≡ 1) (lj : j < 512) (lv : v < 2 ^ 64) where
    table : level t ≢ 0
    table gone = absurd (omega (arith, lt, gone))

    apart :
        (u k : ℕ)
        → level u ≢ 0
        → k < 512
        → (t ≡ u → j ≢ k)
        → entry u k (put_entry t j v m) ≡ entry u k m
    apart u k h lk ne =
        entry-put_entry_other t j v u k m (tree.aligned t table) (tree.aligned u h) lj lk ne

    state : (k : ℕ) → k < fa.frame_count → used fa (put_entry t j v m) k ≡ used fa m k
    state k lk = used-put_entry fa t j v k m placed.covered (tree.clear t table) lj lk

    above : (u k : ℕ) → 2 ≤ level u → k < 512 → entry u k (put_entry t j v m) ≡ entry u k m
    above u k h lk =
        apart u k (λ gone. absurd (omega (arith, h, gone))) lk
          (λ same. absurd (omega (arith, h, lt, ap level same)))

    beside :
        (w : ℕ) (js : List ℕ) (k : ℕ)
        → level w ≡ 1
        → length js ≡ 0
        → k < 512
        → (w ≡ t → js ≡ [] → k ≢ j)
        → leaf w js k (put_entry t j v m) ≡ leaf w js k m
    unfolding leaf
    beside w [] k h el lk ne =
        apart w k (λ gone. absurd (omega (arith, h, gone))) lk
          (λ same e. ne (sym same) refl (sym e))
    beside w (l ∷ js) k h el lk ne = absurd (omega arith)

    -- An entry of a table of the lowest level.
    pub put-IsInserted : IsInserted fa level t [] j v m (put_entry t j v m)
    unfolding leaf
    put-IsInserted = record {
      levels = level;
      tree = keep-IsTree fa level m (put_entry t j v m) tree above state;
      placed = record {
        covered = placed.covered;
        start = placed.start;
        bounded = placed.bounded;
        reserved = record {
          clear = λ k lk free. placed.reserved.clear k lk (sym (state k lk) ∙ free);
        };
      };
      grows = λ u h. refl;
      stored = entry-put_entry_self t j v m lv;
      upper = above;
      others = λ w js k h el ljs lk ne. beside w js k h el lk ne;
    }

  module _ (t i s : ℕ) (is : List ℕ) (j v : ℕ) (m' : Memory) (lt : level t ≡ suc (suc (length is)))
      (li : i < 512) (found : find_table t i m ≡ some s)
      (ih : IsInserted fa level s is j v m m') where
    same_link :
        (w l : ℕ) → level w ≡ suc (suc (length is)) → l < 512 → find_table w l m' ≡ find_table w l m
    same_link w l h ll = find_table_ext w l m m' (ih.upper w l (omega (arith, h)) ll)

    found_beside :
        (w : ℕ) (js : List ℕ) (k : ℕ)
        → level w ≡ suc (suc (length is))
        → length js ≡ suc (length is)
        → All IsIndex js
        → k < 512
        → (w ≡ t → js ≡ i ∷ is → k ≢ j)
        → leaf w js k m' ≡ leaf w js k m
    found_beside w [] k h el ljs lk ne = absurd (omega arith)
    found_beside w (l ∷ js) k h el ljs lk ne = elim (Option-cases (find_table w l m)) [
      | inl gone ↦
          leaf_missing w l js k m' (same_link w l h ljs.0 ∙ gone)
          ∙ sym (leaf_missing w l js k m gone)
      | inr (u, to_u) ↦
          let single : u ≡ s → (w ≡ t) × (l ≡ i) = λ same.
            tree.single w l t i s (omega (arith, h)) (omega (arith, lt)) ljs.0 li
              (to_u ∙ ap some same) found in
          leaf_found w l u js k m' (same_link w l h ljs.0 ∙ to_u)
          ∙ ih.others u js k (tree.linked w l u (length is) h ljs.0 to_u) (omega arith) ljs.1 lk
              (λ same rest. ne (single same).0 (ap₂ (λ x xs. x ∷ xs) (single same).1 rest))
          ∙ sym (leaf_found w l u js k m to_u)
    ]

    -- One level up, where the table was there.
    pub found-IsInserted : IsInserted fa level t (i ∷ is) j v m m'
    found-IsInserted = record {
      levels = ih.levels;
      tree = ih.tree;
      placed = ih.placed;
      grows = ih.grows;
      stored = leaf_found t i s is j m' (same_link t i lt li ∙ found) ∙ ih.stored;
      upper = λ u k h lk. ih.upper u k (omega arith) lk;
      others = found_beside;
    }
