-- ===== src/PageTable/Insert.antt =====
-- kernel/src/mm/page_table.rs: the descent of `map` and of `translate` on any number of levels.
use aperture_os.Prelude.{
  ℕ, suc, ◌≤◌, ◌<◌, ◌≡◌, ◌≢◌, ◌∙◌, ap, sym, arith, Option, none, some, List, [], ◌∷◌, Bool, true,
  false, length, All, inl, inr, Option-cases,
}
use aperture_os.Memory.{Memory, zero_bytes}
use aperture_os.Frames.{FrameAllocator, allocate_frame}
use aperture_os.PageTable.{entry, put_entry, find_table, next_table, new_entry, descend}
use aperture_os.PageTable.Entries.{link_word}
use aperture_os.PageTable.Tree.{IsTree, find_table_ext}

-- The entry at the end of the path `is` from the table `t`, 0 if a table on the path is missing.
unfoldable pub leaf : ℕ → List ℕ → ℕ → Memory → ℕ
leaf t [] j m = entry t j m
leaf t (i ∷ is) j m = elim (find_table t i m) [ none ↦ 0 | some s ↦ leaf s is j m ]

-- Storing `v` at the end of the path, with the missing tables made on the way.
unfoldable pub insert : FrameAllocator → ℕ → List ℕ → ℕ → ℕ → Memory → Bool × Memory
insert fa t [] j v m = (true, put_entry t j v m)
insert fa t (i ∷ is) j v m = descend (next_table fa t i m) (λ s m₁. insert fa s is j v m₁)

abbrev pub IsIndex : ℕ → Type 0
IsIndex i = i < 512

pub leaf_found :
    (t i s : ℕ) (is : List ℕ) (j : ℕ) (m : Memory)
    → find_table t i m ≡ some s
    → leaf t (i ∷ is) j m ≡ leaf s is j m
unfolding leaf
leaf_found t i s is j m e = ap (λ r. elim r as (λ _. ℕ) [ none ↦ 0 | some s ↦ leaf s is j m ]) e

pub leaf_missing :
    (t i : ℕ) (is : List ℕ) (j : ℕ) (m : Memory) → find_table t i m ≡ none → leaf t (i ∷ is) j m ≡ 0
unfolding leaf
leaf_missing t i is j m e = ap (λ r. elim r as (λ _. ℕ) [ none ↦ 0 | some s ↦ leaf s is j m ]) e

-- Where two memories agree on the tables up to the level `n`, so do the paths that start there.
pub leaf_ext :
    (fa : FrameAllocator) (level : ℕ → ℕ) (m m' : Memory) (n : ℕ)
    → IsTree fa level m
    → ((x k : ℕ) → level x ≢ 0 → level x ≤ n → k < 512 → entry x k m' ≡ entry x k m)
    → (js : List ℕ) (w k : ℕ) → level w ≡ suc (length js)
    → suc (length js) ≤ n
    → All IsIndex js
    → k < 512
    → leaf w js k m' ≡ leaf w js k m
unfolding leaf
leaf_ext fa level m m' n tree same [] w k lw ln ljs lk =
    same w k (λ gone. absurd (omega (arith, lw, gone))) (omega (arith, lw)) lk
leaf_ext fa level m m' n tree same (l ∷ js) w k lw ln ljs lk =
    let here : find_table w l m' ≡ find_table w l m =
      find_table_ext w l m m'
        (same w l (λ gone. absurd (omega (arith, lw, gone))) (omega (arith, lw)) ljs.0) in
    elim (Option-cases (find_table w l m)) [
      | inl gone ↦ leaf_missing w l js k m' (here ∙ gone) ∙ sym (leaf_missing w l js k m gone)
      | inr (u, found) ↦
          leaf_found w l u js k m' (here ∙ found)
          ∙ leaf_ext fa level m m' n tree same js u k (tree.linked w l u (length js) lw ljs.0 found)
              (omega arith) ljs.1 lk
          ∙ sym (leaf_found w l u js k m found)
    ]

next_table_found :
    (fa : FrameAllocator) (t i s : ℕ) (m : Memory)
    → find_table t i m ≡ some s
    → next_table fa t i m ≡ (some s, m)
unfolding next_table
next_table_found fa t i s m e =
    ap
      (λ r. elim r as (λ _. Option ℕ × Memory) [
        | some next ↦ (some next, m)
        | none ↦ new_entry t i (allocate_frame fa m)
      ])
      e

next_table_made :
    (fa : FrameAllocator) (t i : ℕ) (m : Memory)
    → find_table t i m ≡ none
    → next_table fa t i m ≡ new_entry t i (allocate_frame fa m)
unfolding next_table
next_table_made fa t i m e =
    ap
      (λ r. elim r as (λ _. Option ℕ × Memory) [
        | some next ↦ (some next, m)
        | none ↦ new_entry t i (allocate_frame fa m)
      ])
      e

pub insert_found :
    (fa : FrameAllocator) (t i s : ℕ) (is : List ℕ) (j v : ℕ) (m : Memory)
    → find_table t i m ≡ some s
    → insert fa t (i ∷ is) j v m ≡ insert fa s is j v m
unfolding insert
insert_found fa t i s is j v m e =
    ap (λ r. descend r (λ s m₁. insert fa s is j v m₁)) (next_table_found fa t i s m e)

pub insert_made :
    (fa : FrameAllocator) (t i frame : ℕ) (is : List ℕ) (j v : ℕ) (m m₁ : Memory)
    → find_table t i m ≡ none
    → allocate_frame fa m ≡ (some frame, m₁)
    → insert fa t (i ∷ is) j v m
      ≡ insert fa frame is j v (put_entry t i (link_word frame) (zero_bytes frame 4096 m₁))
unfolding insert new_entry
insert_made fa t i frame is j v m m₁ e f =
    ap (λ r. descend r (λ s m₁. insert fa s is j v m₁))
      (next_table_made fa t i m e ∙ ap (new_entry t i) f)

pub insert_fails :
    (fa : FrameAllocator) (t i : ℕ) (is : List ℕ) (j v : ℕ) (m m₁ : Memory)
    → find_table t i m ≡ none
    → allocate_frame fa m ≡ (none, m₁)
    → insert fa t (i ∷ is) j v m ≡ (false, m₁)
unfolding insert new_entry
insert_fails fa t i is j v m m₁ e f =
    ap (λ r. descend r (λ s m₁. insert fa s is j v m₁))
      (next_table_made fa t i m e ∙ ap (new_entry t i) f)
