-- ===== src/PageTable/Made.antt =====
-- kernel/src/mm/page_table.rs: storing an entry where tables are missing, and the descent as a whole.
use native.Mathlib.Decide.{ℕ_discrete}
use aperture_os.Prelude.{
  ℕ, suc, ◌^◌, ◌<◌, ◌≡◌, ◌≢◌, ◌∙◌, ap, ap₂, sym, subst, arith, none, some, List, [], ◌∷◌, Bool,
  true, false, length, All, inl, inr, Option-cases,
}
use aperture_os.Memory.{Memory}
use aperture_os.Frames.{FrameAllocator, allocate_frame}
use aperture_os.PageTable.{find_table}
use aperture_os.PageTable.Grown.{
  grown, levels, levels_old, levels_new, found_new, found_none, found_old, entry-grown_old,
  entry-grown_new, not_new, grown-IsTree, grown-IsPlaced,
}
use aperture_os.PageTable.Insert.{
  leaf, insert, IsIndex, leaf_found, leaf_missing, leaf_ext, insert_found, insert_made,
  insert_fails,
}
use aperture_os.PageTable.Tree.{IsTree, IsPlaced, find_table_ext}
use aperture_os.PageTable.Inserted.{IsInserted, put-IsInserted, found-IsInserted}

module _ (fa : FrameAllocator) (level : ℕ → ℕ) (m : Memory) (tree : IsTree fa level m)
    (placed : IsPlaced fa m) where
  module _ (t i frame : ℕ) (is : List ℕ) (j v : ℕ) (m₁ m' : Memory)
      (lt : level t ≡ suc (suc (length is))) (li : i < 512) (missing : find_table t i m ≡ none)
      (e : allocate_frame fa m ≡ (some frame, m₁)) where
    abbrev m₂ : Memory
    m₂ = grown fa level m m₁ t i (length is) frame tree placed lt li e

    abbrev level₂ : ℕ → ℕ
    level₂ = levels fa level m m₁ t i (length is) frame tree placed lt li e

    old : (u : ℕ) → level u ≢ 0 → level₂ u ≡ level u
    old u h = levels_old fa level m m₁ t i (length is) frame tree placed lt li e u h

    module _ (ih : IsInserted fa level₂ frame is j v m₂ m') where
      link_kept :
          (w l : ℕ)
          → level w ≡ suc (suc (length is))
          → l < 512
          → find_table w l m' ≡ find_table w l m₂
      link_kept w l h ll =
          let was : level₂ w ≡ level w = old w (λ gone. absurd (omega (arith, h, gone))) in
          find_table_ext w l m₂ m' (ih.upper w l (omega (arith, h, was)) ll)

      now_found : find_table t i m' ≡ some frame
      now_found =
          link_kept t i lt li ∙ found_new fa level m m₁ t i (length is) frame tree placed lt li e

      -- Paths from the new table end in nothing before the entry is stored.
      empty : (js : List ℕ) (k : ℕ) → All IsIndex js → k < 512 → leaf frame js k m₂ ≡ 0
      unfolding leaf
      empty [] k ljs lk =
          entry-grown_new fa level m m₁ t i (length is) frame tree placed lt li e k lk
      empty (l ∷ js) k ljs lk =
          leaf_missing frame l js k m₂
            (found_none fa level m m₁ t i (length is) frame tree placed lt li e l ljs.0)

      unchanged :
          (u : ℕ) (js : List ℕ) (k : ℕ)
          → level u ≡ suc (length is)
          → length js ≡ length is
          → All IsIndex js
          → k < 512
          → leaf u js k m₂ ≡ leaf u js k m
      unchanged u js k h el ljs lk =
          leaf_ext fa level m m₂ (suc (length is)) tree
            (λ x l table low ll.
              entry-grown_old fa level m m₁ t i (length is) frame tree placed lt li e x l table ll
                (λ same. absurd (omega (arith, lt, low, ap level same))))
            js u k (omega (arith, h, el)) (omega (arith, el)) ljs lk

      beside_new :
          (js : List ℕ) (k : ℕ)
          → length js ≡ length is
          → All IsIndex js
          → k < 512
          → (js ≡ is → k ≢ j)
          → leaf t (i ∷ js) k m' ≡ leaf t (i ∷ js) k m
      beside_new js k el ljs lk ne =
          let at_frame : level₂ frame ≡ suc (length is) = ground arith in
          leaf_found t i frame js k m' now_found
          ∙ ih.others frame js k at_frame el ljs lk (λ same rest. ne rest)
          ∙ empty js k ljs lk
          ∙ sym (leaf_missing t i js k m missing)

      beside_old :
          (w l : ℕ) (js : List ℕ) (k : ℕ)
          → level w ≡ suc (suc (length is))
          → length js ≡ length is
          → l < 512
          → All IsIndex js
          → k < 512
          → (t ≡ w → i ≢ l)
          → leaf w (l ∷ js) k m' ≡ leaf w (l ∷ js) k m
      beside_old w l js k h el ll ljs lk ne =
          let table : level w ≢ 0 = λ gone. absurd (omega (arith, h, gone)) in
          let same : find_table w l m' ≡ find_table w l m =
            link_kept w l h ll
            ∙ found_old fa level m m₁ t i (length is) frame tree placed lt li e w l table ll ne in
          elim (Option-cases (find_table w l m)) [
            | inl gone ↦ leaf_missing w l js k m' (same ∙ gone) ∙ sym (leaf_missing w l js k m gone)
            | inr (u, to_u) ↦
                let below : level u ≡ suc (length is) = tree.linked w l u (length is) h ll to_u in
                let was : level₂ u ≡ level u =
                  old u (λ gone. absurd (omega (arith, below, gone))) in
                let other : u ≢ frame =
                  not_new fa level m m₁ t i (length is) frame tree placed lt li e w l u
                    (omega (arith, h)) ll to_u in
                leaf_found w l u js k m' (same ∙ to_u)
                ∙ ih.others u js k (was ∙ below) el ljs lk (λ eq. absurd (other eq))
                ∙ unchanged u js k below el ljs lk
                ∙ sym (leaf_found w l u js k m to_u)
          ]

      made_beside :
          (w : ℕ) (js : List ℕ) (k : ℕ)
          → level w ≡ suc (suc (length is))
          → length js ≡ suc (length is)
          → All IsIndex js
          → k < 512
          → (w ≡ t → js ≡ i ∷ is → k ≢ j)
          → leaf w js k m' ≡ leaf w js k m
      made_beside w [] k h el ljs lk ne = absurd (omega arith)
      made_beside w (l ∷ js) k h el ljs lk ne = elim (ℕ_discrete t w) [
        | yes at_t ↦ elim (ℕ_discrete i l) [
          | yes at_i ↦
              let P : ℕ → ℕ → Type 0 = λ x y. leaf x (y ∷ js) k m' ≡ leaf x (y ∷ js) k m in
              subst (λ x. P x l) at_t
                (subst (λ y. P t y) at_i
                  (beside_new js k (omega arith) ljs.1 lk
                    (λ rest. ne (sym at_t) (ap₂ (λ x xs. x ∷ xs) (sym at_i) rest))))
          | no other ↦ beside_old w l js k h (omega arith) ljs.0 ljs.1 lk (λ _. other)
        ]
        | no other ↦
            beside_old w l js k h (omega arith) ljs.0 ljs.1 lk (λ same. absurd (other same))
      ]

      -- One level up, where the table was made.
      made-IsInserted : IsInserted fa level t (i ∷ is) j v m m'
      made-IsInserted = record {
        levels = ih.levels;
        tree = ih.tree;
        placed = ih.placed;
        grows = λ u h. ih.grows u (λ gone. h (sym (old u h) ∙ gone)) ∙ old u h;
        stored = leaf_found t i frame is j m' now_found ∙ ih.stored;
        upper = λ u k h lk.
            let table : level u ≢ 0 = λ gone. absurd (omega (arith, h, gone)) in
            ih.upper u k (omega (arith, h, old u table)) lk
            ∙ entry-grown_old fa level m m₁ t i (length is) frame tree placed lt li e u k table lk
                (λ same. absurd (omega (arith, h, lt, ap level same)));
        others = made_beside;
      }

descends :
    (fa : FrameAllocator) (level : ℕ → ℕ) (t : ℕ) (is : List ℕ) (j v : ℕ) (m : Memory)
    (r r' : Bool × Memory)
    → r ≡ r'
    → (r'.0 ≡ true → IsInserted fa level t is j v m r'.1)
    → r.0 ≡ true
    → IsInserted fa level t is j v m r.1
descends fa level t is j v m r r' e f =
    subst (λ x. x.0 ≡ true → IsInserted fa level t is j v m x.1) (sym e) f

pub insert-IsInserted :
    (is : List ℕ) (fa : FrameAllocator) (level : ℕ → ℕ) (t j v : ℕ) (m : Memory)
    → IsTree fa level m
    → IsPlaced fa m
    → level t ≡ suc (length is)
    → All IsIndex is
    → j < 512
    → v < 2 ^ 64
    → (insert fa t is j v m).0 ≡ true
    → IsInserted fa level t is j v m (insert fa t is j v m).1
unfolding insert
insert-IsInserted [] fa level t j v m tree placed lt lis lj lv done =
    put-IsInserted fa level m tree placed t j v lt lj lv
insert-IsInserted (i ∷ is) fa level t j v m tree placed lt lis lj lv done =
    elim (Option-cases (find_table t i m)) [
      | inr (s, found) ↦
          descends fa level t (i ∷ is) j v m (insert fa t (i ∷ is) j v m) (insert fa s is j v m)
            (insert_found fa t i s is j v m found)
            (λ below.
              found-IsInserted fa level m tree placed t i s is j v (insert fa s is j v m).1 lt lis.0
                found
                (insert-IsInserted is fa level s j v m tree placed
                  (tree.linked t i s (length is) lt lis.0 found) lis.1 lj lv below))
            done
      | inl missing ↦
          let m₁ : Memory = (allocate_frame fa m).1 in
          elim (Option-cases (allocate_frame fa m).0) [
            | inl out ↦
                let failed : insert fa t (i ∷ is) j v m ≡ (false, m₁) =
                  insert_fails fa t i is j v m m₁ missing (ap (λ r. (r, m₁)) out) in
                let e : false ≡ true = sym (ap (λ (r : Bool × Memory). r.0) failed) ∙ done in cc
            | inr (frame, at) ↦
                let e : allocate_frame fa m ≡ (some frame, m₁) = ap (λ r. (r, m₁)) at in
                let m₂ : Memory =
                  grown fa level m m₁ t i (length is) frame tree placed lt lis.0 e in
                let level₂ : ℕ → ℕ =
                  levels fa level m m₁ t i (length is) frame tree placed lt lis.0 e in
                descends fa level t (i ∷ is) j v m (insert fa t (i ∷ is) j v m)
                  (insert fa frame is j v m₂) (insert_made fa t i frame is j v m m₁ missing e)
                  (λ below.
                    made-IsInserted fa level m tree placed t i frame is j v m₁
                      (insert fa frame is j v m₂).1 lt lis.0 missing e
                      (insert-IsInserted is fa level₂ frame j v m₂
                        (grown-IsTree fa level m m₁ t i (length is) frame tree placed lt lis.0 e)
                        (grown-IsPlaced fa level m m₁ t i (length is) frame tree placed lt lis.0 e)
                        (levels_new fa level m m₁ t i (length is) frame tree placed lt lis.0 e)
                        lis.1 lj lv below))
                  done
          ]
    ]
