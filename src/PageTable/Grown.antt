-- ===== src/PageTable/Grown.antt =====
-- kernel/src/mm/page_table.rs: `next_table` where it has to make a table: the tree with one table
-- more.
use native.Mathlib.Decide.{ℕ_discrete}
use aperture_os.Prelude.{
  ℕ, suc, ◌+◌, ◌-◌, ◌*◌, ◌^◌, ◌≤◌, ◌<◌, ◌≡◌, ◌≢◌, ◌∙◌, ap, sym, subst, arith, none, some,
  if◌then◌else◌, ◌==◌,
}
use aperture_os.Memory.{Memory, zero_bytes}
use aperture_os.Frames.{FrameAllocator, frame_size, allocate_frame}
use aperture_os.Frames.Bitmap.{used}
use aperture_os.Frames.Allocate.{Taken, allocated}
use aperture_os.Frames.Outside.{IsClear}
use aperture_os.PageTable.{entry, put_entry, find_table}
use aperture_os.PageTable.Entries.{link_word, link-Points}
use aperture_os.PageTable.Tree.{IsTree, IsPlaced, find_table_ext, find_table-some, find_table-none}
use aperture_os.PageTable.Writes.{
  IsAligned, entry-put_entry_self, entry-put_entry_other, entry-zero_bytes_self,
  entry-zero_bytes_other, entry-allocate_frame, used-put_entry, used-zero_bytes,
}

-- The levels with the frame `frame` as a table of the level `n`.
abbrev pub with_table : ℕ → ℕ → (ℕ → ℕ) → ℕ → ℕ
with_table frame n level x = if x == frame then n else level x

module _ (fa : FrameAllocator) (level : ℕ → ℕ) (m m₁ : Memory) (t i n frame : ℕ)
    (tree : IsTree fa level m) (placed : IsPlaced fa m) (lt : level t ≡ suc (suc n)) (li : i < 512)
    (e : allocate_frame fa m ≡ (some frame, m₁)) where
  abbrev pub grown : Memory
  grown = put_entry t i (link_word frame) (zero_bytes frame 4096 m₁)

  taken : (k : ℕ) × (frame ≡ fa.first_frame + k * frame_size) × Taken fa m m₁ k
  taken = allocated fa m m₁ frame placed.covered e

  frame-IsAligned : IsAligned frame
  frame-IsAligned = let (k, is, _) = taken in omega (arith, is, placed.start)

  frame-lt : frame < 2 ^ 64
  frame-lt = let (k, is, took) = taken in omega (arith, is, placed.bounded, took.in_range)

  frame-IsClear : IsClear fa frame
  frame-IsClear =
      let (k, is, took) = taken in
      subst (IsClear fa) (sym is) (placed.reserved.clear k took.in_range took.was_free)

  -- The new table was none before.
  pub fresh : level frame ≡ 0
  fresh =
      let (k, is, took) = taken in
      elim (ℕ_discrete (level frame) 0) [
        | yes none_yet ↦ none_yet
        | no table ↦ absurd (tree.kept frame k table took.in_range took.was_free (sym is))
      ]

  not_frame : (u : ℕ) → level u ≢ 0 → u ≢ frame
  not_frame u h same = h (ap level same ∙ fresh)

  t-table : level t ≢ 0
  t-table h = absurd (omega (arith, lt))

  t-IsAligned : IsAligned t
  t-IsAligned = tree.aligned t t-table

  pub entry-grown_link : entry t i grown ≡ link_word frame
  entry-grown_link =
      entry-put_entry_self t i (link_word frame) (zero_bytes frame 4096 m₁)
        (link-Points frame frame-IsAligned frame-lt).0

  pub found_new : find_table t i grown ≡ some frame
  found_new = find_table-some t i frame grown entry-grown_link frame-IsAligned frame-lt

  -- The entries of the tables that were there stay, but for the one that links the new table.
  pub entry-grown_old :
      (u j : ℕ) → level u ≢ 0 → j < 512 → (t ≡ u → i ≢ j) → entry u j grown ≡ entry u j m
  entry-grown_old u j h lj ne =
      entry-put_entry_other t i (link_word frame) u j (zero_bytes frame 4096 m₁) t-IsAligned
        (tree.aligned u h) li lj ne
      ∙ entry-zero_bytes_other frame u j m₁ frame-IsAligned (tree.aligned u h) lj (not_frame u h)
      ∙ rw e at (entry-allocate_frame fa u j m (tree.clear u h) lj)

  pub entry-grown_new : (j : ℕ) → j < 512 → entry frame j grown ≡ 0
  entry-grown_new j lj =
      entry-put_entry_other t i (link_word frame) frame j (zero_bytes frame 4096 m₁) t-IsAligned
        frame-IsAligned li lj (λ same. absurd (not_frame t t-table same))
      ∙ entry-zero_bytes_self frame j m₁ lj

  pub found_none : (j : ℕ) → j < 512 → find_table frame j grown ≡ none
  found_none j lj = find_table-none frame j grown (entry-grown_new j lj)

  pub found_old :
      (u j : ℕ) → level u ≢ 0 → j < 512 → (t ≡ u → i ≢ j) → find_table u j grown ≡ find_table u j m
  found_old u j h lj ne = find_table_ext u j m grown (entry-grown_old u j h lj ne)

  state : (k : ℕ) → k < fa.frame_count → used fa grown k ≡ used fa m₁ k
  state k lk =
      used-put_entry fa t i (link_word frame) k (zero_bytes frame 4096 m₁) placed.covered
        (tree.clear t t-table) li lk
      ∙ used-zero_bytes fa frame k m₁ placed.covered frame-IsClear lk

  -- A frame that is free now was free before, and is not the new table.
  still_free :
      (k : ℕ)
      → k < fa.frame_count
      → used fa grown k ≡ 0
      → (used fa m k ≡ 0) × (fa.first_frame + k * frame_size ≢ frame)
  still_free k lk free =
      let (k₀, is, took) = taken in
      let now : used fa m₁ k ≡ 0 = sym (state k lk) ∙ free in
      (ground (arith, took.marked k lk), λ same. ground (arith, took.marked k lk))

  abbrev pub levels : ℕ → ℕ
  levels = with_table frame (suc n) level

  pub levels_new : levels frame ≡ suc n
  levels_new = ground arith

  pub levels_old : (u : ℕ) → level u ≢ 0 → levels u ≡ level u
  levels_old u h = let ne = not_frame u h in ground arith

  -- What an entry of an upper table leads to.
  data Leads (u j s : ℕ) : Type 0 where
    to_new : u ≡ t → j ≡ i → s ≡ frame → Leads u j s
    as_before : level u ≢ 0 → levels u ≡ level u → find_table u j m ≡ some s → Leads u j s

  leads : (u j s : ℕ) → levels u ≢ 0 → j < 512 → find_table u j grown ≡ some s → Leads u j s
  leads u j s h lj f = elim (ℕ_discrete u frame) [
    | yes same ↦
        let gone : find_table u j grown ≡ none =
          ap (λ x. find_table x j grown) same ∙ found_none j lj in
        cc
    | no other ↦
        let table : level u ≢ 0 = ground arith in
        elim (ℕ_discrete t u) [
          | yes at_t ↦ elim (ℕ_discrete i j) [
            | yes at_i ↦
                let here : find_table u j grown ≡ some frame =
                  ap (λ x. find_table x j grown) (sym at_t)
                  ∙ ap (λ y. find_table t y grown) (sym at_i)
                  ∙ found_new in
                Leads.to_new (sym at_t) (sym at_i) (ground (arith, here, f))
            | no ne ↦
                Leads.as_before table (levels_old u table)
                  (sym (found_old u j table lj (λ _. ne)) ∙ f)
          ]
          | no ne ↦
              Leads.as_before table (levels_old u table)
                (sym (found_old u j table lj (λ same. absurd (ne same))) ∙ f)
        ]
  ]

  step_down : (u j s k : ℕ) → j < 512 → levels u ≡ suc (suc k) → Leads u j s → levels s ≡ suc k
  step_down u j s k lj h (Leads.to_new at_t at_i new) =
      let was : levels t ≡ level t = levels_old t t-table in
      let same : n ≡ k = omega (arith, was, lt, ap levels at_t, h) in
      ap levels new ∙ levels_new ∙ ap suc same
  step_down u j s k lj h (Leads.as_before table was f) =
      let below : level s ≡ suc k = tree.linked u j s k (sym was ∙ h) lj f in
      levels_old s (λ gone. absurd (omega (arith, below, gone))) ∙ below

  pub not_new : (u j s : ℕ) → 2 ≤ level u → j < 512 → find_table u j m ≡ some s → s ≢ frame
  not_new u j s h lj f same =
      let upper : level u ≡ suc (suc (level u - 2)) = omega arith in
      let below : level s ≡ suc (level u - 2) = tree.linked u j s (level u - 2) upper lj f in
      absurd (omega (arith, below, ap level same, fresh))

  only_link :
      (u j v l s : ℕ)
      → 2 ≤ levels u
      → 2 ≤ levels v
      → j < 512
      → l < 512
      → Leads u j s
      → Leads v l s
      → (u ≡ v) × (j ≡ l)
  only_link u j v l s hu hv lj ll (Leads.to_new at_t at_i new) (Leads.to_new at_t' at_i' new') =
      (at_t ∙ sym at_t', at_i ∙ sym at_i')
  only_link u j v l s hu hv lj ll (Leads.to_new at_t at_i new) (Leads.as_before table was f) =
      absurd (not_new v l s (omega (arith, was)) ll f new)
  only_link u j v l s hu hv lj ll (Leads.as_before table was f) (Leads.to_new at_t at_i new) =
      absurd (not_new u j s (omega (arith, was)) lj f new)
  only_link u j v l s hu hv lj ll (Leads.as_before table was f) (Leads.as_before table' was' f') =
      tree.single u j v l s (omega (arith, was)) (omega (arith, was')) lj ll f f'

  -- What holds of the new table and of every old one holds of all.
  every : (P : ℕ → Type 0) → P frame → ((u : ℕ) → level u ≢ 0 → P u) → (u : ℕ) → levels u ≢ 0 → P u
  every P new old u h = elim (ℕ_discrete u frame) [
    | yes same ↦ subst P (sym same) new
    | no other ↦ old u (ground arith)
  ]

  pub grown-IsTree : IsTree fa levels grown
  grown-IsTree = record {
    aligned = every IsAligned frame-IsAligned tree.aligned;
    clear = every (IsClear fa) frame-IsClear tree.clear;
    kept = λ u k h lk free.
        let (was_free, ne) = still_free k lk free in
        every (λ x. fa.first_frame + k * frame_size ≢ x) ne
          (λ x table. tree.kept x k table lk was_free) u h;
    linked = λ u j s k h lj f.
        step_down u j s k lj h (leads u j s (λ gone. absurd (omega (arith, h, gone))) lj f);
    single = λ u j v l s hu hv lj ll f f'.
        only_link u j v l s hu hv lj ll
          (leads u j s (λ gone. absurd (omega (arith, hu, gone))) lj f)
          (leads v l s (λ gone. absurd (omega (arith, hv, gone))) ll f');
  }

  pub grown-IsPlaced : IsPlaced fa grown
  grown-IsPlaced = record {
    covered = placed.covered;
    start = placed.start;
    bounded = placed.bounded;
    reserved = record { clear = λ k lk free. placed.reserved.clear k lk (still_free k lk free).0 };
  }
