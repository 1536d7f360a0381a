-- ===== src/PageTable/Tree.antt =====
-- kernel/src/mm/page_table.rs: the tables that hang together under a root. `level` gives each table
-- its level, 4 for the root and 1 for the tables whose entries are pages, and 0 to any other frame.
use aperture_os.Prelude.{
  ℕ, suc, ◌+◌, ◌*◌, ◌^◌, ◌≤◌, ◌<◌, ◌≡◌, ◌≢◌, ◌∙◌, ap, sym, arith, none, some, if◌then◌else◌,
}
use aperture_os.Memory.{Memory}
use aperture_os.Frames.{FrameAllocator, frame_size}
use aperture_os.Frames.Bitmap.{used}
use aperture_os.Frames.Allocate.{IsCovered}
use aperture_os.Frames.Outside.{IsClear, IsReserved}
use aperture_os.PageTable.{entry, find_table, is_present, frame_of}
use aperture_os.PageTable.Entries.{link_word, link-Points}
use aperture_os.PageTable.Writes.{IsAligned}

-- An entry leads one level down, no two entries lead to the same table, and the tables are whole
-- frames that the allocator will not hand out, away from its bitmap.
pub record IsTree (fa : FrameAllocator) (level : ℕ → ℕ) (m : Memory) : Type 0 where
  pub aligned : (t : ℕ) → level t ≢ 0 → IsAligned t
  pub clear : (t : ℕ) → level t ≢ 0 → IsClear fa t
  pub kept :
      (t i : ℕ)
      → level t ≢ 0
      → i < fa.frame_count
      → used fa m i ≡ 0
      → fa.first_frame + i * frame_size ≢ t
  pub linked :
      (t i s k : ℕ) → level t ≡ suc (suc k) → i < 512 → find_table t i m ≡ some s → level s ≡ suc k
  pub single :
      (t i u j s : ℕ)
      → 2 ≤ level t
      → 2 ≤ level u
      → i < 512
      → j < 512
      → find_table t i m ≡ some s
      → find_table u j m ≡ some s
      → (t ≡ u) × (i ≡ j)

-- The allocator's frames are whole frames of a 64-bit address space, and none of the free ones meets
-- its bitmap.
pub record IsPlaced (fa : FrameAllocator) (m : Memory) : Type 0 where
  pub covered : IsCovered fa
  pub start : IsAligned fa.first_frame
  pub bounded : fa.first_frame + fa.frame_count * frame_size ≤ 2 ^ 64
  pub reserved : IsReserved fa m

pub find_table_ext :
    (t i : ℕ) (m m' : Memory) → entry t i m' ≡ entry t i m → find_table t i m' ≡ find_table t i m
unfolding find_table
find_table_ext t i m m' e = ap (λ v. if is_present v then some (frame_of v) else none) e

pub find_table-some :
    (t i frame : ℕ) (m : Memory)
    → entry t i m ≡ link_word frame
    → IsAligned frame
    → frame < 2 ^ 64
    → find_table t i m ≡ some frame
unfolding find_table
find_table-some t i frame m e al b =
    let (_, present, points) = link-Points frame al b in rw (e, present, points)

pub find_table-none : (t i : ℕ) (m : Memory) → entry t i m ≡ 0 → find_table t i m ≡ none
unfolding find_table is_present
find_table-none t i m e = rw e

-- The tree stays one where no entry of the upper levels and no frame's state changes.
pub keep-IsTree :
    (fa : FrameAllocator) (level : ℕ → ℕ) (m m' : Memory)
    → IsTree fa level m
    → ((u j : ℕ) → 2 ≤ level u → j < 512 → entry u j m' ≡ entry u j m)
    → ((k : ℕ) → k < fa.frame_count → used fa m' k ≡ used fa m k)
    → IsTree fa level m'
keep-IsTree fa level m m' tree same state = record {
  aligned = tree.aligned;
  clear = tree.clear;
  kept = λ t i h l free. tree.kept t i h l (sym (state i l) ∙ free);
  linked = λ t i s k h l e.
      tree.linked t i s k h l (sym (find_table_ext t i m m' (same t i (omega (arith, h)) l)) ∙ e);
  single = λ t i u j s ht hu li lj e e'.
      tree.single t i u j s ht hu li lj (sym (find_table_ext t i m m' (same t i ht li)) ∙ e)
        (sym (find_table_ext u j m m' (same u j hu lj)) ∙ e');
}
