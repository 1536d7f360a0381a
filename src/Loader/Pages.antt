-- ===== src/Loader/Pages.antt =====
-- kernel/src/win32/loader.rs: the page that `map_section` maps, as `translate` of page_table.rs
-- sees it.
use Prim.Native.Nat.{bit_and, bit_or}
use aperture_os.Prelude.{
  ℕ, ◌+◌, ◌*◌, ◌%◌, ◌^◌, ◌<◌, ◌≤◌, ◌≡◌, ◌≢◌, ◌⊎◌, ◌∙◌, sym, ap, ap₂, some, List, true, arith,
  if◌then◌else◌, ◌==◌,
}
use aperture_os.Memory.{Memory}
use aperture_os.Memory.Laws.{read_u64_ext}
use aperture_os.Frames.{FrameAllocator}
use aperture_os.Frames.Bitmap.{used}
use aperture_os.Frames.Outside.{used_ext}
use aperture_os.PageTable.{entry, map, translate}
use aperture_os.PageTable.Entries.{page-Points_top}
use aperture_os.PageTable.Mapping.{page_number, map_word, translate_ext}
use aperture_os.PageTable.Tree.{IsTree, IsPlaced, keep-IsTree}
use aperture_os.PageTable.Writes.{IsAligned}
use aperture_os.PeParser.{SectionHeader}
use aperture_os.Loader.{section_flags, fill_section, map_section}
use aperture_os.Loader.Sections.{fill_section_outside}

-- The `size` bytes from `dest` on do not meet the allocator's bitmap and no table.
pub record IsBeside (fa : FrameAllocator) (level : ℕ → ℕ) (dest size : ℕ) : Type 0 where
  pub bitmap : (dest + size ≤ fa.bitmap) ⊎ (fa.bitmap + 8 * fa.bitmap_words ≤ dest)
  pub tables : (t : ℕ) → level t ≢ 0 → (dest + size ≤ t) ⊎ (t + 4096 ≤ dest)

-- Filling such a section leaves the tables as they were.
module _ (fa : FrameAllocator) (level : ℕ → ℕ) (section : SectionHeader) (bytes : List ℕ) (dest : ℕ)
    (m : Memory) (fits : dest + section.virtual_size < 2 ^ 64)
    (beside : IsBeside fa level dest section.virtual_size) (placed : IsPlaced fa m) where
  abbrev filled : Memory
  filled = fill_section section bytes dest m

  entry-filled : (t i : ℕ) → level t ≢ 0 → i < 512 → entry t i filled ≡ entry t i m
  entry-filled t i h l = read_u64_ext (t + 8 * i) filled m (λ b p q.
      fill_section_outside section bytes dest m fits b (ground (arith, beside.tables t h)))

  used-filled : (k : ℕ) → k < fa.frame_count → used fa filled k ≡ used fa m k
  used-filled k l =
      used_ext fa filled m k (omega (arith, placed.covered.covered))
        (λ a p q. fill_section_outside section bytes dest m fits a (ground (arith, beside.bitmap)))

  filled-IsTree : IsTree fa level m → IsTree fa level filled
  filled-IsTree tree =
      keep-IsTree fa level m filled tree
        (λ u j h l. entry-filled u j (λ gone. absurd (omega (arith, h, gone))) l) used-filled

  filled-IsPlaced : IsPlaced fa filled
  filled-IsPlaced = record {
    covered = placed.covered;
    start = placed.start;
    bounded = placed.bounded;
    reserved = record {
      clear = λ k lk free. placed.reserved.clear k lk (sym (used-filled k lk) ∙ free);
    };
  }

-- When its page can be mapped, a section that starts a page is visible to translate at the image's
-- virtual address for that first page only, and at its physical address with bit 63 set; every
-- other page translates as before.
pub map_section-translate :
    (fa : FrameAllocator) (level : ℕ → ℕ) (section : SectionHeader) (bytes : List ℕ)
    (phys_base virt_base root other : ℕ) (m : Memory)
    → let dest = phys_base + section.virtual_address in
      let virt = virt_base + section.virtual_address in
      IsTree fa level m
      → IsPlaced fa m
      → level root ≡ 4
      → IsBeside fa level dest section.virtual_size
      → IsAligned dest
      → dest + section.virtual_size < 2 ^ 63
      → virt < 2 ^ 64
      → (map fa root virt dest section_flags (fill_section section bytes dest m)).0 ≡ true
      → translate root other (map_section fa section bytes phys_base virt_base (some root) m) ≡ (
          if page_number other == page_number virt
          then some (bit_or (dest + 2 ^ 63) (bit_and other 0xFFF))
          else translate root other m)
unfolding map_section
map_section-translate fa level section bytes phys_base virt_base root other m tree placed top beside
      al fits small done =
    let dest = phys_base + section.virtual_address in
    let virt = virt_base + section.virtual_address in
    let m' : Memory = fill_section section bytes dest m in
    let wide : dest + section.virtual_size < 2 ^ 64 = omega arith in
    let d : dest % 2 ^ 64 ≡ dest = omega arith in
    let v : virt % 2 ^ 64 ≡ virt = omega arith in
    let same : translate root other m' ≡ translate root other m =
      translate_ext fa level root other m m' tree top
        (entry-filled fa level section bytes dest m wide beside placed) in
    let (word, present, leads) = page-Points_top dest 7 al (omega arith) (omega arith) in
    let mapped =
      map_word fa level root virt dest section_flags (dest + 2 ^ 63) other m'
        (filled-IsTree fa level section bytes dest m wide beside placed tree)
        (filled-IsPlaced fa level section bytes dest m wide beside placed) top word present leads
        done in
    let plain : map_section fa section bytes phys_base virt_base (some root) m
        ≡ (map fa root virt dest section_flags m').1 =
      ap₂ (λ w a. (map fa root w a section_flags (fill_section section bytes a m)).1) v d in
    ap (translate root other) plain
    ∙ mapped.0
    ∙ ap
        (λ t.
          if page_number other == page_number virt
          then some (bit_or (dest + 2 ^ 63) (bit_and other 0xFFF))
          else t)
        same
