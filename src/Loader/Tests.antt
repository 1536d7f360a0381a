-- ===== src/Loader/Tests.antt =====
-- Runs of the loader.
use Prim.Native.Nat.{bit_and, bit_or}
use aperture_os.Prelude.{
  ℕ, ◌+◌, ◌^◌, ◌≡◌, refl, inr, none, some, List, [], ◌∷◌, true, false, arith, if◌then◌else◌, ◌==◌,
  ltb, leb, ◌||◌, ◌-◌, get_or, replicate,
}
use aperture_os.Memory.{Memory, read_bytes, write_bytes, read_u64, write_u64, zero_bytes}
use aperture_os.Memory.Bytes.{le_bytes, from_le_bytes}
use aperture_os.Bits.Mask.{trailing_ones}
use aperture_os.Frames.{allocate_from, allocate_frame, try_word}
use aperture_os.PageTable.{
  map, translate, find_table, new_entry, next_table, is_present, frame_of, pml4_index, pdpt_index,
  pd_index, pt_index,
}
use aperture_os.PageTable.Mapping.{page_number}
use aperture_os.PageTable.Tests.{four, root, before, root_only, before-IsTree, before-IsPlaced}
use aperture_os.PeParser.{SectionHeader, MachineType}
use aperture_os.Loader.{
  copy_section, fill_section, map_section, section_flags, allocate_contiguous, contiguous_from,
  requires_translation, same_machine,
}
use aperture_os.Loader.Contiguous.{Chosen, allocate_contiguous-Chosen}
use aperture_os.Loader.Sections.{fill_section_lem}
use aperture_os.Loader.Pages.{IsBeside, map_section-translate}

abbrev text : SectionHeader
text = record {
  name = replicate 8 0;
  virtual_size = 6;
  virtual_address = 4096;
  raw_size = 2;
  raw_offset = 1;
}

abbrev file : List ℕ
file = 77 ∷ 0xEB ∷ 0xFE ∷ []

filled_run :
    read_bytes 0x201000 6 (fill_section text file 0x201000 (λ a. 9))
    ≡ 0xEB ∷ 0xFE ∷ 0 ∷ 0 ∷ 0 ∷ 0 ∷ []
unfolding fill_section copy_section read_bytes write_bytes zero_bytes
filled_run = refl

fill_section_lem_example : fill_section text file 0x201000 before 0x201001 ≡ (
    if ltb 0x201001 0x201000 || leb (0x201000 + 6) 0x201001
    then before 0x201001
    else if ltb (0x201001 - 0x201000) 2
    then get_or file (1 + (0x201001 - 0x201000)) 0
    else 0)
fill_section_lem_example =
    fill_section_lem text file 0x201000 before 0x201001 (omega arith) (omega arith)

two_frames : (allocate_contiguous 2 four before).0 ≡ some 0x101000
unfolding allocate_contiguous contiguous_from allocate_frame allocate_from try_word trailing_ones
    read_u64 write_u64 read_bytes write_bytes le_bytes from_le_bytes
two_frames = refl

-- Frames 1 and 3 are free: the two are taken and nothing is returned.
abbrev gap : Memory
gap a = if a == 64 then 5 else 0

lost :
    ((allocate_contiguous 2 four gap).0 ≡ none)
    × (read_u64 64 (allocate_contiguous 2 four gap).1 ≡ 15)
unfolding allocate_contiguous contiguous_from allocate_frame allocate_from try_word trailing_ones
    read_u64 write_u64 read_bytes write_bytes le_bytes from_le_bytes
lost = (refl, refl)

allocate_contiguous-Chosen_example : Chosen four gap 2 (allocate_contiguous 2 four gap)
allocate_contiguous-Chosen_example =
    allocate_contiguous-Chosen 1 four gap (record { covered = omega arith })

beside : IsBeside four root_only 0x201000 6
beside = record { bitmap = inr (omega arith); tables = λ t h. inr (ground arith) }

map_run :
    (map four root 0x140001000 0x201000 section_flags (fill_section text file 0x201000 before)).0
    ≡ true
unfolding map find_table next_table new_entry is_present frame_of pml4_index pdpt_index pd_index
    pt_index allocate_frame allocate_from try_word trailing_ones read_u64 write_u64 read_bytes
    write_bytes zero_bytes le_bytes from_le_bytes fill_section copy_section
map_run = refl

map_section-translate_example :
    translate root 0x140001004 (map_section four text file 0x200000 0x140000000 (some root) before)
    ≡ (if page_number 0x140001004 == page_number 0x140001000
        then some (bit_or (0x201000 + 2 ^ 63) (bit_and 0x140001004 0xFFF))
        else translate root 0x140001004 before)
map_section-translate_example =
    map_section-translate four root_only text file 0x200000 0x140000000 root 0x140001004 before
      before-IsTree before-IsPlaced refl beside refl (omega arith) (omega arith) map_run

natively :
    (requires_translation MachineType.amd64 ≡ false)
    × (requires_translation MachineType.arm64 ≡ true)
unfolding requires_translation same_machine
natively = (refl, refl)
