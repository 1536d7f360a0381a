-- ===== src/PeParser/Sections.antt =====
-- crates/pe-parser/src/lib.rs: the section that an address of the image is found in.
use aperture_os.Prelude.{ℕ, ◌+◌, ◌-◌, ◌*◌, ◌≤◌, ◌<◌, ◌≡◌, Option, none, some, List, false}
use aperture_os.PeParser.{PeImage, SectionHeader, parse_section_header, holds}

module _ (bytes : List ℕ) (image : PeImage) (rva : ℕ) where
  abbrev pub header : ℕ → Option SectionHeader
  header i = parse_section_header bytes (image.section_table_offset + i * 40)

  -- The section `i` is in the file and does not hold the address.
  abbrev pub IsPassed : ℕ → Type 0
  IsPassed i = (s : SectionHeader) × (header i ≡ some s) × (holds rva s ≡ false)

  -- What the search over the sections `from` to `to` promises.
  pub data Search (from to : ℕ) : Option ℕ → Type 0 where
    hit :
        (i : ℕ) (s : SectionHeader)
        → from ≤ i
        → i < to
        → header i ≡ some s
        → s.virtual_address ≤ rva
        → rva < s.virtual_address + s.raw_size
        → ((j : ℕ) → from ≤ j → j < i → IsPassed j)
        → Search from to (some (rva - s.virtual_address + s.raw_offset))
    cut :
        (i : ℕ)
        → from ≤ i
        → i < to
        → header i ≡ none
        → ((j : ℕ) → from ≤ j → j < i → IsPassed j)
        → Search from to none
    nowhere : ((j : ℕ) → from ≤ j → j < to → IsPassed j) → Search from to none
