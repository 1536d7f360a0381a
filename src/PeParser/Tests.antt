-- ===== src/PeParser/Tests.antt =====
-- crates/pe-parser/src/lib.rs: a small image, and the theorems at it.
use aperture_os.Prelude.{
  ℕ, ◌+◌, ◌<◌, ◌≡◌, ◌↔◌, refl, List, ◌∷◌, ◌++◌, some, false, length, replicate,
}
use aperture_os.Memory.Bytes.{from_le_bytes}
use aperture_os.PeParser.{
  Parsed, PeImage, MachineType, ImportDescriptor, field, machine_of, image_base_of, parse_headers,
  parse_pe, number_at, rva_to_file_offset, find_section, parse_section_header, holds,
}
use aperture_os.PeParser.Headers.{IsRecognized, parse_pe_panics}

-- The DOS header, the COFF header of an AMD64 image with one section, and the first eight bytes of
-- a PE32+ optional header.
abbrev start : List ℕ
start =
    0x4D
    ∷ 0x5A
    ∷ (replicate 58 0
        ++ (0x40
            ∷ 0
            ∷ 0
            ∷ 0
            ∷ 0x50
            ∷ 0x45
            ∷ 0
            ∷ 0
            ∷ 0x64
            ∷ 0x86
            ∷ 1
            ∷ 0
            ∷ (replicate 12 0 ++ (0xF0 ∷ 0 ∷ 0 ∷ 0 ∷ 0x0B ∷ 2 ∷ replicate 6 0))))

-- The optional header up to its 112th byte: entry point 0x1000, image base 0x140000000, size 0x2000.
abbrev pub whole : List ℕ
whole =
    start
    ++ (replicate 8 0
        ++ (0
            ∷ 0x10
            ∷ 0
            ∷ 0
            ∷ (replicate 4 0
                ++ (0
                    ∷ 0
                    ∷ 0
                    ∷ 0x40
                    ∷ 1
                    ∷ 0
                    ∷ 0
                    ∷ 0
                    ∷ (replicate 24 0
                        ++ (0
                            ∷ 0x20
                            ∷ 0
                            ∷ 0
                            ∷ (replicate 44 0 ++ (16 ∷ 0 ∷ 0 ∷ 0 ∷ replicate 4 0))))))))

abbrev image : PeImage
image = record {
  machine = MachineType.amd64;
  entry_point = 0x140001000;
  image_base = 0x140000000;
  image_size = 0x2000;
  is_dll = false;
  num_sections = 1;
  section_table_offset = 0x148;
  data_directory_offset = 0xC4;
  num_data_directories = 16;
}

parse_pe_run : parse_pe whole ≡ Parsed.found image
unfolding parse_pe parse_headers field machine_of image_base_of from_le_bytes
parse_pe_run = refl

parse_pe_short_run : parse_pe start ≡ Parsed.panicked
unfolding parse_pe parse_headers field machine_of image_base_of from_le_bytes
parse_pe_short_run = refl

parse_pe_panics_example :
    (parse_pe start ≡ Parsed.panicked)
    ↔ (IsRecognized start × (length start < number_at start 0x3C 4 + 84))
parse_pe_panics_example = parse_pe_panics start

-- One section of 0x200 bytes at address 0x1000, stored at 0x400 of the file; its header comes first.
abbrev with_section : List ℕ
with_section =
    0x2E
    ∷ 0x74
    ∷ (replicate 6 0
        ++ (0 ∷ 2 ∷ 0 ∷ 0 ∷ 0 ∷ 0x10 ∷ 0 ∷ 0 ∷ 0 ∷ 2 ∷ 0 ∷ 0 ∷ 0 ∷ 4 ∷ 0 ∷ 0 ∷ replicate 16 0))

abbrev section_image : PeImage
section_image = record image { section_table_offset = 0 }

section_run : rva_to_file_offset with_section section_image 0x1010 ≡ some 0x410
unfolding rva_to_file_offset find_section parse_section_header holds from_le_bytes
section_run = refl

abbrev kernel32 : ImportDescriptor
kernel32 = record { int_rva = 0x2000; iat_rva = 0x3000; name_rva = 0x4000 }
