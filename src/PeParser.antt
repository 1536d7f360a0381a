-- ===== src/PeParser.antt =====
-- crates/pe-parser/src/lib.rs: the headers, sections and imports of a PE image, over the bytes of
-- the file. A slice that ends past the file panics in Rust.
pub mod Headers
pub mod Sections
pub mod Imports
pub mod Tests
use Prim.Native.Nat.{bit_and}
use aperture_os.Prelude.{
  ℕ, zero, suc, ◌+◌, ◌-◌, ◌*◌, Option, none, some, List, [], ◌∷◌, ◌++◌, Bool, true, false, not,
  ◌&&◌, ◌||◌, if◌then◌else◌, ◌==◌, ltb, leb, length, take, drop, replicate, map, get_or, u32, u64,
  position, is_utf8,
}
use aperture_os.Memory.Bytes.{from_le_bytes}

-- `Some`, `None`, or a panic.
pub data Parsed {ℓ} (A : Type ℓ) : Type ℓ where
  found : A → Parsed A
  absent : Parsed A
  panicked : Parsed A

infixl 5 ◌>>=◌
abbrev pub ◌>>=◌ : {A B : Type 0} → Parsed A → (A → Parsed B) → Parsed B
Parsed.found a >>= f = f a
Parsed.absent >>= f = Parsed.absent
Parsed.panicked >>= f = Parsed.panicked

abbrev pub require : Bool → Parsed (Unit {0})
require true = Parsed.found tt
require false = Parsed.absent

pub data MachineType : Type 0 where
  i386 amd64 arm64 : MachineType

pub record DataDirectory : Type 0 where
  pub rva : ℕ
  pub size : ℕ

pub record PeImage : Type 0 where
  pub machine : MachineType
  pub entry_point : ℕ
  pub image_base : ℕ
  pub image_size : ℕ
  pub is_dll : Bool
  pub num_sections : ℕ
  pub section_table_offset : ℕ
  pub data_directory_offset : ℕ
  pub num_data_directories : ℕ

pub record ImportDescriptor : Type 0 where
  pub int_rva : ℕ
  pub iat_rva : ℕ
  pub name_rva : ℕ

abbrev pub max_import_descriptors : ℕ
max_import_descriptors = 32

abbrev pub max_import_thunks : ℕ
max_import_thunks = 64

-- the number in the `n` bytes at `offset`
abbrev pub number_at : List ℕ → ℕ → ℕ → ℕ
number_at bytes offset n = from_le_bytes (take n (drop offset bytes))

-- the same, where the code takes a slice
unfoldable pub field : List ℕ → ℕ → ℕ → Parsed ℕ
field bytes offset n =
    if leb (offset + n) (length bytes)
    then Parsed.found (number_at bytes offset n)
    else Parsed.panicked

unfoldable pub machine_of : ℕ → Parsed MachineType
machine_of machine =
    if machine == 0x8664
    then Parsed.found MachineType.amd64
    else if machine == 0xAA64
    then Parsed.found MachineType.arm64
    else if machine == 0x014C
    then Parsed.found MachineType.i386
    else Parsed.absent

unfoldable pub image_base_of : List ℕ → ℕ → ℕ → Parsed ℕ
image_base_of bytes opt_offset magic =
    if magic == 0x20B
    then field bytes (opt_offset + 24) 8
    else if magic == 0x10B
    then field bytes (opt_offset + 28) 4
    else Parsed.absent

-- `parse_pe` from the COFF header at `pe_offset` on
unfoldable pub parse_headers : List ℕ → ℕ → Parsed PeImage
parse_headers bytes pe_offset = do
  let opt_offset = pe_offset + 24
  machine ← machine_of (number_at bytes (pe_offset + 4) 2)
  _ ← require (leb (opt_offset + 8) (length bytes))
  image_base ← image_base_of bytes opt_offset (number_at bytes opt_offset 2)
  entry_point ← field bytes (opt_offset + 16) 4
  image_size ← field bytes (opt_offset + 56) 4
  Parsed.found (record {
    machine = machine;
    entry_point = u64 (image_base + entry_point);
    image_base = image_base;
    image_size = image_size;
    is_dll = not (bit_and (number_at bytes (pe_offset + 22) 2) 0x2000 == 0);
    num_sections = number_at bytes (pe_offset + 6) 2;
    section_table_offset = opt_offset + number_at bytes (pe_offset + 20) 2;
    data_directory_offset = opt_offset + 0x6C;
    num_data_directories =
        if leb (opt_offset + 0x6C + 4) (length bytes)
        then number_at bytes (opt_offset + 0x68) 4
        else 0;
  })

-- "MZ" and "PE\0\0" are compared as numbers.
unfoldable pub parse_pe : List ℕ → Parsed PeImage
parse_pe bytes = do
  let pe_offset = number_at bytes 0x3C 4
  _ ← require (leb 0x40 (length bytes))
  _ ← require (number_at bytes 0 2 == 0x5A4D)
  _ ← require (leb (pe_offset + 24) (length bytes))
  _ ← require (number_at bytes pe_offset 4 == 0x4550)
  parse_headers bytes pe_offset

unfoldable pub data_directory : List ℕ → PeImage → ℕ → Option DataDirectory
data_directory bytes image index =
    let offset = image.data_directory_offset + index * 8 in
    if leb image.num_data_directories (u32 index)
    then none
    else if ltb (length bytes) (offset + 8)
    then none
    else some (record { rva = number_at bytes offset 4; size = number_at bytes (offset + 4) 4 })

pub record SectionHeader : Type 0 where
  pub name : List ℕ
  pub virtual_size : ℕ
  pub virtual_address : ℕ
  pub raw_size : ℕ
  pub raw_offset : ℕ

unfoldable pub parse_section_header : List ℕ → ℕ → Option SectionHeader
parse_section_header bytes offset =
    if ltb (length bytes) (offset + 40)
    then none
    else some (record {
      name = take 8 (drop offset bytes);
      virtual_size = number_at bytes (offset + 8) 4;
      virtual_address = number_at bytes (offset + 12) 4;
      raw_size = number_at bytes (offset + 16) 4;
      raw_offset = number_at bytes (offset + 20) 4;
    })

abbrev is_zero : ℕ → Bool
is_zero b = b == 0

-- `SectionHeader::name_str`
unfoldable pub name_str : SectionHeader → List ℕ
name_str section =
    let text : List ℕ = elim (position is_zero section.name) [
      | none ↦ take 8 section.name
      | some len ↦ take len section.name
    ] in
    if is_utf8 text then text else []

-- whether the bytes of a section in the file hold the address `rva`
unfoldable pub holds : ℕ → SectionHeader → Bool
holds rva section =
    leb section.virtual_address rva && ltb rva (section.virtual_address + section.raw_size)

-- The loop of `rva_to_file_offset` from the section `i` on.
unfoldable pub find_section : ℕ → ℕ → List ℕ → PeImage → ℕ → Option ℕ
find_section zero i bytes image rva = none
find_section (suc left) i bytes image rva =
    let rest = find_section left (i + 1) bytes image rva in
    elim (parse_section_header bytes (image.section_table_offset + i * 40)) [
      | none ↦ none
      | some section ↦
          if holds rva section
          then some (rva - section.virtual_address + section.raw_offset)
          else rest
    ]

unfoldable pub rva_to_file_offset : List ℕ → PeImage → ℕ → Option ℕ
rva_to_file_offset bytes image rva = find_section image.num_sections 0 bytes image rva

-- An array of `n` slots that starts with `xs`.
abbrev pub padded {ℓ} : {A : Type ℓ} → ℕ → List A → List (Option A)
padded n xs = map some xs ++ replicate (n - length xs) none

abbrev pub descriptor_at : List ℕ → ℕ → ImportDescriptor
descriptor_at bytes offset = record {
  int_rva = number_at bytes offset 4;
  iat_rva = number_at bytes (offset + 12) 4;
  name_rva = number_at bytes (offset + 16) 4;
}

unfoldable pub is_terminator : ImportDescriptor → Bool
is_terminator d = d.int_rva == 0 && d.iat_rva == 0 && d.name_rva == 0

-- The loop of `parse_import_directory`: the descriptors before its end, `left` rounds at most.
unfoldable pub descriptors_from : ℕ → List ℕ → ℕ → List ImportDescriptor
descriptors_from zero bytes offset = []
descriptors_from (suc left) bytes offset =
    let rest = descriptors_from left bytes (offset + 20) in
    if ltb (length bytes) (offset + 20)
    then []
    else if is_terminator (descriptor_at bytes offset)
    then []
    else descriptor_at bytes offset ∷ rest

unfoldable pub offset_or_zero : Option ℕ → ℕ
offset_or_zero none = 0
offset_or_zero (some offset) = offset

unfoldable pub import_descriptors : List ℕ → PeImage → List ImportDescriptor
import_descriptors bytes image = elim (data_directory bytes image 1) [
  | none ↦ []
  | some dir ↦
      if dir.rva == 0 || dir.size == 0
      then []
      else descriptors_from max_import_descriptors bytes
          (offset_or_zero (rva_to_file_offset bytes image dir.rva))
]

unfoldable pub parse_import_directory : List ℕ → PeImage → List (Option ImportDescriptor)
parse_import_directory bytes image = padded max_import_descriptors (import_descriptors bytes image)

-- The loop of `parse_import_thunks`.
unfoldable pub thunks_from : ℕ → List ℕ → ℕ → List ℕ
thunks_from zero bytes offset = []
thunks_from (suc left) bytes offset =
    let rest = thunks_from left bytes (offset + 8) in
    let value = number_at bytes offset 8 in
    if ltb (length bytes) (offset + 8) then [] else if value == 0 then [] else value ∷ rest

unfoldable pub parse_import_thunks : List ℕ → PeImage → ℕ → List (Option ℕ)
parse_import_thunks bytes image rva = elim (rva_to_file_offset bytes image rva) [
  | none ↦ replicate max_import_thunks none
  | some offset ↦ padded max_import_thunks (thunks_from max_import_thunks bytes offset)
]

unfoldable pub until_nul : List ℕ → List ℕ
until_nul [] = []
until_nul (b ∷ bs) = let rest = until_nul bs in if b == 0 then [] else b ∷ rest

-- A slice that starts past the file panics, even if it is empty.
unfoldable pub string_at : List ℕ → ℕ → Parsed (List ℕ)
string_at bytes offset =
    let text = until_nul (drop offset bytes) in
    if ltb (length bytes) offset
    then Parsed.panicked
    else if is_utf8 text
    then Parsed.found text
    else Parsed.absent

unfoldable pub read_rva_string : List ℕ → PeImage → ℕ → Parsed (List ℕ)
read_rva_string bytes image rva = elim (rva_to_file_offset bytes image rva) [
  | none ↦ Parsed.absent
  | some offset ↦ string_at bytes offset
]
