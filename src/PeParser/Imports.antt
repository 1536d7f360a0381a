-- ===== src/PeParser/Imports.antt =====
-- crates/pe-parser/src/lib.rs: an import table read back.
use aperture_os.Prelude.{◌≢◌, ◌⊎◌, ℕ, ◌^◌, ◌<◌, ◌≡◌, List, [], ◌∷◌, ◌++◌, length, replicate, refl}
use aperture_os.Memory.Bytes.{le_bytes}
use aperture_os.PeParser.{ImportDescriptor}

-- A descriptor as the linker writes it, with eight bytes that the parser skips.
abbrev pub encode : ImportDescriptor → List ℕ
encode d =
    le_bytes 4 d.int_rva ++ (replicate 8 0 ++ (le_bytes 4 d.iat_rva ++ le_bytes 4 d.name_rva))

abbrev pub encode_table : List ImportDescriptor → List ℕ
encode_table [] = replicate 20 0
encode_table (d ∷ ds) = encode d ++ encode_table ds

-- The fields have 32 bits, and one of them is not zero.
pub record IsEntry (d : ImportDescriptor) : Type 0 where
  pub int_fits : d.int_rva < 2 ^ 32
  pub iat_fits : d.iat_rva < 2 ^ 32
  pub name_fits : d.name_rva < 2 ^ 32
  pub filled : (d.int_rva ≢ 0) ⊎ ((d.iat_rva ≢ 0) ⊎ (d.name_rva ≢ 0))

length-encode : (d : ImportDescriptor) → length (encode d) ≡ 20
unfolding le_bytes
length-encode d = refl
