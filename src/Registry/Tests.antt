-- ===== src/Registry/Tests.antt =====
-- Runs of the registry.
use aperture_os.Prelude.{
  ◌≡◌, refl, none, some, [], ◌∷◌, Bool, true, if◌then◌else◌, replicate, position, is_utf8,
  is_utf8_from,
}
use aperture_os.EarlyHeap.{Bump, alloc_early, aligned_from}
use aperture_os.Vfs.{Run, bytes_eq}
use aperture_os.Registry.{
  Registry, RegValueType, push_bytes, format_path, has_path, store, set_value, get_value,
}
use aperture_os.Registry.Lookups.{padded_value, get_value-set_value}

abbrev heap : Bump
heap = record { base = 4096; next = 4096; limit = 8192 }

abbrev fresh : Registry
fresh = replicate 4 none

-- the names A, B and A\\B
abbrev run_a : Run (Bool × Bump × Registry)
run_a = set_value (65 ∷ []) (66 ∷ []) RegValueType.dword (7 ∷ []) heap fresh

abbrev registry_of : Run (Bool × Bump × Registry) → Registry
registry_of Run.panicked = []
registry_of (Run.returned (b, h, reg)) = reg

set_run : run_a ≡ Run.returned (true, record heap { next = 4099 }, registry_of run_a)
unfolding set_value store has_path format_path push_bytes is_utf8 is_utf8_from alloc_early
    aligned_from position
set_run = refl

get_value-set_value_example : get_value (65 ∷ []) (66 ∷ []) (registry_of run_a) ≡ (
    if bytes_eq (format_path (65 ∷ []) (66 ∷ [])) (format_path (65 ∷ []) (66 ∷ []))
    then some (padded_value RegValueType.dword (7 ∷ []))
    else get_value (65 ∷ []) (66 ∷ []) fresh)
get_value-set_value_example =
    get_value-set_value (65 ∷ []) (66 ∷ []) RegValueType.dword (7 ∷ []) heap
      (record heap { next = 4099 }) fresh (registry_of run_a) (65 ∷ []) (66 ∷ []) set_run
