-- ===== src/PageTable/Tests.antt =====
-- kernel/src/mm/page_table.rs: a page mapped in an empty table, with three frames to make the tables
-- from.
use Prim.Native.Nat.{bit_and, bit_or}
use aperture_os.Prelude.{
  ℕ, zero, suc, ◌%◌, ◌<◌, ◌≡◌, ◌≢◌, refl, sym, subst, arith, some, none, true, inr, if◌then◌else◌,
  ◌==◌,
}
use aperture_os.Bits.Mask.{trailing_ones}
use aperture_os.Memory.{Memory, read_bytes, write_bytes, read_u64, write_u64, zero_bytes}
use aperture_os.Memory.Bytes.{le_bytes, from_le_bytes}
use aperture_os.Frames.{FrameAllocator, allocate_from, allocate_frame, try_word}
use aperture_os.Frames.Bitmap.{used}
use aperture_os.Bits.{bit}
use aperture_os.PageTable.{
  map, translate, find_table, new_entry, next_table, is_present, frame_of, pml4_index, pdpt_index,
  pd_index, pt_index, page_address,
}
use aperture_os.PageTable.Mapping.{page_number, translate-map}
use aperture_os.PageTable.Tree.{IsTree, IsPlaced, find_table-none}
use aperture_os.PageTable.Writes.{entry_blank}

-- Four frames from 0x100000 on; the first is the root, and is marked in the bitmap at 64.
abbrev pub four : FrameAllocator
four = record { first_frame = 0x100000; frame_count = 4; bitmap = 64; bitmap_words = 1 }

abbrev pub root : ℕ
root = 0x100000

abbrev pub before : Memory
before a = if a == 64 then 1 else 0

abbrev pub root_only : ℕ → ℕ
root_only t = if t == 0x100000 then 4 else 0

is_root : (t : ℕ) → root_only t ≢ 0 → t ≡ root
is_root t h = ground arith

nothing_there : (t i : ℕ) → root_only t ≢ 0 → i < 512 → find_table t i before ≡ none
nothing_there t i h l =
    let e : t ≡ root = is_root t h in
    find_table-none t i before (entry_blank t i before (λ b p q. ground arith) l)

used-before : (i : ℕ) → i < 4 → used four before i ≡ 0 → i ≢ 0
unfolding used bit read_u64 read_bytes from_le_bytes
used-before zero l h = absurd (omega (arith, h))
used-before (suc i) l h = λ e. absurd (omega (arith, e))

pub before-IsTree : IsTree four root_only before
before-IsTree = record {
  aligned = λ t h. subst (λ x. x % 4096 ≡ 0) (sym (is_root t h)) refl;
  clear = λ t h. inr (omega (arith, is_root t h));
  kept = λ t i h l free e. used-before i l free (omega (arith, is_root t h, e));
  linked =
      λ t i s k h l e. let gone = nothing_there t i (λ z. absurd (omega (arith, h, z))) l in cc;
  single = λ t i u j s ht hu li lj e e'.
      let gone = nothing_there t i (λ z. absurd (omega (arith, ht, z))) li in cc;
}

pub before-IsPlaced : IsPlaced four before
before-IsPlaced = record {
  covered = record { covered = omega arith };
  start = refl;
  bounded = omega arith;
  reserved = record { clear = λ i l free. inr (omega arith) };
}

map_run : (map four root 0x401000 0x200000 3 before).0 ≡ true
unfolding map find_table next_table new_entry is_present frame_of pml4_index pdpt_index pd_index
    pt_index allocate_frame allocate_from try_word trailing_ones read_u64 write_u64 read_bytes
    write_bytes zero_bytes le_bytes from_le_bytes
map_run = refl

translate_run : translate root 0x401234 (map four root 0x401000 0x200000 3 before).1 ≡ some 0x200234
unfolding map translate page_address find_table next_table new_entry is_present frame_of pml4_index
    pdpt_index pd_index pt_index allocate_frame allocate_from try_word trailing_ones read_u64
    write_u64 read_bytes write_bytes zero_bytes le_bytes from_le_bytes
translate_run = refl

translate-map_example :
    let m' = (map four root 0x401000 0x200000 3 before).1 in
    (translate root 0x402000 m' ≡ (
      if page_number 0x402000 == page_number 0x401000
      then some (bit_or 0x200000 (bit_and 0x402000 0xFFF))
      else translate root 0x402000 before))
    × ((levels : ℕ → ℕ) × IsTree four levels m' × IsPlaced four m' × (levels root ≡ 4))
translate-map_example =
    translate-map four root_only root 0x401000 0x200000 3 0x402000 before before-IsTree
      before-IsPlaced refl refl (omega arith) (omega arith) map_run
