-- ===== src/PageTable.antt =====
-- kernel/src/mm/page_table.rs, the x86_64 half: four levels of tables in physical memory. Tables are
-- frames of the frame allocator; an entry is a little-endian word of 64 bits.
pub mod Entries
pub mod Grown
pub mod Tree
pub mod Writes
pub mod Insert
pub mod Inserted
pub mod Made
pub mod Mapping
pub mod Tests
use Prim.Native.Nat.{bit_and, bit_or}
use aperture_os.Prelude.{
  ℕ, zero, suc, ◌+◌, ◌-◌, ◌*◌, ◌/◌, ◌%◌, ◌^◌, Option, none, some, List, [], ◌∷◌, Bool, true, false,
  not, if◌then◌else◌, ◌==◌, u64,
}
use aperture_os.Memory.{Memory, read_u64, write_u64, zero_bytes}
use aperture_os.Frames.{FrameAllocator, allocate_frame, u64_max}

abbrev pub page_present : ℕ
page_present = 1

abbrev pub page_writable : ℕ
page_writable = 2

abbrev pub page_user : ℕ
page_user = 4

-- `entries.add(index).read()`
abbrev pub entry : ℕ → ℕ → Memory → ℕ
entry table index m = read_u64 (table + 8 * index) m

abbrev pub put_entry : ℕ → ℕ → ℕ → Memory → Memory
put_entry table index value m = write_u64 (table + 8 * index) value m

-- `(value & PAGE_PRESENT) != 0` and `value & !0xFFF`
unfoldable pub is_present : ℕ → Bool
is_present value = not (bit_and value page_present == 0)

unfoldable pub frame_of : ℕ → ℕ
frame_of value = bit_and value (u64_max - 0xFFF)

-- The loop `for i in 0..512` that copies the kernel's top-level table, `left` rounds before its end.
unfoldable pub copy_entries : ℕ → ℕ → ℕ → ℕ → Memory → Memory
copy_entries zero i src dst m = m
copy_entries (suc left) i src dst m =
    copy_entries left (i + 1) src dst (put_entry dst i (entry src i m) m)

-- `PageTable::new`, with the static `KERNEL_CR3`; the table is its root.
unfoldable pub new_table : ℕ → FrameAllocator → Memory → Option ℕ × Memory
new_table kernel_cr3 fa m =
    let (allocated, m₁) = allocate_frame fa m in
    elim allocated [
      | none ↦ (none, m₁)
      | some root ↦
          let m₂ = zero_bytes root 4096 m₁ in
          (some root, (if kernel_cr3 == 0 then m₂ else copy_entries 512 0 kernel_cr3 root m₂))
    ]

-- `next_table` with `create` false and with `create` true
unfoldable pub find_table : ℕ → ℕ → Memory → Option ℕ
find_table table index m =
    let value = entry table index m in if is_present value then some (frame_of value) else none

unfoldable pub new_entry : ℕ → ℕ → Option ℕ × Memory → Option ℕ × Memory
new_entry table index (none, m) = (none, m)
new_entry table index (some frame, m) = (
  some frame,
  put_entry table index (bit_or (bit_or (bit_or frame page_present) page_writable) page_user)
      (zero_bytes frame 4096 m),
)

unfoldable pub next_table : FrameAllocator → ℕ → ℕ → Memory → Option ℕ × Memory
next_table fa table index m = elim (find_table table index m) [
  | some next ↦ (some next, m)
  | none ↦ new_entry table index (allocate_frame fa m)
]

-- The four indices of a virtual address.
unfoldable pub pml4_index : ℕ → ℕ
pml4_index virt = bit_and (virt / 2 ^ 39) 0x1FF

unfoldable pub pdpt_index : ℕ → ℕ
pdpt_index virt = bit_and (virt / 2 ^ 30) 0x1FF

unfoldable pub pd_index : ℕ → ℕ
pd_index virt = bit_and (virt / 2 ^ 21) 0x1FF

unfoldable pub pt_index : ℕ → ℕ
pt_index virt = bit_and (virt / 2 ^ 12) 0x1FF

-- One step down of `map`: a table that cannot be allocated ends it.
abbrev pub descend : Option ℕ × Memory → (ℕ → Memory → Bool × Memory) → Bool × Memory
descend (none, m) below = (false, m)
descend (some table, m) below = below table m

-- `map` on the table with the root `root`; false if a table could not be allocated
unfoldable pub map : FrameAllocator → ℕ → ℕ → ℕ → ℕ → Memory → Bool × Memory
map fa root virt phys flags m = descend (next_table fa root (pml4_index virt) m) (λ pdpt m₁.
    descend (next_table fa pdpt (pdpt_index virt) m₁) (λ pd m₂.
      descend (next_table fa pd (pd_index virt) m₂) (λ pt m₃.
        (true, put_entry pt (pt_index virt) (bit_or (bit_or phys flags) page_present) m₃))))

-- The loop of `map_region` from the page `i` on, `left` pages before its end.
unfoldable pub map_pages : ℕ → ℕ → FrameAllocator → ℕ → ℕ → ℕ → ℕ → Memory → Bool × Memory
map_pages zero i fa root virt_base phys_base flags m = (true, m)
map_pages (suc left) i fa root virt_base phys_base flags m =
    let (mapped, m₁) =
      map fa root (u64 (virt_base + i * 4096)) (u64 (phys_base + i * 4096)) flags m in
    let rest = map_pages left (i + 1) fa root virt_base phys_base flags m₁ in
    if mapped then rest else (false, m₁)

unfoldable pub map_region : FrameAllocator → ℕ → ℕ → ℕ → ℕ → ℕ → Memory → Bool × Memory
map_region fa root virt_base phys_base pages flags m =
    map_pages pages 0 fa root virt_base phys_base flags m

abbrev pub and_then : Option ℕ → (ℕ → Option ℕ) → Option ℕ
and_then none f = none
and_then (some n) f = f n

-- the last step of `translate`, in the table of the lowest level
unfoldable pub page_address : ℕ → ℕ → Memory → Option ℕ
page_address pt virt m =
    let value = entry pt (pt_index virt) m in
    if not (is_present value) then none else some (bit_or (frame_of value) (bit_and virt 0xFFF))

unfoldable pub translate : ℕ → ℕ → Memory → Option ℕ
translate root virt m = and_then (find_table root (pml4_index virt) m) (λ pdpt.
    and_then (find_table pdpt (pdpt_index virt) m)
      (λ pd. and_then (find_table pd (pd_index virt) m) (λ pt. page_address pt virt m)))

-- `page_table_root`
unfoldable pub page_table_root : ℕ → Option ℕ
page_table_root cr3 = if cr3 == 0 then none else some cr3
