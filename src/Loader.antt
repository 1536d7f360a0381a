-- ===== src/Loader.antt =====
-- kernel/src/win32/loader.rs and process.rs: loading a parsed PE image into frames of physical
-- memory and a table of pages of its own. The bytes of the file are borrowed for the whole call, so
-- they are a value. The process stands in memory at an address; the places of its fields are a
-- parameter.
pub mod Contiguous
pub mod Sections
pub mod Pages
mod Tests
use aperture_os.Prelude.{
  ℕ, zero, suc, ◌+◌, ◌-◌, ◌*◌, ◌/◌, ◌^◌, Option, none, some, List, Bool, true, false, not,
  if◌then◌else◌, ltb, leb, ◌==◌, min, length, take, drop, u64,
}
use aperture_os.Memory.{Memory, write_bytes, write_u64, zero_bytes}
use aperture_os.Memory.Bytes.{le_bytes}
use aperture_os.Frames.{FrameAllocator, allocate_frame}
use aperture_os.PageTable.{new_table, map, page_present, page_writable, page_user}
use aperture_os.PeParser.{PeImage, SectionHeader, MachineType, parse_section_header}
use aperture_os.Objects.{Handle}

pub record Process : Type 0 where
  pub pid : ℕ
  pub peb_base : ℕ
  pub teb_base : ℕ
  pub root_handle : Handle
  pub image_base : ℕ
  pub image_size : ℕ
  pub entry_point : ℕ
  pub page_table_root : ℕ

-- `Process::new`
unfoldable pub new_process : ℕ → Process
new_process pid = record {
  pid = pid;
  peb_base = 0;
  teb_base = 0;
  root_handle = 0;
  image_base = 0;
  image_size = 0;
  entry_point = 0;
  page_table_root = 0;
}

abbrev pub page_execute : ℕ
page_execute = 2 ^ 63

-- Where the compiler puts the fields of a `Process`, from its address on: Rust leaves the order open.
pub record Layout : Type 0 where
  pub pid_at : ℕ
  pub peb_base_at : ℕ
  pub teb_base_at : ℕ
  pub root_handle_at : ℕ
  pub image_base_at : ℕ
  pub image_size_at : ℕ
  pub entry_point_at : ℕ
  pub page_table_root_at : ℕ

-- `ptr::write(ptr, process)`; the handle is a `u32`, the other fields are `u64`
unfoldable pub write_process : Layout → ℕ → Process → Memory → Memory
write_process o ptr process m = write_u64 (ptr + o.page_table_root_at) process.page_table_root (
    write_u64 (ptr + o.entry_point_at) process.entry_point (
      write_u64 (ptr + o.image_size_at) process.image_size (
        write_u64 (ptr + o.image_base_at) process.image_base (
          write_bytes (ptr + o.root_handle_at) (le_bytes 4 process.root_handle) (
            write_u64 (ptr + o.teb_base_at) process.teb_base (
              write_u64 (ptr + o.peb_base_at) process.peb_base
                (write_u64 (ptr + o.pid_at) process.pid m)))))))

-- The loop of `allocate_contiguous`, `left` rounds before its end.
unfoldable pub contiguous_from : ℕ → ℕ → ℕ → FrameAllocator → Memory → Option ℕ × Memory
contiguous_from zero first last fa m = (some first, m)
contiguous_from (suc left) first last fa m =
    let (frame, m') = allocate_frame fa m in
    elim frame [
      | none ↦ (none, m')
      | some frame ↦
          let rest = contiguous_from left first frame fa m' in
          if frame == last + 4096 then rest else (none, m')
    ]

unfoldable pub allocate_contiguous : ℕ → FrameAllocator → Memory → Option ℕ × Memory
allocate_contiguous zero fa m = (none, m)
allocate_contiguous (suc pages) fa m =
    let (first, m') = allocate_frame fa m in
    elim first [ none ↦ (none, m') | some first ↦ contiguous_from pages first first fa m' ]

-- `PAGE_PRESENT | PAGE_USER | PAGE_WRITABLE | PAGE_EXECUTE`
abbrev pub section_flags : ℕ
section_flags = page_present + page_user + page_writable + page_execute

abbrev pub copy_size : SectionHeader → ℕ
copy_size section = min section.raw_size section.virtual_size

-- The two writes of `map_section`: the bytes of the file, if it has them all, and the zeros behind.
unfoldable pub copy_section : SectionHeader → List ℕ → ℕ → Memory → Memory
copy_section section bytes dest m =
    if leb (section.raw_offset + copy_size section) (length bytes)
    then write_bytes dest (take (copy_size section) (drop section.raw_offset bytes)) m
    else m

unfoldable pub fill_section : SectionHeader → List ℕ → ℕ → Memory → Memory
fill_section section bytes dest m =
    let copied = copy_section section bytes dest m in
    if ltb (copy_size section) section.virtual_size
    then zero_bytes (u64 (dest + copy_size section)) (section.virtual_size - copy_size section)
        copied
    else copied

unfoldable pub map_section :
    FrameAllocator → SectionHeader → List ℕ → ℕ → ℕ → Option ℕ → Memory → Memory
map_section fa section bytes phys_base virt_base page_table m =
    let filled = fill_section section bytes (u64 (phys_base + section.virtual_address)) m in
    elim page_table [
      | none ↦ filled
      | some root ↦
          (map fa root (u64 (virt_base + section.virtual_address))
            (u64 (phys_base + section.virtual_address)) section_flags filled).1
    ]

-- The loop of `load_into_process` over the sections, `left` rounds before its end; false if a
-- header ends past the file.
unfoldable pub load_sections :
    ℕ → ℕ → FrameAllocator → PeImage → List ℕ → ℕ → Option ℕ → Memory → Bool × Memory
load_sections zero i fa image bytes base page_table m = (true, m)
load_sections (suc left) i fa image bytes base page_table m =
    elim (parse_section_header bytes (image.section_table_offset + i * 40)) [
      | none ↦ (false, m)
      | some section ↦
          load_sections left (i + 1) fa image bytes base page_table
            (map_section fa section bytes base image.image_base page_table m)
    ]

abbrev pub root_or_zero : Option ℕ → ℕ
root_or_zero none = 0
root_or_zero (some root) = root

-- The end of `load_into_process`: what it stores in the process at `ptr`, if all sections were
-- loaded.
unfoldable pub finish_load : Layout → ℕ → PeImage → ℕ → Option ℕ → Bool × Memory → Bool × Memory
finish_load o ptr image base page_table (false, m) = (false, m)
finish_load o ptr image base page_table (true, m) = (
  true,
  write_u64 (ptr + o.entry_point_at) (u64 (base + (image.entry_point - image.image_base)))
      (write_u64 (ptr + o.page_table_root_at) (root_or_zero page_table) m),
)

abbrev pub total_pages : PeImage → ℕ
total_pages image = (image.image_size + 4095) / 4096

-- The first two writes of `load_into_process` to the process
unfoldable pub place_image : Layout → ℕ → PeImage → ℕ → Memory → Memory
place_image o ptr image base m =
    write_u64 (ptr + o.image_size_at) image.image_size (write_u64 (ptr + o.image_base_at) base m)

-- `load_into_process` from the frame `base` on
unfoldable pub load_at :
    Layout → ℕ → ℕ → ℕ → FrameAllocator → PeImage → List ℕ → Memory → Bool × Memory
load_at o ptr base kernel_cr3 fa image bytes m =
    let (page_table, m₁) = new_table kernel_cr3 fa (place_image o ptr image base m) in
    finish_load o ptr image base page_table (
      load_sections image.num_sections 0 fa image bytes base page_table
        (zero_bytes base (total_pages image * 4096) m₁))

-- `load_into_process` on the process at `ptr`, with the static `KERNEL_CR3`
unfoldable pub load_into_process :
    Layout → ℕ → ℕ → FrameAllocator → PeImage → List ℕ → Memory → Bool × Memory
load_into_process o ptr kernel_cr3 fa image bytes m =
    let (base, m') = allocate_contiguous (total_pages image) fa m in
    elim base [ none ↦ (false, m') | some base ↦ load_at o ptr base kernel_cr3 fa image bytes m' ]

unfoldable pub same_machine : MachineType → MachineType → Bool
same_machine MachineType.i386 MachineType.i386 = true
same_machine MachineType.amd64 MachineType.amd64 = true
same_machine MachineType.arm64 MachineType.arm64 = true
same_machine _ _ = false

-- `host_machine` of the x86_64 build
abbrev pub host_machine : MachineType
host_machine = MachineType.amd64

unfoldable pub requires_translation : MachineType → Bool
requires_translation guest = not (same_machine guest host_machine)
