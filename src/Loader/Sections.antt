-- ===== src/Loader/Sections.antt =====
-- kernel/src/win32/loader.rs: what `map_section` writes and what it maps.
use native.Mathlib.Decide.{dec_lt}
use aperture_os.Prelude.{
  ℕ, ◌+◌, ◌-◌, ◌%◌, ◌^◌, ◌≤◌, ◌<◌, ◌≡◌, ◌⊎◌, List, arith, if◌then◌else◌, ltb, leb, length, get_or,
  take, drop, ◌&&◌, ◌||◌, length-take-drop, get_or-take-drop,
}
use aperture_os.Memory.{Memory, zero_bytes}
use aperture_os.Memory.Laws.{write_bytes_outside, write_bytes_at}
use aperture_os.PeParser.{SectionHeader}
use aperture_os.Loader.{copy_size, copy_section, fill_section}

module _ (section : SectionHeader) (bytes : List ℕ) (dest : ℕ) (m : Memory) where
  copied_at :
      (i : ℕ)
      → section.raw_offset + copy_size section ≤ length bytes
      → i < copy_size section
      → copy_section section bytes dest m (dest + i) ≡ get_or bytes (section.raw_offset + i) 0
  unfolding copy_section
  copied_at i l h =
      let part : List ℕ = take (copy_size section) (drop section.raw_offset bytes) in
      let len : length part ≡ copy_size section =
        length-take-drop (copy_size section) section.raw_offset bytes l in
      ground (
        arith,
        write_bytes_at dest part m i (omega (arith, len)),
        get_or-take-drop (copy_size section) section.raw_offset i bytes h,
      )

  copied_outside :
      (a : ℕ)
      → (a < dest) ⊎ (dest + copy_size section ≤ a)
      → copy_section section bytes dest m a ≡ m a
  unfolding copy_section
  copied_outside a o =
      let part : List ℕ = take (copy_size section) (drop section.raw_offset bytes) in
      elim (dec_lt (length bytes) (section.raw_offset + copy_size section)) [
        | yes short ↦ ground arith
        | no long ↦
            let len : length part ≡ copy_size section =
              length-take-drop (copy_size section) section.raw_offset bytes (omega arith) in
            ground (arith, write_bytes_outside dest part m a (rw len o))
      ]

  module _ (fits : dest + section.virtual_size < 2 ^ 64) where
    fill_at :
        (a : ℕ)
        → fill_section section bytes dest m a ≡ (
            if leb (dest + copy_size section) a && ltb a (dest + section.virtual_size)
            then 0
            else copy_section section bytes dest m a)
    unfolding fill_section zero_bytes
    fill_at a =
        let e : (dest + copy_size section) % 2 ^ 64 ≡ dest + copy_size section = omega arith in
        elim (dec_lt (copy_size section) section.virtual_size) [
          | yes l ↦ ground (arith, e)
          | no l ↦ ground (arith, e)
        ]

    pub fill_section_outside :
        (a : ℕ)
        → (a < dest) ⊎ (dest + section.virtual_size ≤ a)
        → fill_section section bytes dest m a ≡ m a
    fill_section_outside a o = ground (arith, fill_at a, copied_outside a (ground arith))

-- When the file has the bytes of the section that are to be copied, the section in memory holds
-- them, then zeros to its virtual size; nothing else changes.
pub fill_section_lem :
    (section : SectionHeader) (bytes : List ℕ) (dest : ℕ) (m : Memory) (a : ℕ)
    → dest + section.virtual_size < 2 ^ 64
    → section.raw_offset + copy_size section ≤ length bytes
    → fill_section section bytes dest m a ≡ (
        if ltb a dest || leb (dest + section.virtual_size) a
        then m a
        else if ltb (a - dest) section.raw_size
        then get_or bytes (section.raw_offset + (a - dest)) 0
        else 0)
fill_section_lem section bytes dest m a fits l =
    let e : dest ≤ a → dest + (a - dest) ≡ a = λ h. omega arith in
    elim (dec_lt a dest) [
      | yes low ↦ ground (arith, fill_section_outside section bytes dest m fits a)
      | no high ↦
          let at : a ≡ dest + (a - dest) = omega arith in
          ground (
            arith,
            fill_section_outside section bytes dest m fits a,
            fill_at section bytes dest m fits a,
            copied_at section bytes dest m (a - dest) l,
            at,
          )
    ]
