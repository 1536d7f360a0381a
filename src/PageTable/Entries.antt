-- ===== src/PageTable/Entries.antt =====
-- kernel/src/mm/page_table.rs: the entries as words: what `map` stores is present and points where it
-- should.
use Prim.Native.Nat.{bit_and, bit_or}
use aperture_os.Prelude.{
  ℕ, zero, suc, ◌+◌, ◌*◌, ◌/◌, ◌%◌, ◌^◌, ◌<◌, ◌≡◌, ◌∙◌, refl, ap, sym, true, arith,
}
use aperture_os.Bits.Field.{bit_and-low, bit_and-high}
use aperture_os.Bits.Union.{bit_or-high, zero_bit_or, bit_or_comm}
use aperture_os.PageTable.{page_present, page_writable, page_user, is_present, frame_of}

-- The word that `map` stores for the frame `phys`, and the one that links the table `frame`.
abbrev pub page_word : ℕ → ℕ → ℕ
page_word phys flags = bit_or (bit_or phys flags) page_present

abbrev pub link_word : ℕ → ℕ
link_word frame = bit_or (bit_or (bit_or frame page_present) page_writable) page_user

or_low :
    (phys low b : ℕ)
    → phys % 4096 ≡ 0
    → low < 4096
    → b < 4096
    → (bit_or (phys + low) b ≡ phys + bit_or low b) × (bit_or low b < 4096)
or_low phys low b al l k =
    let (sum, small) = bit_or-high 12 (phys / 4096) low b l k in
    let e : low + 2 ^ 12 * (phys / 4096) ≡ phys + low = omega arith in
    let e' : bit_or low b + 2 ^ 12 * (phys / 4096) ≡ phys + bit_or low b = omega arith in
    (ap (λ t. bit_or t b) (sym e) ∙ sum ∙ e', small)

frame_of-low :
    (phys low : ℕ) → phys % 4096 ≡ 0 → low < 4096 → phys < 2 ^ 64 → frame_of (phys + low) ≡ phys
unfolding frame_of
frame_of-low phys low al l b = bit_and-high 12 52 (phys + low) (omega arith) ∙ omega arith

is_present-odd : (v : ℕ) → v % 2 ≡ 1 → is_present v ≡ true
unfolding is_present
is_present-odd v h = let e : bit_and v 1 ≡ 1 = bit_and-low 1 v ∙ omega arith in ground (arith, e)

link_word_lem : (frame : ℕ) → frame % 4096 ≡ 0 → link_word frame ≡ frame + 7
link_word_lem frame al =
    let zero_low : frame + 0 ≡ frame = omega arith in
    let present : bit_or frame 1 ≡ frame + 1 =
      rw zero_low at ((or_low frame 0 1 al (omega arith) (omega arith)).0) in
    let writable : bit_or (frame + 1) 2 ≡ frame + 3 =
      (or_low frame 1 2 al (omega arith) (omega arith)).0 in
    let user : bit_or (frame + 3) 4 ≡ frame + 7 =
      (or_low frame 3 4 al (omega arith) (omega arith)).0 in
    rw (present, writable) user

-- The word that links a table: its entry is present and leads to the table.
pub link-Points :
    (frame : ℕ)
    → frame % 4096 ≡ 0
    → frame < 2 ^ 64
    → (link_word frame < 2 ^ 64)
      × (is_present (link_word frame) ≡ true)
      × (frame_of (link_word frame) ≡ frame)
link-Points frame al b =
    rw (link_word_lem frame al) (
      omega arith,
      is_present-odd (frame + 7) (omega arith),
      frame_of-low frame 7 al (omega arith) b,
    )

one_bit : (x : ℕ) → x < 2 → bit_or x 1 ≡ 1
one_bit zero l = refl
one_bit (suc zero) l = refl
one_bit (suc (suc x)) l = absurd (omega arith)

odd_or : (flags : ℕ) → bit_or flags 1 % 2 ≡ 1
odd_or flags =
    let (sum, small) = bit_or-high 1 (flags / 2) (flags % 2) 1 (omega arith) (omega arith) in
    let e : flags % 2 + 2 ^ 1 * (flags / 2) ≡ flags = omega arith in
    omega (arith, ap (λ t. bit_or t 1) e, sum, one_bit (flags % 2) (omega arith))

-- The word that maps a page, for a frame and flags below it: it is present and leads to the frame.
pub page-Points :
    (phys flags : ℕ)
    → phys % 4096 ≡ 0
    → phys < 2 ^ 64
    → flags < 4096
    → (page_word phys flags < 2 ^ 64)
      × (is_present (page_word phys flags) ≡ true)
      × (frame_of (page_word phys flags) ≡ phys)
page-Points phys flags al b l =
    let zero_low : phys + 0 ≡ phys = omega arith in
    let joined : bit_or phys flags ≡ phys + flags =
      rw (zero_low, zero_bit_or flags) at ((or_low phys 0 flags al (omega arith) l).0) in
    let (present, small) = or_low phys flags 1 al l (omega arith) in
    let word : page_word phys flags ≡ phys + bit_or flags 1 =
      ap (λ t. bit_or t 1) joined ∙ present in
    rw word (
      omega (arith, small),
      is_present-odd (phys + bit_or flags 1) (omega (arith, odd_or flags)),
      frame_of-low phys (bit_or flags 1) al small b,
    )

-- With bit 63 among the flags the word is present too, but leads to an address with bit 63 set.
pub page-Points_top :
    (phys flags : ℕ)
    → phys % 4096 ≡ 0
    → phys < 2 ^ 63
    → flags < 4096
    → (page_word phys (flags + 2 ^ 63) < 2 ^ 64)
      × (is_present (page_word phys (flags + 2 ^ 63)) ≡ true)
      × (frame_of (page_word phys (flags + 2 ^ 63)) ≡ phys + 2 ^ 63)
page-Points_top phys flags al b l =
    let e : flags + 2 ^ 63 * 1 ≡ flags + 2 ^ 63 = omega arith in
    let zero_low : phys + 0 ≡ phys = omega arith in
    let low : bit_or phys flags ≡ phys + flags =
      rw (zero_low, zero_bit_or flags) at ((or_low phys 0 flags al (omega arith) l).0) in
    let swapped : bit_or phys (flags + 2 ^ 63) ≡ phys + 2 ^ 63 + flags = omega (
      arith,
      bit_or_comm phys (flags + 2 ^ 63),
      bit_or_comm flags phys,
      low,
      (bit_or-high 63 1 flags phys (omega arith) b).0,
      ap (λ t. bit_or t phys) e,
    ) in
    let (present, small) = or_low (phys + 2 ^ 63) flags 1 (omega arith) l (omega arith) in
    let word : page_word phys (flags + 2 ^ 63) ≡ phys + 2 ^ 63 + bit_or flags 1 =
      ap (λ t. bit_or t 1) swapped ∙ present in
    rw word (
      omega (arith, small),
      is_present-odd (phys + 2 ^ 63 + bit_or flags 1) (omega (arith, odd_or flags)),
      frame_of-low (phys + 2 ^ 63) (bit_or flags 1) (omega arith) small (omega arith),
    )
