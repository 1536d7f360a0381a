-- ===== src/PageTable/Mapping.antt =====
-- kernel/src/mm/page_table.rs: `map` and `translate` together.
use Prim.Native.Nat.{bit_and, bit_or}
use native.Mathlib.Decide.{ℕ_discrete}
use aperture_os.Prelude.{
  ℕ, ◌/◌, ◌%◌, ◌^◌, ◌<◌, ◌≡◌, ◌≢◌, ◌∙◌, refl, ap, ap₂, sym, subst, arith, Option, none, some, List,
  [], ◌∷◌, true, false, not, All, inl, inr, Option-cases, if◌then◌else◌, ◌==◌,
}
use aperture_os.Bits.Field.{bit_and-low}
use aperture_os.Memory.{Memory}
use aperture_os.Frames.{FrameAllocator}
use aperture_os.PageTable.{
  entry, find_table, is_present, frame_of, pml4_index, pdpt_index, pd_index, pt_index, map,
  translate, page_address, and_then,
}
use aperture_os.PageTable.Entries.{page_word, page-Points}
use aperture_os.PageTable.Insert.{leaf, insert, IsIndex, leaf_found, leaf_missing, leaf_ext}
use aperture_os.PageTable.Inserted.{IsInserted}
use aperture_os.PageTable.Made.{insert-IsInserted}
use aperture_os.PageTable.Tree.{IsTree, IsPlaced}
use aperture_os.PageTable.Writes.{IsAligned}

-- The number of the page of a virtual address: its digits 12 to 47.
abbrev pub page_number : ℕ → ℕ
page_number virt = virt / 2 ^ 12 % 2 ^ 36

abbrev path : ℕ → List ℕ
path virt = pml4_index virt ∷ pdpt_index virt ∷ pd_index virt ∷ []

index_lem : (virt k : ℕ) → bit_and (virt / 2 ^ k) 0x1FF ≡ virt / 2 ^ k % 512
index_lem virt k = bit_and-low 9 (virt / 2 ^ k)

indices :
    (virt : ℕ)
    → (pml4_index virt ≡ virt / 2 ^ 39 % 512)
      × (pdpt_index virt ≡ virt / 2 ^ 30 % 512)
      × (pd_index virt ≡ virt / 2 ^ 21 % 512)
      × (pt_index virt ≡ virt / 2 ^ 12 % 512)
unfolding pml4_index pdpt_index pd_index pt_index
indices virt = (index_lem virt 39, index_lem virt 30, index_lem virt 21, index_lem virt 12)

path-IsIndex : (virt : ℕ) → All IsIndex (path virt) × IsIndex (pt_index virt)
path-IsIndex virt =
    let (a, b, c, d) = indices virt in
    ((omega (arith, a), (omega (arith, b), (omega (arith, c), tt))), omega (arith, d))

-- What `translate` makes of the entry at the end of its path.
abbrev page_of : ℕ → ℕ → Option ℕ
page_of value virt =
    if not (is_present value) then none else some (bit_or (frame_of value) (bit_and virt 0xFFF))

steps : ℕ → List ℕ → ℕ → Memory → Option ℕ
steps t [] virt m = page_address t virt m
steps t (i ∷ is) virt m = and_then (find_table t i m) (λ s. steps s is virt m)

steps-leaf :
    (is : List ℕ) (t virt : ℕ) (m : Memory)
    → steps t is virt m ≡ page_of (leaf t is (pt_index virt) m) virt
unfolding steps leaf page_address is_present
steps-leaf [] t virt m = refl
steps-leaf (i ∷ is) t virt m = elim (Option-cases (find_table t i m)) [
  | inl gone ↦
      ap (λ r. and_then r (λ s. steps s is virt m)) gone
      ∙ sym (ap (λ v. page_of v virt) (leaf_missing t i is (pt_index virt) m gone))
  | inr (s, found) ↦
      ap (λ r. and_then r (λ s. steps s is virt m)) found
      ∙ steps-leaf is s virt m
      ∙ sym (ap (λ v. page_of v virt) (leaf_found t i s is (pt_index virt) m found))
]

translate-leaf :
    (root virt : ℕ) (m : Memory)
    → translate root virt m ≡ page_of (leaf root (path virt) (pt_index virt) m) virt
unfolding translate steps
translate-leaf root virt m = steps-leaf (path virt) root virt m

map-insert :
    (fa : FrameAllocator) (root virt phys flags : ℕ) (m : Memory)
    → map fa root virt phys flags m
      ≡ insert fa root (path virt) (pt_index virt) (page_word phys flags) m
unfolding map insert
map-insert fa root virt phys flags m = refl

-- The digits of the page number in base 512 are the indices.
digits :
    (virt : ℕ)
    → (pt_index virt ≡ page_number virt % 512)
      × (pd_index virt ≡ page_number virt / 512 % 512)
      × (pdpt_index virt ≡ page_number virt / 512 / 512 % 512)
      × (pml4_index virt ≡ page_number virt / 512 / 512 / 512)
digits virt =
    let (a, b, c, d) = indices virt in
    (omega (arith, d), omega (arith, c), omega (arith, b), omega (arith, a))

same_path :
    (other virt : ℕ)
    → page_number other ≡ page_number virt
    → (path other ≡ path virt) × (pt_index other ≡ pt_index virt)
same_path other virt e =
    let (a, b, c, d) = digits other in
    let (a', b', c', d') = digits virt in
    let top : pml4_index other ≡ pml4_index virt = omega (arith, d, d', e) in
    let third : pdpt_index other ≡ pdpt_index virt = omega (arith, c, c', e) in
    let second : pd_index other ≡ pd_index virt = omega (arith, b, b', e) in
    (λ i. top i ∷ third i ∷ second i ∷ [], omega (arith, a, a', e))

first_of : List ℕ → ℕ
first_of [] = 0
first_of (x ∷ xs) = x

rest_of : List ℕ → List ℕ
rest_of [] = []
rest_of (x ∷ xs) = xs

other_path :
    (other virt : ℕ)
    → page_number other ≢ page_number virt
    → path other ≡ path virt
    → pt_index other ≢ pt_index virt
unfolding first_of rest_of
other_path other virt ne p q =
    let (a, b, c, d) = digits other in
    let (a', b', c', d') = digits virt in
    let top : pml4_index other ≡ pml4_index virt = ap first_of p in
    let third : pdpt_index other ≡ pdpt_index virt = ap (λ xs. first_of (rest_of xs)) p in
    let second : pd_index other ≡ pd_index virt = ap (λ xs. first_of (rest_of (rest_of xs))) p in
    ne (omega (arith, a, b, c, d, a', b', c', d', top, third, second, q))

translated :
    (fa : FrameAllocator) (level : ℕ → ℕ) (root virt phys word other : ℕ) (m m' : Memory)
    → level root ≡ 4
    → is_present word ≡ true
    → frame_of word ≡ phys
    → IsInserted fa level root (path virt) (pt_index virt) word m m'
    → translate root other m' ≡ (
        if page_number other == page_number virt
        then some (bit_or phys (bit_and other 0xFFF))
        else translate root other m)
translated fa level root virt phys word other m m' top present points at =
    elim (ℕ_discrete (page_number other) (page_number virt)) [
      | yes e ↦
          let test : (page_number other == page_number virt) ≡ true = ground arith in
          let (p, q) = same_path other virt e in
          let found : leaf root (path other) (pt_index other) m' ≡ word =
            ap₂ (λ is j. leaf root is j m') p q ∙ at.stored in
          let there : page_of word other ≡ some (bit_or phys (bit_and other 0xFFF)) =
            rw (present, points) in
          rw test (translate-leaf root other m' ∙ ap (λ v. page_of v other) found ∙ there)
      | no ne ↦
          let test : (page_number other == page_number virt) ≡ false = ground arith in
          let same : leaf root (path other) (pt_index other) m'
              ≡ leaf root (path other) (pt_index other) m =
            at.others root (path other) (pt_index other) top refl (path-IsIndex other).0
              (path-IsIndex other).1 (λ _ p. other_path other virt ne p) in
          rw test (
            translate-leaf root other m'
            ∙ ap (λ v. page_of v other) same
            ∙ sym (translate-leaf root other m))
    ]

-- `translate` sees the entries of the tables only.
pub translate_ext :
    (fa : FrameAllocator) (level : ℕ → ℕ) (root virt : ℕ) (m m' : Memory)
    → IsTree fa level m
    → level root ≡ 4
    → ((u j : ℕ) → level u ≢ 0 → j < 512 → entry u j m' ≡ entry u j m)
    → translate root virt m' ≡ translate root virt m
translate_ext fa level root virt m m' tree top same =
    translate-leaf root virt m'
    ∙ ap (λ v. page_of v virt)
        (leaf_ext fa level m m' 4 tree (λ x k h l lk. same x k h lk) (path virt) root
          (pt_index virt) top (omega arith) (path-IsIndex virt).0 (path-IsIndex virt).1)
    ∙ sym (translate-leaf root virt m)

-- What a successful `map` shows to `translate`, where its word leads to `seen`.
pub map_word :
    (fa : FrameAllocator) (level : ℕ → ℕ) (root virt phys flags seen other : ℕ) (m : Memory)
    → IsTree fa level m
    → IsPlaced fa m
    → level root ≡ 4
    → page_word phys flags < 2 ^ 64
    → is_present (page_word phys flags) ≡ true
    → frame_of (page_word phys flags) ≡ seen
    → (map fa root virt phys flags m).0 ≡ true
    → let m' = (map fa root virt phys flags m).1 in
      (translate root other m' ≡ (
        if page_number other == page_number virt
        then some (bit_or seen (bit_and other 0xFFF))
        else translate root other m))
      × ((levels : ℕ → ℕ) × IsTree fa levels m' × IsPlaced fa m' × (levels root ≡ 4))
map_word fa level root virt phys flags seen other m tree placed top fits present points done =
    let word = page_word phys flags in
    let e = map-insert fa root virt phys flags m in
    let m' : Memory = (map fa root virt phys flags m).1 in
    let at : IsInserted fa level root (path virt) (pt_index virt) word m m' =
      subst (λ r. r.0 ≡ true → IsInserted fa level root (path virt) (pt_index virt) word m r.1)
        (sym e)
        (insert-IsInserted (path virt) fa level root (pt_index virt) word m tree placed top
          (path-IsIndex virt).0 (path-IsIndex virt).1 fits)
        done in
    (
      translated fa level root virt seen word other m m' top present points at,
      (
        at.levels,
        at.tree,
        at.placed,
        at.grows root (λ gone. absurd (omega (arith, top, gone))) ∙ top,
      ),
    )

-- `map` of a frame, with flags in the low twelve bits only, succeeded on a tree of tables whose
-- frames the allocator does not hand out: afterwards the page translates to the frame, for each of
-- its addresses, every other page of 48 bits translates as before, and the tables are again such a
-- tree.
pub translate-map :
    (fa : FrameAllocator) (level : ℕ → ℕ) (root virt phys flags other : ℕ) (m : Memory)
    → IsTree fa level m
    → IsPlaced fa m
    → level root ≡ 4
    → IsAligned phys
    → phys < 2 ^ 64
    → flags < 4096
    → (map fa root virt phys flags m).0 ≡ true
    → let m' = (map fa root virt phys flags m).1 in
      (translate root other m' ≡ (
        if page_number other == page_number virt
        then some (bit_or phys (bit_and other 0xFFF))
        else translate root other m))
      × ((levels : ℕ → ℕ) × IsTree fa levels m' × IsPlaced fa m' × (levels root ≡ 4))
translate-map fa level root virt phys flags other m tree placed top al small fl done =
    let (fits, present, points) = page-Points phys flags al small fl in
    map_word fa level root virt phys flags phys other m tree placed top fits present points done
