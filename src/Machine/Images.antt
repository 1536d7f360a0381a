-- ===== src/Machine/Images.antt =====
-- kernel/src/win32/loader.rs: the process that `load_pe` makes.
use aperture_os.Prelude.{
  ℕ, ◌+◌, ◌-◌, ◌<◌, ◌≤◌, ◌⊎◌, ◌↔◌, ◌≡◌, ◌∙◌, refl, ap, sym, subst, arith, Option, none, some, List,
  Bool, true, false, if◌then◌else◌, inl, inr, Option-cases, u64,
}
use aperture_os.Memory.{Memory, read_u64, write_u64}
use aperture_os.Memory.Laws.{read_u64-write_u64_self, read_u64-write_u64_apart}
use aperture_os.EarlyHeap.{alloc_early}
use aperture_os.Frames.{FrameAllocator}
use aperture_os.PageTable.{new_table}
use aperture_os.PeParser.{PeImage, Parsed, MachineType, parse_pe}
use aperture_os.Objects
use aperture_os.Objects.{Handle, ObjectKind}
use aperture_os.Objects.Dense.{IsDense, header, lookup-allocate}
use aperture_os.Vfs.{Run}
use aperture_os.Loader.{
  Layout, new_process, write_process, allocate_contiguous, place_image, finish_load, load_at,
  load_into_process, total_pages, requires_translation, same_machine, root_or_zero,
}
use aperture_os.Machine.{Machine, with_memory}
use aperture_os.Machine.Loads.{name_process, load_image, load_pe, process_size, process_align}

-- The places of the two words that a load writes last do not meet.
pub record IsLayout (o : Layout) : Type 0 where
  pub apart :
      (o.entry_point_at + 8 ≤ o.page_table_root_at) ⊎ (o.page_table_root_at + 8 ≤ o.entry_point_at)

-- What the process at `ptr` says once it was loaded from the image at the frame `base`, with the
-- table `page_table`.
pub record Records (o : Layout) (ptr : ℕ) (image : PeImage) (base : ℕ) (page_table : Option ℕ)
    (m : Memory) : Type 0 where
  pub entry :
      read_u64 (ptr + o.entry_point_at) m ≡ u64 (base + (image.entry_point - image.image_base))
  pub root : read_u64 (ptr + o.page_table_root_at) m ≡ u64 (root_or_zero page_table)

module _ (o : Layout) (lay : IsLayout o) (ptr : ℕ) (image : PeImage) where
  finish_load-Records :
      (base : ℕ) (page_table : Option ℕ) (r : Bool × Memory)
      → (finish_load o ptr image base page_table r).0 ≡ true
      → Records o ptr image base page_table (finish_load o ptr image base page_table r).1
  unfolding finish_load
  finish_load-Records base page_table (false, m) h = absurd (ground (arith, h))
  finish_load-Records base page_table (true, m) h =
      let rooted = write_u64 (ptr + o.page_table_root_at) (root_or_zero page_table) m in
      let start = u64 (base + (image.entry_point - image.image_base)) in
      record {
        entry = read_u64-write_u64_self (ptr + o.entry_point_at) start rooted ∙ omega arith;
        root =
            read_u64-write_u64_apart (ptr + o.entry_point_at) start rooted
              (ptr + o.page_table_root_at) (ground (arith, lay.apart))
            ∙ read_u64-write_u64_self (ptr + o.page_table_root_at) (root_or_zero page_table) m;
      }

  -- A load that succeeds took the frames of `allocate_contiguous`, and records where they are.
  pub load_into_process-Records :
      (kernel_cr3 : ℕ) (fa : FrameAllocator) (bytes : List ℕ) (m : Memory)
      → (load_into_process o ptr kernel_cr3 fa image bytes m).0 ≡ true
      → (base : ℕ) × ((allocate_contiguous (total_pages image) fa m).0 ≡ some base)
        × Records o ptr image base
            (new_table kernel_cr3 fa
              (place_image o ptr image base (allocate_contiguous (total_pages image) fa m).1)).0
            (load_into_process o ptr kernel_cr3 fa image bytes m).1
  unfolding load_into_process load_at
  load_into_process-Records kernel_cr3 fa bytes m h =
      let taken = allocate_contiguous (total_pages image) fa m in
      elim (Option-cases taken.0) [
        | inl gone ↦ absurd (ground (arith, h, gone))
        | inr (base, e) ↦
            let at : Bool × Memory = load_at o ptr base kernel_cr3 fa image bytes taken.1 in
            let same : load_into_process o ptr kernel_cr3 fa image bytes m ≡ at =
              ap
                (λ r. elim r as (λ _. Bool × Memory) [
                  | none ↦ (false, taken.1)
                  | some base ↦ load_at o ptr base kernel_cr3 fa image bytes taken.1
                ])
                e in
            let table = (new_table kernel_cr3 fa (place_image o ptr image base taken.1)).0 in
            (
              base,
              e,
              subst (λ r. Records o ptr image base table r.1) (sym same)
                  (finish_load-Records base table _ (sym (ap (λ r. r.0) same) ∙ h)),
            )
      ]

-- The flag of `load_pe` is false for x86_64 only.
requires_translation-amd64 :
    (guest : MachineType) → (requires_translation guest ≡ false) ↔ (guest ≡ MachineType.amd64)
unfolding requires_translation same_machine
requires_translation-amd64 MachineType.i386 = ((λ e. absurd cc), (λ e. absurd cc))
requires_translation-amd64 MachineType.amd64 = ((λ e. refl), (λ e. refl))
requires_translation-amd64 MachineType.arm64 = ((λ e. absurd cc), (λ e. absurd cc))

-- What `load_pe` promises when it returns a handle, on a handle table whose slots are in use up to
-- `n`: the image was parsed, the process stands in a fresh block of the early heap, the handle names
-- it, and its words for the entry point and the root of its page table lead to the first of the
-- frames that were taken once the process was written, and to the table that was made then.
pub record Loads (o : Layout) (n : ℕ) (bytes : List ℕ) (pid : ℕ) (s s' : Machine) (handle : Handle)
    (translated : Bool) : Type 0 where
  pub image : PeImage
  pub parsed : parse_pe bytes ≡ Parsed.found image
  pub ptr : ℕ
  pub block : (alloc_early process_size process_align s.heap).0 ≡ some ptr
  pub base : ℕ
  pub frames :
      (allocate_contiguous
        (total_pages image)
        s.kernel.frames
        (write_process o ptr (new_process pid) s.kernel.memory)).0
      ≡ some base
  pub process :
      Records o ptr image base
        (new_table s.kernel_cr3 s.kernel.frames (
          place_image o ptr image base
            (allocate_contiguous
              (total_pages image)
              s.kernel.frames
              (write_process o ptr (new_process pid) s.kernel.memory)).1)).0
        s'.kernel.memory
  pub number : handle ≡ n + 1
  pub named : Objects.lookup handle s'.kernel.objects ≡ some (header ObjectKind.process ptr)
  pub native : (translated ≡ false) ↔ (image.machine ≡ MachineType.amd64)

abbrev LoadResult : Type 0
LoadResult = Option (Handle × Bool) × Machine

module _ (o : Layout) (lay : IsLayout o) (n : ℕ) (image : PeImage) (bytes : List ℕ) (pid : ℕ)
    (s : Machine) (l : n < 1024) (d : IsDense n s.kernel.objects)
    (parsed : parse_pe bytes ≡ Parsed.found image) where
  abbrev Answers : LoadResult → Type 0
  Answers (none, s') = Unit
  Answers (some (handle, translated), s') = Loads o n bytes pid s s' handle translated

  module _ (address : ℕ)
      (at : (alloc_early process_size process_align s.heap).0 ≡ some address) where
    abbrev loaded : Bool × Memory
    loaded =
        load_into_process o address s.kernel_cr3 s.kernel.frames image bytes
          (write_process o address (new_process pid) s.kernel.memory)

    abbrev stored : Machine
    stored =
        with_memory loaded.1 (record s { heap = (alloc_early process_size process_align s.heap).1 })

    name_process-Answers : loaded.0 ≡ true → Answers (name_process image address stored)
    unfolding name_process
    name_process-Answers ok =
        let (base, frames, process) =
          load_into_process-Records o lay address image s.kernel_cr3 s.kernel.frames bytes
            (write_process o address (new_process pid) s.kernel.memory) ok in
        let (r, found, _, _) = lookup-allocate ObjectKind.process address n s.kernel.objects l d in
        let table = (Objects.allocate ObjectKind.process address s.kernel.objects).1 in
        let e : name_process image address stored ≡ (
          some (n + 1, requires_translation image.machine),
          record stored { kernel = record stored.kernel { objects = table } },
        ) =
          ap
            (λ h. elim h as (λ _. LoadResult) [
              | none ↦ (none, stored)
              | some handle ↦ (
                some (handle, requires_translation image.machine),
                record stored { kernel = record stored.kernel { objects = table } },
              )
            ])
            r in
        subst Answers (sym e) (record {
          image = image;
          parsed = parsed;
          ptr = address;
          block = at;
          base = base;
          frames = frames;
          process = process;
          number = refl;
          named = found;
          native = requires_translation-amd64 image.machine;
        })

    tested :
        (b : Bool)
        → loaded.0 ≡ b
        → Answers (if b then name_process image address stored else (none, stored))
    tested true ok = name_process-Answers ok
    tested false ok = tt

  -- `load_image` after its allocation
  abbrev with_block : Option ℕ → LoadResult
  with_block none = (none, record s { heap = (alloc_early process_size process_align s.heap).1 })
  with_block (some address) =
      let (ok, m) =
        load_into_process o address s.kernel_cr3 s.kernel.frames image bytes
          (write_process o address (new_process pid) s.kernel.memory) in
      let stored =
        with_memory m (record s { heap = (alloc_early process_size process_align s.heap).1 }) in
      if ok then name_process image address stored else (none, stored)

  with_block-Answers :
      (block : Option ℕ)
      → (alloc_early process_size process_align s.heap).0 ≡ block
      → Answers (with_block block)
  with_block-Answers none at = tt
  with_block-Answers (some address) at = tested address at (loaded address at).0 refl

  load_image-with_block :
      load_image o image bytes pid s ≡ with_block (alloc_early process_size process_align s.heap).0
  unfolding load_image
  load_image-with_block = elim (Option-cases (alloc_early process_size process_align s.heap).0) [
    | inl gone ↦ ground (arith, gone)
    | inr (address, at) ↦ ground (arith, at)
  ]

  load_image-Answers : Answers (load_image o image bytes pid s)
  load_image-Answers =
      subst Answers (sym load_image-with_block)
        (with_block-Answers (alloc_early process_size process_align s.heap).0 refl)

module _ (o : Layout) (lay : IsLayout o) (n : ℕ) (bytes : List ℕ) (pid : ℕ) (s : Machine)
    (l : n < 1024) (d : IsDense n s.kernel.objects) where
  abbrev Returns : Run LoadResult → Type 0
  Returns Run.panicked = Unit
  Returns (Run.returned (none, s')) = Unit
  Returns (Run.returned (some (handle, translated), s')) =
      Loads o n bytes pid s s' handle translated

  answered :
      (image : PeImage) (r : LoadResult)
      → (parsed : parse_pe bytes ≡ Parsed.found image)
      → Answers o lay n image bytes pid s l d parsed r
      → Returns (Run.returned r)
  answered image (none, s') parsed h = tt
  answered image (some (handle, translated), s') parsed h = h

  -- `load_pe` after the parser
  abbrev with_image : Parsed PeImage → Run LoadResult
  with_image Parsed.panicked = Run.panicked
  with_image Parsed.absent = Run.returned (none, s)
  with_image (Parsed.found image) = Run.returned (load_image o image bytes pid s)

  with_image-Returns : (p : Parsed PeImage) → parse_pe bytes ≡ p → Returns (with_image p)
  with_image-Returns Parsed.panicked e = tt
  with_image-Returns Parsed.absent e = tt
  with_image-Returns (Parsed.found image) e =
      answered image (load_image o image bytes pid s) e
        (load_image-Answers o lay n image bytes pid s l d e)

  load_pe-with_image : load_pe o bytes pid s ≡ with_image (parse_pe bytes)
  unfolding load_pe
  load_pe-with_image = go (parse_pe bytes)
    where
      go :
          (p : Parsed PeImage)
          → (elim p as (λ _. Run LoadResult) [
            | Parsed.panicked ↦ Run.panicked
            | Parsed.absent ↦ Run.returned (none, s)
            | Parsed.found image ↦ Run.returned (load_image o image bytes pid s)
          ])
            ≡ with_image p
      go Parsed.panicked = refl
      go Parsed.absent = refl
      go (Parsed.found image) = refl

-- When load_pe returns a handle, on a handle table that no close has left a gap in, it is the next
-- handle and names a fresh block of the early heap. There the words of the process for its entry
-- point and for the root of its page table, which do not meet, hold the address of the image's entry
-- point, counted from the first frame that was taken for the image, and the table that was made. The
-- flag is false exactly for an image for x86_64.
pub load_pe-Loads :
    (o : Layout) (n : ℕ) (bytes : List ℕ) (pid : ℕ) (s s' : Machine) (handle : Handle)
    (translated : Bool)
    → IsLayout o
    → n < 1024
    → IsDense n s.kernel.objects
    → load_pe o bytes pid s ≡ Run.returned (some (handle, translated), s')
    → Loads o n bytes pid s s' handle translated
load_pe-Loads o n bytes pid s s' handle translated lay l d e =
    subst (Returns o lay n bytes pid s l d) (sym (load_pe-with_image o lay n bytes pid s l d) ∙ e)
      (with_image-Returns o lay n bytes pid s l d (parse_pe bytes) refl)
