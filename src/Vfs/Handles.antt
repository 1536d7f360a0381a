-- ===== src/Vfs/Handles.antt =====
-- kernel/src/vfs/mod.rs: `open`, `file_size` and `close` on the table of open files.
use aperture_os.Prelude.{
  ℕ, zero, suc, ◌≤◌, ◌<◌, ◌≡◌, ◌≢◌, refl, ap, Option, none, some, List, [], ◌∷◌, Bool, true, false,
  arith, length, get_or, set, position, position_found, position-none, is_none, Bool-cases,
  Option-cases, inl, inr, get_or-set_self, get_or-set_ne, subst, sym,
}
use aperture_os.Vfs.{
  Vfs, Run, Node, OpenFile, max_nodes, max_open_files, is_file, open_slot, open_file, file_size,
  close,
}

abbrev pub with_handle : ℕ → Option OpenFile → Vfs → Vfs
with_handle h f v = record v { open_files = set v.open_files h f }

abbrev pub at_start : ℕ → Bool → OpenFile
at_start node writable = record { node = node; position = 0; writable = writable }

-- What a call of `open` on a node of the table promises: a free handle at position 0 if the node is
-- a file and a handle is free, and nothing otherwise.
pub data Opens (node : ℕ) (writable : Bool) (v : Vfs) : Run (Option ℕ × Vfs) → Type 0 where
  opened :
      (h : ℕ) (n : Node)
      → get_or v.nodes node none ≡ some n
      → is_file n.kind ≡ true
      → h < length v.open_files
      → get_or v.open_files h none ≡ none
      → Opens node writable v
          (Run.returned (some h, with_handle h (some (at_start node writable)) v))
  no_file :
      ((n : Node) → get_or v.nodes node none ≡ some n → is_file n.kind ≡ false)
      → Opens node writable v (Run.returned (none, v))
  no_handle :
      ((k : ℕ) → k < length v.open_files → is_none (get_or v.open_files k none) ≡ false)
      → Opens node writable v (Run.returned (none, v))

is_none-none : {A : Type 0} (o : Option A) → is_none o ≡ true → o ≡ none
is_none-none none h = refl
is_none-none (some a) h = ground arith

open_slot-Opens :
    (node : ℕ) (writable : Bool) (v : Vfs) (n : Node)
    → get_or v.nodes node none ≡ some n
    → is_file n.kind ≡ true
    → Opens node writable v (Run.returned (open_slot node writable v))
unfolding open_slot
open_slot-Opens node writable v n at file = elim (Option-cases (position is_none v.open_files)) [
  | inl full ↦
      rw (full, open_slot)
        (Opens.no_handle (λ k l. position-none is_none v.open_files none k full l))
  | inr (h, found) ↦
      let (l, free) = position_found is_none v.open_files none h found in
      rw (found, open_slot)
        (Opens.opened h n at file l (is_none-none (get_or v.open_files h none) free))
]

-- `open` on a node of the table gives a free handle at position 0 when the node is a file and a
-- handle is free; otherwise it gives nothing and changes nothing.
pub open_file-Opens :
    (node : ℕ) (writable : Bool) (v : Vfs)
    → node < max_nodes
    → Opens node writable v (open_file node writable v)
unfolding open_file
open_file-Opens node writable v l = elim (Option-cases (get_or v.nodes node none)) [
  | inl gone ↦
      let e : open_file node writable v ≡ Run.returned (none, v) = ground arith in
      subst (Opens node writable v) (sym e) (Opens.no_file (λ n at. ground (arith, at)))
  | inr (n, at) ↦ elim (Bool-cases (is_file n.kind)) [
    | inl file ↦
        let e : open_file node writable v ≡ Run.returned (open_slot node writable v) =
          ground arith in
        subst (Opens node writable v) (sym e) (open_slot-Opens node writable v n at file)
    | inr other ↦
        let e : open_file node writable v ≡ Run.returned (none, v) = ground arith in
        subst (Opens node writable v) (sym e) (Opens.no_file (λ n' at'. ground (arith, at')))
  ]
]

set-set_back :
    {A : Type 0} (xs : List A) (i : ℕ) (x d : A) → set (set xs i x) i (get_or xs i d) ≡ xs
set-set_back [] i x d = refl
set-set_back (y ∷ xs) zero x d = refl
set-set_back (y ∷ xs) (suc i) x d = ap (λ ys. y ∷ ys) (set-set_back xs i x d)

-- The file system after a call of `open` and after closing the new handle again.
pub record Reopens (node h : ℕ) (v v' : Vfs) : Type 0 where
  pub sized : file_size h v' ≡ Run.returned (some (get_or v.file_sizes node 0))
  pub closed : close h v' ≡ Run.returned (true, v)
  pub others : (k : ℕ) → k ≢ h → get_or v'.open_files k none ≡ get_or v.open_files k none

handle-Reopens :
    (node h : ℕ) (writable : Bool) (v : Vfs)
    → node < max_nodes
    → h < max_open_files
    → h < length v.open_files
    → get_or v.open_files h none ≡ none
    → Reopens node h v (with_handle h (some (at_start node writable)) v)
unfolding file_size close
handle-Reopens node h writable v l room k free =
    let x : Option OpenFile = some (at_start node writable) in
    let now : get_or (set v.open_files h x) h none ≡ x = get_or-set_self v.open_files h x none k in
    let back : set (set v.open_files h x) h none ≡ v.open_files =
      subst (λ o. set (set v.open_files h x) h o ≡ v.open_files) free
        (set-set_back v.open_files h x none) in
    record {
      sized = ground arith;
      closed = ground arith;
      others = λ j ne. get_or-set_ne v.open_files h j x none (λ e. ne (sym e));
    }

Opens-Reopens :
    (node : ℕ) (writable : Bool) (v : Vfs) (h : ℕ) (v' : Vfs) (r : Run (Option ℕ × Vfs))
    → node < max_nodes
    → length v.open_files ≤ max_open_files
    → Opens node writable v r
    → r ≡ Run.returned (some h, v')
    → Reopens node h v v'
Opens-Reopens node writable v h v' r l room (Opens.opened i n at file k free) e =
    let same : i ≡ h = ground arith in
    let new : with_handle i (some (at_start node writable)) v ≡ v' = ground arith in
    subst (λ w. Reopens node h v w) new
      (subst (λ j. Reopens node j v (with_handle i (some (at_start node writable)) v)) same
        (handle-Reopens node i writable v l (omega arith) k free))
Opens-Reopens node writable v h v' r l room (Opens.no_file why) e = absurd (ground arith)
Opens-Reopens node writable v h v' r l room (Opens.no_handle why) e = absurd (ground arith)

-- A handle that `open` returned shows the size of its node, closing it gives back the state before
-- the call, and the other handles are as before.
pub open_file-Reopens :
    (node : ℕ) (writable : Bool) (v : Vfs) (h : ℕ) (v' : Vfs)
    → node < max_nodes
    → length v.open_files ≤ max_open_files
    → open_file node writable v ≡ Run.returned (some h, v')
    → Reopens node h v v'
open_file-Reopens node writable v h v' l room e =
    Opens-Reopens node writable v h v' (open_file node writable v) l room
      (open_file-Opens node writable v l) e
