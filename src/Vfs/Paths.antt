-- ===== src/Vfs/Paths.antt =====
-- kernel/src/vfs/mod.rs: paths. `lookup` trims and splits the path and walks its components.
use aperture_os.Prelude.{
  ℕ, zero, suc, ◌≡◌, ◌≢◌, ◌⊎◌, ◌∙◌, sym, refl, ap, Option, none, some, List, [], ◌∷◌, ◌++◌, arith,
  All, ◌==◌, Bool-cases, Option-cases, inl, inr, replicate,
}
use aperture_os.Vfs.{Vfs, find_child, split, trim_start, trim_end, walk, lookup}

-- The walk without the empty components that it skips.
abbrev pub and_then : Option ℕ → (ℕ → Option ℕ) → Option ℕ
and_then none f = none
and_then (some n) f = f n

-- Walking over two runs of components, one after the other.
pub walk-append :
    (current : ℕ) (xs ys : List (List ℕ)) (v : Vfs)
    → walk current (xs ++ ys) v ≡ and_then (walk current xs v) (λ n. walk n ys v)
unfolding walk
walk-append current [] ys v = refl
walk-append current ([] ∷ xs) ys v = walk-append current xs ys v
walk-append current ((b ∷ name) ∷ xs) ys v = elim (Option-cases (find_child current (b ∷ name) v)) [
  | inl gone ↦ ground arith
  | inr (n, found) ↦ ground (arith, walk-append n xs ys v)
]

abbrev List-cases : (bs : List ℕ) → (bs ≡ []) ⊎ ((c : ℕ) × (cs : List ℕ) × (bs ≡ c ∷ cs))
List-cases [] = inl refl
List-cases (c ∷ cs) = inr (c, cs, refl)

split_cases :
    (bs : List ℕ) → (piece : List ℕ) × (pieces : List (List ℕ)) × (split bs ≡ piece ∷ pieces)
unfolding split
split_cases [] = ([], [], refl)
split_cases (b ∷ bs) =
    let (piece, pieces, e) = split_cases bs in
    elim (Bool-cases (b == 47)) [
      | inl slash ↦ ([], piece ∷ pieces, ground arith)
      | inr other ↦ (b ∷ piece, pieces, ground arith)
    ]

-- A separator cuts a path in two.
split-slash : (p q : List ℕ) → split (p ++ 47 ∷ q) ≡ split p ++ split q
unfolding split
split-slash [] q = let (piece, pieces, e) = split_cases q in ground arith
split-slash (b ∷ p) q = let (piece, pieces, e) = split_cases p in ground (arith, split-slash p q)

split_name : (name : List ℕ) → All (λ b. b ≢ 47) name → split name ≡ name ∷ []
unfolding split
split_name [] h = refl
split_name (b ∷ name) h = ground (arith, split_name name h.1, h.0)

-- Slashes at the start add only components that the walk skips.
walk-trim_start :
    (path : List ℕ) (current : ℕ) (v : Vfs)
    → walk current (split (trim_start path)) v ≡ walk current (split path) v
unfolding trim_start split walk
walk-trim_start [] current v = refl
walk-trim_start (b ∷ path) current v =
    let (piece, pieces, e) = split_cases path in ground (arith, walk-trim_start path current v)

-- Slashes at the end add only empty components.
split-trim_end : (path : List ℕ) → (n : ℕ) × (split path ≡ split (trim_end path) ++ replicate n [])
unfolding trim_end split
split-trim_end [] = (0, refl)
split-trim_end (b ∷ path) =
    let (n, ih) = split-trim_end path in
    elim (List-cases (trim_end path)) [
      | inl bare ↦ elim (Bool-cases (b == 47)) [
        | inl slash ↦ (suc n, ground arith)
        | inr other ↦ (n, ground arith)
      ]
      | inr (c, cs, e) ↦ let (piece, pieces, e') = split_cases (c ∷ cs) in (n, ground arith)
    ]

walk-empties : (n : ℕ) (current : ℕ) (v : Vfs) → walk current (replicate n []) v ≡ some current
unfolding walk
walk-empties zero current v = refl
walk-empties (suc n) current v = walk-empties n current v

walk_name :
    (b : ℕ) (name : List ℕ) (n : ℕ) (v : Vfs)
    → walk n ((b ∷ name) ∷ []) v ≡ find_child n (b ∷ name) v
unfolding walk
walk_name b name n v = elim (Option-cases (find_child n (b ∷ name) v)) [
  | inl gone ↦ ground arith
  | inr (next, found) ↦ ground arith
]

and_then-walk :
    (b : ℕ) (name : List ℕ) (r : Option ℕ) (v : Vfs)
    → and_then r (λ n. walk n ((b ∷ name) ∷ []) v) ≡ and_then r (λ n. find_child n (b ∷ name) v)
and_then-walk b name none v = refl
and_then-walk b name (some n) v = walk_name b name n v

walk-split_nil : (current : ℕ) (v : Vfs) → walk current (split []) v ≡ some current
unfolding walk split
walk-split_nil current v = refl

walk-snoc_empties :
    (xs : List (List ℕ)) (n current : ℕ) (v : Vfs)
    → walk current (xs ++ replicate n []) v ≡ walk current xs v
unfolding walk
walk-snoc_empties [] n current v = walk-empties n current v
walk-snoc_empties ([] ∷ xs) n current v = walk-snoc_empties xs n current v
walk-snoc_empties ((b ∷ name) ∷ xs) n current v =
    elim (Option-cases (find_child current (b ∷ name) v)) [
      | inl gone ↦ ground arith
      | inr (next, found) ↦ ground (arith, walk-snoc_empties xs n next v)
    ]

walk-trim_end :
    (path : List ℕ) (current : ℕ) (v : Vfs)
    → walk current (split (trim_end path)) v ≡ walk current (split path) v
walk-trim_end path current v =
    let (n, e) = split-trim_end path in
    sym (ap (λ xs. walk current xs v) e ∙ walk-snoc_empties (split (trim_end path)) n current v)

-- Trimming has no effect: `lookup` is the walk over all pieces of the path.
lookup-walk : (path : List ℕ) (v : Vfs) → lookup path v ≡ walk 0 (split path) v
unfolding lookup
lookup-walk path v = elim (List-cases (trim_end (trim_start path))) [
  | inl bare ↦
      ground
        (arith, walk-trim_end (trim_start path) 0 v, walk-trim_start path 0 v, walk-split_nil 0 v)
  | inr (c, cs, e) ↦ ground (arith, walk-trim_end (trim_start path) 0 v, walk-trim_start path 0 v)
]

-- Looking up a name below a path finds the entry of that name in the node that the path leads to,
-- for a non-empty name without a slash.
pub lookup-slash :
    (path : List ℕ) (b : ℕ) (name : List ℕ) (v : Vfs)
    → All (λ c. c ≢ 47) (b ∷ name)
    → lookup (path ++ 47 ∷ b ∷ name) v ≡ and_then (lookup path v) (λ n. find_child n (b ∷ name) v)
lookup-slash path b name v h =
    lookup-walk (path ++ 47 ∷ b ∷ name) v
    ∙ ap (λ xs. walk 0 xs v) (split-slash path (b ∷ name))
    ∙ ap (λ xs. walk 0 (split path ++ xs) v) (split_name (b ∷ name) h)
    ∙ walk-append 0 (split path) ((b ∷ name) ∷ []) v
    ∙ ap (λ r. and_then r (λ n. walk n ((b ∷ name) ∷ []) v)) (sym (lookup-walk path v))
    ∙ and_then-walk b name (lookup path v) v
