-- ===== src/Vfs/Names.antt =====
-- kernel/src/vfs/mod.rs: directories as maps from names to nodes.
use native.Mathlib.Decide.{ℕ_discrete}
use aperture_os.Prelude.{
  ℕ, zero, suc, ◌-◌, ◌≤◌, ◌<◌, ◌≡◌, ◌≢◌, ◌∙◌, ◌⊎◌, sym, subst, position_nowhere, position-set, refl,
  ap, ap₂, Option, none, some, List, [], ◌∷◌, ◌++◌, true, false, ◌&&◌, arith, length, get_or, set,
  take, replicate, position, position_found, position-none, position_at, is_none, is_some,
  if◌then◌else◌, ltb, ◌==◌, Bool-cases, Option-cases, inl, inr, length-set, get_or-set_self,
  get_or-set_ne, get_or-replicate, ◌↔◌,
}
use aperture_os.Vfs.{
  init, blank, Vfs, Node, NodeKind, max_name_len, name_str, bytes_eq, is_child, find_child,
  new_node, store_node, create,
}

pub bytes_eq_iff : (xs ys : List ℕ) → (bytes_eq xs ys ≡ true) ↔ (xs ≡ ys)
unfolding bytes_eq
bytes_eq_iff [] [] = ground arith
bytes_eq_iff [] (y ∷ ys) = ground arith
bytes_eq_iff (x ∷ xs) [] = ground arith
bytes_eq_iff (x ∷ xs) (y ∷ ys) = ground (arith, bytes_eq_iff xs ys)

take_append : (xs ys : List ℕ) → take (length xs) (xs ++ ys) ≡ xs
take_append [] ys = refl
take_append (x ∷ xs) ys = ap (λ r. x ∷ r) (take_append xs ys)

-- The slot of a new node answers to its parent and name, and to nothing else.
is_child-new_node :
    (parent : ℕ) (name : List ℕ) (kind : NodeKind) (p : ℕ) (s : List ℕ)
    → is_child p s (some (new_node parent name kind)) ≡ (parent == p && bytes_eq name s)
unfolding is_child new_node name_str
is_child-new_node parent name kind p s = rw (take_append name (replicate (64 - length name) 0)) refl

-- A name stands at most once in a directory.
pub record IsUnique (v : Vfs) : Type 0 where
  pub unique :
      (p : ℕ) (s : List ℕ) (i j : ℕ)
      → is_child p s (get_or v.nodes i none) ≡ true
      → is_child p s (get_or v.nodes j none) ≡ true
      → i ≡ j

-- What a call of `create` that returned the node `i` has done.
pub record Created (parent : ℕ) (name : List ℕ) (kind : NodeKind) (v v' : Vfs) (i : ℕ)
    : Type 0 where
  pub fits : length name ≤ max_name_len
  pub absent : find_child parent name v ≡ none
  pub in_range : i < length v.nodes
  pub was_free : get_or v.nodes i none ≡ none
  pub stored : v' ≡ record v { nodes = set v.nodes i (some (new_node parent name kind)) }

Created-found :
    (parent : ℕ) (name : List ℕ) (kind : NodeKind) (v : Vfs) (i : ℕ)
    → (create parent name kind v).0 ≡ some i
    → Created parent name kind v (create parent name kind v).1 i
unfolding create store_node
Created-found parent name kind v i h = record {
  fits = ground arith;
  absent = ground arith;
  in_range = ground (arith, position_found is_none v.nodes none i);
  was_free = ground (arith, position_found is_none v.nodes none i);
  stored = ground arith;
}

module _ (parent : ℕ) (name : List ℕ) (kind : NodeKind) (v v' : Vfs) (i : ℕ)
    (c : Created parent name kind v v' i) where
  node_at : get_or v'.nodes i none ≡ some (new_node parent name kind)
  node_at =
      rw (ap (λ (w : Vfs). get_or w.nodes i none) c.stored)
        (get_or-set_self v.nodes i (some (new_node parent name kind)) none c.in_range)

  node_ne : (j : ℕ) → i ≢ j → get_or v'.nodes j none ≡ get_or v.nodes j none
  node_ne j ne =
      rw (ap (λ (w : Vfs). get_or w.nodes j none) c.stored)
        (get_or-set_ne v.nodes i j (some (new_node parent name kind)) none ne)

  length_same : length v'.nodes ≡ length v.nodes
  length_same =
      rw (ap (λ (w : Vfs). length w.nodes) c.stored)
        (length-set v.nodes i (some (new_node parent name kind)))

  find_created : find_child parent name v' ≡ some i
  unfolding find_child
  find_created =
      position_at (is_child parent name) v'.nodes none i (omega (arith, length_same, c.in_range))
        (rw (node_at, is_child-new_node parent name kind parent name)
          (ground (arith, bytes_eq_iff name name)))
        (λ j l. ground (
          arith,
          node_ne j,
          position-none (is_child parent name) v.nodes none j (unfold find_child in c.absent),
          c.in_range,
        ))

  find_other :
      (p : ℕ) (s : List ℕ)
      → (parent == p && bytes_eq name s) ≡ false
      → find_child p s v' ≡ find_child p s v
  unfolding find_child
  find_other p s ne =
      ap (λ (w : Vfs). position (is_child p s) w.nodes) c.stored
      ∙ position-set (is_child p s) v.nodes none i (some (new_node parent name kind))
          (rw c.was_free (unfold is_child in refl)) (rw (is_child-new_node parent name kind p s) ne)

  absent_at : (j : ℕ) → is_child parent name (get_or v.nodes j none) ≡ false
  absent_at =
      position_nowhere (is_child parent name) v.nodes none (unfold find_child in c.absent)
        (unfold is_child in refl)

  child_of_new :
      (p : ℕ) (s : List ℕ) (j : ℕ)
      → i ≢ j
      → is_child p s (get_or v'.nodes i none) ≡ true
      → is_child p s (get_or v'.nodes j none) ≡ true
      → ⊥
  child_of_new p s j ne h k =
      let new : (parent == p && bytes_eq name s) ≡ true =
        sym (is_child-new_node parent name kind p s)
        ∙ sym (ap (λ (o : Option Node). is_child p s o) node_at)
        ∙ h in
      let old : is_child p s (get_or v.nodes j none) ≡ true =
        sym (ap (λ (o : Option Node). is_child p s o) (node_ne j ne)) ∙ k in
      let same_p : parent ≡ p = ground arith in
      let same_s : name ≡ s = ground (arith, bytes_eq_iff name s) in
      cc (absent_at j, old, same_p, same_s)

  IsUnique-after : IsUnique v → IsUnique v'
  IsUnique-after u = record {
    unique = λ p s a b h k. elim (ℕ_discrete i a) [
      | yes ea ↦ elim (ℕ_discrete i b) [
        | yes eb ↦ sym ea ∙ eb
        | no nb ↦ absurd (child_of_new p s b nb (rw ea h) k)
      ]
      | no na ↦ elim (ℕ_discrete i b) [
        | yes eb ↦ absurd (child_of_new p s a na (rw eb k) h)
        | no nb ↦ u.unique p s a b (rw (node_ne a na) at h) (rw (node_ne b nb) at k)
      ]
    ];
  }

  find_after :
      (p : ℕ) (s : List ℕ)
      → find_child p s v' ≡ (if parent == p && bytes_eq name s then some i else find_child p s v)
  find_after p s = elim (Bool-cases (parent == p && bytes_eq name s)) [
    | inr other ↦ rw other (find_other p s other)
    | inl new ↦
        let same_p : parent ≡ p = ground arith in
        let same_s : name ≡ s = ground (arith, bytes_eq_iff name s) in
        rw new (
          subst (λ (t : ℕ × List ℕ). find_child t.0 t.1 v' ≡ some i)
            (ap₂ (λ x y. (x, y)) same_p same_s) find_created)
  ]

-- A directory is a map: when `create` returns a node, a lookup of any name in any directory finds
-- that node if it is the name that was created, and what it found before if it is another one; and
-- a name still stands at most once in a directory.
pub find_child-create :
    (parent : ℕ) (name : List ℕ) (kind : NodeKind) (v : Vfs) (i : ℕ)
    → IsUnique v
    → (create parent name kind v).0 ≡ some i
    → let v' = (create parent name kind v).1 in
      ((p : ℕ) (s : List ℕ)
        → find_child p s v' ≡ (if parent == p && bytes_eq name s then some i else find_child p s v))
      × IsUnique v'
find_child-create parent name kind v i u h =
    let v' : Vfs = (create parent name kind v).1 in
    let c : Created parent name kind v v' i = Created-found parent name kind v i h in
    (find_after parent name kind v v' i c, IsUnique-after parent name kind v v' i c u)

-- `create` fails exactly when the name is longer than 64 bytes, when it
-- stands in the directory already, or when every node is in use.
pub create_fails :
    (parent : ℕ) (name : List ℕ) (kind : NodeKind) (v : Vfs)
    → ((create parent name kind v).0 ≡ none) ↔ (
        (max_name_len < length name)
        ⊎ ((is_some (find_child parent name v) ≡ true)
            ⊎ ((j : ℕ) → j < length v.nodes → is_none (get_or v.nodes j none) ≡ false)))
unfolding create store_node
create_fails parent name kind v = (
  λ h. elim (Bool-cases (ltb max_name_len (length name))) [
    | inl long ↦ inl (ground arith)
    | inr short ↦ elim (Option-cases (find_child parent name v)) [
      | inr (k, there) ↦ inr (inl (ground arith))
      | inl absent ↦ elim (Option-cases (position is_none v.nodes)) [
        | inl full ↦ inr (inr (λ j l. position-none is_none v.nodes none j full l))
        | inr (k, room) ↦ absurd (ground arith)
      ]
    ]
  ],
  λ r. elim r [
    | inl long ↦ ground arith
    | inr (inl there) ↦ ground arith
    | inr (inr full) ↦ elim (Option-cases (position is_none v.nodes)) [
      | inl none_free ↦ ground arith
      | inr (k, room) ↦ absurd (ground (arith, full k, position_found is_none v.nodes none k))
    ]
  ],
)

init-childless :
    (p : ℕ) (s : List ℕ) (i : ℕ) → is_child p s (get_or (init blank).nodes i none) ≡ false
unfolding init blank is_child
init-childless p s zero = refl
init-childless p s (suc i) = ap (is_child p s) (get_or-replicate 255 i none)

-- Right after `init` no node has a parent, so no name stands twice in a directory.
pub init-IsUnique : IsUnique (init blank)
init-IsUnique = record { unique = λ p s i j h k. absurd (ground (arith, h, init-childless p s i)) }
