-- ===== src/Registry/Lookups.antt =====
-- kernel/src/win32/registry.rs: what `get_value` gives after `set_value`.
use aperture_os.Prelude.{
  zero, suc, ◌-◌, ◌≤◌, ◌∷◌, [], ◌++◌, take, replicate, min, ℕ, ◌<◌, ◌≡◌, ◌≢◌, ◌∙◌, refl, ap, sym,
  subst, arith, Option, none, some, List, Bool, true, false, inl, inr, Option-cases, Bool-cases,
  length, length-set, get_or, set, get_or-set_self, get_or-set_ne, position, position_found,
  position_first, position_at, position-none, position-set, is_none, if◌then◌else◌,
}
use aperture_os.EarlyHeap.{Bump, alloc_early}
use aperture_os.Vfs.{Run, bytes_eq}
use aperture_os.Vfs.Names.{bytes_eq_iff}
use aperture_os.Registry.{
  Registry, RegValue, RegValueType, format_path, has_path, new_value, store, set_value, value_of,
  find_value, get_value,
}

module _ (path : List ℕ) (entry : RegValue) (reg : Registry) (slot : ℕ) (l : slot < length reg)
    (before : (j : ℕ) → j < slot → has_path path (get_or reg j none) ≡ false)
    (others : (q : List ℕ)
      → bytes_eq path q ≡ false
      → has_path q (get_or reg slot none) ≡ false) where
  abbrev stored : Registry
  stored = set reg slot (some (path, entry))

  at_slot : get_or stored slot none ≡ some (path, entry)
  at_slot = get_or-set_self reg slot (some (path, entry)) none l

  same_path : (q : List ℕ) → bytes_eq path q ≡ true → find_value q stored ≡ some entry
  unfolding find_value value_of has_path
  same_path q e =
      let same : path ≡ q = (bytes_eq_iff path q).0 e in
      let below : (j : ℕ) → j < slot → has_path q (get_or stored j none) ≡ false = λ j m.
        ap (has_path q)
          (get_or-set_ne reg slot j (some (path, entry)) none (λ z. absurd (omega (arith, z))))
        ∙ ap (λ t. has_path t (get_or reg j none)) (sym same)
        ∙ before j m in
      let there : has_path q (get_or stored slot none) ≡ true = ap (has_path q) at_slot ∙ e in
      let found : position (has_path q) stored ≡ some slot =
        position_at (has_path q) stored none slot
          (omega (arith, length-set reg slot (some (path, entry)))) there below in
      ap
        (λ r. elim r as (λ _. Option RegValue) [
          | none ↦ none
          | some i ↦ value_of (get_or stored i none)
        ])
        found
      ∙ ap value_of at_slot

  other_path : (q : List ℕ) → bytes_eq path q ≡ false → find_value q stored ≡ find_value q reg
  unfolding find_value value_of
  other_path q e =
      let same : position (has_path q) stored ≡ position (has_path q) reg =
        position-set (has_path q) reg none slot (some (path, entry)) (others q e)
          (unfold has_path in e) in
      ap
        (λ r. elim r as (λ _. Option RegValue) [
          | none ↦ none
          | some i ↦ value_of (get_or stored i none)
        ])
        same
      ∙ elim (Option-cases (position (has_path q) reg)) [
        | inl gone ↦ ground (arith, gone)
        | inr (i, found) ↦
            let (_, at) = position_found (has_path q) reg none i found in
            let away : slot ≢ i = λ z. absurd (
              let clash : has_path q (get_or reg i none) ≡ false =
                ap (λ j. has_path q (get_or reg j none)) (sym z) ∙ others q e in
              cc) in
            ground (arith, found, get_or-set_ne reg slot i (some (path, entry)) none away)
      ]

  answers :
      (q : List ℕ)
      → find_value q stored ≡ (if bytes_eq path q then some entry else find_value q reg)
  answers q = elim (Bool-cases (bytes_eq path q)) [
    | inl same ↦ same_path q same ∙ ap (λ b. if b then some entry else find_value q reg) (sym same)
    | inr other ↦
        other_path q other ∙ ap (λ b. if b then some entry else find_value q reg) (sym other)
  ]

other_key :
    (path : List ℕ) (e : Option (List ℕ × RegValue))
    → has_path path e ≡ true
    → (q : List ℕ) → bytes_eq path q ≡ false
    → has_path q e ≡ false
unfolding has_path
other_key path none h q ne = cc
other_key path (some (k, v)) h q ne =
    let same : k ≡ path = (bytes_eq_iff k path).0 h in ap (λ t. bytes_eq t q) same ∙ ne

none_of : {A : Type 0} (o : Option A) → is_none o ≡ true → o ≡ none
none_of none h = refl
none_of (some a) h = cc

-- A value is stored if its path is there or a slot is free, and then every path reads as that says.
store-answers :
    (path : List ℕ) (entry : RegValue) (reg : Registry)
    → (store path entry reg).0 ≡ true
    → (q : List ℕ)
    → find_value q (store path entry reg).1
      ≡ (if bytes_eq path q then some entry else find_value q reg)
unfolding store
store-answers path entry reg h q = elim (Option-cases (position (has_path path) reg)) [
  | inr (slot, found) ↦
      let (l, at) = position_found (has_path path) reg none slot found in
      let others : (q : List ℕ)
          → bytes_eq path q ≡ false
          → has_path q (get_or reg slot none) ≡ false =
        other_key path (get_or reg slot none) at in
      let all =
        answers path entry reg slot l
          (λ j m. position_first (has_path path) reg none slot j found m) others q in
      ground (arith, found, all)
  | inl gone ↦ elim (Option-cases (position is_none reg)) [
    | inl full ↦ absurd (ground (arith, h, gone, full))
    | inr (slot, free) ↦
        let (l, at) = position_found is_none reg none slot free in
        let blank : get_or reg slot none ≡ none = none_of (get_or reg slot none) at in
        let all =
          answers path entry reg slot l
            (λ j m. position-none (has_path path) reg none j gone (omega arith))
            (λ q e. ap (has_path q) blank ∙ (unfold has_path in refl)) q in
        ground (arith, gone, free, all)
  ]
]

-- A value of the type `ty` with the bytes, cut at 256: its length, and a buffer of 256 bytes with
-- zeros behind them.
abbrev pub padded_value : RegValueType → List ℕ → RegValue
padded_value ty bytes = record {
  ty = ty;
  payload = take 256 (bytes ++ replicate 256 0);
  len = length (take 256 bytes);
}

take-replicate : (n k : ℕ) → n ≤ k → take n (replicate {A = ℕ} k 0) ≡ replicate n 0
take-replicate zero k l = refl
take-replicate (suc n) zero l = absurd (omega arith)
take-replicate (suc n) (suc k) l = ap (◌∷◌ 0) (take-replicate n k (omega arith))

take_padded :
    (n k : ℕ) (bytes : List ℕ)
    → n ≤ k
    → take (min (length bytes) n) bytes ++ replicate (n - min (length bytes) n) 0
      ≡ take n (bytes ++ replicate k 0)
take_padded zero k [] l = refl
take_padded (suc n) k [] l =
    let e : min 0 (suc n) ≡ 0 = omega arith in
    let d : suc n - 0 ≡ suc n = omega arith in
    ap (λ j. take {A = ℕ} j [] ++ replicate (suc n - j) 0) e
    ∙ ap (λ j. replicate {A = ℕ} j 0) d
    ∙ sym (take-replicate (suc n) k l)
take_padded zero k (b ∷ bs) l = let e : min (suc (length bs)) 0 ≡ 0 = omega arith in rw e refl
take_padded (suc n) k (b ∷ bs) l =
    let e : min (suc (length bs)) (suc n) ≡ suc (min (length bs) n) = omega arith in
    let d : suc n - suc (min (length bs) n) ≡ n - min (length bs) n = omega arith in
    rw e (rw d (ap (◌∷◌ b) (take_padded n k bs (omega arith))))

length-take : (n : ℕ) (bytes : List ℕ) → length (take n bytes) ≡ min (length bytes) n
length-take zero bytes = omega arith
length-take (suc n) [] = omega arith
length-take (suc n) (b ∷ bs) =
    let e : min (suc (length bs)) (suc n) ≡ suc (min (length bs) n) = omega arith in
    rw e (ap suc (length-take n bs))

new_value-padded_value :
    (ty : RegValueType) (bytes : List ℕ) → new_value ty bytes ≡ padded_value ty bytes
unfolding new_value
new_value-padded_value ty bytes i = record {
  ty = ty;
  payload = take_padded 256 256 bytes (omega arith) i;
  len = sym (length-take 256 bytes) i;
}

module _ (key value : List ℕ) (ty : RegValueType) (bytes : List ℕ) (h : Bump) (reg : Registry)
    (key' value' : List ℕ) where
  abbrev Keeps : Run (Bool × Bump × Registry) → Type 0
  Keeps (Run.returned (true, h', reg')) = get_value key' value' reg' ≡ (
      if bytes_eq (format_path key value) (format_path key' value')
      then some (new_value ty bytes)
      else get_value key' value' reg)
  Keeps _ = Unit

  stored-Keeps :
      (b : Bool) (h' : Bump)
      → (store (format_path key value) (new_value ty bytes) reg).0 ≡ b
      → Keeps (Run.returned (b, h', (store (format_path key value) (new_value ty bytes) reg).1))
  unfolding get_value
  stored-Keeps true h' e =
      store-answers (format_path key value) (new_value ty bytes) reg e (format_path key' value')
  stored-Keeps false h' e = tt

  copied-Keeps :
      (copy : Option ℕ) (h' : Bump)
      → Keeps (elim copy as (λ _. Run (Bool × Bump × Registry)) [
        | none ↦ Run.panicked
        | some _ ↦ Run.returned (
          (store (format_path key value) (new_value ty bytes) reg).0,
          h',
          (store (format_path key value) (new_value ty bytes) reg).1,
        )
      ])
  copied-Keeps none h' = tt
  copied-Keeps (some a) h' =
      stored-Keeps (store (format_path key value) (new_value ty bytes) reg).0 h' refl

  set_value-Keeps : Keeps (set_value key value ty bytes h reg)
  unfolding set_value
  set_value-Keeps =
      copied-Keeps (alloc_early (length (format_path key value)) 1 h).0
        (alloc_early (length (format_path key value)) 1 h).1

-- After set_value has stored a value, get_value gives for every key and name that have the same path
-- a value of that type with those bytes, cut at 256 and followed by zeros, and their number; for any
-- other key and name it gives what it gave before.
pub get_value-set_value :
    (key value : List ℕ) (ty : RegValueType) (bytes : List ℕ) (h h' : Bump) (reg reg' : Registry)
    (key' value' : List ℕ)
    → set_value key value ty bytes h reg ≡ Run.returned (true, h', reg')
    → get_value key' value' reg' ≡ (
        if bytes_eq (format_path key value) (format_path key' value')
        then some (padded_value ty bytes)
        else get_value key' value' reg)
get_value-set_value key value ty bytes h h' reg reg' key' value' e =
    subst (Keeps key value ty bytes h reg key' value') e
      (set_value-Keeps key value ty bytes h reg key' value')
    ∙ ap
        (λ v.
          if bytes_eq (format_path key value) (format_path key' value')
          then some v
          else get_value key' value' reg)
        (new_value-padded_value ty bytes)
