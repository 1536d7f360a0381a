-- ===== src/Prelude/Slots.antt =====
-- Arrays of `Option`: the search `iter().position(..)` and what its answer says of the array.
use Prim.Native.Nat.{ℕ, zero, suc, ◌<◌}
use mathlib.Core.Path.{◌≡◌, refl}
use mathlib.Core.Bool.{Bool, true, false}
use mathlib.Core.Option.{Option, none, some}
use mathlib.Core.List.{List, [], ◌∷◌}
use native.Mathlib.Omega.{arith}
use aperture_os.Prelude.Tests.{if◌then◌else◌}
use aperture_os.Prelude.Lists.{length, get_or, set}

abbrev pub is_none {ℓ} : {A : Type ℓ} → Option A → Bool
is_none none = true
is_none (some a) = false

abbrev pub is_some {ℓ} : {A : Type ℓ} → Option A → Bool
is_some none = false
is_some (some a) = true

abbrev next_index : Option ℕ → Option ℕ
next_index none = none
next_index (some i) = some (suc i)

module _ {ℓ} {A : Type ℓ} where
  -- `xs.iter().position(p)`: the index of the first element that passes.
  unfoldable pub position : (A → Bool) → List A → Option ℕ
  position p [] = none
  position p (x ∷ xs) = if p x then some 0 else next_index (position p xs)

  pub position_found :
      (p : A → Bool) (xs : List A) (d : A) (i : ℕ)
      → position p xs ≡ some i
      → (i < length xs) × (p (get_or xs i d) ≡ true)
  unfolding position
  position_found p [] d i h = ground arith
  position_found p (x ∷ xs) d zero h = ground (arith, position_found p xs d zero)
  position_found p (x ∷ xs) d (suc i) h = ground (arith, position_found p xs d i)

  pub position_first :
      (p : A → Bool) (xs : List A) (d : A) (i j : ℕ)
      → position p xs ≡ some i
      → j < i
      → p (get_or xs j d) ≡ false
  unfolding position
  position_first p [] d i j h l = ground arith
  position_first p (x ∷ xs) d zero j h l = ground arith
  position_first p (x ∷ xs) d (suc i) zero h l = ground arith
  position_first p (x ∷ xs) d (suc i) (suc j) h l = ground (arith, position_first p xs d i j)

  pub position-none :
      (p : A → Bool) (xs : List A) (d : A) (j : ℕ)
      → position p xs ≡ none
      → j < length xs
      → p (get_or xs j d) ≡ false
  unfolding position
  position-none p [] d j h l = ground arith
  position-none p (x ∷ xs) d zero h l = ground arith
  position-none p (x ∷ xs) d (suc j) h l = ground (arith, position-none p xs d j)

  -- The first passing index, given as one.
  pub position_at :
      (p : A → Bool) (xs : List A) (d : A) (i : ℕ)
      → i < length xs
      → p (get_or xs i d) ≡ true
      → ((j : ℕ) → j < i → p (get_or xs j d) ≡ false)
      → position p xs ≡ some i
  unfolding position
  position_at p [] d i l t f = absurd (omega arith)
  position_at p (x ∷ xs) d zero l t f = ground arith
  position_at p (x ∷ xs) d (suc i) l t f = ground (
    arith,
    f 0 (omega arith),
    position_at p xs d i (omega arith) t (λ j m. f (suc j) (omega arith)),
  )

module _ {ℓ} {A : Type ℓ} where
  -- Replacing an element that fails by one that fails does not change the answer.
  pub position-set :
      (p : A → Bool) (xs : List A) (d : A) (i : ℕ) (x : A)
      → p (get_or xs i d) ≡ false
      → p x ≡ false
      → position p (set xs i x) ≡ position p xs
  unfolding position
  position-set p [] d i x h k = refl
  position-set p (y ∷ xs) d zero x h k = ground arith
  position-set p (y ∷ xs) d (suc i) x h k = ground (arith, position-set p xs d i x)

  -- If nothing passes, and the default does not, then no read passes, in range or not.
  pub position_nowhere :
      (p : A → Bool) (xs : List A) (d : A)
      → position p xs ≡ none
      → p d ≡ false
      → (j : ℕ) → p (get_or xs j d) ≡ false
  unfolding position
  position_nowhere p [] d h k j = k
  position_nowhere p (x ∷ xs) d h k zero = ground arith
  position_nowhere p (x ∷ xs) d h k (suc j) = position_nowhere p xs d (ground arith) k j
