-- ===== src/Prelude/Bytes.antt =====
-- Parts of an array of bytes.
use Prim.Native.Nat.{ℕ, zero, suc, ◌+◌, ◌-◌, ◌≤◌, ◌<◌}
use mathlib.Core.Path.{◌≡◌, refl, ap, ◌∙◌}
use mathlib.Core.List.{List, [], ◌∷◌}
use native.Mathlib.Omega.{arith}
use aperture_os.Prelude.Lists.{length, get_or, take, drop}

pub get_or-take : (bs : List ℕ) (n j : ℕ) → j < n → get_or (take n bs) j 0 ≡ get_or bs j 0
get_or-take bs zero j l = absurd (omega arith)
get_or-take [] (suc n) j l = refl
get_or-take (b ∷ bs) (suc n) zero l = refl
get_or-take (b ∷ bs) (suc n) (suc j) l = get_or-take bs n j (omega arith)

pub get_or-drop : (bs : List ℕ) (n j : ℕ) → get_or (drop n bs) j 0 ≡ get_or bs (n + j) 0
get_or-drop bs zero j = let e : j ≡ 0 + j = omega arith in ap (λ k. get_or bs k 0) e
get_or-drop [] (suc n) j = refl
get_or-drop (b ∷ bs) (suc n) j =
    let e : suc n + j ≡ suc (n + j) = omega arith in rw e (get_or-drop bs n j)

pub length-take_le : (bs : List ℕ) (n : ℕ) → n ≤ length bs → length (take n bs) ≡ n
length-take_le bs zero l = refl
length-take_le [] (suc n) l = absurd (omega arith)
length-take_le (b ∷ bs) (suc n) l = ap suc (length-take_le bs n (omega arith))

pub length-drop : (bs : List ℕ) (n : ℕ) → length (drop n bs) ≡ length bs - n
length-drop bs zero = omega arith
length-drop [] (suc n) = omega arith
length-drop (b ∷ bs) (suc n) = length-drop bs n ∙ omega arith

-- `n` bytes from the index `k` on
pub length-take-drop : (n k : ℕ) (xs : List ℕ) → k + n ≤ length xs → length (take n (drop k xs)) ≡ n
length-take-drop n k xs l = length-take_le (drop k xs) n (omega (arith, length-drop xs k))

pub get_or-take-drop :
    (n k i : ℕ) (xs : List ℕ) → i < n → get_or (take n (drop k xs)) i 0 ≡ get_or xs (k + i) 0
get_or-take-drop n k i xs l = get_or-take (drop k xs) n i l ∙ get_or-drop xs k i
