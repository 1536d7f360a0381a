-- ===== src/Vfs/Files/Contents.antt =====
-- kernel/src/vfs/mod.rs: the bytes of a file, as `read` shows them.
use aperture_os.Prelude.{
  ℕ, zero, suc, ◌+◌, ◌/◌, ◌%◌, ◌≤◌, ◌<◌, ◌≡◌, refl, ap, ap₂, Option, none, some, List, [], ◌∷◌,
  ◌++◌, arith, length, get_or, replicate, sym, ◌∙◌,
}
use aperture_os.Memory.{Memory, read_bytes}
use aperture_os.Vfs.Files.{read_chunk}

-- The byte that the frames `row` hold for the place `i` of a file.
abbrev pub slot_byte : Option ℕ → ℕ → Memory → ℕ
slot_byte none offset m = 0
slot_byte (some frame) offset m = m (frame + offset)

abbrev pub byte_at : List (Option ℕ) → Memory → ℕ → ℕ
byte_at row m i = slot_byte (get_or row (i / 4096) none) (i % 4096) m

-- The values of `f` at `n` places from `i` on.
abbrev pub span : (ℕ → ℕ) → ℕ → ℕ → List ℕ
span f i zero = []
span f i (suc n) = f i ∷ span f (i + 1) n

pub length-span : (f : ℕ → ℕ) (i n : ℕ) → length (span f i n) ≡ n
length-span f i zero = refl
length-span f i (suc n) = ap suc (length-span f (i + 1) n)

pub span-add : (f : ℕ → ℕ) (i n k : ℕ) → span f i n ++ span f (i + n) k ≡ span f i (n + k)
span-add f i zero k =
    let e : i + 0 ≡ i = omega arith in let d : k ≡ 0 + k = omega arith in ap₂ (span f) e d
span-add f i (suc n) k =
    let e : i + suc n ≡ i + 1 + n = omega arith in
    let d : suc n + k ≡ suc (n + k) = omega arith in
    rw e (rw d (ap (λ xs. f i ∷ xs) (span-add f (i + 1) n k)))

pub get_or-span : (f : ℕ → ℕ) (i n j : ℕ) → j < n → get_or (span f i n) j 0 ≡ f (i + j)
get_or-span f i zero j l = absurd (omega arith)
get_or-span f i (suc n) zero l = let e : i + 0 ≡ i = omega arith in rw e refl
get_or-span f i (suc n) (suc j) l =
    let e : i + suc j ≡ i + 1 + j = omega arith in rw e (get_or-span f (i + 1) n j (omega arith))

span-zeros : (f : ℕ → ℕ) (i n : ℕ) → ((j : ℕ) → j < n → f (i + j) ≡ 0) → span f i n ≡ replicate n 0
span-zeros f i zero h = refl
span-zeros f i (suc n) h =
    let e : i + 0 ≡ i = omega arith in
    ap₂ ◌∷◌ (rw e at (h 0 (omega arith))) (
      span-zeros f (i + 1) n
        (λ j l. let e' : i + suc j ≡ i + 1 + j = omega arith in rw e' at (h (suc j) (omega arith))))

span-read_bytes :
    (f : ℕ → ℕ) (i a n : ℕ) (m : Memory)
    → ((j : ℕ) → j < n → f (i + j) ≡ m (a + j))
    → span f i n ≡ read_bytes a n m
unfolding read_bytes
span-read_bytes f i a zero m h = refl
span-read_bytes f i a (suc n) m h =
    let e : i + 0 ≡ i = omega arith in
    let d : a + 0 ≡ a = omega arith in
    ap₂ ◌∷◌ (ground (arith, h 0 (omega arith), e, d)) (
      span-read_bytes f (i + 1) (a + 1) n m (λ j l.
        let e' : i + suc j ≡ i + 1 + j = omega arith in
        let d' : a + suc j ≡ a + 1 + j = omega arith in
        rw e' at (rw d' at (h (suc j) (omega arith)))))

slot_span :
    (slot : Option ℕ) (offset n : ℕ) (m : Memory)
    → span (λ k. slot_byte slot k m) offset n ≡ read_chunk slot offset n m
unfolding read_chunk
slot_span none offset n m = span-zeros (λ k. 0) offset n (λ j l. refl)
slot_span (some frame) offset n m =
    span-read_bytes (λ k. m (frame + k)) offset (frame + offset) n m (λ j l. ap m (omega arith))

span_ext :
    (f g : ℕ → ℕ) (i k n : ℕ) → ((j : ℕ) → j < n → f (i + j) ≡ g (k + j)) → span f i n ≡ span g k n
span_ext f g i k zero h = refl
span_ext f g i k (suc n) h =
    let e : i + 0 ≡ i = omega arith in
    let d : k + 0 ≡ k = omega arith in
    ap₂ ◌∷◌ (ground (arith, h 0 (omega arith), e, d)) (
      span_ext f g (i + 1) (k + 1) n (λ j l.
        let e' : i + suc j ≡ i + 1 + j = omega arith in
        let d' : k + suc j ≡ k + 1 + j = omega arith in
        rw e' at (rw d' at (h (suc j) (omega arith)))))

-- A round of `read` that stays in one frame copies the file's bytes.
pub read_chunk-span :
    (row : List (Option ℕ)) (i n : ℕ) (m : Memory)
    → i % 4096 + n ≤ 4096
    → read_chunk (get_or row (i / 4096) none) (i % 4096) n m ≡ span (byte_at row m) i n
read_chunk-span row i n m l =
    let slot : Option ℕ = get_or row (i / 4096) none in
    sym (slot_span slot (i % 4096) n m)
    ∙ sym (
        span_ext (byte_at row m) (λ k. slot_byte slot k m) i (i % 4096) n
          (λ j k.
            let q : (i + j) / 4096 ≡ i / 4096 = omega arith in
            let r : (i + j) % 4096 ≡ i % 4096 + j = omega arith in
            ap₂ (λ x y. slot_byte (get_or row x none) y m) q r))
