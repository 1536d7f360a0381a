-- ===== src/Memory/Laws.antt =====
-- Reading back what was written, and what a write leaves alone.
use aperture_os.Prelude.{
  ℕ, zero, suc, ◌+◌, ◌-◌, ◌%◌, ◌^◌, ◌≤◌, ◌<◌, ◌≡◌, ◌⊎◌, refl, ap, ap₂, List, [], ◌∷◌, arith, length,
  get_or, ◌∙◌,
}
use aperture_os.Memory.{Memory, read_bytes, write_bytes, read_u64, write_u64}
use aperture_os.Memory.Bytes.{
  le_bytes, from_le_bytes, length-le_bytes, from_le_bytes-lt, from_le_bytes-le_bytes_u64,
}

-- Two memories that agree on the range read the same there.
pub read_bytes_ext :
    (a n : ℕ) (m m' : Memory)
    → ((b : ℕ) → a ≤ b → b < a + n → m b ≡ m' b)
    → read_bytes a n m ≡ read_bytes a n m'
unfolding read_bytes
read_bytes_ext a zero m m' h = refl
read_bytes_ext a (suc n) m m' h =
    ap₂ ◌∷◌ (h a (omega arith) (omega arith))
      (read_bytes_ext (a + 1) n m m' (λ b p q. h b (omega arith) (omega arith)))

-- A range that holds `bs` byte for byte reads as `bs`.
read_bytes_holds :
    (a : ℕ) (bs : List ℕ) (m : Memory)
    → ((i : ℕ) → i < length bs → m (a + i) ≡ get_or bs i 0)
    → read_bytes a (length bs) m ≡ bs
unfolding read_bytes
read_bytes_holds a [] m h = refl
read_bytes_holds a (x ∷ bs) m h =
    let e : a + 0 ≡ a = omega arith in
    ap₂ ◌∷◌ (rw e at (h 0 (omega arith))) (
      read_bytes_holds (a + 1) bs m
        (λ i l. let e' : a + suc i ≡ a + 1 + i = omega arith in rw e' at (h (suc i) (omega arith))))

pub write_bytes_at :
    (a : ℕ) (bs : List ℕ) (m : Memory) (i : ℕ)
    → i < length bs
    → write_bytes a bs m (a + i) ≡ get_or bs i 0
unfolding write_bytes
write_bytes_at a bs m i l = let e : a + i - a ≡ i = omega arith in rw e (ground arith)

-- What was written is read back.
pub read_bytes-write_bytes_self :
    (a : ℕ) (bs : List ℕ) (m : Memory) → read_bytes a (length bs) (write_bytes a bs m) ≡ bs
read_bytes-write_bytes_self a bs m =
    read_bytes_holds a bs (write_bytes a bs m) (write_bytes_at a bs m)

pub write_bytes_outside :
    (a : ℕ) (bs : List ℕ) (m : Memory) (b : ℕ)
    → (b < a) ⊎ (a + length bs ≤ b)
    → write_bytes a bs m b ≡ m b
unfolding write_bytes
write_bytes_outside a bs m b h = ground arith

pub write_u64_outside :
    (a v : ℕ) (m : Memory) (b : ℕ) → (b < a) ⊎ (a + 8 ≤ b) → write_u64 a v m b ≡ m b
unfolding write_u64
write_u64_outside a v m b h = write_bytes_outside a (le_bytes 8 v) m b (rw (length-le_bytes 8 v) h)

-- A write to one range leaves a range that does not meet it.
pub read_bytes-write_bytes_apart :
    (a : ℕ) (bs : List ℕ) (m : Memory) (b n : ℕ)
    → (b + n ≤ a) ⊎ (a + length bs ≤ b)
    → read_bytes b n (write_bytes a bs m) ≡ read_bytes b n m
read_bytes-write_bytes_apart a bs m b n h =
    read_bytes_ext b n (write_bytes a bs m) m (λ c p q. write_bytes_outside a bs m c (ground arith))

pub read_u64-write_u64_self : (a v : ℕ) (m : Memory) → read_u64 a (write_u64 a v m) ≡ v % 2 ^ 64
unfolding read_u64 write_u64
read_u64-write_u64_self a v m =
    ap from_le_bytes (rw (length-le_bytes 8 v) at (read_bytes-write_bytes_self a (le_bytes 8 v) m))
    ∙ from_le_bytes-le_bytes_u64 v

pub read_u64-write_u64_apart :
    (a v : ℕ) (m : Memory) (b : ℕ)
    → (b + 8 ≤ a) ⊎ (a + 8 ≤ b)
    → read_u64 b (write_u64 a v m) ≡ read_u64 b m
unfolding read_u64 write_u64
read_u64-write_u64_apart a v m b h =
    ap from_le_bytes
      (read_bytes-write_bytes_apart a (le_bytes 8 v) m b 8 (rw (length-le_bytes 8 v) h))

length-read_bytes : (a n : ℕ) (m : Memory) → length (read_bytes a n m) ≡ n
unfolding read_bytes
length-read_bytes a zero m = refl
length-read_bytes a (suc n) m = ap suc (length-read_bytes (a + 1) n m)

pub read_u64-lt : (a : ℕ) (m : Memory) → read_u64 a m < 2 ^ 64
unfolding read_u64
read_u64-lt a m =
    let h : from_le_bytes (read_bytes a 8 m) < 256 ^ length (read_bytes a 8 m) =
      from_le_bytes-lt (read_bytes a 8 m) in
    rw (length-read_bytes a 8 m) at h

pub read_u64_ext :
    (a : ℕ) (m m' : Memory)
    → ((b : ℕ) → a ≤ b → b < a + 8 → m b ≡ m' b)
    → read_u64 a m ≡ read_u64 a m'
unfolding read_u64
read_u64_ext a m m' h = ap from_le_bytes (read_bytes_ext a 8 m m' h)
