-- ===== src/PeParser/Headers.antt =====
-- crates/pe-parser/src/lib.rs: when `parse_pe` panics.
use aperture_os.Prelude.{
  ℕ, ◌+◌, ◌≤◌, ◌<◌, ◌≡◌, ◌≢◌, ◌⊎◌, ◌↔◌, List, Bool, true, false, arith, length, leb, leb→le, ==_iff,
  refl, inl, inr, ap,
}
use native.Mathlib.Decide.{ℕ_discrete}
use aperture_os.PeParser.{
  Parsed, PeImage, MachineType, ◌>>=◌, require, number_at, field, machine_of, image_base_of,
  parse_headers, parse_pe,
}

-- The file names a known machine and a known kind of optional header, and has the first eight bytes
-- of the optional header.
pub record IsRecognized (bytes : List ℕ) : Type 0 where
  pub dos_header : 0x40 ≤ length bytes
  pub mz : number_at bytes 0 2 ≡ 0x5A4D
  pub pe : number_at bytes (number_at bytes 0x3C 4) 4 ≡ 0x4550
  pub machine :
      let code = number_at bytes (number_at bytes 0x3C 4 + 4) 2 in
      (code ≡ 0x8664) ⊎ ((code ≡ 0xAA64) ⊎ (code ≡ 0x014C))
  pub begins : number_at bytes 0x3C 4 + 32 ≤ length bytes
  pub magic :
      let code = number_at bytes (number_at bytes 0x3C 4 + 24) 2 in (code ≡ 0x20B) ⊎ (code ≡ 0x10B)

abbrev IsMagic : ℕ → Type 0
IsMagic code = (code ≡ 0x20B) ⊎ (code ≡ 0x10B)

abbrev IsMachine : ℕ → Type 0
IsMachine code = (code ≡ 0x8664) ⊎ ((code ≡ 0xAA64) ⊎ (code ≡ 0x014C))

le→leb : (a b : ℕ) → a ≤ b → leb a b ≡ true
le→leb a b h = ground arith

require-panicked :
    {A : Type 0} (b : Bool) (p : Parsed A)
    → ((require b >>= λ _. p) ≡ Parsed.panicked) ↔ ((b ≡ true) × (p ≡ Parsed.panicked))
require-panicked true p = (λ h. (refl, h), λ h. h.1)
require-panicked false p = (λ h. cc, λ h. cc)

unknown-absent :
    (code : ℕ) → code ≢ 0x8664 → code ≢ 0xAA64 → code ≢ 0x014C → machine_of code ≡ Parsed.absent
unfolding machine_of
unknown-absent code h k l = ground arith

IsMachine-panicked :
    {A : Type 0} (code : ℕ) (f : MachineType → Parsed A) (P : Type 0)
    → ((m : MachineType) → (f m ≡ Parsed.panicked) ↔ P)
    → ((machine_of code >>= f) ≡ Parsed.panicked) ↔ (IsMachine code × P)
unfolding machine_of
IsMachine-panicked code f P h = elim (ℕ_discrete code 0x8664) [
  | yes e ↦ rw e (λ k. (inl refl, (h MachineType.amd64).0 k), λ k. (h MachineType.amd64).1 k.1)
  | no not_amd ↦ elim (ℕ_discrete code 0xAA64) [
    | yes e ↦
        rw e (λ k. (inr (inl refl), (h MachineType.arm64).0 k), λ k. (h MachineType.arm64).1 k.1)
    | no not_arm ↦ elim (ℕ_discrete code 0x014C) [
      | yes e ↦
          rw e (λ k. (inr (inr refl), (h MachineType.i386).0 k), λ k. (h MachineType.i386).1 k.1)
      | no other ↦
          let gone : (machine_of code >>= f) ≡ Parsed.absent =
            ap (λ p. p >>= f) (unknown-absent code not_amd not_arm other) in
          (λ k. absurd (ground arith), λ k. absurd (ground arith))
    ]
  ]
]

-- The optional header at `o`.
optional-panicked :
    (bytes : List ℕ) (o magic : ℕ) (g : ℕ → ℕ → ℕ → PeImage)
    → ((image_base_of bytes o magic >>= λ b.
          field bytes (o + 16) 4 >>= λ e. field bytes (o + 56) 4 >>= λ s. Parsed.found (g b e s))
        ≡ Parsed.panicked)
      ↔ (IsMagic magic × (length bytes < o + 60))
unfolding image_base_of field
optional-panicked bytes o magic g = (λ h. ground arith, λ h. ground arith)

-- The headers at `o`.
abbrev IsCut : List ℕ → ℕ → Type 0
IsCut bytes o =
    (o + 32 ≤ length bytes) × IsMagic (number_at bytes (o + 24) 2) × (length bytes < o + 84)

headers-panicked :
    (bytes : List ℕ) (o : ℕ)
    → (parse_headers bytes o ≡ Parsed.panicked)
      ↔ (IsMachine (number_at bytes (o + 4) 2) × IsCut bytes o)
unfolding parse_headers
headers-panicked bytes o =
    IsMachine-panicked (number_at bytes (o + 4) 2) _ (IsCut bytes o) (λ machine.
      let here : leb (o + 24 + 8) (length bytes) ≡ true ↔ (o + 32 ≤ length bytes) =
        (λ h. ground arith, λ h. ground arith) in
      let rest = optional-panicked bytes (o + 24) (number_at bytes (o + 24) 2) _ in
      (
        λ h.
            let (begins, tail) = (require-panicked _ _).0 h in
            let (magic, short) = rest.0 tail in (here.0 begins, magic, omega arith),
        λ (begins, magic, short).
            (require-panicked _ _).1 (here.1 begins, rest.1 (magic, omega arith)),
      ))

-- `parse_pe` panics, instead of returning nothing, exactly on the recognized files that end before
-- the 60th byte of their optional header.
pub parse_pe_panics :
    (bytes : List ℕ)
    → (parse_pe bytes ≡ Parsed.panicked)
      ↔ (IsRecognized bytes × (length bytes < number_at bytes 0x3C 4 + 84))
unfolding parse_pe
parse_pe_panics bytes =
    let o : ℕ = number_at bytes 0x3C 4 in
    let headers = headers-panicked bytes o in
    (
      λ h.
          let (dos, h₁) = (require-panicked _ _).0 h in
          let (mz, h₂) = (require-panicked _ _).0 h₁ in
          let (fits, h₃) = (require-panicked _ _).0 h₂ in
          let (pe, h₄) = (require-panicked _ _).0 h₃ in
          let (machine, cut) = headers.0 h₄ in
          (
            record {
              dos_header = leb→le _ _ dos;
              mz = (==_iff _ _).0 mz;
              pe = (==_iff _ _).0 pe;
              machine = machine;
              begins = cut.0;
              magic = cut.1;
            },
            cut.2,
          ),
      λ (r, short). (require-panicked _ _).1 (
        le→leb _ _ r.dos_header,
        (require-panicked _ _).1 (
          (==_iff _ _).1 r.mz,
          (require-panicked _ _).1 (
            le→leb _ _ (omega (arith, r.begins)),
            (require-panicked _ _).1
                ((==_iff _ _).1 r.pe, headers.1 (r.machine, (r.begins, r.magic, short))),
          ),
        ),
      ),
    )
