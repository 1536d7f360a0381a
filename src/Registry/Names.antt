-- ===== src/Registry/Names.antt =====
-- kernel/src/win32/registry.rs: which keys and names share a path.
use mathlib.Core.List.{append_assoc}
use aperture_os.Prelude.{
  ℕ, ◌≡◌, ◌∙◌, refl, ap, sym, arith, List, [], ◌∷◌, ◌++◌, true, Bool-cases, inl, inr, length, leb,
  is_utf8, if◌then◌else◌,
}
use aperture_os.Registry.{push_bytes, format_path}

push_bytes_full : (bs buf : List ℕ) → leb 256 (length buf) ≡ true → push_bytes buf bs ≡ buf
unfolding push_bytes
push_bytes_full [] buf h = refl
push_bytes_full (b ∷ bs) buf h = ground (arith, h)

-- Copying two texts is copying the one and then the other.
push_bytes-append :
    (xs ys buf : List ℕ) → push_bytes buf (xs ++ ys) ≡ push_bytes (push_bytes buf xs) ys
unfolding push_bytes
push_bytes-append [] ys buf = refl
push_bytes-append (x ∷ xs) ys buf = elim (Bool-cases (leb 256 (length buf))) [
  | inl full ↦ ground (arith, full, push_bytes_full ys buf full)
  | inr room ↦ ground (arith, room, push_bytes-append xs ys (buf ++ x ∷ []))
]

abbrev checked : List ℕ → List ℕ
checked path = if is_utf8 path then path else []

-- The path is the first 256 bytes of the key, a backslash and the name.
format_path_lem :
    (key value : List ℕ) → format_path key value ≡ checked (push_bytes [] (key ++ 92 ∷ value))
unfolding format_path push_bytes
format_path_lem key value =
    ap checked (sym (push_bytes-append key (92 ∷ value) [] ∙ separator (push_bytes [] key)))
  where
    separator :
        (buf : List ℕ)
        → push_bytes buf (92 ∷ value)
          ≡ push_bytes (if leb 256 (length buf) then buf else buf ++ 92 ∷ []) value
    separator buf = elim (Bool-cases (leb 256 (length buf))) [
      | inl full ↦ ground (arith, full, push_bytes_full value buf full)
      | inr room ↦ ground (arith, room)
    ]

-- A backslash may stand at the end of the key's part or inside the name: the path, and so the
-- entry, is the same.
pub format_path-append :
    (key middle value : List ℕ)
    → format_path key (middle ++ 92 ∷ value) ≡ format_path (key ++ 92 ∷ middle) value
format_path-append key middle value =
    format_path_lem key (middle ++ 92 ∷ value)
    ∙ ap (λ t. checked (push_bytes [] t)) (sym (append_assoc key (92 ∷ middle) (92 ∷ value)))
    ∙ sym (format_path_lem (key ++ 92 ∷ middle) value)
