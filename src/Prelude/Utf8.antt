-- ===== src/Prelude/Utf8.antt =====
-- `core::str::from_utf8`: whether a sequence of bytes is well-formed UTF-8.
use Prim.Native.Nat.{ℕ, zero, suc}
use mathlib.Core.Bool.{Bool, true, false, ◌&&◌}
use mathlib.Core.List.{List, [], ◌∷◌}
use aperture_os.Prelude.Tests.{ltb, leb, ◌==◌, if◌then◌else◌}

-- How many bytes follow a first byte, or `ill_formed` for a byte that starts nothing.
abbrev ill_formed : ℕ
ill_formed = 4

abbrev following : ℕ → ℕ
following b =
    if ltb b 0x80
    then 0
    else if ltb b 0xC2
    then ill_formed
    else if ltb b 0xE0
    then 1
    else if ltb b 0xF0
    then 2
    else if ltb b 0xF5
    then 3
    else ill_formed

-- The range of the second byte.
abbrev second_low : ℕ → ℕ
second_low b = if b == 0xE0 then 0xA0 else if b == 0xF0 then 0x90 else 0x80

abbrev second_high : ℕ → ℕ
second_high b = if b == 0xED then 0x9F else if b == 0xF4 then 0x8F else 0xBF

-- `left` bytes of a character are still to come, and the next one lies between `low` and `high`.
unfoldable pub is_utf8_from : ℕ → ℕ → ℕ → List ℕ → Bool
is_utf8_from zero low high [] = true
is_utf8_from (suc left) low high [] = false
is_utf8_from zero low high (b ∷ bs) =
    ltb (following b) ill_formed && is_utf8_from (following b) (second_low b) (second_high b) bs
is_utf8_from (suc left) low high (b ∷ bs) =
    leb low b && leb b high && is_utf8_from left 0x80 0xBF bs

unfoldable pub is_utf8 : List ℕ → Bool
is_utf8 bs = is_utf8_from 0 0 0 bs
