-- ===== src/Prelude/Text.antt =====
-- Byte strings. A C++ `std::string` is the list of its bytes, and `codes` is a
-- literal in UTF-8.
use Prim.Native.Char.{code}
use Prim.Native.Nat.{ℕ, ◌+◌, ◌/◌, ◌%◌}
use Prim.Native.String.{String}
use mathlib.Core.Path.{◌≡◌}
use mathlib.Core.Logic.{◌↔◌}
use mathlib.Core.Bool.{Bool, true, false, ◌&&◌, ◌||◌}
use mathlib.Core.List.{List, [], ◌∷◌, ◌++◌}
use native.Mathlib.Omega.{arith}
use log_generator.Prelude.Tests.{leb, ltb, ◌==◌, if◌then◌else◌}

abbrev pub Bytes : Type 0
Bytes = List ℕ

abbrev pub utf8 : ℕ → Bytes
utf8 c =
    if ltb c 128
    then c ∷ []
    else if ltb c 2048
    then (192 + c / 64) ∷ (128 + c % 64) ∷ []
    else if ltb c 65536
    then (224 + c / 4096) ∷ (128 + c / 64 % 64) ∷ (128 + c % 64) ∷ []
    else (240 + c / 262144) ∷ (128 + c / 4096 % 64) ∷ (128 + c / 64 % 64) ∷ (128 + c % 64) ∷ []

abbrev pub codes : String → Bytes
codes String.[] = []
codes (String.◌∷◌ c s) = utf8 (code c) ++ codes s

-- `==` of two strings.
unfoldable pub equal : Bytes → Bytes → Bool
equal [] [] = true
equal [] (_ ∷ _) = false
equal (_ ∷ _) [] = false
equal (x ∷ xs) (y ∷ ys) = x == y && equal xs ys

pub equal_iff : (a b : Bytes) → (equal a b ≡ true) ↔ (a ≡ b)
unfolding equal
equal_iff [] [] = ground arith
equal_iff [] (y ∷ ys) = ground arith
equal_iff (x ∷ xs) [] = ground arith
equal_iff (x ∷ xs) (y ∷ ys) = ground (arith, equal_iff xs ys)

-- `s.starts_with(prefix)` is `starts_with prefix s`.
unfoldable pub starts_with : Bytes → Bytes → Bool
starts_with [] s = true
starts_with (x ∷ xs) (y ∷ ys) = x == y && starts_with xs ys
starts_with (x ∷ xs) [] = false

-- How often a byte occurs.
unfoldable pub count : ℕ → Bytes → ℕ
count b [] = 0
count b (c ∷ cs) = (if c == b then 1 else 0) + count b cs

pub count-append : (b : ℕ) (xs ys : Bytes) → count b (xs ++ ys) ≡ count b xs + count b ys
unfolding count
count-append b [] ys = omega arith
count-append b (x ∷ xs) ys = omega (arith, count-append b xs ys)

unfoldable pub is_digit : ℕ → Bool
is_digit c = leb b'0' c && leb c b'9'

-- `std::tolower` in the C locale.
unfoldable pub to_lower : ℕ → ℕ
to_lower c = if leb b'A' c && leb c b'Z' then c + 32 else c

unfoldable pub ends_with : Bytes → Bytes → Bool
ends_with s suffix = equal s suffix || ends_with_later s
  where
    ends_with_later : Bytes → Bool
    ends_with_later [] = false
    ends_with_later (c ∷ cs) = equal cs suffix || ends_with_later cs

-- `find(...) != npos`.
unfoldable pub contains : Bytes → Bytes → Bool
contains s [] = true
contains [] (p ∷ ps) = false
contains (c ∷ cs) (p ∷ ps) = starts_with (p ∷ ps) (c ∷ cs) || contains cs (p ∷ ps)

-- The words of a literal, which stand for a list of literals.
abbrev pub words : String → List Bytes
words s = from (codes s)
  where
    from : Bytes → List Bytes
    from [] = [] ∷ []
    from (c ∷ cs) = elim (from cs) [
      | [] ↦ (c ∷ []) ∷ []
      | w ∷ ws ↦ if c == b' ' then [] ∷ w ∷ ws else (c ∷ w) ∷ ws
    ]
