-- ===== src/Prelude/Search.antt =====
-- Searching a byte string: `find`, `find_first_of`, `find_last_of`, `substr`, and the loop that
-- goes from one occurrence of a marker to the next.
use log_generator.Prelude.Lists.{length, take, drop, get_elem?}
use log_generator.Prelude.Tests.{if◌then◌else◌}
use log_generator.Prelude.Text.{Bytes, starts_with, is_digit}
use Prim.Native.Nat.{ℕ, zero, suc, ◌+◌, ◌-◌}
use mathlib.Core.Bool.{Bool}
use mathlib.Core.List.{List, [], ◌∷◌}
use mathlib.Core.Option.{Option, none, some, map}

-- The position of the first byte that passes.
unfoldable pub find_if : (ℕ → Bool) → Bytes → Option ℕ
find_if test [] = none
find_if test (c ∷ cs) = let later = map suc (find_if test cs) in if test c then some 0 else later

-- `find(marker)` for a marker that is not empty.
unfoldable pub find_text : Bytes → Bytes → Option ℕ
unfolding starts_with
find_text marker [] = none
find_text marker (c ∷ cs) =
    let later = map suc (find_text marker cs) in
    if starts_with marker (c ∷ cs) then some 0 else later

-- The same from a position on.
unfoldable pub find_if_from : (ℕ → Bool) → ℕ → Bytes → Option ℕ
unfolding find_if
find_if_from test position text = map (λ k. position + k) (find_if test (drop position text))

unfoldable pub find_from : Bytes → ℕ → Bytes → Option ℕ
unfolding find_text
find_from marker position text = map (λ k. position + k) (find_text marker (drop position text))

-- The position of the last byte that passes.
unfoldable pub find_last_if : (ℕ → Bool) → Bytes → Option ℕ
find_last_if test [] = none
find_last_if test (c ∷ cs) = elim (find_last_if test cs) [
  | none ↦ if test c then some 0 else none
  | some k ↦ some (suc k)
]

-- `substr(position, count)`.
abbrev pub substr : ℕ → ℕ → Bytes → Bytes
substr position count text = take count (drop position text)

-- `text[i]`, or another byte behind the end.
abbrev pub byte_or : ℕ → ℕ → Bytes → ℕ
byte_or default i text = elim (get_elem? text i) [ none ↦ default | some c ↦ c ]

-- How many digits stand in front.
unfoldable pub digit_run : Bytes → ℕ
unfolding is_digit
digit_run [] = 0
digit_run (c ∷ cs) = let more = suc (digit_run cs) in if is_digit c then more else 0

-- The positions at which `find` stops when it is called again and again, each time behind the marker
-- that it found. `skipped` bytes still belong to the last marker; `position` is that of the text.
unfoldable pub occurrences : Bytes → ℕ → ℕ → Bytes → List ℕ
unfolding starts_with
occurrences marker skipped position [] = []
occurrences marker (suc skipped) position (c ∷ cs) = occurrences marker skipped (suc position) cs
occurrences marker zero position (c ∷ cs) =
    let found = position ∷ occurrences marker (length marker - 1) (suc position) cs in
    let missed = occurrences marker 0 (suc position) cs in
    if starts_with marker (c ∷ cs) then found else missed
