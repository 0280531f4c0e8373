-- ===== src/Privacy/Texts.antt =====
-- src/application/privacy_anonymizer.cpp: control bytes, and replacements of a word.
use log_generator.Prelude.{
  ℕ, zero, suc, Bool, true, false, ◌&&◌, ◌||◌, [], ◌∷◌, ◌++◌, ltb, leb, ◌==◌, if◌then◌else◌, Bytes,
  is_empty, drop, to_lower, length,
}
use log_generator.Privacy.Synthetic.{hex}

-- What stands for a control byte; tab, line feed and carriage return stay.
abbrev pub escape_control : ℕ → Bytes
escape_control c =
    if leb 32 c || c == b'\t' || c == b'\n' || c == b'\r'
    then c ∷ []
    else if c == 7
    then b'\\' ∷ b'a' ∷ []
    else if c == 8
    then b'\\' ∷ b'b' ∷ []
    else if c == 11
    then b'\\' ∷ b'v' ∷ []
    else if c == 12
    then b'\\' ∷ b'f' ∷ []
    else b'\\' ∷ b'x' ∷ hex c

unfoldable pub escape_unsupported_controls : Bytes → Bytes
escape_unsupported_controls [] = []
escape_unsupported_controls (c ∷ cs) = escape_control c ++ escape_unsupported_controls cs

same_letter : ℕ → ℕ → Bool
same_letter left right = to_lower left == to_lower right

-- Whether the text begins with the needle, whatever the case.
matches : Bytes → Bytes → Bool
unfolding same_letter
matches [] value = true
matches (n ∷ needle) [] = false
matches (n ∷ needle) (c ∷ value) = same_letter n c && matches needle value

replace_from : ℕ → Bytes → Bytes → Bytes → Bytes
unfolding matches
replace_from zero needle replacement value = value
replace_from (suc fuel) needle replacement [] = []
replace_from (suc fuel) needle replacement (c ∷ cs) =
    let found =
      replacement ++ replace_from fuel needle replacement (drop (length needle) (c ∷ cs)) in
    let later = c ∷ replace_from fuel needle replacement cs in
    if matches needle (c ∷ cs) then found else later

-- Each round of the loop takes a byte at least, so the length is fuel enough.
unfoldable pub replace_ascii_case_insensitive : Bytes → Bytes → Bytes → Bytes
unfolding replace_from
replace_ascii_case_insensitive value needle replacement =
    if is_empty needle || ltb (length value) (length needle)
    then value
    else replace_from (length value) needle replacement value
