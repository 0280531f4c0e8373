-- ===== src/CsvSource/Printer.antt =====
-- A writer of CSV files: every field in quotation marks, one row a line.
use log_generator.Prelude.{
  ◌≡◌, ◌≢◌, Bool, false, List, [], ◌∷◌, ◌++◌, ◌==◌, Bytes, All, is_empty, if◌then◌else◌,
}

pub data LineEnding : Type 0 where
  lf cr crlf : LineEnding

unfoldable pub line_ending : LineEnding → Bytes
line_ending lf = 10 ∷ []
line_ending cr = 13 ∷ []
line_ending crlf = 13 ∷ 10 ∷ []

-- A quotation mark is doubled, and one follows at the end.
unfoldable pub close_field : Bytes → Bytes → Bytes
close_field [] after = 34 ∷ after
close_field (c ∷ cs) after =
    let rest = close_field cs after in if c == 34 then 34 ∷ 34 ∷ rest else c ∷ rest

unfoldable pub print_fields : List Bytes → Bytes → Bytes
unfolding close_field
print_fields [] after = after
print_fields (f ∷ fs) after = b',' ∷ 34 ∷ close_field f (print_fields fs after)

unfoldable pub print_row : List Bytes → Bytes → Bytes
unfolding close_field print_fields
print_row [] after = after
print_row (f ∷ fs) after = 34 ∷ close_field f (print_fields fs after)

-- With a line ending behind the last row, or without.
unfoldable pub print_more : LineEnding → Bool → List (List Bytes) → Bytes
unfolding print_row line_ending
print_more e last [] = if last then line_ending e else []
print_more e last (row ∷ rows) = line_ending e ++ print_row row (print_more e last rows)

unfoldable pub print_rows : LineEnding → Bool → List (List Bytes) → Bytes
unfolding print_row print_more
print_rows e last [] = []
print_rows e last (row ∷ rows) = print_row row (print_more e last rows)

-- A field that the format can hold: no NUL, and no carriage return, which a reader turns into a
-- line feed.
abbrev pub IsText : Bytes → Type 0
IsText = All (λ c. (c ≢ 0) × (c ≢ 13))

abbrev pub IsRow : List Bytes → Type 0
IsRow row = (is_empty row ≡ false) × All IsText row
