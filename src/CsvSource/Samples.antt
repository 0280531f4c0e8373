-- ===== src/CsvSource/Samples.antt =====
-- What `load` returns.
use log_generator.CsvSource.{
  FilePath, front, check_columns, collect_samples, after_header, is_optional_header, utf8_bom,
  without_bom, opened, parse_csv, load,
}
use log_generator.CsvSource.Printer.{LineEnding, print_row, print_rows, IsText, IsRow}
use log_generator.CsvSource.RoundTrip.{parse_csv-print_rows}
use log_generator.Prelude.Result.{ok, >>=-eq-ok, throw_if, throw_if-eq-ok, ok-injective}
use log_generator.Prelude.{
  ℕ, ◌+◌, ◌≡◌, refl, subst, Bool, true, false, not, List, [], ◌∷◌, ◌++◌, map, Option, none, some,
  Bytes, codes, equal, to_lower, All, is_empty, if-cases, inl, inr, if◌then◌else◌, starts_with,
}

abbrev IsFilled : List Bytes → Type 0
IsFilled = All (λ s. is_empty s ≡ false)

collect_samples-IsFilled :
    (file : FilePath) (index : ℕ) (rows : List (List Bytes)) (samples : List Bytes)
    → collect_samples file index rows ≡ ok samples
    → IsFilled samples
unfolding collect_samples
collect_samples-IsFilled file index [] samples h = subst IsFilled (ok-injective h) tt
collect_samples-IsFilled file index (row ∷ rows) samples h =
    let (_, filled, h₁) = >>=-eq-ok (throw_if (is_empty (front row)) _) _ h in
    let (more, got, h₂) = >>=-eq-ok (collect_samples file (index + 1) rows) _ h₁ in
    subst IsFilled (ok-injective h₂) (
      throw_if-eq-ok (is_empty (front row)) _ filled,
      collect_samples-IsFilled file (index + 1) rows more got,
    )

after_header-IsFilled :
    (file : FilePath) (rows : List (List Bytes)) (samples : List Bytes)
    → after_header file rows ≡ ok samples
    → IsFilled samples
unfolding after_header
after_header-IsFilled file [] samples h = subst IsFilled (ok-injective h) tt
after_header-IsFilled file (row ∷ rows) samples h =
    elim (if-cases (is_optional_header (front row)) h) [
      | inl (_, k) ↦ collect_samples-IsFilled file 1 rows samples k
      | inr (_, k) ↦ collect_samples-IsFilled file 0 (row ∷ rows) samples k
    ]

-- If a file is loaded, there is a sample, and no sample is empty.
pub load-IsFilled :
    (file : FilePath) (input : Option Bytes) (samples : List Bytes)
    → load file input ≡ ok samples
    → (is_empty samples ≡ false) × All (λ s. is_empty s ≡ false) samples
unfolding load
load-IsFilled file input samples h =
    let (_, _, h₁) =
      >>=-eq-ok (throw_if (not (equal (map to_lower file.extension) (codes ".csv"))) _) _ h in
    let (content, _, h₂) = >>=-eq-ok (opened file input) _ h₁ in
    let (rows, _, h₃) = >>=-eq-ok (parse_csv file (without_bom content)) _ h₂ in
    let (_, _, h₄) = >>=-eq-ok (throw_if (is_empty rows) _) _ h₃ in
    let (_, _, h₅) = >>=-eq-ok (check_columns file 0 rows) _ h₄ in
    let (found, got, h₆) = >>=-eq-ok (after_header file rows) _ h₅ in
    let (_, some_found, h₇) = >>=-eq-ok (throw_if (is_empty found) _) _ h₆ in
    subst (λ s. (is_empty s ≡ false) × IsFilled s) (ok-injective h₇)
      (throw_if-eq-ok (is_empty found) _ some_found, after_header-IsFilled file rows found got)

-- A file of one column.
abbrev pub column : List Bytes → List (List Bytes)
column = map (λ s. s ∷ [])

check_columns-column :
    (file : FilePath) (index : ℕ) (samples : List Bytes)
    → check_columns file index (column samples) ≡ ok tt
unfolding check_columns
check_columns-column file index [] = refl
check_columns-column file index (s ∷ ss) = check_columns-column file (index + 1) ss

collect_samples-column :
    (file : FilePath) (index : ℕ) (samples : List Bytes)
    → IsFilled samples
    → collect_samples file index (column samples) ≡ ok samples
unfolding collect_samples front
collect_samples-column file index [] h = refl
collect_samples-column file index (s ∷ ss) h =
    rw (h.0, collect_samples-column file (index + 1) ss h.1) refl

column-IsRow : (samples : List Bytes) → All IsText samples → All IsRow (column samples)
column-IsRow [] h = tt
column-IsRow (s ∷ ss) h = ((refl, (h.0, tt)), column-IsRow ss h.1)

without_bom-print_rows :
    (bom : Bool) (e : LineEnding) (last : Bool) (s : Bytes) (ss : List Bytes)
    → without_bom ((if bom then utf8_bom else []) ++ print_rows e last (column (s ∷ ss)))
      ≡ print_rows e last (column (s ∷ ss))
unfolding without_bom starts_with print_rows print_row
without_bom-print_rows true e last s ss = refl
without_bom-print_rows false e last s ss = refl

-- The header row, if there is one, and the samples.
abbrev pub headed : Option Bytes → List Bytes → List Bytes
headed none samples = samples
headed (some h) samples = h ∷ samples

abbrev pub IsHeaded : Option Bytes → Bytes → Type 0
IsHeaded none first = is_optional_header first ≡ false
IsHeaded (some h) first = (is_optional_header h ≡ true) × IsText h

after_header-column :
    (file : FilePath) (header : Option Bytes) (s : Bytes) (ss : List Bytes)
    → IsFilled (s ∷ ss)
    → IsHeaded header s
    → after_header file (column (headed header (s ∷ ss))) ≡ ok (s ∷ ss)
unfolding after_header front
after_header-column file none s ss h first = rw first (collect_samples-column file 0 (s ∷ ss) h)
after_header-column file (some t) s ss h first =
    rw first.0 (collect_samples-column file 1 (s ∷ ss) h)

headed-IsText :
    (header : Option Bytes) (s : Bytes) (ss : List Bytes)
    → All IsText (s ∷ ss)
    → IsHeaded header s
    → All IsText (headed header (s ∷ ss))
headed-IsText none s ss h first = h
headed-IsText (some t) s ss h first = (first.1, h)

headed-cons :
    (header : Option Bytes) (s : Bytes) (ss : List Bytes)
    → (t : Bytes) × (ts : List Bytes) × (headed header (s ∷ ss) ≡ t ∷ ts)
headed-cons none s ss = (s, ss, refl)
headed-cons (some t) s ss = (t, s ∷ ss, refl)

-- A file of one quoted column is loaded as its samples, with a byte order mark or without, under
-- any line ending, with a header row or without, if the extension is that of a CSV file, there is a
-- sample, no sample is empty or holds a NUL or a carriage return, and, where there is no header
-- row, the first sample is not one.
pub load-print_rows :
    (file : FilePath) (bom : Bool) (e : LineEnding) (last : Bool) (header : Option Bytes)
    (s : Bytes) (ss : List Bytes)
    → equal (map to_lower file.extension) (codes ".csv") ≡ true
    → All IsText (s ∷ ss)
    → All (λ x. is_empty x ≡ false) (s ∷ ss)
    → IsHeaded header s
    → load file (
        some
          ((if bom then utf8_bom else []) ++ print_rows e last (column (headed header (s ∷ ss)))))
      ≡ ok (s ∷ ss)
unfolding load opened
load-print_rows file bom e last header s ss ext text filled first =
    let (t, ts, p) = headed-cons header s ss in
    let read =
      parse_csv-print_rows file e last (column (headed header (s ∷ ss)))
        (column-IsRow (headed header (s ∷ ss)) (headed-IsText header s ss text first)) in
    let columns = check_columns-column file 0 (headed header (s ∷ ss)) in
    let found = after_header-column file header s ss filled first in
    rw
      (ext, p, without_bom-print_rows bom e last t ts, rw p at read, rw p at columns, rw p at found)
      refl
