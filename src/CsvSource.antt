-- ===== src/CsvSource.antt =====
-- src/infrastructure/csv_sample_log_source.cpp: samples read from a CSV file of one column. The file
-- system's answers, the parts of a path and the content of the file, are arguments.
pub mod Printer
pub mod RoundTrip
pub mod Samples
use log_generator.Prelude.Decimal.{to_string}
use log_generator.Prelude.Result.{
  Exception, Result, ok, throws, runtime_error, ◌>>=◌, ◌>>◌, throw_if,
}
use log_generator.Prelude.{
  ℕ, ◌+◌, Bool, true, false, not, ◌&&◌, ◌||◌, List, [], ◌∷◌, ◌++◌, map, Option, none, some, ◌==◌,
  Bytes, codes, equal, is_empty, length, drop, starts_with, to_lower, if◌then◌else◌,
}

-- What the source asks of a `std::filesystem::path`, each in UTF-8.
pub record FilePath : Type 0 where
  pub text : Bytes
  pub extension : Bytes
  pub stem : Bytes
  pub filename : Bytes

unfoldable pub csv_error : FilePath → Bytes → Exception
csv_error file message =
    runtime_error (codes "CSV 샘플 로그 파일 '" ++ (file.text ++ (codes "': " ++ message)))

-- The local variables of `parse_csv`.
pub record Reader : Type 0 where
  pub rows : List (List Bytes)
  pub row : List Bytes
  pub field : Bytes
  pub quoted : Bool
  pub quote_closed : Bool
  pub row_started : Bool

abbrev pub first_reader : Reader
first_reader = record {
  rows = [];
  row = [];
  field = [];
  quoted = false;
  quote_closed = false;
  row_started = false;
}

unfoldable pub finish_field : Reader → Reader
finish_field r = record r { row = r.row ++ r.field ∷ []; field = []; quote_closed = false }

unfoldable pub finish_row : Reader → Reader
unfolding finish_field
finish_row r =
    if r.row_started || not (is_empty r.field) || not (is_empty r.row) || r.quote_closed
    then (let done = finish_field r in
        record done {
          rows = done.rows ++ done.row ∷ [];
          row = [];
          row_started = false;
          quote_closed = false;
        })
    else record r { row_started = false; quote_closed = false }

-- `index + 1 < input.size() && input[index + 1] == value`.
unfoldable pub follows : ℕ → Bytes → Bool
follows value [] = false
follows value (c ∷ cs) = c == value

-- One round of the loop, at `value` with `rest` behind it: whether it reads a second byte
-- (`++index`), and the variables after it.
unfoldable pub read_byte : FilePath → Reader → ℕ → Bytes → Result (Bool × Reader)
unfolding follows finish_field finish_row csv_error
read_byte file r value rest =
    if value == 0
    then throws (csv_error file (codes "NUL 문자는 사용할 수 없습니다."))
    else if r.quoted
    then (if value == 34
        then (if follows 34 rest
            then ok (true, record r { field = r.field ++ 34 ∷ [] })
            else ok (false, record r { quoted = false; quote_closed = true }))
        else if value == 13
        then ok (follows 10 rest, record r { field = r.field ++ 10 ∷ [] })
        else ok (false, record r { field = r.field ++ value ∷ [] }))
    else if r.quote_closed
    then (if value == b','
        then ok (false, record (finish_field r) { row_started = true })
        else if value == 13 || value == 10
        then ok (value == 13 && follows 10 rest, finish_row r)
        else throws (csv_error file (codes "닫는 따옴표 뒤에는 쉼표 또는 줄바꿈만 올 수 있습니다.")))
    else if value == 34
    then (if not (is_empty r.field)
        then throws (csv_error file (codes "따옴표로 묶은 값은 필드의 첫 문자에서 시작해야 합니다."))
        else ok (false, record r { quoted = true; row_started = true }))
    else if value == b','
    then ok (false, record (finish_field r) { row_started = true })
    else if value == 13 || value == 10
    then ok (value == 13 && follows 10 rest, finish_row r)
    else ok (false, record r { field = r.field ++ value ∷ []; row_started = true })

-- The loop, and what follows it. The flag says that the next byte has been read.
unfoldable pub parse_from : FilePath → Bool → Reader → Bytes → Result (List (List Bytes))
unfolding read_byte finish_row csv_error
parse_from file skipped r [] = do
  throw_if r.quoted (csv_error file (codes "따옴표로 묶은 필드가 닫히지 않았습니다."))
  ok (finish_row r).rows
parse_from file true r (value ∷ rest) = parse_from file false r rest
parse_from file false r (value ∷ rest) = do
  next ← read_byte file r value rest
  parse_from file next.0 next.1 rest

unfoldable pub parse_csv : FilePath → Bytes → Result (List (List Bytes))
unfolding parse_from
parse_csv file input = parse_from file false first_reader input

unfoldable pub is_blank : ℕ → Bool
is_blank c = c == b' ' || c == 9

unfoldable pub trim_start : Bytes → Bytes
unfolding is_blank
trim_start [] = []
trim_start (c ∷ cs) = let rest = trim_start cs in if is_blank c then rest else c ∷ cs

unfoldable pub trim_end : Bytes → Bytes
unfolding is_blank
trim_end [] = []
trim_end (c ∷ cs) = let rest = trim_end cs in if is_blank c && is_empty rest then [] else c ∷ rest

unfoldable pub is_optional_header : Bytes → Bool
unfolding trim_start trim_end
is_optional_header value =
    let name = map to_lower (trim_end (trim_start value)) in
    not (is_empty (trim_start value))
    && (equal name (codes "sample")
        || equal name (codes "sample_log")
        || equal name (codes "샘플로그")
        || equal name (codes "샘플 로그"))

-- Every row has one column. `index` counts the rows before.
unfoldable pub check_columns : FilePath → ℕ → List (List Bytes) → Result (Unit {0})
unfolding csv_error
check_columns file index [] = ok tt
check_columns file index (row ∷ rows) = do
  throw_if (not (length row == 1)) (
      csv_error file (
        to_string (index + 1)
        ++ (codes "행의 컬럼 수가 " ++ (to_string (length row) ++ codes "개입니다. CSV는 정확히 1개 컬럼이어야 합니다."))))
  check_columns file (index + 1) rows

-- `row.front()`; a row without a column does not get so far.
unfoldable pub front : List Bytes → Bytes
front [] = []
front (x ∷ xs) = x

unfoldable pub collect_samples : FilePath → ℕ → List (List Bytes) → Result (List Bytes)
unfolding csv_error front
collect_samples file index [] = ok []
collect_samples file index (row ∷ rows) = do
  throw_if (is_empty (front row))
      (csv_error file (to_string (index + 1) ++ codes "행의 샘플 로그가 비어 있습니다."))
  samples ← collect_samples file (index + 1) rows
  ok (front row ∷ samples)

abbrev pub utf8_bom : Bytes
utf8_bom = 0xEF ∷ 0xBB ∷ 0xBF ∷ []

unfoldable pub without_bom : Bytes → Bytes
without_bom content = if starts_with utf8_bom content then drop 3 content else content

unfoldable pub opened : FilePath → Option Bytes → Result Bytes
unfolding csv_error
opened file none = throws (csv_error file (codes "파일을 열 수 없습니다."))
opened file (some content) = ok content

unfoldable pub after_header : FilePath → List (List Bytes) → Result (List Bytes)
unfolding is_optional_header front collect_samples
after_header file [] = ok []
after_header file (row ∷ rows) =
    if is_optional_header (front row)
    then collect_samples file 1 rows
    else collect_samples file 0 (row ∷ rows)

-- The content is `none` where the file cannot be opened.
unfoldable pub load : FilePath → Option Bytes → Result (List Bytes)
unfolding csv_error parse_csv check_columns after_header without_bom opened
load file input = do
  throw_if (not (equal (map to_lower file.extension) (codes ".csv")))
      (csv_error file (codes "확장자가 .csv인 파일만 가져올 수 있습니다."))
  content ← opened file input
  rows ← parse_csv file (without_bom content)
  throw_if (is_empty rows) (csv_error file (codes "가져올 데이터가 없습니다."))
  check_columns file 0 rows
  samples ← after_header file rows
  throw_if (is_empty samples) (csv_error file (codes "가져올 샘플 로그가 없습니다."))
  ok samples
