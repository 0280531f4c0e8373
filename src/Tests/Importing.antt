-- ===== src/Tests/Importing.antt =====
-- A CSV file and the import of its samples.
use log_generator.Catalog.{valid_sample_id, validate_ids, next_id}
use log_generator.CsvSource.Printer.{lf, crlf, print_rows}
use log_generator.CsvSource.RoundTrip.{parse_csv-print_rows}
use log_generator.CsvSource.Samples.{load-print_rows, column}
use log_generator.CsvSource.{FilePath, parse_csv, load, utf8_bom, is_optional_header}
use log_generator.Domain.{LogTemplate}
use log_generator.Prelude.Decimal.{parse_u64, value_onto, all_digits, to_string}
use log_generator.Prelude.Result.{ok}
use log_generator.Prelude.{
  ◌≡◌, refl, true, List, [], ◌∷◌, ◌++◌, some, Bytes, codes, equal, to_lower, starts_with, is_digit,
  length, arith,
}
use log_generator.SampleImport.NewIds.{items_of, import_file-validates}
use log_generator.SampleImport.Success.{import_file-succeeds}
use log_generator.SampleImport.{TokenizedLogTemplate, import_file}
use log_generator.Tests.Control.{one_template}

abbrev path : FilePath
path = record {
  text = codes "in/web.CSV";
  extension = codes ".CSV";
  stem = codes "web";
  filename = codes "web.CSV";
}

-- a "quoted", field, and one with a line feed
abbrev two_rows : List (List Bytes)
two_rows = (codes "a \"b\", c" ∷ [] ∷ []) ∷ ((b'd' ∷ 10 ∷ b'e' ∷ []) ∷ []) ∷ []

parse_csv-print_rows_example : parse_csv path (print_rows crlf true two_rows) ≡ ok two_rows
parse_csv-print_rows_example =
    parse_csv-print_rows path crlf true two_rows ((refl, omega arith), ((refl, omega arith), tt))

abbrev samples : List Bytes
samples = codes "log \"one\"" ∷ codes "log two" ∷ []

abbrev file_content : Bytes
file_content = utf8_bom ++ print_rows lf true (column (codes " Sample " ∷ samples))

load-print_rows_example : load path (some file_content) ≡ ok samples
unfolding equal to_lower is_optional_header
load-print_rows_example =
    load-print_rows path true lf true (some (codes " Sample ")) (codes "log \"one\"")
      (codes "log two" ∷ []) refl (omega arith) (refl, (refl, tt)) (refl, omega arith)

abbrev seventh : LogTemplate
seventh = record one_template { id = codes "0007" }

abbrev tokenize : LogTemplate → TokenizedLogTemplate Bytes
tokenize template = record { item = record template { sample = codes "S" }; analysis = [] }

abbrev imported : List (TokenizedLogTemplate Bytes)
imported =
    record {
      item = record {
        id = codes "0008";
        name = codes "web #1";
        sample = codes "S";
        source = codes "CSV 가져오기: web.CSV";
        test_case = [];
      };
      analysis = [];
    }
    ∷ record {
      item = record {
        id = codes "0009";
        name = codes "web #2";
        sample = codes "S";
        source = codes "CSV 가져오기: web.CSV";
        test_case = [];
      };
      analysis = [];
    }
    ∷ []

import_file-validates_example :
    (read : List Bytes) × (load path (some file_content) ≡ ok read)
    × (length imported ≡ length read)
    × (validate_ids (seventh ∷ items_of imported) ≡ ok tt)
unfolding import_file equal to_lower value_onto all_digits to_string starts_with print_rows next_id
    validate_ids is_digit parse_u64
import_file-validates_example =
    import_file-validates tokenize (λ item. refl) path (some file_content) (seventh ∷ []) imported
      refl

import_file-succeeds_example :
    (result : List (TokenizedLogTemplate Bytes)) × (import_file tokenize path
        (some file_content)
        (seventh ∷ [])
      ≡ ok result)
unfolding is_digit valid_sample_id all_digits validate_ids value_onto
import_file-succeeds_example =
    import_file-succeeds tokenize (λ item. refl) path (some file_content) (seventh ∷ []) samples 7
      load-print_rows_example (omega arith) refl ((refl, omega arith), tt)
