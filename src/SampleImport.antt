-- ===== src/SampleImport.antt =====
-- src/application/sample_log_import_service.cpp: `SampleLogImportService`, which turns the samples of
-- a file into templates with new ids. The tokenizer of the catalog service is an argument.
pub mod NewIds
pub mod Success
use log_generator.Catalog.{next_id}
use log_generator.CsvSource.{FilePath, load}
use log_generator.Domain.{LogTemplate}
use log_generator.Prelude.Decimal.{to_string}
use log_generator.Prelude.Result.{Result, ok, invalid_argument, ◌>>=◌, ◌>>◌, throw_if}
use log_generator.Prelude.{
  ℕ, ◌+◌, List, [], ◌∷◌, ◌++◌, Option, Bytes, codes, is_empty, if◌then◌else◌,
}

-- The template and its analysis.
pub record TokenizedLogTemplate (A : Type 0) : Type 0 where
  pub item : LogTemplate
  pub analysis : A

abbrev pub new_item : Bytes → Bytes → ℕ → Bytes → Bytes → LogTemplate
new_item base_name source_name index id sample = record {
  id = id;
  name = base_name ++ (codes " #" ++ to_string (index + 1));
  sample = sample;
  source = source_name;
  test_case = [];
}

module _ {A : Type 0} (tokenize : LogTemplate → TokenizedLogTemplate A) where
  -- The loop over the samples, of which `index` have been seen.
  unfoldable pub import_from :
      Bytes → Bytes → ℕ → List LogTemplate → List Bytes → Result (List (TokenizedLogTemplate A))
  unfolding to_string
  import_from base_name source_name index assigned_items [] = ok []
  import_from base_name source_name index assigned_items (sample ∷ samples) = do
    id ← next_id assigned_items
    let tokenized = tokenize (new_item base_name source_name index id sample)
    imported ←
        import_from base_name source_name (index + 1) (assigned_items ++ tokenized.item ∷ [])
          samples
    ok (tokenized ∷ imported)

  unfoldable pub import_samples :
      FilePath → List LogTemplate → List Bytes → Result (List (TokenizedLogTemplate A))
  unfolding import_from
  import_samples file existing_items samples =
      let base_name = if is_empty file.stem then codes "CSV 샘플 로그" else file.stem in
      import_from base_name (codes "CSV 가져오기: " ++ file.filename) 0 existing_items samples

  -- The content of the file is `none` where it cannot be opened.
  unfoldable pub import_file :
      FilePath → Option Bytes → List LogTemplate → Result (List (TokenizedLogTemplate A))
  unfolding import_samples load
  import_file file input existing_items = do
    samples ← load file input
    throw_if (is_empty samples) (invalid_argument (codes "CSV 파일에 가져올 샘플 로그가 없습니다."))
    import_samples file existing_items samples
