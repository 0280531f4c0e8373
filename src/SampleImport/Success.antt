-- ===== src/SampleImport/Success.antt =====
-- When an import succeeds.
use log_generator.Catalog.{valid_sample_id, validate_ids}
use log_generator.Catalog.Growth.{validate_ids-snoc, UpTo, next_id-UpTo}
use log_generator.Catalog.Ids.{next_id-new}
use log_generator.CsvSource.{FilePath, load}
use log_generator.CsvSource.Samples.{load-IsFilled}
use log_generator.Domain.{LogTemplate}
use log_generator.Prelude.Decimal.{value_onto}
use log_generator.Prelude.Result.{ok}
use log_generator.Prelude.Words.{u64_mod}
use log_generator.Prelude.{
  ℕ, ◌+◌, ◌≤◌, ◌<◌, ◌≡◌, refl, true, List, [], ◌∷◌, ◌++◌, All, All-append, Option, Bytes, length,
  arith,
}
use log_generator.SampleImport.{
  TokenizedLogTemplate, new_item, import_from, import_samples, import_file,
}

UpTo-mono : (n m : ℕ) (items : List LogTemplate) → n ≤ m → UpTo n items → UpTo m items
UpTo-mono n m [] l h = tt
UpTo-mono n m (x ∷ xs) l h = ((h.0.0, omega arith), UpTo-mono n m xs l h.1)

module _ {A : Type 0} (tokenize : LogTemplate → TokenizedLogTemplate A)
    (keeps_id : (item : LogTemplate) → (tokenize item).item.id ≡ item.id) where
  import_from-succeeds :
      (base source : Bytes) (index n : ℕ) (assigned : List LogTemplate) (samples : List Bytes)
      → n + length samples < u64_mod
      → UpTo n assigned
      → validate_ids assigned ≡ ok tt
      → (imported : List (TokenizedLogTemplate A)) × (import_from tokenize base source index
            assigned samples
          ≡ ok imported)
  unfolding import_from
  import_from-succeeds base source index n assigned [] room h valid = ([], refl)
  import_from-succeeds base source index n assigned (s ∷ samples) room h valid =
      let (id, given, low) = next_id-UpTo n assigned (omega arith) h valid in
      let t = tokenize (new_item base source index id s) in
      let new = next_id-new assigned id given in
      let e = keeps_id (new_item base source index id s) in
      let (more, got) =
        import_from-succeeds base source (index + 1) (n + 1) (assigned ++ t.item ∷ []) samples
          (omega arith)
          (All-append _ assigned (t.item ∷ []) (UpTo-mono n (n + 1) assigned (omega arith) h)
            ((rw e new.0, rw e low), tt))
          (validate_ids-snoc assigned t.item valid (rw e new.0) (rw e new.2)) in
      rw (given, got) (t ∷ more, refl)

  -- If the tokenizer keeps the id of a template, the catalog is valid, no id of it is above `n`, the
  -- samples of the file can be loaded and `n` with their number is below 2 ^ 64, the file is imported.
  pub import_file-succeeds :
      (file : FilePath) (input : Option Bytes) (existing : List LogTemplate) (samples : List Bytes)
      (n : ℕ)
      → load file input ≡ ok samples
      → n + length samples < u64_mod
      → validate_ids existing ≡ ok tt
      → All (λ item. (valid_sample_id item.id ≡ true) × (value_onto 0 item.id ≤ n)) existing
      → (imported : List (TokenizedLogTemplate A)) × (import_file tokenize file input existing
          ≡ ok imported)
  unfolding import_file import_samples
  import_file-succeeds file input existing samples n loaded room valid h =
      rw (loaded, (load-IsFilled file input samples loaded).0)
        (import_from-succeeds _ _ 0 n existing samples room h valid)
