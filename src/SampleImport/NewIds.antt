-- ===== src/SampleImport/NewIds.antt =====
-- The ids of imported samples.
use log_generator.Catalog.{validate_ids, next_id}
use log_generator.Catalog.Growth.{validate_ids-snoc, next_id-validated}
use log_generator.Catalog.Ids.{next_id-new}
use log_generator.CsvSource.{FilePath, load}
use log_generator.CsvSource.Samples.{load-IsFilled}
use log_generator.Domain.{LogTemplate}
use log_generator.Prelude.Result.{ok, >>=-eq-ok, throw_if, ok-injective}
use log_generator.Prelude.{
  ℕ, suc, ◌+◌, ◌≡◌, refl, ap, subst, false, List, [], ◌∷◌, ◌++◌, map, append_assoc, append-nil,
  Option, Bytes, length, is_empty,
}
use log_generator.SampleImport.{
  TokenizedLogTemplate, new_item, import_from, import_samples, import_file,
}

abbrev pub items_of : {A : Type 0} → List (TokenizedLogTemplate A) → List LogTemplate
items_of tokenized = map (λ t. t.item) tokenized

module _ {A : Type 0} (tokenize : LogTemplate → TokenizedLogTemplate A)
    (keeps_id : (item : LogTemplate) → (tokenize item).item.id ≡ item.id) where
  import_from-validates :
      (base source : Bytes) (index : ℕ) (assigned : List LogTemplate) (samples : List Bytes)
      (imported : List (TokenizedLogTemplate A))
      → validate_ids assigned ≡ ok tt
      → import_from tokenize base source index assigned samples ≡ ok imported
      → (validate_ids (assigned ++ items_of imported) ≡ ok tt) × (length imported ≡ length samples)
  unfolding import_from
  import_from-validates base source index assigned [] imported valid h =
      subst (λ r. (validate_ids (assigned ++ items_of r) ≡ ok tt) × (length r ≡ 0)) (ok-injective h)
        (rw append-nil valid, refl)
  import_from-validates base source index assigned (s ∷ samples) imported valid h =
      let (id, given, h₁) = >>=-eq-ok (next_id assigned) _ h in
      let t = tokenize (new_item base source index id s) in
      let (more, got, h₂) =
        >>=-eq-ok (import_from tokenize base source (index + 1) (assigned ++ t.item ∷ []) samples) _
          h₁ in
      let new = next_id-new assigned id given in
      let e = keeps_id (new_item base source index id s) in
      let grown = validate_ids-snoc assigned t.item valid (rw e new.0) (rw e new.2) in
      let rest =
        import_from-validates base source (index + 1) (assigned ++ t.item ∷ []) samples more grown
          got in
      subst
        (λ r. (validate_ids (assigned ++ items_of r) ≡ ok tt) × (length r ≡ suc (length samples)))
        (ok-injective h₂)
        (rw (append_assoc assigned (t.item ∷ []) (items_of more)) at rest.0, ap suc rest.1)

  import_samples-validates :
      (file : FilePath) (existing : List LogTemplate) (samples : List Bytes)
      (imported : List (TokenizedLogTemplate A))
      → is_empty samples ≡ false
      → import_samples tokenize file existing samples ≡ ok imported
      → (validate_ids (existing ++ items_of imported) ≡ ok tt) × (length imported ≡ length samples)
  unfolding import_samples
  import_samples-validates file existing [] imported filled h = cc filled
  import_samples-validates file existing (s ∷ samples) imported filled h =
      import_from-validates _ _ 0 existing (s ∷ samples) imported first_valid h
    where
      first_valid : validate_ids existing ≡ ok tt
      first_valid =
          let (id, given, _) = >>=-eq-ok (next_id existing) _ (unfold import_from in h) in
          next_id-validated existing id given

  -- If the tokenizer keeps the id of a template and a file is imported, the samples of the file were
  -- loaded, there is one imported template for each, and the catalog with the imported templates
  -- behind its own is valid: all ids are digits, and none stands twice.
  pub import_file-validates :
      (file : FilePath) (input : Option Bytes) (existing : List LogTemplate)
      (imported : List (TokenizedLogTemplate A))
      → import_file tokenize file input existing ≡ ok imported
      → (samples : List Bytes) × (load file input ≡ ok samples)
        × (length imported ≡ length samples)
        × (validate_ids (existing ++ items_of imported) ≡ ok tt)
  unfolding import_file
  import_file-validates file input existing imported h =
      let (samples, loaded, h₁) = >>=-eq-ok (load file input) _ h in
      let (_, _, h₂) = >>=-eq-ok (throw_if (is_empty samples) _) _ h₁ in
      let (valid, count) =
        import_samples-validates file existing samples imported
          (load-IsFilled file input samples loaded).0 h₂ in
      (samples, loaded, count, valid)
