-- ===== src/Catalog/Files.antt =====
-- Loading and saving a catalog through the service, src/application/log_catalog_service.cpp. The
-- file itself, read or written by src/infrastructure/json_log_catalog.cpp, is an argument.
use log_generator.Cache.{LogPreparationCache}
use log_generator.Cache.Operations.{tokenize_and_cache}
use log_generator.Catalog.{valid_sample_id, member, validate_from, validate_ids}
use log_generator.Domain.{LogTemplate}
use log_generator.Prelude.Result.{
  Result, ok, ◌>>=◌, ◌>>◌, invalid_argument, >>=-eq-ok, ok-injective, throw_if,
}
use log_generator.Prelude.{ℕ, ◌≡◌, refl, ap, sym, ◌∙◌, List, [], ◌∷◌, ◌++◌, Bytes, not, codes}

-- The checks of one id, and what follows them.
abbrev checked : List Bytes → Bytes → Result (Unit {0}) → Result (Unit {0})
checked seen id rest = do
  throw_if (not (valid_sample_id id))
      (invalid_argument (codes "Sample id must contain only digits: '" ++ (id ++ codes "'")))
  throw_if (member id seen) (invalid_argument (codes "Duplicate sample id: '" ++ (id ++ codes "'")))
  rest

-- Only the ids of the items matter.
validate_from-cons :
    (seen : List Bytes) (x y : LogTemplate) (xs ys : List LogTemplate)
    → x.id ≡ y.id
    → validate_from (y.id ∷ seen) xs ≡ validate_from (y.id ∷ seen) ys
    → validate_from seen (x ∷ xs) ≡ validate_from seen (y ∷ ys)
unfolding validate_from
validate_from-cons seen x y xs ys e h =
    (λ i. checked seen (e i) (validate_from (e i ∷ seen) xs)) ∙ ap (checked seen y.id) h

module _ {E : Type 0} (first : List (Bytes × E) → ℕ) (tokenize : LogTemplate → LogTemplate)
    (compile : LogTemplate → E) where
  -- The loop that tokenizes every item.
  unfoldable pub tokenize_items :
      List LogTemplate → LogPreparationCache E → List LogTemplate × LogPreparationCache E
  unfolding tokenize_and_cache
  tokenize_items [] c = ([], c)
  tokenize_items (item ∷ items) c =
      let ((tokenized, _), later) = tokenize_and_cache first tokenize compile item c in
      let (rest, last) = tokenize_items items later in (tokenized ∷ rest, last)

  -- `stored` is what the file gives.
  unfoldable pub load_catalog :
      Result (List LogTemplate)
      → LogPreparationCache E
      → Result (List LogTemplate × LogPreparationCache E)
  unfolding validate_ids tokenize_items
  load_catalog stored c = do items ← stored; validate_ids items; ok (tokenize_items items c)

  -- `write` is what the file makes of the sanitized items.
  unfoldable pub save_catalog :
      (List LogTemplate → Result (Unit {0}))
      → List LogTemplate
      → LogPreparationCache E
      → Result (LogPreparationCache E)
  unfolding validate_ids tokenize_items
  save_catalog write items c = do
    validate_ids items
    let (sanitized, later) = tokenize_items items c
    write sanitized
    ok later

  unfoldable pub analyze_cached : LogTemplate → LogPreparationCache E → E × LogPreparationCache E
  unfolding tokenize_and_cache
  analyze_cached item c =
      let ((_, entry), later) = tokenize_and_cache first tokenize compile item c in (entry, later)

  module _ (keeps_id : (item : LogTemplate) → (tokenize item).id ≡ item.id) where
    validate_from-tokenize_items :
        (seen : List Bytes) (items : List LogTemplate) (c : LogPreparationCache E)
        → validate_from seen (tokenize_items items c).0 ≡ validate_from seen items
    unfolding validate_from tokenize_items
    validate_from-tokenize_items seen [] c = refl
    validate_from-tokenize_items seen (item ∷ items) c =
        validate_from-cons seen (tokenize item) item
          (tokenize_items items (tokenize_and_cache first tokenize compile item c).1).0 items
          (keeps_id item)
          (validate_from-tokenize_items (item.id ∷ seen) items
            (tokenize_and_cache first tokenize compile item c).1)

    -- Where the tokenizer keeps the ids, a loaded catalog has valid ids.
    pub load_catalog-valid :
        (stored : Result (List LogTemplate)) (c : LogPreparationCache E) (items : List LogTemplate)
        (later : LogPreparationCache E)
        → load_catalog stored c ≡ ok (items, later)
        → validate_ids items ≡ ok tt
    unfolding load_catalog validate_ids
    load_catalog-valid stored c items later h =
        let (read, _, h₁) = >>=-eq-ok stored _ h in
        let (_, valid, h₂) = >>=-eq-ok (validate_ids read) _ h₁ in
        ap (λ r. validate_from [] r.0) (sym (ok-injective h₂))
        ∙ validate_from-tokenize_items [] read c
        ∙ valid
