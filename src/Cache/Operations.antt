-- ===== src/Cache/Operations.antt =====
-- The operations of src/application/log_preparation_cache.cpp that stand on `get_or_compile`. The
-- tokenizer, the compiler, and the binding of a compiled log are those of the renderer.
use log_generator.Cache.{LogPreparationCache, cache_key, insert_alias, get_or_compile}
use log_generator.Domain.{LogTemplate}
use log_generator.Prelude.{ℕ, List, [], ◌∷◌, Bytes, equal, if◌then◌else◌}

module _ {E : Type 0} (first : List (Bytes × E) → ℕ) (tokenize : LogTemplate → LogTemplate)
    (compile : LogTemplate → E) where
  -- The tokenized template with its entry, which is also kept under the key of the original.
  unfoldable pub tokenize_and_cache :
      LogTemplate → LogPreparationCache E → (LogTemplate × E) × LogPreparationCache E
  unfolding cache_key insert_alias get_or_compile
  tokenize_and_cache item c =
      let tokenized = tokenize item in
      let (entry, later) = get_or_compile first tokenize compile tokenized c in
      (
        (tokenized, entry),
        (if equal (cache_key item) (cache_key tokenized) then later else record later {
          entries = insert_alias first (cache_key item) entry later.entries;
        }),
      )

  unfoldable pub precompile : List LogTemplate → LogPreparationCache E → LogPreparationCache E
  unfolding get_or_compile
  precompile [] c = c
  precompile (item ∷ items) c = precompile items (get_or_compile first tokenize compile item c).1

  -- `bind` has the addresses and the offset of the configuration.
  unfoldable pub prepare_cached :
      {P : Type 0}
      → (E → P)
      → List LogTemplate
      → LogPreparationCache E
      → List P × LogPreparationCache E
  unfolding get_or_compile
  prepare_cached bind [] c = ([], c)
  prepare_cached bind (item ∷ items) c =
      let (entry, later) = get_or_compile first tokenize compile item c in
      let (logs, last) = prepare_cached bind items later in (bind entry ∷ logs, last)
