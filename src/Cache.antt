-- ===== src/Cache.antt =====
-- src/application/log_preparation_cache.cpp: `LogPreparationCache`, from the text of a template to
-- its compiled form. The map is a list without order; which entry `entries_.begin()` is, nothing
-- says, so its place is an argument, as are the tokenizer and the compiler of the renderer. The
-- functions of `get_or_compile` run one after another; what another caller does in between is in the
-- argument of `publish`.
pub mod Entries
pub mod Keys
pub mod Operations
use log_generator.Domain.{LogTemplate}
use log_generator.Prelude.Decimal.{to_string}
use log_generator.Prelude.{
  ℕ, zero, suc, ◌+◌, ◌%◌, Bool, true, false, not, ◌&&◌, List, [], ◌∷◌, ◌++◌, Option, none, some,
  leb, Bytes, equal, length, if◌then◌else◌,
}

append_key_component : Bytes → Bytes → Bytes
unfolding to_string
append_key_component key value =
    (((key ++ to_string (length value)) ++ b':' ∷ []) ++ value) ++ b'|' ∷ []

append_values : Bytes → List Bytes → Bytes
append_values key [] = key
append_values key (value ∷ values) = append_values (append_key_component key value) values

append_tokens : Bytes → List (Bytes × List Bytes) → Bytes
append_tokens key [] = key
append_tokens key ((token, values) ∷ rest) =
    append_tokens (append_values (append_key_component key token) values) rest

unfoldable pub cache_key : LogTemplate → Bytes
unfolding append_tokens append_values append_key_component
cache_key item = append_tokens (append_key_component [] item.sample) item.test_case

abbrev pub maximum_entries : ℕ
maximum_entries = 512

pub record LogPreparationCache (E : Type 0) : Type 0 where
  pub entries : List (Bytes × E)
  pub compilation_count : ℕ

module _ {E : Type 0} where
  -- `entries_.find(key)`.
  unfoldable pub find : Bytes → List (Bytes × E) → Option E
  find key [] = none
  find key ((k, entry) ∷ rest) =
      let later = find key rest in if equal key k then some entry else later

  unfoldable pub has_key : Bytes → List (Bytes × E) → Bool
  has_key key [] = false
  has_key key ((k, entry) ∷ rest) =
      let later = has_key key rest in if equal key k then true else later

  unfoldable pub insert_or_assign : Bytes → E → List (Bytes × E) → List (Bytes × E)
  insert_or_assign key entry [] = (key, entry) ∷ []
  insert_or_assign key entry ((k, old) ∷ rest) =
      let later = (k, old) ∷ insert_or_assign key entry rest in
      if equal key k then (k, entry) ∷ rest else later

  unfoldable pub remove_at : ℕ → List (Bytes × E) → List (Bytes × E)
  remove_at n [] = []
  remove_at zero (e ∷ rest) = rest
  remove_at (suc n) (e ∷ rest) = e ∷ remove_at n rest

  module _ (first : List (Bytes × E) → ℕ) where
    -- `if (size >= maximum_entries && !contains(key)) erase(begin()); insert_or_assign(key, entry);`.
    unfoldable pub insert_alias : Bytes → E → List (Bytes × E) → List (Bytes × E)
    insert_alias key entry entries = insert_or_assign key entry (
        if leb maximum_entries (length entries) && not (has_key key entries)
        then remove_at (first entries % length entries) entries
        else entries)

    module _ (tokenize : LogTemplate → LogTemplate) (compile : LogTemplate → E) where
      -- Under the lock a caller that was faster is looked for once more. Its entry goes in under the
      -- original key, and a new one under both keys.
      publish_unless :
          Option E → Bytes → Bytes → E → LogPreparationCache E → E × LogPreparationCache E
      publish_unless (some found) original_key tokenized_key entry c =
          (found, record c { entries = insert_or_assign original_key found c.entries })
      publish_unless none original_key tokenized_key entry c =
          let stored = insert_alias tokenized_key entry c.entries in
          (
            entry,
            record {
              entries =
                  if equal original_key tokenized_key
                  then stored
                  else insert_alias original_key entry stored;
              compilation_count = c.compilation_count + 1;
            },
          )

      unfoldable pub publish : Bytes → Bytes → E → LogPreparationCache E → E × LogPreparationCache E
      unfolding publish_unless
      publish original_key tokenized_key entry c =
          publish_unless (find tokenized_key c.entries) original_key tokenized_key entry c

      by_tokenized :
          Bytes → Bytes → LogTemplate → Option E → LogPreparationCache E → E × LogPreparationCache E
      by_tokenized original_key tokenized_key tokenized (some cached) c =
          (cached, record c { entries = insert_alias original_key cached c.entries })
      by_tokenized original_key tokenized_key tokenized none c =
          publish original_key tokenized_key (compile tokenized) c

      by_original : LogTemplate → Option E → LogPreparationCache E → E × LogPreparationCache E
      unfolding by_tokenized
      by_original item (some cached) c = (cached, c)
      by_original item none c =
          let tokenized = tokenize item in
          by_tokenized (cache_key item) (cache_key tokenized) tokenized
            (find (cache_key tokenized) c.entries) c

      unfoldable pub get_or_compile :
          LogTemplate → LogPreparationCache E → E × LogPreparationCache E
      unfolding by_original
      get_or_compile item c = by_original item (find (cache_key item) c.entries) c
