-- ===== src/Catalog.antt =====
-- src/application/log_catalog_service.cpp and src/domain/sample_id.hpp: the ids of the samples in a
-- catalog. The set of ids seen so far is a list.
pub mod Ids
pub mod Growth
pub mod Files
use log_generator.Domain.{LogTemplate}
use log_generator.Prelude.Decimal.{parse_u64, pad4, all_digits}
use log_generator.Prelude.Result.{
  Result, ok, throws, invalid_argument, overflow_error, ◌>>=◌, ◌>>◌, throw_if,
}
use log_generator.Privacy.{PrivacyTokenKind, privacy_token_kinds, privacy_token_bit, search_terms}
use log_generator.Prelude.Words.{u64_mod}
use log_generator.Prelude.{
  ℕ, ◌/◌, ◌%◌, ◌+◌, ◌-◌, ◌^◌, max, Bool, true, false, not, ◌&&◌, ◌||◌, List, [], ◌∷◌, ◌++◌, Option,
  none, some, ◌==◌, Bytes, codes, equal, is_empty, if◌then◌else◌,
}
use log_generator.Privacy.{PrivacyTokenKind, privacy_token_kinds, privacy_token_bit, search_terms}

unfoldable pub valid_sample_id : Bytes → Bool
unfolding all_digits
valid_sample_id value = not (is_empty value) && all_digits value

unfoldable pub member : Bytes → List Bytes → Bool
member id [] = false
member id (x ∷ xs) = equal id x || member id xs

validate_from : List Bytes → List LogTemplate → Result (Unit {0})
unfolding valid_sample_id member
validate_from identifiers [] = ok tt
validate_from identifiers (item ∷ items) = do
  throw_if (not (valid_sample_id item.id))
      (invalid_argument (codes "Sample id must contain only digits: '" ++ (item.id ++ codes "'")))
  throw_if (member item.id identifiers)
      (invalid_argument (codes "Duplicate sample id: '" ++ (item.id ++ codes "'")))
  validate_from (item.id ∷ identifiers) items

unfoldable pub validate_ids : List LogTemplate → Result (Unit {0})
unfolding validate_from
validate_ids items = validate_from [] items

-- The greatest id, as a number.
maximum_id : ℕ → List LogTemplate → Result ℕ
maximum_id maximum [] = ok maximum
maximum_id maximum (item ∷ items) = elim (parse_u64 item.id) [
  | none ↦ throws (overflow_error (codes "Sample id is too large: '" ++ (item.id ++ codes "'")))
  | some value ↦ maximum_id (max maximum value) items
]

unfoldable pub next_id : List LogTemplate → Result Bytes
unfolding maximum_id
next_id items = do
  validate_ids items
  maximum ← maximum_id 0 items
  throw_if (maximum == u64_mod - 1)
      (overflow_error (codes "No numeric sample id remains available"))
  ok (pad4 (maximum + 1))

-- The search terms of the kinds whose bit is set in the mask.
terms_of : ℕ → Bytes → List PrivacyTokenKind → Bytes
terms_of mask result [] = result
terms_of mask result (kind ∷ kinds) =
    let longer = (result ++ (if is_empty result then [] else b' ' ∷ [])) ++ search_terms kind in
    let skipped = terms_of mask result kinds in
    let taken = terms_of mask longer kinds in
    if mask / privacy_token_bit kind % 2 == 0 then skipped else taken

unfoldable pub privacy_search_terms : ℕ → Bytes
unfolding terms_of privacy_token_bit search_terms
privacy_search_terms mask = terms_of mask [] privacy_token_kinds
