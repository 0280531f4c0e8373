-- ===== src/Renderer/TestCase.antt =====
-- `expand_test_case` of src/application/log_renderer.cpp: the values of a test case in the place of
-- their tokens. `sanitize` of the anonymizer is an argument.
use log_generator.Domain.{LogTemplate}
use log_generator.Prelude.Result.{
  Result, ok, throws, out_of_range, invalid_argument, ◌>>=◌, ◌>>◌, throw_if,
}
use log_generator.Prelude.Search.{find_from, occurrences}
use log_generator.Prelude.{
  ℕ, ◌+◌, Bool, true, not, ◌&&◌, ◌||◌, List, [], ◌∷◌, ◌++◌, none, some, ◌==◌, leb, Bytes, codes,
  length, drop, take, is_empty,
}

-- `count_occurrences`.
abbrev pub count_occurrences : Bytes → Bytes → ℕ
count_occurrences input text = length (occurrences text 0 0 input)

unfoldable pub valid_token : Bytes → Bool
valid_token [] = true
valid_token (c ∷ cs) = (leb b'A' c && leb c b'Z' || c == b'_') && valid_token cs

-- The loop over the values of a token, with `sanitize` of the anonymizer.
unfoldable pub replace_values : (Bytes → Bytes) → Bytes → ℕ → Bytes → List Bytes → Result Bytes
unfolding find_from
replace_values sanitize text search_position result [] = ok result
replace_values sanitize text search_position result (value ∷ values) =
    elim (find_from text search_position result) [
      | none ↦ throws (out_of_range (codes "basic_string::replace"))
      | some position ↦
          replace_values sanitize text (position + length (sanitize value))
            (take position result ++ (sanitize value ++ drop (position + length text) result))
            values
    ]

abbrev pub token_marker : Bytes → Bytes
token_marker token = codes "{{" ++ (token ++ codes "}}")

unfoldable pub expand_tokens :
    (Bytes → Bytes) → Bytes → Bytes → List (Bytes × List Bytes) → Result Bytes
unfolding valid_token occurrences replace_values
expand_tokens sanitize id result [] = ok result
expand_tokens sanitize id result ((token, values) ∷ more) = do
  throw_if (is_empty token || not (valid_token token)) (
      invalid_argument
        (codes "Log test case '" ++ (id ++ codes "' contains an invalid token name")))
  throw_if (not (count_occurrences result (token_marker token) == length values)) (
      invalid_argument (
        codes "Log test case '"
        ++ (id
            ++ (codes "' value count does not match "
                ++ (token_marker token ++ codes " occurrences")))))
  replaced ← replace_values sanitize (token_marker token) 0 result values
  expand_tokens sanitize id replaced more

unfoldable pub expand_test_case : (Bytes → Bytes) → LogTemplate → Result Bytes
unfolding expand_tokens
expand_test_case sanitize item = expand_tokens sanitize item.id item.sample item.test_case
