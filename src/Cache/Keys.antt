-- ===== src/Cache/Keys.antt =====
-- What a key tells of a template.
use log_generator.Cache.{cache_key, append_tokens, append_values, append_key_component}
use log_generator.Domain.{LogTemplate}
use log_generator.Prelude.{◌≡◌, refl, ap, List, [], ◌∷◌, ◌++◌, Bytes}

append_values-append :
    (key other : Bytes) (values more : List Bytes)
    → append_values key (values ++ (other ∷ more))
      ≡ append_values (append_key_component (append_values key values) other) more
unfolding append_values
append_values-append key other [] more = refl
append_values-append key other (value ∷ values) more =
    append_values-append (append_key_component key value) other values more

-- Two different test cases of one template have the same key: one in which a token has the values
-- `values`, `other` and `more`, and one in which it has `values` only and the next token is `other`
-- with the values `more`. The key does not tell a value from a token.
pub cache_key-ambiguous :
    (item : LogTemplate) (token other : Bytes) (values more : List Bytes)
    (rest : List (Bytes × List Bytes))
    → cache_key (record item { test_case = (token, values ++ (other ∷ more)) ∷ rest })
      ≡ cache_key (record item { test_case = (token, values) ∷ (other, more) ∷ rest })
unfolding cache_key append_tokens
cache_key-ambiguous item token other values more rest =
    ap (λ key. append_tokens key rest) (append_values-append _ other values more)
