-- ===== src/Catalog/Ids.antt =====
-- The ids that the catalog accepts and gives.
use log_generator.Catalog.{valid_sample_id, validate_ids, maximum_id, next_id}
use log_generator.Domain.{LogTemplate}
use log_generator.Prelude.Decimal.{
  parse_u64, pad4, value_onto, value_onto-pad4, pad4-Digits, length-pad4, all_digits-Digits,
}
use log_generator.Prelude.Result.{
  ok-injective, Result, ok, throws, overflow_error, >>=-eq-ok, throw_if,
}
use log_generator.Prelude.Words.{u64_mod}
use log_generator.Prelude.{
  ℕ, ◌+◌, ◌-◌, ◌≤◌, max, ◌≡◌, ◌≢◌, refl, ap, true, false, List, [], ◌∷◌, Option, none, some, All,
  Bytes, length, is_empty, arith, subst, ◌==◌, codes, ◌++◌,
}

parse_u64-some : (t : Bytes) (v : ℕ) → parse_u64 t ≡ some v → v ≡ value_onto 0 t
unfolding parse_u64
parse_u64-some t v h = ground arith

maximum_id-bounds :
    (m : ℕ) (items : List LogTemplate) (r : ℕ)
    → maximum_id m items ≡ ok r
    → (m ≤ r) × All (λ item. value_onto 0 item.id ≤ r) items
unfolding maximum_id
maximum_id-bounds m [] r h = (ground arith, tt)
maximum_id-bounds m (item ∷ items) r h =
    by_value (parse_u64 item.id) refl (λ v. maximum_id-bounds (max m v) items r) h
  where
    by_value :
        (o : Option ℕ)
        → parse_u64 item.id ≡ o
        → ((v : ℕ)
            → maximum_id (max m v) items ≡ ok r
            → (max m v ≤ r) × All (λ i. value_onto 0 i.id ≤ r) items)
        → (elim o as (λ _. Result ℕ) [
          | none ↦
              throws (overflow_error (codes "Sample id is too large: '" ++ (item.id ++ codes "'")))
          | some value ↦ maximum_id (max m value) items
        ])
          ≡ ok r
        → (m ≤ r) × All (λ i. value_onto 0 i.id ≤ r) (item ∷ items)
    by_value none e rest k = cc
    by_value (some v) e rest k =
        let (low, all) = rest v k in (omega arith, (omega (arith, parse_u64-some item.id v e), all))

valid-pad4 : (n : ℕ) → valid_sample_id (pad4 n) ≡ true
unfolding valid_sample_id
valid-pad4 n =
    ground (arith, all_digits-Digits (pad4 n) (pad4-Digits n), some_digits (pad4 n) (length-pad4 n))
  where
    some_digits : (ds : Bytes) → 4 ≤ length ds → is_empty ds ≡ false
    some_digits [] h = absurd (omega arith)
    some_digits (d ∷ ds) h = refl

smaller_differ :
    (n : ℕ) (items : List LogTemplate)
    → All (λ item. value_onto 0 item.id ≤ n) items
    → All (λ item. item.id ≢ pad4 (n + 1)) items
smaller_differ n [] h = tt
smaller_differ n (item ∷ items) h = (
  λ e. absurd (omega (arith, h.0, ap (value_onto 0) e, value_onto-pad4 (n + 1))),
  smaller_differ n items h.1,
)

-- If a new id is given, it is a valid id of four digits at least, and no sample of the catalog has it.
pub next_id-new :
    (items : List LogTemplate) (id : Bytes)
    → next_id items ≡ ok id
    → (valid_sample_id id ≡ true) × (4 ≤ length id) × All (λ item. item.id ≢ id) items
unfolding next_id
next_id-new items id h =
    let (_, _, h₁) = >>=-eq-ok (validate_ids items) _ h in
    let (m, found, h₂) = >>=-eq-ok (maximum_id 0 items) _ h₁ in
    let (_, _, h₃) =
      >>=-eq-ok
        (throw_if (m == u64_mod - 1)
          (overflow_error (codes "No numeric sample id remains available")))
        _ h₂ in
    subst (λ i. (valid_sample_id i ≡ true) × (4 ≤ length i) × All (λ item. item.id ≢ i) items)
      (ok-injective h₃)
      (
        valid-pad4 (m + 1),
        length-pad4 (m + 1),
        smaller_differ m items (maximum_id-bounds 0 items m found).1,
      )
