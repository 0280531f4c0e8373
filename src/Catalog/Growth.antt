-- ===== src/Catalog/Growth.antt =====
-- A catalog that grows by new samples.
use log_generator.Catalog.{
  valid_sample_id, member, validate_from, validate_ids, maximum_id, next_id,
}
use log_generator.Domain.{LogTemplate}
use log_generator.Prelude.Decimal.{parse_u64, pad4, value_onto, value_onto-pad4}
use log_generator.Prelude.Result.{ok, >>=-eq-ok, throw_if, throw_if-eq-ok}
use log_generator.Prelude.Words.{u64_mod}
use log_generator.Prelude.{
  ℕ, ◌+◌, ◌-◌, ◌≤◌, ◌<◌, max, ◌≡◌, ◌≢◌, refl, sym, true, false, not, List, [], ◌∷◌, ◌++◌, some,
  Bytes, equal, equal_iff, All, arith, ◌==◌, Bool-cases, inl, inr,
}

equal-ne : (a b : Bytes) → a ≢ b → equal b a ≡ false
equal-ne a b n = elim (Bool-cases (equal b a)) [
  | inl same ↦ absurd (n (sym ((equal_iff b a).0 same)))
  | inr differ ↦ differ
]

validate_from-snoc :
    (seen : List Bytes) (items : List LogTemplate) (item : LogTemplate)
    → validate_from seen items ≡ ok tt
    → valid_sample_id item.id ≡ true
    → member item.id seen ≡ false
    → All (λ i. i.id ≢ item.id) items
    → validate_from seen (items ++ item ∷ []) ≡ ok tt
unfolding validate_from
validate_from-snoc seen [] item h valid fresh new = rw (valid, fresh) refl
validate_from-snoc seen (x ∷ xs) item h valid fresh new =
    let (_, valid_x, h₁) = >>=-eq-ok (throw_if (not (valid_sample_id x.id)) _) _ h in
    let (_, fresh_x, h₂) = >>=-eq-ok (throw_if (member x.id seen) _) _ h₁ in
    let rest =
      validate_from-snoc (x.id ∷ seen) xs item h₂ valid
        (unfold member in rw (equal-ne x.id item.id new.0) fresh) new.1 in
    rw
      (
        throw_if-eq-ok (not (valid_sample_id x.id)) _ valid_x,
        throw_if-eq-ok (member x.id seen) _ fresh_x,
      )
      rest

-- A valid id that no sample has keeps the catalog valid.
pub validate_ids-snoc :
    (items : List LogTemplate) (item : LogTemplate)
    → validate_ids items ≡ ok tt
    → valid_sample_id item.id ≡ true
    → All (λ i. i.id ≢ item.id) items
    → validate_ids (items ++ item ∷ []) ≡ ok tt
unfolding validate_ids
validate_ids-snoc items item h valid new =
    validate_from-snoc [] items item h valid (unfold member in refl) new

-- An id is given only where the catalog is valid.
pub next_id-validated :
    (items : List LogTemplate) (id : Bytes) → next_id items ≡ ok id → validate_ids items ≡ ok tt
unfolding next_id
next_id-validated items id h = let (_, valid, _) = >>=-eq-ok (validate_ids items) _ h in valid

-- Every id is valid, and at most `n` as a number.
abbrev pub UpTo : ℕ → List LogTemplate → Type 0
UpTo n = All (λ item. (valid_sample_id item.id ≡ true) × (value_onto 0 item.id ≤ n))

parse_u64-valid :
    (id : Bytes)
    → valid_sample_id id ≡ true
    → value_onto 0 id < u64_mod
    → parse_u64 id ≡ some (value_onto 0 id)
unfolding parse_u64 valid_sample_id
parse_u64-valid id h l = ground arith

maximum_id-UpTo :
    (n : ℕ) (items : List LogTemplate) (m : ℕ)
    → n < u64_mod
    → UpTo n items
    → m ≤ n
    → (r : ℕ) × (maximum_id m items ≡ ok r) × (r ≤ n)
unfolding maximum_id
maximum_id-UpTo n [] m b h l = (m, refl, l)
maximum_id-UpTo n (x ∷ xs) m b h l =
    rw (parse_u64-valid x.id h.0.0 (omega arith), maximum_id)
      (maximum_id-UpTo n xs (max m (value_onto 0 x.id)) b h.1 (omega arith))

-- A valid catalog of ids up to `n`, which is below the greatest number of 64 bits, has a next id,
-- and this is at most `n + 1`.
pub next_id-UpTo :
    (n : ℕ) (items : List LogTemplate)
    → n + 1 < u64_mod
    → UpTo n items
    → validate_ids items ≡ ok tt
    → (id : Bytes) × (next_id items ≡ ok id) × (value_onto 0 id ≤ n + 1)
unfolding next_id
next_id-UpTo n items b h valid =
    let (m, found, l) = maximum_id-UpTo n items 0 (omega arith) h (omega arith) in
    let room : (m == u64_mod - 1) ≡ false = ground arith in
    rw (valid, found, room) (pad4 (m + 1), refl, omega (arith, value_onto-pad4 (m + 1)))
