-- ===== src/Anonymizer/Order.antt =====
-- Where the values lie that `replace_sensitive_fields` of src/application/privacy_anonymizer.cpp finds,
-- and how many rounds its loop takes.
use log_generator.Anonymizer.{
  Replacement, FieldScan, no_field, ends_here, value_at, run_length, value_boundary,
  field_character, field_boundary, is_alpha, scan_value, scan_separator, scan_field, replacement_of,
  find_replacements,
}
use log_generator.Privacy.{classify_field, enum_value}
use log_generator.Prelude.Search.{byte_or, substr}
use log_generator.Prelude.{
  ℕ, zero, suc, ◌+◌, ◌≤◌, ◌<◌, min, max, ◌-◌, not, ◌&&◌, ◌||◌, List, [], ◌∷◌, ◌++◌, Bool, true,
  false, ltb, leb, Bytes, codes, length, length-drop, drop, contains, is_empty, arith, if-holds,
  ◌≡◌, refl, ap, ◌==◌, if◌then◌else◌,
}

-- Each value lies in the text and behind the end of the one in front.
abbrev pub AreOrdered : Bytes → ℕ → List Replacement → Type 0
AreOrdered input cursor [] = Unit
AreOrdered input cursor (r ∷ rs) =
    (cursor ≤ r.begin) × (r.begin ≤ r.end) × (r.end ≤ length input) × AreOrdered input r.end rs

-- A value that is found lies in the text, behind the candidate.
abbrev IsBehind : Bytes → ℕ → FieldScan → Type 0
IsBehind input candidate no_field = Unit
IsBehind input candidate ends_here = Unit
IsBehind input candidate (value_at begin end field_name) =
    (candidate < begin) × (begin ≤ end) × (end ≤ length input)

run_length-bound : (test : ℕ → Bool) (s : Bytes) → run_length test s ≤ length s
unfolding run_length
run_length-bound test [] = omega arith
run_length-bound test (c ∷ cs) =
    let rest = run_length-bound test cs in
    if-holds (λ n. n ≤ suc (length cs)) (test c) (λ _. omega (arith, rest)) (λ _. omega arith)

run_length-drop :
    (test : ℕ → Bool) (k : ℕ) (s : Bytes) → k ≤ length s → k + run_length test (drop k s) ≤ length s
run_length-drop test k s h = omega (arith, run_length-bound test (drop k s), length-drop k s)

scan_value-IsBehind :
    (input field_name : Bytes) (position candidate : ℕ)
    → candidate < position
    → IsBehind input candidate (scan_value input field_name position)
unfolding scan_value
scan_value-IsBehind input field_name position candidate h =
    let first = byte_or 0 position input in
    if-holds (IsBehind input candidate) (leb (length input) position) (λ _. tt)
      (λ early.
        if-holds (IsBehind input candidate) (first == 34 || first == 39)
          (λ _. (
            omega arith,
            omega arith,
            run_length-drop (λ c. not (c == first)) (position + 1) input (ground arith),
          ))
          (λ _. (
            h,
            omega arith,
            run_length-drop (λ c. not (value_boundary c)) position input (ground arith),
          )))

scan_separator-IsBehind :
    (input field_name : Bytes) (name_end candidate : ℕ)
    → candidate ≤ name_end
    → IsBehind input candidate (scan_separator input field_name name_end)
unfolding scan_separator
scan_separator-IsBehind input field_name name_end candidate h =
    let at_quote =
      ltb name_end (length input)
      && (byte_or 0 name_end input == 34 || byte_or 0 name_end input == 39) in
    let quote_end = if at_quote then name_end + 1 else name_end in
    let behind : candidate ≤ quote_end =
      if-holds (λ q. candidate ≤ q) at_quote (λ _. omega (arith, h)) (λ _. h) in
    let position = quote_end + run_length (λ c. c == b' ' || c == 9) (drop quote_end input) in
    let separator = byte_or 0 position input in
    if-holds (IsBehind input candidate)
      (leb (length input) position || not (separator == b':' || separator == b'=')) (λ _. tt)
      (λ _.
        scan_value-IsBehind input field_name
          (position + 1 + run_length (λ c. c == b' ') (drop (position + 1) input)) candidate
          (omega (arith, behind)))

scan_field-IsBehind :
    (input : Bytes) (candidate : ℕ) → IsBehind input candidate (scan_field input candidate)
unfolding scan_field
scan_field-IsBehind input candidate =
    let quoted = byte_or 0 candidate input == 34 || byte_or 0 candidate input == 39 in
    let begin = if quoted then candidate + 1 else candidate in
    let behind : candidate ≤ begin =
      if-holds (λ q. candidate ≤ q) quoted (λ _. omega arith) (λ _. omega arith) in
    let first = byte_or 0 begin input in
    let size = min 64 (run_length field_character (drop begin input)) in
    if-holds (IsBehind input candidate)
      (ltb 0 candidate && not (field_boundary (byte_or 0 (candidate - 1) input))) (λ _. tt)
      (λ _.
        if-holds (IsBehind input candidate)
          (leb (length input) begin || not (is_alpha first || first == b'_')) (λ _. tt)
          (λ _.
            if-holds (IsBehind input candidate)
              (ltb (begin + size) (length input)
                && field_character (byte_or 0 (begin + size) input))
              (λ _. tt)
              (λ _.
                scan_separator-IsBehind input (substr begin size input) (begin + size) candidate
                  (omega (arith, behind)))))

ltb-false : (a b : ℕ) → b ≤ a → ltb a b ≡ false
ltb-false a b h = ground arith

AreOrdered-earlier :
    (input : Bytes) (earlier cursor : ℕ) (rs : List Replacement)
    → earlier ≤ cursor
    → AreOrdered input cursor rs
    → AreOrdered input earlier rs
AreOrdered-earlier input earlier cursor [] h rest = tt
AreOrdered-earlier input earlier cursor (r ∷ rs) h rest =
    (omega (arith, rest.0), rest.1, rest.2, rest.3)

replacement_of-AreOrdered :
    (input field_name : Bytes) (cursor begin end : ℕ) (rs : List Replacement)
    → (cursor ≤ begin) × (begin ≤ end) × (end ≤ length input)
    → AreOrdered input end rs
    → AreOrdered input cursor (replacement_of input begin end field_name ++ rs)
unfolding replacement_of
replacement_of-AreOrdered input field_name cursor begin end rs h rest =
    let kind = classify_field field_name in
    let value = substr begin (end - begin) input in
    if-holds (λ front. AreOrdered input cursor (front ++ rs))
      (enum_value kind == 0
        || is_empty value
        || contains value (codes "{{")
        || contains value (codes "}}"))
      (λ _. AreOrdered-earlier input cursor end rs (omega (arith, h.0, h.1)) rest)
      (λ _. (h.0, h.1, h.2, rest))

-- A round of the loop, with the rest of the loop as an argument.
abbrev round : Bytes → ℕ → (ℕ → List Replacement) → FieldScan → List Replacement
round input candidate next s = elim s [
  | no_field ↦ next (candidate + 1)
  | ends_here ↦ []
  | value_at begin end field_name ↦
      replacement_of input begin end field_name ++ next (max end (candidate + 1))
]

abbrev guarded : Bool → List Replacement → List Replacement
guarded b rs = elim b [ false ↦ [] | true ↦ rs ]

round-AreOrdered :
    (input : Bytes) (candidate cursor : ℕ) (next : ℕ → List Replacement) (s : FieldScan)
    → cursor ≤ candidate
    → IsBehind input candidate s
    → ((place bound : ℕ) → bound ≤ place → AreOrdered input bound (next place))
    → AreOrdered input cursor (round input candidate next s)
round-AreOrdered input candidate cursor next no_field h b ordered =
    ordered (candidate + 1) cursor (omega (arith, h))
round-AreOrdered input candidate cursor next ends_here h b ordered = tt
round-AreOrdered input candidate cursor next (value_at begin end field_name) h b ordered =
    replacement_of-AreOrdered input field_name cursor begin end (next (max end (candidate + 1)))
      (omega (arith, h, b.0), b.1, b.2) (ordered (max end (candidate + 1)) end (omega arith))

find_replacements-behind :
    (fuel : ℕ) (input : Bytes) (candidate cursor : ℕ)
    → cursor ≤ candidate
    → AreOrdered input cursor (find_replacements fuel input candidate)
unfolding find_replacements
find_replacements-behind zero input candidate cursor h = tt
find_replacements-behind (suc fuel) input candidate cursor h =
    let next : ℕ → List Replacement = find_replacements fuel input in
    let s = scan_field input candidate in
    elim (ltb candidate (length input))
      as (λ b. AreOrdered input cursor (guarded b (round input candidate next s))) [
        | false ↦ tt
        | true ↦
            round-AreOrdered input candidate cursor next s h (scan_field-IsBehind input candidate)
              (λ place bound behind. find_replacements-behind fuel input place bound behind)
      ]

round-same :
    (input : Bytes) (candidate : ℕ) (next other : ℕ → List Replacement) (s : FieldScan)
    → ((place : ℕ) → candidate < place → next place ≡ other place)
    → round input candidate next s ≡ round input candidate other s
round-same input candidate next other no_field same = same (candidate + 1) (omega arith)
round-same input candidate next other ends_here same = refl
round-same input candidate next other (value_at begin end field_name) same =
    ap (λ rs. replacement_of input begin end field_name ++ rs)
      (same (max end (candidate + 1)) (omega arith))

find_replacements-same :
    (n m : ℕ) (input : Bytes) (candidate : ℕ)
    → length input ≤ n + candidate
    → length input ≤ m + candidate
    → find_replacements n input candidate ≡ find_replacements m input candidate
unfolding find_replacements
find_replacements-same zero zero input candidate h k = refl
find_replacements-same zero (suc m) input candidate h k =
    rw (find_replacements, ltb-false candidate (length input) (omega (arith, h)))
find_replacements-same (suc n) zero input candidate h k =
    rw (find_replacements, ltb-false candidate (length input) (omega (arith, k)))
find_replacements-same (suc n) (suc m) input candidate h k =
    ap (guarded (ltb candidate (length input))) (
      round-same input candidate (find_replacements n input) (find_replacements m input)
        (scan_field input candidate)
        (λ place further.
          find_replacements-same n m input place (omega (arith, h, further))
            (omega (arith, k, further))))

-- The values that are found in a text lie in it, each behind the end of the one in front, so that
-- none of them is skipped, and the loop over the candidates needs no more rounds than the text has
-- bytes: with any larger bound it finds the same.
pub find_replacements-AreOrdered :
    (n : ℕ) (input : Bytes)
    → length input ≤ n
    → (find_replacements n input 0 ≡ find_replacements (length input) input 0)
      × AreOrdered input 0 (find_replacements n input 0)
find_replacements-AreOrdered n input h = (
  find_replacements-same n (length input) input 0 (omega (arith, h)) (omega arith),
  find_replacements-behind n input 0 0 (omega arith),
)
