-- ===== src/Anonymizer.antt =====
-- `PrivacyAnonymizer::sanitize` of src/application/privacy_anonymizer.cpp: private values give way to
-- markers, by the names of their fields and by their form. What `std::regex` matches is an argument.
pub mod Order
use log_generator.Prelude.Search.{substr, byte_or}
use log_generator.Prelude.{
  ℕ, zero, suc, ◌+◌, ◌-◌, min, max, Bool, true, false, not, ◌&&◌, ◌||◌, List, [], ◌∷◌, ◌++◌, none,
  some, ◌==◌, ltb, leb, Bytes, codes, length, drop, contains, is_empty, is_digit, if◌then◌else◌,
}
use log_generator.Privacy.{
  PrivacyTokenKind, email, phone, identifier, mac_address, enum_value, marker, classify_field,
  replace_ascii_case_insensitive, escape_unsupported_controls,
}
use log_generator.Renderer.Candidates.{group_of}
use log_generator.Renderer.Patterns.{Regex, Matcher, Group}

unfoldable pub legacy_store_code_pattern : Regex
legacy_store_code_pattern = record {
  text =
      codes
        "((?:\\b(?:store_code|branch_code|shop_code|site_num|site_code|site_cd|str_cd|bizpl_cd))\\s*[:=]\\s*[\"']?)\\{\\{STORE\\}\\}";
  icase = true;
}

unfoldable pub partial_mac_marker_pattern : Regex
partial_mac_marker_pattern = record {
  text = codes "(^|[^0-9A-Za-z_])(?:[0-9A-Fa-f]{2}:)+[\"']?\\{\\{MAC_ADDRESS\\}\\}";
  icase = false;
}

unfoldable pub email_pattern : Regex
email_pattern = record {
  text = codes "\\b[A-Za-z0-9.!#$%&'*+/=?^_`{|}~-]+@[A-Za-z0-9-]+(?:\\.[A-Za-z0-9-]+)+\\b";
  icase = false;
}

unfoldable pub phone_pattern : Regex
phone_pattern = record {
  text = codes "(?:\\+82[- ]?0?1[016789]|\\b01[016789])[- ]?\\d{3,4}[- ]?\\d{4}\\b";
  icase = false;
}

unfoldable pub resident_pattern : Regex
resident_pattern = record { text = codes "\\b\\d{6}[- ]?[1-8]\\d{6}\\b"; icase = false }

unfoldable pub mac_pattern : Regex
mac_pattern = record { text = codes "\\b(?:[0-9A-Fa-f]{2}[:-]){5}[0-9A-Fa-f]{2}\\b"; icase = false }

unfoldable pub user_path_pattern : Regex
user_path_pattern = record { text = codes "(\\b[A-Za-z]:\\\\Users\\\\)[^\\\\\\s]+"; icase = true }

unfoldable pub is_space : ℕ → Bool
is_space c = c == b' ' || leb 9 c && leb c 13

unfoldable pub is_alpha : ℕ → Bool
is_alpha c = leb b'A' c && leb c b'Z' || leb b'a' c && leb c b'z'

abbrev is_quote : ℕ → Bool
is_quote c = c == 34 || c == 39

unfoldable pub field_character : ℕ → Bool
unfolding is_alpha is_digit
field_character c = is_alpha c || is_digit c || c == b'_' || c == b'.' || c == b'-'

unfoldable pub field_boundary : ℕ → Bool
unfolding is_space
field_boundary c = is_space c || c == b',' || c == b';' || c == b'|' || c == b'{'

unfoldable pub value_boundary : ℕ → Bool
unfolding is_space
value_boundary c = is_space c || c == b',' || c == b';' || c == b'|' || c == b'}' || c == b']'

-- How many bytes in front pass.
unfoldable pub run_length : (ℕ → Bool) → Bytes → ℕ
run_length test [] = 0
run_length test (c ∷ cs) = let more = suc (run_length test cs) in if test c then more else 0

pub record Replacement : Type 0 where
  pub begin : ℕ
  pub end : ℕ
  pub kind : PrivacyTokenKind

-- What a round finds: no field here, the end of the text, or a value, and where to go on.
pub data FieldScan : Type 0 where
  no_field : FieldScan
  ends_here : FieldScan
  value_at : ℕ → ℕ → Bytes → FieldScan

-- Behind the `:` or `=` of the field.
unfoldable pub scan_value : Bytes → Bytes → ℕ → FieldScan
unfolding run_length value_boundary
scan_value input field_name position =
    let first = byte_or 0 position input in
    let quoted = position + 1 + run_length (λ c. not (c == first)) (drop (position + 1) input) in
    let plain = position + run_length (λ c. not (value_boundary c)) (drop position input) in
    if leb (length input) position
    then ends_here
    else if is_quote first
    then value_at (position + 1) quoted field_name
    else value_at position plain field_name

-- Behind the name of the field.
unfoldable pub scan_separator : Bytes → Bytes → ℕ → FieldScan
unfolding run_length scan_value
scan_separator input field_name name_end =
    let quote_end =
      if ltb name_end (length input) && is_quote (byte_or 0 name_end input)
      then name_end + 1
      else name_end in
    let position = quote_end + run_length (λ c. c == b' ' || c == 9) (drop quote_end input) in
    let separator = byte_or 0 position input in
    if leb (length input) position || not (separator == b':' || separator == b'=')
    then no_field
    else scan_value input field_name
        (position + 1 + run_length (λ c. c == b' ') (drop (position + 1) input))

unfoldable pub scan_field : Bytes → ℕ → FieldScan
unfolding run_length scan_separator field_character field_boundary is_alpha
scan_field input candidate =
    let begin = if is_quote (byte_or 0 candidate input) then candidate + 1 else candidate in
    let first = byte_or 0 begin input in
    let size = min 64 (run_length field_character (drop begin input)) in
    if ltb 0 candidate && not (field_boundary (byte_or 0 (candidate - 1) input))
    then no_field
    else if leb (length input) begin || not (is_alpha first || first == b'_')
    then no_field
    else if ltb (begin + size) (length input) && field_character (byte_or 0 (begin + size) input)
    then no_field
    else scan_separator input (substr begin size input) (begin + size)

-- The value of a private field, if it is not empty and holds no marker.
unfoldable pub replacement_of : Bytes → ℕ → ℕ → Bytes → List Replacement
unfolding classify_field contains
replacement_of input begin end field_name =
    let kind = classify_field field_name in
    let value = substr begin (end - begin) input in
    if enum_value kind == 0
      || is_empty value
      || contains value (codes "{{")
      || contains value (codes "}}")
    then []
    else record { begin = begin; end = end; kind = kind } ∷ []

-- The loop over the candidates; each round goes on by a byte at least.
unfoldable pub find_replacements : ℕ → Bytes → ℕ → List Replacement
unfolding scan_field replacement_of
find_replacements zero input candidate = []
find_replacements (suc fuel) input candidate = elim (ltb candidate (length input)) [
  | false ↦ []
  | true ↦ elim (scan_field input candidate) [
    | no_field ↦ find_replacements fuel input (candidate + 1)
    | ends_here ↦ []
    | value_at begin end field_name ↦
        replacement_of input begin end field_name
        ++ find_replacements fuel input (max end (candidate + 1))
  ]
]

unfoldable pub apply_replacements : Bytes → ℕ → List Replacement → Bytes
unfolding marker
apply_replacements input cursor [] = drop cursor input
apply_replacements input cursor (r ∷ rs) =
    let skipped = apply_replacements input cursor rs in
    let replaced =
      substr cursor (r.begin - cursor) input
      ++ (marker r.kind ++ apply_replacements input r.end rs) in
    if ltb r.begin cursor then skipped else replaced

unfoldable pub replace_sensitive_fields : Bytes → Bytes
unfolding find_replacements apply_replacements
replace_sensitive_fields input =
    apply_replacements input 0 (find_replacements (length input) input 0)

-- The loop of `replace_pattern`, with what goes in front of the marker.
unfoldable pub replace_matches : (List Group → Bytes) → Bytes → ℕ → List (List Group) → Bytes
replace_matches text input cursor [] = drop cursor input
replace_matches text input cursor (groups ∷ more) =
    let skipped = replace_matches text input cursor more in
    elim (group_of 0 groups) [
      | none ↦ skipped
      | some (begin, size) ↦
          let replaced =
            substr cursor (begin - cursor) input
            ++ (text groups ++ replace_matches text input (begin + size) more) in
          if ltb begin cursor then skipped else replaced
    ]

abbrev group_text : Bytes → Group → Bytes
group_text input none = []
group_text input (some (position, size)) = substr position size input

unfoldable pub replace_pattern : Matcher → Bytes → Regex → Bytes → Bytes
unfolding replace_matches
replace_pattern matches input pattern text =
    replace_matches (λ _. text) input 0 (matches pattern input)

-- The first group stays, as with `$1` in `std::regex_replace`.
unfoldable pub replace_behind_group : Matcher → Bytes → Regex → Bytes → Bytes
unfolding replace_matches
replace_behind_group matches input pattern text =
    replace_matches (λ groups. group_text input (group_of 1 groups) ++ text) input 0
      (matches pattern input)

unfoldable pub rename_company : Bytes → Bytes
unfolding replace_ascii_case_insensitive
rename_company sample =
    let a = replace_ascii_case_insensitive sample (codes "test123") (codes "Your-Company") in
    let b = replace_ascii_case_insensitive a (codes "lottermart") (codes "Your-Company") in
    let c = replace_ascii_case_insensitive b (codes "lottemart") (codes "Your-Company") in
    let d = replace_ascii_case_insensitive c (codes "lotte") (codes "Your") in
    replace_ascii_case_insensitive d (codes "mart") (codes "company")

unfoldable pub sanitize : Matcher → Bytes → Bytes
unfolding rename_company replace_sensitive_fields replace_pattern replace_behind_group marker
    escape_unsupported_controls
sanitize matches sample =
    let a = rename_company sample in
    let b = replace_behind_group matches a legacy_store_code_pattern (codes "{{STORE_CODE}}") in
    let c = replace_behind_group matches b partial_mac_marker_pattern (codes "{{MAC_ADDRESS}}") in
    let d = replace_sensitive_fields c in
    let e = replace_pattern matches d email_pattern (marker email) in
    let f = replace_pattern matches e phone_pattern (marker phone) in
    let g = replace_pattern matches f resident_pattern (marker identifier) in
    let h = replace_pattern matches g mac_pattern (marker mac_address) in
    escape_unsupported_controls
      (replace_behind_group matches h user_path_pattern (codes "TestUser"))
