-- ===== src/Renderer/Candidates.antt =====
-- The places of a sample that become segments: `MatchCandidate`, `timestamp_candidates`,
-- `replace_capture` and `tokenize_timestamps` of src/application/log_renderer.cpp.
use log_generator.Prelude.Int.{ℤ, pos, negsuc, leb_ℤ}
use log_generator.Prelude.Search.{find_text, find_if, substr}
use log_generator.Prelude.{
  ℕ, zero, suc, ◌+◌, ◌-◌, Bool, not, List, [], ◌∷◌, ◌++◌, Option, none, some, ◌==◌, ltb, Bytes,
  codes, starts_with, drop, take, get_elem?, if◌then◌else◌,
}
use log_generator.Privacy.{PrivacyTokenKind}
use log_generator.Renderer.Patterns.{Group, Matcher, Regex, TimestampPattern, timestamp_patterns}
use log_generator.Renderer.Styles.{
  TimestampToken, TimestampStyle, make_token, timestamp_style_key, timestamp_style_from_key,
}

pub data RenderSegmentKind : Type 0 where
  literal timestamp privacy source_ip destination_ip : RenderSegmentKind

pub record MatchCandidate : Type 0 where
  pub position : ℕ
  pub match_length : ℕ
  pub priority : ℤ
  pub kind : RenderSegmentKind
  pub token : TimestampToken
  pub privacy_kind : PrivacyTokenKind

abbrev pub timestamp_marker_prefix : Bytes
timestamp_marker_prefix = codes "{{TIMESTAMP:"

abbrev pub timestamp_marker_suffix : Bytes
timestamp_marker_suffix = codes "}}"

abbrev pub timestamp_candidate : ℕ → ℕ → ℤ → TimestampToken → MatchCandidate
timestamp_candidate position match_length priority token = record {
  position = position;
  match_length = match_length;
  priority = priority;
  kind = timestamp;
  token = token;
  privacy_kind = PrivacyTokenKind.no_token;
}

-- What the text behind a prefix at `position` says: how many bytes further the search goes on, and
-- the candidate, if there is one. The steps are the key, the end of the value, and the style.
unfoldable pub read_style : ℕ → ℕ → Bytes → Option TimestampStyle → ℕ × List MatchCandidate
read_style position marker_length value none = (marker_length, [])
read_style position marker_length value (some style) = (
  marker_length,
  timestamp_candidate position marker_length (negsuc 99) (make_token style value) ∷ [],
)

unfoldable pub read_value : ℕ → ℕ → Bytes → Option ℕ → ℕ × List MatchCandidate
unfolding read_style timestamp_style_from_key
read_value position separator behind none = (12, [])
read_value position separator behind (some value_length) =
    read_style position (12 + separator + 1 + value_length + 2)
      (substr (separator + 1) value_length behind)
      (timestamp_style_from_key (take separator behind))

unfoldable pub read_key : ℕ → Bytes → Option ℕ → ℕ × List MatchCandidate
unfolding read_value find_text
read_key position behind none = (12, [])
read_key position behind (some separator) =
    read_value position separator behind
      (find_text timestamp_marker_suffix (drop (separator + 1) behind))

unfoldable pub read_marker : ℕ → Bytes → ℕ × List MatchCandidate
unfolding read_key find_if
read_marker position behind = read_key position behind (find_if (λ c. c == b':') behind)

-- The loop over the markers: `skipped` bytes are passed over, the text begins at `position`.
unfoldable pub marker_candidates : ℕ → ℕ → Bytes → List MatchCandidate
unfolding read_marker starts_with
marker_candidates skipped position [] = []
marker_candidates (suc skipped) position (c ∷ cs) = marker_candidates skipped (suc position) cs
marker_candidates zero position (c ∷ cs) =
    let (forward, found) = read_marker position (drop 12 (c ∷ cs)) in
    let passed = found ++ marker_candidates (forward - 1) (suc position) cs in
    let missed = marker_candidates 0 (suc position) cs in
    if starts_with timestamp_marker_prefix (c ∷ cs) then passed else missed

-- `match[group]`, if it is there and matched.
abbrev pub group_of : ℕ → List Group → Group
group_of group groups = elim (get_elem? groups group) [ none ↦ none | some g ↦ g ]

unfoldable pub pattern_candidate : Bytes → TimestampPattern → Group → List MatchCandidate
unfolding make_token
pattern_candidate input pattern none = []
pattern_candidate input pattern (some (position, size)) =
    timestamp_candidate position size (pos pattern.priority)
      (make_token pattern.style (substr position size input))
    ∷ []

unfoldable pub pattern_candidates :
    Bytes → TimestampPattern → List (List Group) → List MatchCandidate
unfolding pattern_candidate
pattern_candidates input pattern [] = []
pattern_candidates input pattern (groups ∷ more) =
    pattern_candidate input pattern (group_of pattern.capture_group groups)
    ++ pattern_candidates input pattern more

unfoldable pub all_pattern_candidates :
    Matcher → Bytes → List TimestampPattern → List MatchCandidate
unfolding pattern_candidates
all_pattern_candidates matches input [] = []
all_pattern_candidates matches input (pattern ∷ patterns) =
    pattern_candidates input pattern (matches pattern.expression input)
    ++ all_pattern_candidates matches input patterns

-- The order of the candidates.
unfoldable pub before : MatchCandidate → MatchCandidate → Bool
before left right =
    if not (left.position == right.position)
    then ltb left.position right.position
    else if not (left.match_length == right.match_length)
    then ltb right.match_length left.match_length
    else not (leb_ℤ right.priority left.priority)

unfoldable pub insert : MatchCandidate → List MatchCandidate → List MatchCandidate
unfolding before
insert candidate [] = candidate ∷ []
insert candidate (c ∷ cs) =
    let later = c ∷ insert candidate cs in if before c candidate then later else candidate ∷ c ∷ cs

-- `std::ranges::sort`. Where two candidates are equal in this order, it may leave either first.
unfoldable pub sort : List MatchCandidate → List MatchCandidate
unfolding insert
sort [] = []
sort (c ∷ cs) = insert c (sort cs)

unfoldable pub timestamp_candidates : Matcher → Bytes → List MatchCandidate
unfolding marker_candidates all_pattern_candidates sort timestamp_patterns
timestamp_candidates matches input =
    sort (marker_candidates 0 0 input ++ all_pattern_candidates matches input timestamp_patterns)

-- The loop of `replace_capture` over the matches.
unfoldable pub replace_groups : Bytes → Bytes → ℕ → List (List Group) → Bytes
replace_groups input replacement cursor [] = drop cursor input
replace_groups input replacement cursor (groups ∷ more) =
    let skipped = replace_groups input replacement cursor more in
    elim (group_of 2 groups) [
      | none ↦ skipped
      | some (begin, size) ↦
          let replaced =
            substr cursor (begin - cursor) input
            ++ (replacement ++ replace_groups input replacement (begin + size) more) in
          if ltb begin cursor then skipped else replaced
    ]

unfoldable pub replace_capture : Matcher → Bytes → Regex → Bytes → Bytes
unfolding replace_groups
replace_capture matches input pattern replacement =
    replace_groups input replacement 0 (matches pattern input)

-- What a candidate becomes in the tokenized text.
unfoldable pub tokenized : MatchCandidate → Bytes → Bytes
unfolding starts_with timestamp_style_key
tokenized candidate original =
    if starts_with timestamp_marker_prefix original
    then original
    else timestamp_marker_prefix
      ++ (timestamp_style_key candidate.token.style
          ++ (b':' ∷ (original ++ timestamp_marker_suffix)))

unfoldable pub tokenize_from : Bytes → ℕ → List MatchCandidate → Bytes
unfolding tokenized
tokenize_from input cursor [] = drop cursor input
tokenize_from input cursor (c ∷ cs) =
    let skipped = tokenize_from input cursor cs in
    let taken =
      substr cursor (c.position - cursor) input
      ++ (tokenized c (substr c.position c.match_length input)
          ++ tokenize_from input (c.position + c.match_length) cs) in
    if ltb c.position cursor then skipped else taken

unfoldable pub tokenize_timestamps : Matcher → Bytes → Bytes
unfolding timestamp_candidates tokenize_from
tokenize_timestamps matches input = tokenize_from input 0 (timestamp_candidates matches input)
