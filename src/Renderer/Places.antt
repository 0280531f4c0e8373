-- ===== src/Renderer/Places.antt =====
-- Every candidate of a text lies in the text, at a piece of its kind.
use log_generator.Prelude.Positions.{
  StandsAt, drop-inside, drop-suc, find_text-bound, find_if-bound, occurrences-StandsAt,
  starts_with-take,
}
use log_generator.Prelude.Search.{find_text, find_if, occurrences, substr}
use log_generator.Prelude.{
  ℕ, zero, suc, ◌+◌, ◌-◌, ◌≤◌, ◌<◌, ◌≡◌, refl, sym, Bool, true, false, List, [], ◌∷◌, Option, none,
  some, ◌==◌, Bytes, All, All-append, starts_with, length, drop, length-drop, arith, if-holds,
}
use log_generator.Privacy.{PrivacyTokenKind, marker}
use log_generator.Renderer.Candidates.{
  RenderSegmentKind, literal, timestamp, privacy, source_ip, destination_ip, MatchCandidate,
  marker_candidates, read_style, read_value, read_key, read_marker, pattern_candidate,
  pattern_candidates, all_pattern_candidates, group_of, timestamp_marker_prefix,
  timestamp_marker_suffix,
}
use log_generator.Renderer.Patterns.{Matcher, Group, TimestampPattern}
use log_generator.Renderer.Styles.{TimestampStyle, default_token}
use log_generator.Renderer.Segments.{
  RenderSegment, segment_of, source_marker, destination_marker, at_positions, privacy_candidates,
}

abbrev pub is_literal : RenderSegmentKind → Bool
is_literal literal = true
is_literal _ = false

-- What the piece of the text behind a segment is: the text of a literal, the marker of a private
-- value or of an address; that of a timestamp is not known any more.
abbrev pub IsPiece : RenderSegment → Bytes → Type 0
IsPiece s piece = elim s.kind [
  | literal ↦ s.text ≡ piece
  | timestamp ↦ Unit {0}
  | privacy ↦ marker s.privacy_kind ≡ piece
  | source_ip ↦ source_marker ≡ piece
  | destination_ip ↦ destination_marker ≡ piece
]

-- A group that `std::regex` has matched lies in the text and is not empty.
abbrev pub IsInside : Bytes → Group → Type 0
IsInside text none = Unit
IsInside text (some (position, size)) = (0 < size) × (position + size ≤ length text)

-- Of every place that the expression of a pattern finds, the group that the pattern takes.
abbrev pub AreInside : Matcher → Bytes → TimestampPattern → Type 0
AreInside matches text pattern =
    All (λ groups. IsInside text (group_of pattern.capture_group groups))
      (matches pattern.expression text)

abbrev pub Fits : Bytes → MatchCandidate → Type 0
Fits text c =
    ((0 < c.match_length)
      × (c.position + c.match_length ≤ length text)
      × (is_literal c.kind ≡ false))
    × IsPiece (segment_of c) (substr c.position c.match_length text)

pub at_positions-Fits :
    (text m : Bytes) (priority : ℕ) (kind : RenderSegmentKind) (privacy_kind : PrivacyTokenKind)
    (positions : List ℕ)
    → 0 < length m
    → is_literal kind ≡ false
    → ((k : ℕ)
        → StandsAt m text k
        → IsPiece
            (record { text = []; kind = kind; token = default_token; privacy_kind = privacy_kind })
            (substr k (length m) text))
    → All (StandsAt m text) positions
    → All (Fits text) (at_positions (length m) priority kind privacy_kind positions)
at_positions-Fits text m priority kind privacy_kind [] some_byte marked piece h = tt
at_positions-Fits text m priority kind privacy_kind (k ∷ ks) some_byte marked piece h = (
  ((some_byte, h.0.1, marked), piece k h.0),
  at_positions-Fits text m priority kind privacy_kind ks some_byte marked piece h.1,
)

pub privacy_candidates-Fits :
    (text : Bytes) (kinds : List PrivacyTokenKind)
    → All (λ kind. 0 < length (marker kind)) kinds
    → All (Fits text) (privacy_candidates text kinds)
unfolding privacy_candidates
privacy_candidates-Fits text [] some_byte = tt
privacy_candidates-Fits text (kind ∷ kinds) some_byte =
    All-append (Fits text) _ (privacy_candidates text kinds)
      (at_positions-Fits text (marker kind) 100 privacy kind (occurrences (marker kind) 0 0 text)
        some_byte.0 refl (λ k h. sym h.0) (occurrences-StandsAt (marker kind) text 0 0 text refl))
      (privacy_candidates-Fits text kinds some_byte.1)

-- A marker of a timestamp ends inside of the text.
module _ (text : Bytes) (position : ℕ) (behind : Bytes)
    (e : position + 12 + length behind ≡ length text) where
  read_style-Fits :
      (marker_length : ℕ) (value : Bytes) (o : Option TimestampStyle)
      → 0 < marker_length
      → position + marker_length ≤ length text
      → All (Fits text) (read_style position marker_length value o).1
  unfolding read_style
  read_style-Fits marker_length value none some_byte room = tt
  read_style-Fits marker_length value (some style) some_byte room =
      (((some_byte, room, refl), tt), tt)

  read_value-Fits :
      (separator : ℕ) (o : Option ℕ)
      → separator < length behind
      → find_text timestamp_marker_suffix (drop (separator + 1) behind) ≡ o
      → All (Fits text) (read_value position separator behind o).1
  unfolding read_value
  read_value-Fits separator none room f = tt
  read_value-Fits separator (some value_length) room f = read_style-Fits _ _ _ (omega arith) (
      omega (
        arith,
        e,
        room,
        length-drop (separator + 1) behind,
        (find_text-bound timestamp_marker_suffix (drop (separator + 1) behind) value_length f).1,
      ))

  read_key-Fits :
      (o : Option ℕ)
      → find_if (λ c. c == b':') behind ≡ o
      → All (Fits text) (read_key position behind o).1
  unfolding read_key
  read_key-Fits none f = tt
  read_key-Fits (some separator) f =
      read_value-Fits separator _ (find_if-bound (λ c. c == b':') behind separator f) refl

  read_marker-Fits : All (Fits text) (read_marker position behind).1
  unfolding read_marker
  read_marker-Fits = read_key-Fits _ refl

pub marker_candidates-Fits :
    (text : Bytes) (skipped position : ℕ) (s : Bytes)
    → drop position text ≡ s
    → All (Fits text) (marker_candidates skipped position s)
unfolding marker_candidates
marker_candidates-Fits text skipped position [] e = tt
marker_candidates-Fits text (suc skipped) position (c ∷ cs) e =
    marker_candidates-Fits text skipped (suc position) cs (drop-suc position text c cs e)
marker_candidates-Fits text zero position (c ∷ cs) e =
    let later = drop-suc position text c cs e in
    let read = read_marker position (drop 12 (c ∷ cs)) in
    if-holds (All (Fits text)) (starts_with timestamp_marker_prefix (c ∷ cs))
      (λ here.
        All-append (Fits text) read.1 _
          (read_marker-Fits text position (drop 12 (c ∷ cs)) (
            omega (
              arith,
              drop-inside position text c cs e,
              length-drop 12 (c ∷ cs),
              (starts_with-take timestamp_marker_prefix (c ∷ cs) here).1,
            )))
          (marker_candidates-Fits text (read.0 - 1) (suc position) cs later))
      (λ _. marker_candidates-Fits text 0 (suc position) cs later)

pattern_candidate-Fits :
    (text : Bytes) (pattern : TimestampPattern) (g : Group)
    → IsInside text g
    → All (Fits text) (pattern_candidate text pattern g)
unfolding pattern_candidate
pattern_candidate-Fits text pattern none h = tt
pattern_candidate-Fits text pattern (some (position, size)) h = (((h.0, h.1, refl), tt), tt)

pattern_candidates-Fits :
    (text : Bytes) (pattern : TimestampPattern) (found : List (List Group))
    → All (λ groups. IsInside text (group_of pattern.capture_group groups)) found
    → All (Fits text) (pattern_candidates text pattern found)
unfolding pattern_candidates
pattern_candidates-Fits text pattern [] h = tt
pattern_candidates-Fits text pattern (groups ∷ more) h =
    All-append (Fits text) (pattern_candidate text pattern (group_of pattern.capture_group groups))
      (pattern_candidates text pattern more)
      (pattern_candidate-Fits text pattern (group_of pattern.capture_group groups) h.0)
      (pattern_candidates-Fits text pattern more h.1)

pub all_pattern_candidates-Fits :
    (matches : Matcher) (text : Bytes) (patterns : List TimestampPattern)
    → All (AreInside matches text) patterns
    → All (Fits text) (all_pattern_candidates matches text patterns)
unfolding all_pattern_candidates
all_pattern_candidates-Fits matches text [] inside = tt
all_pattern_candidates-Fits matches text (p ∷ ps) inside =
    All-append (Fits text) (pattern_candidates text p (matches p.expression text))
      (all_pattern_candidates matches text ps)
      (pattern_candidates-Fits text p (matches p.expression text) inside.0)
      (all_pattern_candidates-Fits matches text ps inside.1)
