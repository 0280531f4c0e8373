-- ===== src/Renderer/Segments.antt =====
-- `compile_segments` and `make_compiled_log` of src/application/log_renderer.cpp.
use log_generator.Prelude.Int.{pos}
use log_generator.Prelude.Search.{occurrences, substr}
use log_generator.Prelude.{
  ℕ, ◌+◌, ◌-◌, ◌*◌, Bool, true, false, ◌&&◌, List, [], ◌∷◌, ◌++◌, ltb, leb, Bytes, codes, length,
  drop, is_empty, if◌then◌else◌,
}
use log_generator.Privacy.{PrivacyTokenKind, no_token, marker, privacy_token_kinds}
use log_generator.Renderer.Candidates.{
  RenderSegmentKind, literal, timestamp, privacy, source_ip, destination_ip, MatchCandidate, sort,
  timestamp_candidates,
}
use log_generator.Renderer.Patterns.{Matcher}
use log_generator.Renderer.Styles.{TimestampToken, default_token}

pub record RenderSegment : Type 0 where
  pub text : Bytes
  pub kind : RenderSegmentKind
  pub token : TimestampToken
  pub privacy_kind : PrivacyTokenKind

abbrev pub literal_segment : Bytes → RenderSegment
literal_segment text = record {
  text = text;
  kind = literal;
  token = default_token;
  privacy_kind = no_token;
}

abbrev pub segment_of : MatchCandidate → RenderSegment
segment_of c = record { text = []; kind = c.kind; token = c.token; privacy_kind = c.privacy_kind }

abbrev pub source_marker : Bytes
source_marker = codes "{{SRC_IP}}"

abbrev pub destination_marker : Bytes
destination_marker = codes "{{DST_IP}}"

-- The candidates of one marker.
abbrev pub at_positions :
    ℕ → ℕ → RenderSegmentKind → PrivacyTokenKind → List ℕ → List MatchCandidate
at_positions size priority kind privacy_kind [] = []
at_positions size priority kind privacy_kind (position ∷ positions) =
    record {
      position = position;
      match_length = size;
      priority = pos priority;
      kind = kind;
      token = default_token;
      privacy_kind = privacy_kind;
    }
    ∷ at_positions size priority kind privacy_kind positions

unfoldable pub privacy_candidates : Bytes → List PrivacyTokenKind → List MatchCandidate
unfolding occurrences marker
privacy_candidates input [] = []
privacy_candidates input (kind ∷ kinds) =
    at_positions (length (marker kind)) 100 privacy kind (occurrences (marker kind) 0 0 input)
    ++ privacy_candidates input kinds

unfoldable pub address_candidates : Bytes → Bytes → RenderSegmentKind → List MatchCandidate
unfolding occurrences
address_candidates input text kind =
    at_positions (length text) 90 kind no_token (occurrences text 0 0 input)

unfoldable pub all_candidates : Matcher → Bytes → List MatchCandidate
unfolding timestamp_candidates privacy_candidates address_candidates sort
all_candidates matches input = sort (
    timestamp_candidates matches input
    ++ (privacy_candidates input privacy_token_kinds
        ++ (address_candidates input source_marker source_ip
            ++ address_candidates input destination_marker destination_ip)))

unfoldable pub segments_from : Bytes → ℕ → List MatchCandidate → List RenderSegment
segments_from input cursor [] =
    if ltb cursor (length input) then literal_segment (drop cursor input) ∷ [] else []
segments_from input cursor (c ∷ cs) =
    let skipped = segments_from input cursor cs in
    let segments = segment_of c ∷ segments_from input (c.position + c.match_length) cs in
    let gap = literal_segment (substr cursor (c.position - cursor) input) in
    let taken = if ltb cursor c.position then gap ∷ segments else segments in
    if ltb c.position cursor then skipped else taken

unfoldable pub compile_segments : Matcher → Bytes → List RenderSegment
unfolding all_candidates segments_from
compile_segments matches input =
    let segments = segments_from input 0 (all_candidates matches input) in
    if is_empty segments then literal_segment input ∷ [] else segments

pub record CompiledLog : Type 0 where
  pub segments : List RenderSegment
  pub capacity_hint : ℕ
  pub has_timestamp : Bool
  pub has_privacy : Bool
  pub cache_privacy_profiles : Bool

-- One round of the loop of `make_compiled_log`.
unfoldable pub count_segment : RenderSegment → CompiledLog → CompiledLog
count_segment segment c = elim segment.kind [
  | literal ↦ record c { capacity_hint = c.capacity_hint + length segment.text }
  | timestamp ↦ record c { capacity_hint = c.capacity_hint + 40; has_timestamp = true }
  | privacy ↦ record c { capacity_hint = c.capacity_hint + 64; has_privacy = true }
  | source_ip ↦ record c { capacity_hint = c.capacity_hint + 64 }
  | destination_ip ↦ record c { capacity_hint = c.capacity_hint + 64 }
]

unfoldable pub count_segments : CompiledLog → List RenderSegment → CompiledLog
unfolding count_segment
count_segments compiled [] = compiled
count_segments compiled (segment ∷ segments) =
    count_segments (count_segment segment compiled) segments

unfoldable pub make_compiled_log : List RenderSegment → CompiledLog
unfolding count_segments
make_compiled_log segments =
    let compiled =
      count_segments
        (record {
          segments = segments;
          capacity_hint = 0;
          has_timestamp = false;
          has_privacy = false;
          cache_privacy_profiles = false;
        })
        segments in
    record compiled {
      cache_privacy_profiles = compiled.has_privacy && leb compiled.capacity_hint (64 * 1024);
    }
