-- ===== src/Renderer/Analysis.antt =====
-- `LogRenderer::analyze` of src/application/log_renderer.cpp.
use log_generator.Prelude.{
  ℕ, ◌+◌, ◌/◌, ◌%◌, Bool, false, ◌||◌, List, [], ◌∷◌, ◌++◌, ◌==◌, if◌then◌else◌,
}
use log_generator.Privacy.{PrivacyTokenKind, privacy_token_bit}
use log_generator.Renderer.Candidates.{literal, timestamp, privacy, source_ip, destination_ip}
use log_generator.Renderer.Segments.{RenderSegment, CompiledLog}
use log_generator.Renderer.Styles.{TimestampStyle, is_style}

pub record LogTemplateAnalysis : Type 0 where
  pub timestamp_count : ℕ
  pub source_ip_count : ℕ
  pub destination_ip_count : ℕ
  pub privacy_token_count : ℕ
  pub privacy_token_mask : ℕ
  pub timestamp_styles : List TimestampStyle

unfoldable pub has_style : TimestampStyle → List TimestampStyle → Bool
has_style style [] = false
has_style style (s ∷ styles) = is_style s style || has_style style styles

-- `mask | privacy_token_bit(kind)`.
unfoldable pub with_bit : ℕ → PrivacyTokenKind → ℕ
unfolding privacy_token_bit
with_bit mask kind =
    let bit = privacy_token_bit kind in
    if bit == 0 then mask else if mask / bit % 2 == 0 then mask + bit else mask

unfoldable pub analyze_segment : LogTemplateAnalysis → RenderSegment → LogTemplateAnalysis
unfolding has_style with_bit
analyze_segment result segment = elim segment.kind [
  | literal ↦ result
  | timestamp ↦ record result {
    timestamp_count = result.timestamp_count + 1;
    timestamp_styles =
        if has_style segment.token.style result.timestamp_styles
        then result.timestamp_styles
        else result.timestamp_styles ++ segment.token.style ∷ [];
  }
  | privacy ↦ record result {
    privacy_token_count = result.privacy_token_count + 1;
    privacy_token_mask = with_bit result.privacy_token_mask segment.privacy_kind;
  }
  | source_ip ↦ record result { source_ip_count = result.source_ip_count + 1 }
  | destination_ip ↦ record result { destination_ip_count = result.destination_ip_count + 1 }
]

unfoldable pub analyze_from : LogTemplateAnalysis → List RenderSegment → LogTemplateAnalysis
unfolding analyze_segment
analyze_from result [] = result
analyze_from result (segment ∷ segments) = analyze_from (analyze_segment result segment) segments

unfoldable pub analyze : CompiledLog → LogTemplateAnalysis
unfolding analyze_from
analyze compiled =
    analyze_from
      (record {
        timestamp_count = 0;
        source_ip_count = 0;
        destination_ip_count = 0;
        privacy_token_count = 0;
        privacy_token_mask = 0;
        timestamp_styles = [];
      })
      compiled.segments
