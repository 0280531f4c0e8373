-- ===== src/Renderer.antt =====
-- src/application/log_renderer.cpp, and its header: from a sample to the text of an instant. Styles and
-- Clock print timestamps, Candidates and Segments cut a sample into segments, TestCase fills in the
-- values of a test case, Prepared keeps the caches of a log; here are the operations of
-- `LogRenderer`. `sanitize` of the anonymizer and `std::regex` are arguments.
pub mod Styles
pub mod Patterns
pub mod Candidates
pub mod Segments
pub mod TestCase
pub mod Values
pub mod Analysis
pub mod Clock
pub mod Prepared
pub mod Seconds
pub mod Fresh
pub mod Coherent
pub mod Anew
pub mod Caching
pub mod Runs
pub mod Places
pub mod Order
pub mod Cover
pub mod Clear
use log_generator.Domain.{LogTemplate, GeneratorConfig, TimestampGenerationMode, offset_value}
use log_generator.Prelude.Int.{ℤ, pos}
use log_generator.Prelude.Result.{Result, ok, ◌>>=◌}
use log_generator.Prelude.{ℕ, ◌+◌, ◌*◌, List, [], ◌∷◌, map, Bytes, codes}
use log_generator.Prelude.Words.{u64_mod}
use log_generator.Prelude.{◌%◌}
use log_generator.Renderer.Analysis.{LogTemplateAnalysis, analyze}
use log_generator.Renderer.Candidates.{replace_capture, tokenize_timestamps}
use log_generator.Renderer.Patterns.{
  Matcher, source_field_pattern, destination_field_pattern, arrow_source_pattern,
  arrow_destination_pattern,
}
use log_generator.Renderer.Prepared.{PreparedLog, bind}
use log_generator.Renderer.Segments.{
  CompiledLog, compile_segments, make_compiled_log, source_marker, destination_marker,
}
use log_generator.Renderer.TestCase.{expand_test_case}

module _ (sanitize : Bytes → Bytes) (matches : Matcher) where
  unfoldable pub tokenize_sample : Bytes → Bytes
  unfolding replace_capture tokenize_timestamps source_field_pattern destination_field_pattern
      arrow_source_pattern arrow_destination_pattern
  tokenize_sample sample =
      let a = sanitize sample in
      let b = replace_capture matches a source_field_pattern source_marker in
      let c = replace_capture matches b destination_field_pattern destination_marker in
      let d = replace_capture matches c arrow_source_pattern source_marker in
      let e = replace_capture matches d arrow_destination_pattern destination_marker in
      tokenize_timestamps matches e

  unfoldable pub tokenize_values : List (Bytes × List Bytes) → List (Bytes × List Bytes)
  unfolding tokenize_sample
  tokenize_values [] = []
  tokenize_values ((token, values) ∷ rest) =
      (token, map tokenize_sample values) ∷ tokenize_values rest

  unfoldable pub tokenize_template : LogTemplate → LogTemplate
  unfolding tokenize_sample tokenize_values
  tokenize_template item = record item {
    sample = tokenize_sample item.sample;
    test_case = tokenize_values item.test_case;
  }

  unfoldable pub compile : LogTemplate → Result CompiledLog
  unfolding tokenize_template expand_test_case compile_segments make_compiled_log
  compile item = do
    text ← expand_test_case sanitize (tokenize_template item)
    ok (make_compiled_log (compile_segments matches text))

  unfoldable pub analyze_template : LogTemplate → Result LogTemplateAnalysis
  unfolding compile analyze
  analyze_template item = do compiled ← compile item; ok (analyze compiled)

  abbrev pub sample_template : Bytes → LogTemplate
  sample_template sample = record {
    id = [];
    name = [];
    sample = sample;
    source = [];
    test_case = [];
  }

  unfoldable pub analyze_sample : Bytes → Result LogTemplateAnalysis
  unfolding analyze_template tokenize_sample
  analyze_sample sample = analyze_template (sample_template (tokenize_sample sample))

  unfoldable pub prepare_template : ℕ → LogTemplate → Bytes → Bytes → ℤ → Result PreparedLog
  unfolding compile bind
  prepare_template sequence item source destination offset = do
    compiled ← compile item
    ok (bind sequence compiled source destination offset)

  -- The offset of the timestamps, in seconds.
  unfoldable pub render_offset : GeneratorConfig → ℤ
  unfolding offset_value
  render_offset config = elim config.timestamp_generation.mode [
    | TimestampGenerationMode.offset ↦ offset_value config.timestamp_generation.offset
    | TimestampGenerationMode.range ↦ pos 0
  ]

  -- `sequence.fetch_add`: each log takes the next value.
  abbrev pub sequence_step : ℕ
  sequence_step = 0x9E3779B97F4A7C15

  unfoldable pub prepare_all : ℕ → GeneratorConfig → List LogTemplate → Result (List PreparedLog)
  unfolding prepare_template render_offset
  prepare_all sequence config [] = ok []
  prepare_all sequence config (item ∷ items) = do
    log ←
        prepare_template sequence item config.source_ip config.destination_ip (render_offset config)
    logs ← prepare_all ((sequence + sequence_step) % u64_mod) config items
    ok (log ∷ logs)

  unfoldable pub prepare : ℕ → GeneratorConfig → Result (List PreparedLog)
  unfolding prepare_all
  prepare sequence config = prepare_all sequence config config.templates
