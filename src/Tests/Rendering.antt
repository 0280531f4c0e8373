-- ===== src/Tests/Rendering.antt =====
-- A sample from its segments to its texts.
use log_generator.Prelude.Decimal.{to_string}
use log_generator.Prelude.Int.{ℤ, pos, ◌+ℤ◌, ◌-ℤ◌, ◌*ℤ◌}
use log_generator.Prelude.Result.{ok}
use log_generator.Prelude.Search.{occurrences}
use log_generator.Prelude.{
  ℕ, ◌*◌, ◌==◌, none, ◌≡◌, refl, leb, Bool, true, false, List, [], ◌∷◌, ◌++◌, some, Bytes, All,
  codes, length, take, drop, if◌then◌else◌, if-holds, arith,
}
use log_generator.Privacy.{no_token, user_id}
use log_generator.Renderer.Candidates.{group_of, timestamp, privacy, source_ip}
use log_generator.Renderer.Clear.{marker_positions, compile_segments-Covers}
use log_generator.Renderer.Clock.{Tm, convert_utc_time, timestamp_text}
use log_generator.Renderer.Cover.{Covers}
use log_generator.Renderer.Patterns.{Matcher, Group, timestamp_patterns}
use log_generator.Renderer.Places.{AreInside, IsInside}
use log_generator.Renderer.Prepared.{bind, initial_random_state}
use log_generator.Renderer.Runs.{cached_run, plain_run, cached_run-bind}
use log_generator.Renderer.Segments.{
  RenderSegment, literal_segment, compile_segments, make_compiled_log,
}
use log_generator.Renderer.Styles.{default_token, iso8601, make_token}
use log_generator.Renderer.TestCase.{replace_values, token_marker}
use log_generator.Renderer.Values.{fill, replace_values-fill}

-- 2024-02-29 23:59:58 in UTC.
leap_day_test : convert_utc_time (pos (1709251198 * 1000000000)) ≡ record {
  tm_year = pos 2024;
  tm_mon = 1;
  tm_mday = 29;
  tm_hour = 23;
  tm_min = 59;
  tm_sec = 58;
  tm_wday = 4;
}
unfolding convert_utc_time ◌+ℤ◌ ◌*ℤ◌
leap_day_test = refl

before_epoch_test :
    timestamp_text
      (λ second. convert_utc_time second)
      (make_token iso8601 (codes "1969-12-31 23:59:59.250Z"))
      (pos 0 -ℤ pos 750000000)
      false
    ≡ codes "1969-12-31 23:59:59.250Z"
unfolding timestamp_text make_token convert_utc_time ◌+ℤ◌ ◌*ℤ◌ ◌-ℤ◌ to_string
before_epoch_test = refl

-- A log with a timestamp, a private value and an address.
abbrev stamped : List RenderSegment
stamped =
    record { text = []; kind = timestamp; token = default_token; privacy_kind = no_token }
    ∷ literal_segment (codes " user=")
    ∷ record { text = []; kind = privacy; token = default_token; privacy_kind = user_id }
    ∷ record { text = []; kind = source_ip; token = default_token; privacy_kind = no_token }
    ∷ []

abbrev calls : List (ℤ × Bool)
calls =
    (pos 1709251198000000000, true)
    ∷ (pos 1709251198900000000, true)
    ∷ (pos 1709251199000000000, false)
    ∷ []

abbrev utc : ℤ → Tm
utc second = convert_utc_time (second *ℤ pos 1000000000)

cached_run-bind_example :
    cached_run utc
      (bind 7 (make_compiled_log stamped) (codes "10.0.0.1") (codes "10.0.0.2") (pos 60))
      calls
    ≡ plain_run utc
        (make_compiled_log stamped)
        (codes "10.0.0.1")
        (codes "10.0.0.2")
        (pos 60)
        (initial_random_state 7)
        calls
cached_run-bind_example =
    cached_run-bind utc 7 stamped (codes "10.0.0.1") (codes "10.0.0.2") (pos 60) calls
      (refl, (refl, (refl, (refl, tt))))
      (unfold ◌+ℤ◌ ◌*ℤ◌ in
        (
          (1709251258000000000, refl),
          ((1709251258900000000, refl), ((1709251259000000000, refl), tt)),
        ))

-- The first group of an expression, which is empty at the beginning of a text where it is `(^|[^0-9])`.
abbrev first_group : Bytes → Group
first_group [] = none
first_group (c ∷ []) = none
first_group (c ∷ d ∷ ds) = if d == b'?' then some (0, 10) else some (0, 0)

-- Expressions that match the first ten bytes of a text, where there are so many.
abbrev first_ten : Matcher
first_ten r text =
    if leb 10 (length text)
    then (some (0, 10) ∷ first_group r.text ∷ some (0, 10) ∷ []) ∷ []
    else []

first_ten-AreInside : (text : Bytes) → All (AreInside first_ten text) timestamp_patterns
unfolding timestamp_patterns
first_ten-AreInside text =
    let w = whole (some (0, 0)) in
    let s = second (some (0, 0)) in
    (w, (s, (w, (w, (w, (w, (s, (w, (s, (s, (s, (w, (w, (s, (first, tt)))))))))))))))
  where
    taken : ℕ → Group → Type 0
    taken k g =
        All (λ groups. IsInside text (group_of k groups))
          (if leb 10 (length text) then (some (0, 10) ∷ g ∷ some (0, 10) ∷ []) ∷ [] else [])

    whole : (g : Group) → taken 0 g
    whole g =
        if-holds (All (λ groups. IsInside text (group_of 0 groups))) (leb 10 (length text))
          (λ enough. ((omega arith, ground arith), tt)) (λ _. tt)

    first : taken 1 (some (0, 10))
    first =
        if-holds (All (λ groups. IsInside text (group_of 1 groups))) (leb 10 (length text))
          (λ enough. ((omega arith, ground arith), tt)) (λ _. tt)

    second : (g : Group) → taken 2 g
    second g =
        if-holds (All (λ groups. IsInside text (group_of 2 groups))) (leb 10 (length text))
          (λ enough. ((omega arith, ground arith), tt)) (λ _. tt)

abbrev dated : Bytes
dated = codes "2024-02-29 {{USER_ID}} from {{SRC_IP}} to {{DST_IP}}"

compile_segments-Covers_example :
    Covers (marker_positions dated) (compile_segments first_ten dated) 0 dated
compile_segments-Covers_example = compile_segments-Covers first_ten first_ten-AreInside dated

abbrev with_tokens : Bytes
with_tokens = codes "id={{ID}}, again {{ID}}."

replace_values-fill_example :
    replace_values
      (λ s. s)
      (token_marker (codes "ID"))
      0
      with_tokens
      (codes "{{ID}}" ∷ codes "7" ∷ [])
    ≡ ok (
        take 0 with_tokens
        ++ fill
            (λ s. s)
            (token_marker (codes "ID"))
            (omega arith)
            (codes "{{ID}}" ∷ codes "7" ∷ [])
            0
            (drop 0 with_tokens))
replace_values-fill_example =
    replace_values-fill (λ s. s) (token_marker (codes "ID")) (omega arith)
      (codes "{{ID}}" ∷ codes "7" ∷ []) 0 with_tokens (omega arith) (unfold occurrences in refl)

replace_values_test :
    replace_values
      (λ s. s)
      (token_marker (codes "ID"))
      0
      with_tokens
      (codes "{{ID}}" ∷ codes "7" ∷ [])
    ≡ ok (codes "id={{ID}}, again 7.")
unfolding replace_values
replace_values_test = refl
