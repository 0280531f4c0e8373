-- ===== src/Renderer/Clear.antt =====
-- Every marker of a text becomes a segment of its own.
use log_generator.Prelude.Positions.{occurrences-StandsAt}
use log_generator.Prelude.Search.{occurrences}
use log_generator.Prelude.{
  ℕ, ◌<◌, ◌≡◌, refl, ap, sym, subst, true, List, [], ◌∷◌, ◌++◌, append-nil, Bytes, All, All-append,
  length, arith, if-holds, is_empty, inl, inr,
}
use log_generator.Privacy.{PrivacyTokenKind, marker, privacy_token_kinds}
use log_generator.Privacy.{no_token}
use log_generator.Renderer.Candidates.{
  RenderSegmentKind, source_ip, destination_ip, privacy, marker_candidates, timestamp_candidates,
}
use log_generator.Renderer.Cover.{Covers, segments_from-Covers}
use log_generator.Renderer.Order.{
  Sorted, AllAt, AllAt-append, AllAt-append_right, All-step, sort-AllAt, sort-Fits, sort-Sorted,
}
use log_generator.Renderer.Patterns.{Matcher, timestamp_patterns}
use log_generator.Renderer.Places.{
  AreInside, Fits, at_positions-Fits, privacy_candidates-Fits, marker_candidates-Fits,
  all_pattern_candidates-Fits,
}
use log_generator.Renderer.Segments.{
  RenderSegment, source_marker, destination_marker, at_positions, privacy_candidates,
  address_candidates, all_candidates, segments_from, compile_segments,
}

-- Where the markers of private values and of addresses stand.
abbrev pub kind_positions : Bytes → List PrivacyTokenKind → List ℕ
kind_positions text [] = []
kind_positions text (kind ∷ kinds) = occurrences (marker kind) 0 0 text ++ kind_positions text kinds

abbrev pub marker_positions : Bytes → List ℕ
marker_positions text =
    kind_positions text privacy_token_kinds
    ++ (occurrences source_marker 0 0 text ++ occurrences destination_marker 0 0 text)

at_positions-AllAt :
    (size priority : ℕ) (kind : RenderSegmentKind) (privacy_kind : PrivacyTokenKind) (ks : List ℕ)
    → AllAt (at_positions size priority kind privacy_kind ks) ks
at_positions-AllAt size priority kind privacy_kind [] = tt
at_positions-AllAt size priority kind privacy_kind (k ∷ ks) =
    (inl refl, All-step (λ j. inr) ks (at_positions-AllAt size priority kind privacy_kind ks))

kind_positions-AllAt :
    (text : Bytes) (kinds : List PrivacyTokenKind)
    → AllAt (privacy_candidates text kinds) (kind_positions text kinds)
unfolding privacy_candidates
kind_positions-AllAt text [] = tt
kind_positions-AllAt text (kind ∷ kinds) =
    AllAt-append _ (privacy_candidates text kinds) (occurrences (marker kind) 0 0 text) _
      (at_positions-AllAt (length (marker kind)) 100 privacy kind
        (occurrences (marker kind) 0 0 text))
      (kind_positions-AllAt text kinds)

address_positions-AllAt :
    (text m : Bytes) (kind : RenderSegmentKind)
    → AllAt (address_candidates text m kind) (occurrences m 0 0 text)
unfolding address_candidates
address_positions-AllAt text m kind =
    at_positions-AllAt (length m) 90 kind no_token (occurrences m 0 0 text)

is_empty-nil : (ss : List RenderSegment) → is_empty ss ≡ true → ss ≡ []
is_empty-nil [] h = refl
is_empty-nil (s ∷ ss) h = cc h

marker_some_byte : All (λ kind. 0 < length (marker kind)) privacy_token_kinds
unfolding marker
marker_some_byte = omega arith

module _ (matches : Matcher)
    (inside : (t : Bytes) → All (AreInside matches t) timestamp_patterns) where
  all_candidates-Fits : (text : Bytes) → All (Fits text) (all_candidates matches text)
  unfolding all_candidates timestamp_candidates address_candidates
  all_candidates-Fits text = sort-Fits text _ (
      All-append (Fits text) (timestamp_candidates matches text) _
        (sort-Fits text _ (
          All-append (Fits text) (marker_candidates 0 0 text) _
            (marker_candidates-Fits text 0 0 text refl)
            (all_pattern_candidates-Fits matches text timestamp_patterns (inside text))))
        (All-append (Fits text) (privacy_candidates text privacy_token_kinds) _
          (privacy_candidates-Fits text privacy_token_kinds marker_some_byte)
          (All-append (Fits text) (address_candidates text source_marker source_ip) _
            (at_positions-Fits text source_marker 90 source_ip no_token
              (occurrences source_marker 0 0 text) (omega arith) refl (λ k h. sym h.0)
              (occurrences-StandsAt source_marker text 0 0 text refl))
            (at_positions-Fits text destination_marker 90 destination_ip no_token
              (occurrences destination_marker 0 0 text) (omega arith) refl (λ k h. sym h.0)
              (occurrences-StandsAt destination_marker text 0 0 text refl)))))

  marker_positions-AllAt :
      (text : Bytes) → AllAt (all_candidates matches text) (marker_positions text)
  unfolding all_candidates
  marker_positions-AllAt text = sort-AllAt _ (marker_positions text) (
      AllAt-append_right (timestamp_candidates matches text) _ (marker_positions text) (
        AllAt-append _ _ (kind_positions text privacy_token_kinds) _
          (kind_positions-AllAt text privacy_token_kinds)
          (AllAt-append _ _ (occurrences source_marker 0 0 text) _
            (address_positions-AllAt text source_marker source_ip)
            (address_positions-AllAt text destination_marker destination_ip))))

  all_candidates-Sorted : (text : Bytes) → Sorted (all_candidates matches text)
  unfolding all_candidates
  all_candidates-Sorted text = sort-Sorted (
      timestamp_candidates matches text
      ++ (privacy_candidates text privacy_token_kinds
          ++ (address_candidates text source_marker source_ip
              ++ address_candidates text destination_marker destination_ip)))

  -- If, for each pattern of timestamps, the group that it takes of a place that `std::regex` finds
  -- lies in the text and is not empty, where it is matched, the segments of a text cover it: one piece of it after the other belongs to a segment, a literal to its own text, a
  -- private value and an address to the marker of it. No marker of a private value or of an address
  -- that a search for it finds begins in a literal.
  pub compile_segments-Covers :
      (text : Bytes) → Covers (marker_positions text) (compile_segments matches text) 0 text
  unfolding compile_segments
  compile_segments-Covers text =
      let marks = marker_positions text in
      let segments = segments_from text 0 (all_candidates matches text) in
      let covers =
        segments_from-Covers marks text 0 (all_candidates matches text) (all_candidates-Fits text)
          (all_candidates-Sorted text) (All-step (λ k. inr) marks (marker_positions-AllAt text)) in
      if-holds (λ ss. Covers marks ss 0 text) (is_empty segments)
        (λ none.
          let nothing : text ≡ [] =
            subst (λ ss. Covers marks ss 0 text) (is_empty-nil segments none) covers in
          (
            text,
            [],
            sym (append-nil text),
            refl,
            All-step (λ k _. inr (omega (arith, ap length nothing))) marks
                (marker_positions-AllAt text),
            refl,
          ))
        (λ _. covers)
