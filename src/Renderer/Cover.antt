-- ===== src/Renderer/Cover.antt =====
-- The segments of a text cover it from its beginning to its end.
use log_generator.Prelude.Positions.{drop-drop, drop-substr}
use log_generator.Prelude.Search.{substr}
use log_generator.Prelude.{
  ℕ, zero, suc, ◌+◌, ◌-◌, ◌≤◌, ◌<◌, ◌≡◌, refl, ap, sym, ◌∙◌, subst, false, List, [], ◌∷◌, ◌++◌,
  append-nil, ltb, Bytes, All, length, drop, length-drop, take-append-drop, arith, if-holds,
  length-take, ◌⊎◌, inl, inr, ltb→lt, ltb-false,
}
use log_generator.Renderer.Candidates.{
  RenderSegmentKind, source_ip, destination_ip, literal, timestamp, privacy, MatchCandidate,
}
use log_generator.Renderer.Order.{Sorted, At, At-after, All-step}
use log_generator.Renderer.Places.{is_literal, IsPiece, Fits}
use log_generator.Renderer.Segments.{RenderSegment, literal_segment, segment_of, segments_from}

-- No mark stands in a literal, which begins at `position`.
abbrev pub IsClear : List ℕ → ℕ → RenderSegment → Bytes → Type 0
IsClear marks position s piece = elim s.kind [
  | literal ↦ All (λ k. (k < position) ⊎ (position + length piece ≤ k)) marks
  | _ ↦ Unit {0}
]

-- From `position` on, one piece after the other is the text.
abbrev pub Covers : List ℕ → List RenderSegment → ℕ → Bytes → Type 0
Covers marks [] position text = text ≡ []
Covers marks (s ∷ ss) position text =
    (piece : Bytes) × (rest : Bytes) × (text ≡ piece ++ rest)
    × IsPiece s piece
    × IsClear marks position s piece
    × Covers marks ss (position + length piece) rest

literal-Covers :
    (marks : List ℕ) (text : Bytes) (position cursor : ℕ) (ss : List RenderSegment)
    → cursor ≤ position
    → position ≤ length text
    → All (λ k. (k < cursor) ⊎ (position ≤ k)) marks
    → Covers marks ss position (drop position text)
    → Covers marks
        (literal_segment (substr cursor (position - cursor) text) ∷ ss)
        cursor
        (drop cursor text)
literal-Covers marks text position cursor ss h inside clear rest =
    let e : cursor + length (substr cursor (position - cursor) text) ≡ position =
      omega (arith, length-take (position - cursor) (drop cursor text), length-drop cursor text) in
    (
      substr cursor (position - cursor) text,
      drop position text,
      drop-substr cursor position text h,
      refl,
      subst (λ b. All (λ k. (k < cursor) ⊎ (b ≤ k)) marks) (sym e) clear,
      subst (λ b. Covers marks ss b (drop position text)) (sym e) rest,
    )

drop-all : (k : ℕ) (xs : Bytes) → length xs ≤ k → drop k xs ≡ []
drop-all zero [] h = refl
drop-all zero (x ∷ xs) h = absurd (omega arith)
drop-all (suc k) [] h = refl
drop-all (suc k) (x ∷ xs) h = drop-all k xs (omega arith)

segment_of-Covers :
    (marks : List ℕ) (text : Bytes) (c : MatchCandidate) (ss : List RenderSegment)
    → Fits text c
    → Covers marks ss (c.position + c.match_length) (drop (c.position + c.match_length) text)
    → Covers marks (segment_of c ∷ ss) c.position (drop c.position text)
segment_of-Covers marks text c ss h rest =
    let e : c.position + length (substr c.position c.match_length text)
        ≡ c.position + c.match_length =
      omega (
        arith,
        h.0.1,
        length-take c.match_length (drop c.position text),
        length-drop c.position text,
      ) in
    (
      substr c.position c.match_length text,
      drop (c.position + c.match_length) text,
      sym (take-append-drop c.match_length (drop c.position text))
          ∙ ap (λ t. substr c.position c.match_length text ++ t)
              (drop-drop c.match_length c.position text),
      h.1,
      clear c.kind h.0.2,
      subst (λ b. Covers marks ss b (drop (c.position + c.match_length) text)) (sym e) rest,
    )
  where
    clear :
        (k : RenderSegmentKind)
        → is_literal k ≡ false
        → IsClear marks c.position
            (record (segment_of c) { kind = k })
            (substr c.position c.match_length text)
    clear literal h = cc h
    clear timestamp h = tt
    clear privacy h = tt
    clear source_ip h = tt
    clear destination_ip h = tt

-- What is known of a mark during the loop: it is behind the cursor, or a candidate begins there.
abbrev pub Seen : ℕ → List MatchCandidate → ℕ → Type 0
Seen cursor cs k = (k < cursor) ⊎ At k cs

pub segments_from-Covers :
    (marks : List ℕ) (text : Bytes) (cursor : ℕ) (cs : List MatchCandidate)
    → All (Fits text) cs
    → Sorted cs
    → All (Seen cursor cs) marks
    → Covers marks (segments_from text cursor cs) cursor (drop cursor text)
unfolding segments_from
segments_from-Covers marks text cursor [] h sorted seen =
    if-holds (λ ss. Covers marks ss cursor (drop cursor text)) (ltb cursor (length text))
      (λ _. (
        drop cursor text,
        [],
        sym (append-nil (drop cursor text)),
        refl,
        All-step (λ k s. elim s [ inl l ↦ inl l | inr a ↦ cc a ]) marks seen,
        refl,
      ))
      (λ past. drop-all cursor text (ground arith))
segments_from-Covers marks text cursor (c ∷ cs) h sorted seen =
    let next = c.position + c.match_length in
    let segments = segment_of c ∷ segments_from text next cs in
    if-holds (λ ss. Covers marks ss cursor (drop cursor text)) (ltb c.position cursor)
      (λ skipped.
        segments_from-Covers marks text cursor cs h.1 sorted.1
          (All-step (skip (ltb→lt c.position cursor skipped)) marks seen))
      (λ ahead.
        let here = segment_of-Covers marks text c _ h.0 (
          segments_from-Covers marks text next cs h.1 sorted.1
            (All-step (take_candidate (ltb-false c.position cursor ahead)) marks seen)) in
        if-holds (λ ss. Covers marks ss cursor (drop cursor text)) (ltb cursor c.position)
          (λ gap.
            literal-Covers marks text c.position cursor segments (ground arith)
              (omega (arith, h.0.0.1))
              (All-step
                (λ k s. elim s [
                  | inl l ↦ inl l
                  | inr a ↦ inr (At-after k c.position (c ∷ cs) (omega arith, sorted.0) a)
                ])
                marks seen)
              here)
          (λ close.
            let same : c.position ≡ cursor = ground arith in
            subst (λ k. Covers marks segments k (drop k text)) same here))
  where
    skip : c.position < cursor → (k : ℕ) → Seen cursor (c ∷ cs) k → Seen cursor cs k
    skip l k (inl s) = inl s
    skip l k (inr (inl e)) = inl (omega arith)
    skip l k (inr (inr a)) = inr a

    take_candidate :
        cursor ≤ c.position
        → (k : ℕ) → Seen cursor (c ∷ cs) k
        → Seen (c.position + c.match_length) cs k
    take_candidate l k (inl s) = inl (omega arith)
    take_candidate l k (inr (inl e)) = inl (omega (arith, h.0.0.0))
    take_candidate l k (inr (inr a)) = inr a
