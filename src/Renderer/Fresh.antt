-- ===== src/Renderer/Fresh.antt =====
-- A rendering without caches, and what the loops of `PreparedLog` have to do with it.
use log_generator.Prelude.Int.{ℤ, pos}
use log_generator.Prelude.{
  ℕ, suc, ◌/◌, ◌≡◌, refl, ap, ◌∙◌, Bool, true, false, List, [], ◌∷◌, ◌++◌, Bytes, All, length,
  arith,
}
use log_generator.Privacy.{synthetic_value}
use log_generator.Renderer.Candidates.{
  RenderSegmentKind, literal, timestamp, privacy, source_ip, destination_ip,
}
use log_generator.Renderer.Clock.{Tm, timestamp_text}
use log_generator.Renderer.Prepared.{
  PreparedLog, non_timestamp_text, non_timestamp_texts, renew, render_segments,
}
use log_generator.Renderer.Seconds.{beginning, timestamp_text-second}
use log_generator.Renderer.Segments.{RenderSegment}

-- No timestamp shows a fraction of a second.
abbrev pub IsWhole : List RenderSegment → Type 0
IsWhole = All (λ s. s.token.fractional_digits ≡ 0)

abbrev pub is_timestamp : RenderSegmentKind → Bool
is_timestamp timestamp = true
is_timestamp _ = false

abbrev pub NoStamps : List RenderSegment → Type 0
NoStamps = All (λ s. is_timestamp s.kind ≡ false)

module _ (localtime : ℤ → Tm) where
  -- The text of a segment at an instant.
  unfoldable pub segment_text : Bytes → Bytes → ℤ → Bool → ℕ → RenderSegment → Bytes
  segment_text source destination point calendar_time profile_index segment = elim segment.kind [
    | literal ↦ segment.text
    | timestamp ↦ timestamp_text localtime segment.token point calendar_time
    | privacy ↦ synthetic_value segment.privacy_kind profile_index
    | source_ip ↦ source
    | destination_ip ↦ destination
  ]

  unfoldable pub fresh : Bytes → Bytes → ℤ → Bool → ℕ → List RenderSegment → Bytes
  unfolding segment_text
  fresh source destination point calendar_time profile_index [] = []
  fresh source destination point calendar_time profile_index (s ∷ ss) =
      segment_text source destination point calendar_time profile_index s
      ++ fresh source destination point calendar_time profile_index ss

  segment_text-second :
      (source destination : Bytes) (m : ℕ) (calendar_time : Bool) (profile_index : ℕ)
      (s : RenderSegment)
      → s.token.fractional_digits ≡ 0
      → segment_text source destination (pos m) calendar_time profile_index s
        ≡ segment_text source destination (beginning (m / 1000000000)) calendar_time profile_index s
  unfolding segment_text
  segment_text-second source destination m calendar_time profile_index s whole =
      ground (arith, timestamp_text-second localtime m s.token calendar_time whole)

  pub fresh-second :
      (source destination : Bytes) (m : ℕ) (calendar_time : Bool) (profile_index : ℕ)
      (segments : List RenderSegment)
      → IsWhole segments
      → fresh source destination (pos m) calendar_time profile_index segments
        ≡ fresh source destination (beginning (m / 1000000000)) calendar_time profile_index segments
  unfolding fresh
  fresh-second source destination m calendar_time profile_index [] whole = refl
  fresh-second source destination m calendar_time profile_index (s ∷ ss) whole =
      let first = segment_text-second source destination m calendar_time profile_index s whole.0 in
      let rest = fresh-second source destination m calendar_time profile_index ss whole.1 in
      λ i. first i ++ rest i

  -- Without timestamps the instant does not matter.
  pub fresh-NoStamps :
      (source destination : Bytes) (a b : ℤ) (c d : Bool) (profile_index : ℕ)
      (segments : List RenderSegment)
      → NoStamps segments
      → fresh source destination a c profile_index segments
        ≡ fresh source destination b d profile_index segments
  unfolding fresh segment_text
  fresh-NoStamps source destination a b c d profile_index [] none = refl
  fresh-NoStamps source destination a b c d profile_index (s ∷ ss) none =
      ground (arith, none, fresh-NoStamps source destination a b c d profile_index ss none.1)

  -- The texts of the timestamps are those of an instant.
  abbrev pub Stamped : ℤ → Bool → List RenderSegment → List Bytes → Type 0
  Stamped point calendar_time [] texts = Unit
  Stamped point calendar_time (s ∷ ss) [] = true ≡ false
  Stamped point calendar_time (s ∷ ss) (t ∷ ts) =
      (is_timestamp s.kind ≡ true → t ≡ timestamp_text localtime s.token point calendar_time)
      × Stamped point calendar_time ss ts

  pub renew-Stamped :
      (point : ℤ) (calendar_time : Bool) (segments : List RenderSegment) (texts : List Bytes)
      → length texts ≡ length segments
      → Stamped point calendar_time segments (renew localtime point calendar_time segments texts)
  unfolding renew
  renew-Stamped point calendar_time [] texts e = tt
  renew-Stamped point calendar_time (s ∷ ss) [] e = absurd (omega (arith, e))
  renew-Stamped point calendar_time (s ∷ ss) (t ∷ ts) e =
      (ground arith, renew-Stamped point calendar_time ss ts (omega (arith, e)))

  pub length-renew :
      (point : ℤ) (calendar_time : Bool) (segments : List RenderSegment) (texts : List Bytes)
      → length (renew localtime point calendar_time segments texts) ≡ length texts
  unfolding renew
  length-renew point calendar_time [] texts = refl
  length-renew point calendar_time (s ∷ ss) [] = refl
  length-renew point calendar_time (s ∷ ss) (t ∷ ts) =
      ap suc (length-renew point calendar_time ss ts)

  pub Stamped-second :
      (m : ℕ) (calendar_time : Bool) (segments : List RenderSegment) (texts : List Bytes)
      → IsWhole segments
      → Stamped (pos m) calendar_time segments texts
      → Stamped (beginning (m / 1000000000)) calendar_time segments texts
  Stamped-second m calendar_time [] texts whole h = tt
  Stamped-second m calendar_time (s ∷ ss) [] whole h = h
  Stamped-second m calendar_time (s ∷ ss) (t ∷ ts) whole h = (
    λ q. h.0 q ∙ timestamp_text-second localtime m s.token calendar_time whole.0,
    Stamped-second m calendar_time ss ts whole.1 h.1,
  )

  pub Stamped-NoStamps :
      (point : ℤ) (calendar_time : Bool) (segments : List RenderSegment) (texts : List Bytes)
      → NoStamps segments
      → length texts ≡ length segments
      → Stamped point calendar_time segments texts
  Stamped-NoStamps point calendar_time [] texts none e = tt
  Stamped-NoStamps point calendar_time (s ∷ ss) [] none e = absurd (omega (arith, e))
  Stamped-NoStamps point calendar_time (s ∷ ss) (t ∷ ts) none e =
      (λ q. cc (none.0, q), Stamped-NoStamps point calendar_time ss ts none.1 (omega (arith, e)))

  -- The loops of a prepared log, against the rendering without caches.
  module _ (p : PreparedLog) where
    pub non_timestamp_texts-fresh :
        (point : ℤ) (calendar_time : Bool) (profile_index : ℕ) (segments : List RenderSegment)
        → NoStamps segments
        → non_timestamp_texts p profile_index segments
          ≡ fresh p.source_address p.destination_address point calendar_time profile_index segments
    unfolding non_timestamp_texts fresh segment_text non_timestamp_text
    non_timestamp_texts-fresh point calendar_time profile_index [] none = refl
    non_timestamp_texts-fresh point calendar_time profile_index (s ∷ ss) none =
        ground (arith, none, non_timestamp_texts-fresh point calendar_time profile_index ss none.1)

    pub render_segments-unstamped :
        (point : ℤ) (calendar_time : Bool) (profile_index : ℕ) (segments : List RenderSegment)
        (texts : List Bytes)
        → p.compiled.has_privacy ≡ false
        → length texts ≡ length segments
        → render_segments localtime p point calendar_time profile_index segments texts
          ≡ fresh p.source_address p.destination_address point calendar_time profile_index segments
    unfolding render_segments fresh segment_text non_timestamp_text
    render_segments-unstamped point calendar_time profile_index [] texts open_log e = refl
    render_segments-unstamped point calendar_time profile_index (s ∷ ss) [] open_log e =
        absurd (omega (arith, e))
    render_segments-unstamped point calendar_time profile_index (s ∷ ss) (t ∷ ts) open_log e =
        let rest =
          render_segments-unstamped point calendar_time profile_index ss ts open_log
            (omega (arith, e)) in
        ground (arith, open_log, rest)

    pub render_segments-Stamped :
        (now point : ℤ) (calendar_time : Bool) (profile_index : ℕ) (segments : List RenderSegment)
        (texts : List Bytes)
        → p.compiled.has_privacy ≡ true
        → Stamped point calendar_time segments texts
        → render_segments localtime p now calendar_time profile_index segments texts
          ≡ fresh p.source_address p.destination_address point calendar_time profile_index segments
    unfolding render_segments fresh segment_text non_timestamp_text
    render_segments-Stamped now point calendar_time profile_index [] texts hidden h = refl
    render_segments-Stamped now point calendar_time profile_index (s ∷ ss) [] hidden h = cc h
    render_segments-Stamped now point calendar_time profile_index (s ∷ ss) (t ∷ ts) hidden h =
        ground (
          arith,
          hidden,
          h.0,
          render_segments-Stamped now point calendar_time profile_index ss ts hidden h.1,
        )
