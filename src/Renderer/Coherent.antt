-- ===== src/Renderer/Coherent.antt =====
-- The caches of a prepared log hold what a rendering without caches would give.
use log_generator.Prelude.Int.{ℤ, pos, negsuc}
use log_generator.Prelude.{
  ℕ, ◌/◌, ◌≡◌, refl, ap, ◌∙◌, Bool, true, false, List, Bytes, length, arith, if◌then◌else◌,
  if-holds, subst, Bool-cases, inl, inr, not, ◌&&◌, ◌||◌,
}
use log_generator.Renderer.Clock.{Tm}
use log_generator.Renderer.Fresh.{
  IsWhole, NoStamps, fresh, fresh-second, Stamped, renew-Stamped, length-renew, Stamped-second,
  Stamped-NoStamps, render_segments-unstamped, render_segments-Stamped,
}
use log_generator.Renderer.Prepared.{PreparedLog, equal_ℤ, equal_Bool, renew, render_segments}
use log_generator.Renderer.Seconds.{beginning}
use log_generator.Renderer.Segments.{CompiledLog}

-- The flags of a compiled log say what its segments are.
pub record IsCompiled (c : CompiledLog) : Type 0 where
  pub no_stamps : c.has_timestamp ≡ false → NoStamps c.segments
  pub profiles : c.cache_privacy_profiles ≡ true → c.has_privacy ≡ true

module _ (localtime : ℤ → Tm) where
  abbrev pub text_at : PreparedLog → ℕ → Bool → ℕ → Bytes
  text_at p second calendar_time profile_index =
      fresh localtime p.source_address p.destination_address (beginning second) calendar_time
        profile_index p.compiled.segments

  pub record IsCoherent (p : PreparedLog) : Type 0 where
    pub flags : IsCompiled p.compiled
    pub sized : length p.timestamp_cache ≡ length p.compiled.segments
    pub constant :
        p.compiled.has_timestamp ≡ false
        → p.compiled.has_privacy ≡ false
        → p.cached ≡ text_at p 0 false 0
    pub last :
        p.compiled.has_privacy ≡ false
        → p.compiled.has_timestamp ≡ true
        → (n : ℕ) → p.cached_second ≡ pos n
        → p.cached ≡ text_at p n p.cached_calendar_time 0
    pub stamps :
        p.compiled.has_privacy ≡ true
        → p.compiled.has_timestamp ≡ true
        → (n : ℕ) → p.cached_second ≡ pos n
        → Stamped localtime
            (beginning n)
            p.cached_calendar_time
            p.compiled.segments
            p.timestamp_cache
    pub kept :
        p.compiled.cache_privacy_profiles ≡ true
        → (i n : ℕ) → (p.privacy_cache i).valid ≡ true
        → (p.compiled.has_timestamp ≡ true → (p.privacy_cache i).second ≡ pos n)
        → (p.privacy_cache i).text ≡ text_at p n (p.privacy_cache i).calendar_time i

  pub equal_ℤ-sound : (a : ℤ) (n : ℕ) → equal_ℤ (pos n) a ≡ true → a ≡ pos n
  equal_ℤ-sound (pos m) n h = ap pos (ground arith)
  equal_ℤ-sound (negsuc m) n h = cc h

  pub equal_Bool-sound : (a b : Bool) → equal_Bool a b ≡ true → b ≡ a
  equal_Bool-sound true b h = h
  equal_Bool-sound false true h = cc h
  equal_Bool-sound false false h = refl

  -- A rendering with new texts, at the second of the instant `m`.
  module _ (p : PreparedLog) (m : ℕ) (calendar_time : Bool) (profile_index : ℕ) (h : IsCoherent p)
      (whole : IsWhole p.compiled.segments) where
    abbrev pub second : ℕ
    second = m / 1000000000

    abbrev pub stale : Bool
    stale =
        not (equal_ℤ (pos second) p.cached_second)
        || not (equal_Bool calendar_time p.cached_calendar_time)

    abbrev pub renewed : List Bytes
    renewed =
        if p.compiled.has_privacy && (p.compiled.has_timestamp && stale)
        then renew localtime (pos m) calendar_time p.compiled.segments p.timestamp_cache
        else p.timestamp_cache

    pub length-renewed : length renewed ≡ length p.compiled.segments
    length-renewed =
        if-holds (λ (t : List Bytes). length t ≡ length p.compiled.segments)
          (p.compiled.has_privacy && (p.compiled.has_timestamp && stale))
          (λ _.
            length-renew localtime (pos m) calendar_time p.compiled.segments p.timestamp_cache
            ∙ h.sized)
          (λ _. h.sized)

    pub renewed-Stamped :
        p.compiled.has_privacy ≡ true
        → Stamped localtime (beginning second) calendar_time p.compiled.segments renewed
    renewed-Stamped hidden = elim (Bool-cases p.compiled.has_timestamp) [
      | inr none ↦
          Stamped-NoStamps localtime (beginning second) calendar_time p.compiled.segments renewed
            (h.flags.no_stamps none) length-renewed
      | inl some_stamp ↦
          if-holds (λ t. Stamped localtime (beginning second) calendar_time p.compiled.segments t)
            (p.compiled.has_privacy && (p.compiled.has_timestamp && stale))
            (λ _. Stamped-second localtime m calendar_time p.compiled.segments _ whole (
              renew-Stamped localtime (pos m) calendar_time p.compiled.segments p.timestamp_cache
                h.sized))
            (λ current.
              let same_second : equal_ℤ (pos second) p.cached_second ≡ true = ground arith in
              let same_time : equal_Bool calendar_time p.cached_calendar_time ≡ true =
                ground arith in
              subst
                (λ c. Stamped localtime (beginning second) c p.compiled.segments p.timestamp_cache)
                (equal_Bool-sound calendar_time p.cached_calendar_time same_time)
                (h.stamps hidden some_stamp second
                  (equal_ℤ-sound p.cached_second second same_second)))
    ]

    pub output-text_at :
        render_segments localtime p (pos m) calendar_time profile_index p.compiled.segments renewed
        ≡ text_at p second calendar_time profile_index
    output-text_at = elim (Bool-cases p.compiled.has_privacy) [
      | inl hidden ↦
          render_segments-Stamped localtime p (pos m) (beginning second) calendar_time profile_index
            p.compiled.segments renewed hidden (renewed-Stamped hidden)
      | inr open_log ↦
          render_segments-unstamped localtime p (pos m) calendar_time profile_index
            p.compiled.segments renewed open_log length-renewed
          ∙ fresh-second localtime p.source_address p.destination_address m calendar_time
              profile_index p.compiled.segments whole
    ]
