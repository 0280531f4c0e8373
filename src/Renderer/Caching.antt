-- ===== src/Renderer/Caching.antt =====
-- A prepared log gives the texts that a rendering without caches gives.
use log_generator.Prelude.Int.{ℤ, pos, negsuc}
use log_generator.Prelude.{
  ℕ, ◌/◌, ◌≡◌, refl, ap, sym, ◌∙◌, Bool, true, false, Bytes, arith, if-holds, Bool-cases, inl, inr,
  not, ◌&&◌,
}
use log_generator.Renderer.Anew.{render_anew-text_at, render_anew-IsCoherent}
use log_generator.Renderer.Clock.{Tm}
use log_generator.Renderer.Coherent.{IsCoherent, text_at, equal_ℤ-sound, equal_Bool-sound}
use log_generator.Renderer.Fresh.{IsWhole, fresh, fresh-second, fresh-NoStamps}
use log_generator.Renderer.Prepared.{
  PreparedLog, render_adjusted, render_anew, is_kept, profile_of, drawn, equal_ℤ, equal_Bool,
}

equal_ℤ-pos : (a : ℤ) (n : ℕ) → equal_ℤ a (pos n) ≡ true → a ≡ pos n
equal_ℤ-pos (pos a) n h = ap pos (ground arith)
equal_ℤ-pos (negsuc a) n h = cc h

module _ (localtime : ℤ → Tm) where
  drawn-IsCoherent :
      (p : PreparedLog) → IsCoherent localtime p → IsCoherent localtime (drawn localtime p)
  unfolding drawn
  drawn-IsCoherent p h = record {
    flags = h.flags;
    sized = h.sized;
    constant = h.constant;
    last = h.last;
    stamps = h.stamps;
    kept = h.kept;
  }

  -- What a rendering at the instant `m` has to give.
  abbrev pub IsRight : PreparedLog → ℕ → Bool → Bytes × PreparedLog → Type 0
  IsRight p m calendar_time r =
      (r.0
        ≡ fresh localtime p.source_address p.destination_address (pos m) calendar_time
            (profile_of localtime p) p.compiled.segments)
      × IsCoherent localtime r.1

  module _ (p : PreparedLog) (m : ℕ) (calendar_time : Bool) (h : IsCoherent localtime p)
      (whole : IsWhole p.compiled.segments) where
    abbrev index : ℕ
    index = profile_of localtime p

    to_second :
        text_at localtime p (m / 1000000000) calendar_time index
        ≡ fresh localtime p.source_address p.destination_address
            (pos m)
            calendar_time
            index
            p.compiled.segments
    to_second = sym (
        fresh-second localtime p.source_address p.destination_address m calendar_time index
          p.compiled.segments whole)

    first_profile : p.compiled.has_privacy ≡ false → index ≡ 0
    unfolding profile_of
    first_profile open_log = rw open_log refl

    constant-IsRight :
        p.compiled.has_timestamp ≡ false
        → p.compiled.has_privacy ≡ false
        → IsRight p m calendar_time (p.cached, p)
    constant-IsRight plain open_log = (
      h.constant plain open_log
          ∙ ap (text_at localtime p 0 false) (sym (first_profile open_log))
          ∙ fresh-NoStamps localtime p.source_address p.destination_address _ _ _ _ index
              p.compiled.segments (h.flags.no_stamps plain),
      h,
    )

    last-IsRight :
        p.compiled.has_privacy ≡ false
        → p.compiled.has_timestamp ≡ true
        → equal_ℤ (pos (m / 1000000000)) p.cached_second ≡ true
        → equal_Bool calendar_time p.cached_calendar_time ≡ true
        → IsRight p m calendar_time (p.cached, p)
    last-IsRight open_log stamped same_second same_time = (
      h.last open_log stamped (m / 1000000000)
            (equal_ℤ-sound localtime p.cached_second (m / 1000000000) same_second)
          ∙ ap (λ c. text_at localtime p (m / 1000000000) c 0)
              (equal_Bool-sound localtime calendar_time p.cached_calendar_time same_time)
          ∙ ap (text_at localtime p (m / 1000000000) calendar_time) (sym (first_profile open_log))
          ∙ to_second,
      h,
    )

    kept-IsRight :
        is_kept localtime p (pos (m / 1000000000)) calendar_time index ≡ true
        → IsRight p m calendar_time ((p.privacy_cache index).text, drawn localtime p)
    unfolding is_kept
    kept-IsRight kept =
        let entry = p.privacy_cache index in
        let profiles : p.compiled.cache_privacy_profiles ≡ true = ground arith in
        let valid : entry.valid ≡ true = ground arith in
        (
          (elim (Bool-cases p.compiled.has_timestamp) [
            | inl stamped ↦
                let same_second : equal_ℤ entry.second (pos (m / 1000000000)) ≡ true =
                  ground arith in
                let same_time : equal_Bool entry.calendar_time calendar_time ≡ true =
                  ground arith in
                h.kept profiles index (m / 1000000000) valid
                  (λ _. equal_ℤ-pos entry.second (m / 1000000000) same_second)
                ∙ ap (λ c. text_at localtime p (m / 1000000000) c index)
                    (sym (equal_Bool-sound localtime entry.calendar_time calendar_time same_time))
                ∙ to_second
            | inr plain ↦
                h.kept profiles index (m / 1000000000) valid (λ q. cc (q, plain))
                ∙ fresh-NoStamps localtime p.source_address p.destination_address _ _ _ _ index
                    p.compiled.segments (h.flags.no_stamps plain)
          ]),
          drawn-IsCoherent p h,
        )

    anew-IsRight : IsRight p m calendar_time (
        render_anew localtime
          (drawn localtime p)
          (pos m)
          (pos (m / 1000000000))
          calendar_time
          index)
    unfolding drawn
    anew-IsRight =
        let q = drawn localtime p in
        let coherent = drawn-IsCoherent p h in
        (
          render_anew-text_at localtime q m calendar_time index coherent whole first_profile
              ∙ to_second,
          render_anew-IsCoherent localtime q m calendar_time index coherent whole first_profile,
        )

    pub render_adjusted-IsRight :
        IsRight p m calendar_time (render_adjusted localtime p (pos m) calendar_time)
    unfolding render_adjusted
    render_adjusted-IsRight =
        if-holds (IsRight p m calendar_time)
          (not p.compiled.has_timestamp && not p.compiled.has_privacy)
          (λ plain. constant-IsRight (ground arith) (ground arith))
          (λ live.
            if-holds (IsRight p m calendar_time)
              (not p.compiled.has_privacy
                && (equal_ℤ (pos (m / 1000000000)) p.cached_second
                    && equal_Bool calendar_time p.cached_calendar_time))
              (λ current. last-IsRight (ground arith) (ground arith) (ground arith) (ground arith))
              (λ _.
                if-holds (IsRight p m calendar_time)
                  (is_kept localtime p (pos (m / 1000000000)) calendar_time index)
                  (λ kept. kept-IsRight kept) (λ _. anew-IsRight)))
