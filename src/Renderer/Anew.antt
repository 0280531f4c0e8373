-- ===== src/Renderer/Anew.antt =====
-- A rendering that puts its text together anew is right, and leaves the caches right.
use log_generator.Prelude.Int.{ℤ, pos}
use log_generator.Prelude.{
  ℕ, ◌/◌, ◌≡◌, refl, ap, sym, ◌∙◌, Bool, true, false, Bytes, if◌then◌else◌, if-holds, subst, ==_iff,
  Bool-cases, inl, inr, ◌==◌,
}
use log_generator.Renderer.Clock.{Tm}
use log_generator.Renderer.Coherent.{
  IsCoherent, text_at, output-text_at, renewed, renewed-Stamped, length-renewed,
}
use log_generator.Renderer.Fresh.{Stamped, IsWhole, fresh-NoStamps}
use log_generator.Renderer.Prepared.{PreparedLog, ProfileEntry, render_anew, render_segments}
use log_generator.Renderer.Seconds.{beginning}

pos-injective : {a b : ℕ} → pos a ≡ pos b → a ≡ b
pos-injective h = cc h

module _ (localtime : ℤ → Tm) where
  module _ (p : PreparedLog) (m : ℕ) (calendar_time : Bool) (profile_index : ℕ)
      (h : IsCoherent localtime p) (whole : IsWhole p.compiled.segments)
      (first : p.compiled.has_privacy ≡ false → profile_index ≡ 0) where
    abbrev anew : Bytes × PreparedLog
    anew = render_anew localtime p (pos m) (pos (m / 1000000000)) calendar_time profile_index

    pub render_anew-text_at :
        anew.0 ≡ text_at localtime p (m / 1000000000) calendar_time profile_index
    unfolding render_anew
    render_anew-text_at = output-text_at localtime p m calendar_time profile_index h whole

    abbrev output : Bytes
    output =
        render_segments localtime p (pos m) calendar_time profile_index p.compiled.segments
          (renewed localtime p m calendar_time profile_index h whole)

    output-other_second :
        (k : ℕ)
        → (p.compiled.has_timestamp ≡ true → pos (m / 1000000000) ≡ pos k)
        → output ≡ text_at localtime p k calendar_time profile_index
    output-other_second k e = elim (Bool-cases p.compiled.has_timestamp) [
      | inl stamped ↦
          let same : m / 1000000000 ≡ k = pos-injective (e stamped) in
          shown ∙ ap (λ n. text_at localtime p n calendar_time profile_index) same
      | inr plain ↦
          shown
          ∙ fresh-NoStamps localtime p.source_address p.destination_address _ _ _ _ profile_index
              p.compiled.segments (h.flags.no_stamps plain)
    ]
      where
        shown : output ≡ text_at localtime p (m / 1000000000) calendar_time profile_index
        shown = output-text_at localtime p m calendar_time profile_index h whole

    -- Without private values the text goes to `cached_`.
    cached-output :
        p.compiled.has_privacy ≡ false
        → (if p.compiled.cache_privacy_profiles then p.cached else output) ≡ output
    cached-output open_log = elim (Bool-cases p.compiled.cache_privacy_profiles) [
      | inl profiles ↦ cc (h.flags.profiles profiles, open_log)
      | inr none ↦ rw none refl
    ]

    -- An entry holds what a rendering at its second gives.
    abbrev Keeps : ℕ → ℕ → ProfileEntry → Type 0
    Keeps i k entry =
        entry.valid ≡ true
        → (p.compiled.has_timestamp ≡ true → entry.second ≡ pos k)
        → entry.text ≡ text_at localtime p k entry.calendar_time i

    new_entry-Keeps :
        (i k : ℕ)
        → (i == profile_index) ≡ true
        → Keeps i k (record {
          text = output;
          second = pos (m / 1000000000);
          calendar_time = calendar_time;
          valid = true;
        })
    new_entry-Keeps i k same valid e =
        subst (λ j. output ≡ text_at localtime p k calendar_time j)
          (sym ((==_iff i profile_index).0 same)) (output-other_second k e)

    pub render_anew-IsCoherent : IsCoherent localtime anew.1
    unfolding render_anew
    render_anew-IsCoherent = record {
      flags = h.flags;
      sized = length-renewed localtime p m calendar_time profile_index h whole;
      constant = λ plain open_log.
          cached-output open_log
          ∙ output-other_second 0 (λ q. cc (q, plain))
          ∙ ap (text_at localtime p 0 calendar_time) (first open_log)
          ∙ fresh-NoStamps localtime p.source_address p.destination_address _ _ _ _ 0
              p.compiled.segments (h.flags.no_stamps plain);
      last = λ open_log stamped k e.
          cached-output open_log
          ∙ output-other_second k (λ _. e)
          ∙ ap (text_at localtime p k calendar_time) (first open_log);
      stamps = λ hidden stamped k e.
          subst
            (λ n.
              Stamped localtime (beginning n) calendar_time p.compiled.segments
                (renewed localtime p m calendar_time profile_index h whole))
            (pos-injective e)
            (renewed-Stamped localtime p m calendar_time profile_index h whole hidden);
      kept = λ profiles i k.
          if-holds (λ (f : ℕ → ProfileEntry). Keeps i k (f i)) p.compiled.cache_privacy_profiles
            (λ _.
              if-holds (Keeps i k) (i == profile_index) (new_entry-Keeps i k)
                (λ _. h.kept profiles i k))
            (λ none. cc (profiles, none));
    }
