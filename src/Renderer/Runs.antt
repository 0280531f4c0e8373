-- ===== src/Renderer/Runs.antt =====
-- A whole run of `render`, with and without the caches.
use log_generator.Prelude.Int.{ℤ, pos, ◌+ℤ◌, ◌*ℤ◌}
use log_generator.Prelude.{
  ℕ, zero, suc, ◌≡◌, refl, ap, sym, ◌∙◌, Bool, false, List, [], ◌∷◌, Bytes, All, arith, subst,
  if-holds, replicate, length, if◌then◌else◌, not, ◌&&◌,
}
use log_generator.Renderer.Caching.{render_adjusted-IsRight, IsRight}
use log_generator.Renderer.Clock.{Tm, whole_seconds}
use log_generator.Renderer.Coherent.{IsCompiled, IsCoherent}
use log_generator.Renderer.Fresh.{IsWhole, NoStamps, fresh, non_timestamp_texts-fresh}
use log_generator.Renderer.Prepared.{
  PreparedLog, members, render, render_adjusted, is_kept, profile_of, equal_ℤ, equal_Bool,
  render_anew, drawn, bind, initial_random_state, next_random_state, next_profile_index,
}
use log_generator.Renderer.Seconds.{beginning}
use log_generator.Renderer.Segments.{
  RenderSegment, CompiledLog, count_segment, count_segments, make_compiled_log,
}

count_segments-flags :
    (c : CompiledLog) (segments : List RenderSegment)
    → (count_segments c segments).has_timestamp ≡ false
    → (c.has_timestamp ≡ false) × NoStamps segments
unfolding count_segments
count_segments-flags c [] h = (h, tt)
count_segments-flags c (s ∷ ss) h =
    let (now, later) = count_segments-flags (count_segment s c) ss h in
    (unfold count_segment in ground arith, (unfold count_segment in ground arith, later))

count_segments-segments :
    (c : CompiledLog) (segments : List RenderSegment)
    → (count_segments c segments).segments ≡ c.segments
unfolding count_segments
count_segments-segments c [] = refl
count_segments-segments c (s ∷ ss) =
    count_segments-segments (count_segment s c) ss ∙ (unfold count_segment in ground arith)

make_compiled_log-segments :
    (segments : List RenderSegment) → (make_compiled_log segments).segments ≡ segments
unfolding make_compiled_log
make_compiled_log-segments segments = count_segments-segments _ segments

make_compiled_log-IsCompiled :
    (segments : List RenderSegment) → IsCompiled (make_compiled_log segments)
unfolding make_compiled_log
make_compiled_log-IsCompiled segments = record {
  no_stamps = λ h.
      subst NoStamps (sym (count_segments-segments _ segments))
        (count_segments-flags _ segments h).1;
  profiles = λ h. ground arith;
}

module _ (localtime : ℤ → Tm) where
  bind-IsCoherent :
      (sequence : ℕ) (compiled : CompiledLog) (source destination : Bytes) (offset : ℤ)
      → IsCompiled compiled
      → IsCoherent localtime (bind sequence compiled source destination offset)
  unfolding bind
  bind-IsCoherent sequence compiled source destination offset flags = record {
    flags = flags;
    sized = length-replicate (length compiled.segments);
    constant = λ plain open_log.
        rw (plain, open_log)
          (non_timestamp_texts-fresh localtime
            (members compiled source destination offset (initial_random_state sequence))
            (beginning 0) false 0 compiled.segments (flags.no_stamps plain));
    last = λ open_log stamped n e. cc e;
    stamps = λ hidden stamped n e. cc e;
    kept = λ profiles i n valid e. cc valid;
  }
    where
      length-replicate : (k : ℕ) → length (replicate {A = Bytes} k []) ≡ k
      length-replicate zero = refl
      length-replicate (suc k) = ap suc (length-replicate k)

  -- What a rendering does not change, and what becomes of the random state.
  record Keeps (p q : PreparedLog) : Type 0 where
    compiled : q.compiled ≡ p.compiled
    source : q.source_address ≡ p.source_address
    destination : q.destination_address ≡ p.destination_address
    offset : q.offset ≡ p.offset
    random_state :
        q.random_state
        ≡ (if p.compiled.has_privacy then next_random_state p.random_state else p.random_state)

  same-Keeps : (p : PreparedLog) → p.compiled.has_privacy ≡ false → Keeps p p
  same-Keeps p open_log = record {
    compiled = refl;
    source = refl;
    destination = refl;
    offset = refl;
    random_state = rw open_log refl;
  }

  render_adjusted-Keeps :
      (p : PreparedLog) (point : ℤ) (calendar_time : Bool)
      → Keeps p (render_adjusted localtime p point calendar_time).1
  unfolding render_adjusted render_anew drawn
  render_adjusted-Keeps p point calendar_time =
      let second = whole_seconds point in
      if-holds (λ (r : Bytes × PreparedLog). Keeps p r.1)
        (not p.compiled.has_timestamp && not p.compiled.has_privacy)
        (λ plain. same-Keeps p (ground arith))
        (λ live.
          if-holds (λ (r : Bytes × PreparedLog). Keeps p r.1)
            (not p.compiled.has_privacy
              && (equal_ℤ second p.cached_second
                  && equal_Bool calendar_time p.cached_calendar_time))
            (λ current. same-Keeps p (ground arith))
            (λ _.
              if-holds (λ (r : Bytes × PreparedLog). Keeps p r.1)
                (is_kept localtime p second calendar_time (profile_of localtime p))
                (λ _. record {
                  compiled = refl;
                  source = refl;
                  destination = refl;
                  offset = refl;
                  random_state = refl;
                })
                (λ _. record {
                  compiled = refl;
                  source = refl;
                  destination = refl;
                  offset = refl;
                  random_state = refl;
                })))

  -- The texts of a run of calls, each at an instant and with or without calendar time.
  unfoldable pub cached_run : PreparedLog → List (ℤ × Bool) → List Bytes
  cached_run p [] = []
  cached_run p ((now, calendar_time) ∷ calls) =
      let (text, later) = render localtime p now calendar_time in text ∷ cached_run later calls

  -- The same without caches: every text is put together from its segments.
  unfoldable pub plain_run : CompiledLog → Bytes → Bytes → ℤ → ℕ → List (ℤ × Bool) → List Bytes
  plain_run compiled source destination offset state [] = []
  plain_run compiled source destination offset state ((now, calendar_time) ∷ calls) =
      let later = if compiled.has_privacy then next_random_state state else state in
      fresh localtime source destination (now +ℤ offset *ℤ pos 1000000000) calendar_time
        (if compiled.has_privacy then next_profile_index (next_random_state state) else 0)
        compiled.segments
      ∷ plain_run compiled source destination offset later calls

  cached_run-plain :
      (p : PreparedLog) (calls : List (ℤ × Bool))
      → IsCoherent localtime p
      → IsWhole p.compiled.segments
      → All (λ c. (m : ℕ) × (c.0 +ℤ p.offset *ℤ pos 1000000000 ≡ pos m)) calls
      → cached_run p calls
        ≡ plain_run p.compiled p.source_address p.destination_address p.offset p.random_state calls
  unfolding cached_run plain_run render profile_of
  cached_run-plain p [] h whole after = refl
  cached_run-plain p ((now, calendar_time) ∷ calls) h whole ((m, e), after) =
      let point = now +ℤ p.offset *ℤ pos 1000000000 in
      let r = render_adjusted localtime p point calendar_time in
      let right : IsRight localtime p m calendar_time r =
        subst
          (λ t. IsRight localtime p m calendar_time (render_adjusted localtime p t calendar_time))
          (sym e) (render_adjusted-IsRight localtime p m calendar_time h whole) in
      let keeps = render_adjusted-Keeps p point calendar_time in
      let rest =
        cached_run-plain r.1 calls right.1
          (subst (λ c. IsWhole c.segments) (sym keeps.compiled) whole)
          (subst (λ o. All (λ c. (m : ℕ) × (c.0 +ℤ o *ℤ pos 1000000000 ≡ pos m)) calls)
            (sym keeps.offset) after) in
      let here =
        right.0
        ∙ ap
            (λ t.
              fresh localtime p.source_address p.destination_address t calendar_time
                (profile_of localtime p) p.compiled.segments)
            (sym e) in
      let later = rest ∙ (λ i.
        plain_run (keeps.compiled i) (keeps.source i) (keeps.destination i) (keeps.offset i)
          (keeps.random_state i) calls) in
      λ i. here i ∷ later i

  -- If no timestamp of the segments shows a fraction of a second and no call is at an instant before
  -- the epoch, the offset included, a prepared log gives in a run of calls the texts that are put
  -- together from the segments without caches, each with the profile that the random state chooses.
  pub cached_run-bind :
      (sequence : ℕ) (segments : List RenderSegment) (source destination : Bytes) (offset : ℤ)
      (calls : List (ℤ × Bool))
      → All (λ s. s.token.fractional_digits ≡ 0) segments
      → All (λ c. (m : ℕ) × (c.0 +ℤ offset *ℤ pos 1000000000 ≡ pos m)) calls
      → cached_run (bind sequence (make_compiled_log segments) source destination offset) calls
        ≡ plain_run
            (make_compiled_log segments)
            source
            destination
            offset
            (initial_random_state sequence)
            calls
  cached_run-bind sequence segments source destination offset calls whole after =
      let compiled = make_compiled_log segments in
      unfold bind in
      cached_run-plain (bind sequence compiled source destination offset) calls
        (bind-IsCoherent sequence compiled source destination offset
          (make_compiled_log-IsCompiled segments))
        (subst IsWhole (sym (make_compiled_log-segments segments)) whole) after
