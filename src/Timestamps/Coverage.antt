-- ===== src/Timestamps/Coverage.antt =====
-- In range mode the workers together run through every second of the range.
use mathlib.Core.Path.{ap₂}
use log_generator.Domain.{
  TimestampGeneration, TimestampGenerationMode, TimeRange, offset, range, inclusive_seconds, valid,
}
use log_generator.Prelude.Int.{ℤ, pos, negsuc, pos_part, neg_part, ◌+ℤ◌, ◌-ℤ◌, ◌*ℤ◌, ◌≤ℤ◌}
use log_generator.Prelude.Result.{ok}
use log_generator.Prelude.Words.{u64_mod}
use log_generator.Prelude.{
  ℕ, zero, suc, ◌+◌, ◌-◌, ◌*◌, ◌%◌, ◌^◌, ◌≤◌, ◌<◌, ◌≡◌, refl, subst, sym, ap, ◌∙◌, inl, inr, Bool,
  leb, if◌then◌else◌, Bool-cases, arith,
}
use native.Mathlib.Nat.{mod-lt, mod-eq_of_lt, mod-eq-sub-mod, add-mod}
use log_generator.Timestamps.{
  TimestampCursor, make_timestamp_cursor, make_in_mode, advance, next_in_mode, next_timestamp,
  instant, wrap_64, ticks_per_second,
}

-- The cursor after so many calls of `next`, whose clock readings play no part.
unfoldable pub after_calls : ℕ → TimestampCursor → ℤ → TimestampCursor
after_calls zero c reading = c
after_calls (suc k) c reading = after_calls k (next_timestamp c reading).1 reading

-- The cursor stands at turn `t` of a range of `span` seconds, and goes on by `w` turns.
record StandsAt (t w span : ℕ) (g : TimestampGeneration) (c : TimestampCursor) : Type 0 where
  some_seconds : 0 < span
  same_span : c.span ≡ span
  in_turn : c.position ≡ t % span
  stride : c.step ≡ w % span
  mode_is : g.mode ≡ range
  same_generation : c.generation ≡ g

wrap_step : (p s n : ℕ) → p < n → s < n → (if leb n (p + s) then p + s - n else p + s) ≡ (p + s) % n
wrap_step p s n h k = elim (Bool-cases (leb n (p + s))) [
  | inl over ↦ rw over (sym (mod-eq-sub-mod (ground arith) ∙ mod-eq_of_lt (omega arith)))
  | inr inside ↦ rw inside (sym (mod-eq_of_lt (ground arith)))
]

advance-StandsAt :
    (t w span : ℕ) (g : TimestampGeneration) (c : TimestampCursor)
    → StandsAt t w span g c
    → span ≤ 2 ^ 63
    → StandsAt (t + w) w span g (advance c)
unfolding advance
advance-StandsAt t w span g c v small = record {
  some_seconds = v.some_seconds;
  same_span = v.same_span;
  in_turn =
      rw (v.same_span, v.in_turn, v.stride, mod-eq_of_lt below)
        (wrap_step (t % span) (w % span) span first second ∙ sym (add-mod t w span));
  stride = v.stride;
  mode_is = v.mode_is;
  same_generation = v.same_generation;
}
  where
    first : t % span < span
    first = mod-lt t v.some_seconds

    second : w % span < span
    second = mod-lt w v.some_seconds

    below : t % span + w % span < u64_mod
    below = omega arith

next_in_mode-range :
    (m : TimestampGenerationMode) (c : TimestampCursor) (reading : ℤ)
    → m ≡ range
    → next_in_mode m c reading ≡ (instant (c.generation.range.start +ℤ pos c.position), advance c)
unfolding next_in_mode
next_in_mode-range offset c reading h = cc
next_in_mode-range range c reading h = refl

next_in_range :
    (t w span : ℕ) (g : TimestampGeneration) (c : TimestampCursor) (reading : ℤ)
    → StandsAt t w span g c
    → next_timestamp c reading ≡ (instant (g.range.start +ℤ pos (t % span)), advance c)
unfolding next_timestamp
next_in_range t w span g c reading v =
    next_in_mode-range c.generation.mode c reading (ap (λ h. h.mode) v.same_generation ∙ v.mode_is)
    ∙ ap₂ (λ (h : TimestampGeneration) p. (instant (h.range.start +ℤ pos p), advance c))
        v.same_generation v.in_turn

after_calls-StandsAt :
    (k t w span : ℕ) (g : TimestampGeneration) (c : TimestampCursor) (reading : ℤ)
    → StandsAt t w span g c
    → span ≤ 2 ^ 63
    → StandsAt (t + k * w) w span g (after_calls k c reading)
unfolding after_calls
after_calls-StandsAt zero t w span g c reading v small =
    subst (λ u. StandsAt u w span g c) (omega arith) v
after_calls-StandsAt (suc k) t w span g c reading v small =
    rw (next_in_range t w span g c reading v) (
      subst (λ u. StandsAt u w span g (after_calls k (advance c) reading)) (omega arith)
        (after_calls-StandsAt k (t + w) w span g (advance c) reading
          (advance-StandsAt t w span g c v small) small))

make-StandsAt :
    (g : TimestampGeneration) (i w : ℕ) (high_rate : Bool) (reading : ℤ) (c : TimestampCursor)
    → g.mode ≡ range
    → make_timestamp_cursor g i w high_rate reading ≡ ok c
    → StandsAt i w (inclusive_seconds g.range) g c
unfolding make_timestamp_cursor make_in_mode
make-StandsAt g i w high_rate reading c m e = ground arith

second-within :
    (r : TimeRange) (t : ℕ)
    → 0 < inclusive_seconds r
    → (r.start ≤ℤ r.start +ℤ pos (t % inclusive_seconds r))
      × (r.start +ℤ pos (t % inclusive_seconds r) ≤ℤ r.end)
unfolding inclusive_seconds valid ◌+ℤ◌ ◌-ℤ◌
second-within r t h = ground (arith, mod-lt t h)

-- The whole seconds that 64 bits of nanoseconds hold: about 292 years on either side of the epoch.
abbrev pub IsRepresentable : ℤ → Type 0
IsRepresentable s = (negsuc 9223372035 ≤ℤ s) × (s ≤ℤ pos 9223372036)

wrap_64-small : (x : ℤ) → pos_part x < 2 ^ 63 → neg_part x ≤ 2 ^ 63 → wrap_64 x ≡ x
unfolding wrap_64
wrap_64-small (pos n) h k =
    let small : n % u64_mod ≡ n = mod-eq_of_lt (omega (arith, h)) in rw small (ground (arith, h))
wrap_64-small (negsuc n) h k =
    let small : n % u64_mod ≡ n = mod-eq_of_lt (omega (arith, k)) in rw small (ground (arith, k))

instant_parts :
    (s : ℤ)
    → IsRepresentable s
    → (pos_part (s *ℤ pos ticks_per_second) < 2 ^ 63)
      × (neg_part (s *ℤ pos ticks_per_second) ≤ 2 ^ 63)
unfolding ◌*ℤ◌
instant_parts (pos n) h = ground arith
instant_parts (negsuc n) h = ground arith

instant-IsRepresentable : (s : ℤ) → IsRepresentable s → instant s ≡ s *ℤ pos ticks_per_second
unfolding instant
instant-IsRepresentable s h =
    let (positive, negative) = instant_parts s h in
    wrap_64-small (s *ℤ pos ticks_per_second) positive negative

inclusive_seconds-small :
    (r : TimeRange) → IsRepresentable r.start → IsRepresentable r.end → inclusive_seconds r ≤ 2 ^ 63
unfolding inclusive_seconds valid ◌-ℤ◌
inclusive_seconds-small r h k = ground arith

-- In range mode, with both ends of the range in 64 bits of nanoseconds, call number `k` (from 0) of a cursor that
-- is made for worker `i` of `w` yields, in nanoseconds, the second `start + (i + k * w) % span`, where `span` is the
-- number of seconds in the range, and this second lies in the range.
pub timestamps-cover :
    (g : TimestampGeneration) (i w k : ℕ) (high_rate : Bool) (r₀ r₁ r₂ : ℤ) (c : TimestampCursor)
    → g.mode ≡ range
    → IsRepresentable g.range.start
    → IsRepresentable g.range.end
    → make_timestamp_cursor g i w high_rate r₀ ≡ ok c
    → let second = g.range.start +ℤ pos ((i + k * w) % inclusive_seconds g.range) in
      ((next_timestamp (after_calls k c r₁) r₂).0 ≡ second *ℤ pos ticks_per_second)
      × (g.range.start ≤ℤ second)
      × (second ≤ℤ g.range.end)
timestamps-cover g i w k high_rate r₀ r₁ r₂ c m from until e =
    let small = inclusive_seconds-small g.range from until in
    let at₀ = make-StandsAt g i w high_rate r₀ c m e in
    let at = after_calls-StandsAt k i w (inclusive_seconds g.range) g c r₁ at₀ small in
    let (low, high) = second-within g.range (i + k * w) at₀.some_seconds in
    (
      ap (λ p. p.0) (next_in_range _ w _ g _ r₂ at)
          ∙ instant-IsRepresentable (g.range.start +ℤ pos ((i + k * w) % inclusive_seconds g.range))
              (omega (arith, low, from), omega (arith, high, until)),
      low,
      high,
    )
