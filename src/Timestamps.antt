-- ===== src/Timestamps.antt =====
-- src/application/stress_test_service.cpp: `CachedSystemClock` and `TimestampCursor`.
-- An instant is its count of ticks since the epoch. What `system_clock::now()` returns is an
-- argument, `reading`.
pub mod Coverage
use log_generator.Domain.{
  TimestampGeneration, TimestampGenerationMode, offset, range, inclusive_seconds,
}
use log_generator.Prelude.Int.{ℤ, pos, negsuc, ◌+ℤ◌, ◌*ℤ◌}
use log_generator.Prelude.Result.{Result, ok, throws, invalid_argument}
use log_generator.Prelude.Words.{u64_mod}
use log_generator.Prelude.{
  ℕ, ◌+◌, ◌-◌, ◌%◌, ◌^◌, ltb, Bool, true, false, not, ◌||◌, leb, ◌==◌, if◌then◌else◌, codes,
}

pub record CachedSystemClock : Type 0 where
  pub high_rate : Bool
  pub refresh_countdown : ℕ
  pub cached : ℤ

abbrev pub make_clock : Bool → ℤ → CachedSystemClock
make_clock high_rate reading = record {
  high_rate = high_rate;
  refresh_countdown = if high_rate then 255 else 0;
  cached = reading;
}

unfoldable pub clock_now : CachedSystemClock → ℤ → ℤ × CachedSystemClock
clock_now c reading =
    let refreshed = record c {
      cached = reading;
      refresh_countdown = if c.high_rate then 255 else 0;
    } in
    if not c.high_rate || c.refresh_countdown == 0
    then (reading, refreshed)
    else (c.cached, record c { refresh_countdown = c.refresh_countdown - 1 })

-- Ticks of a nanosecond, as in libstdc++.
abbrev pub ticks_per_second : ℕ
ticks_per_second = 1000000000

-- A 64-bit count of ticks. The conversion of C++ has no defined result out of its range, where this is
-- the wrap-around of the machine.
unfoldable pub wrap_64 : ℤ → ℤ
wrap_64 (pos n) = let m = n % u64_mod in if ltb m (2 ^ 63) then pos m else negsuc (u64_mod - 1 - m)
wrap_64 (negsuc n) =
    let m = n % u64_mod in if ltb m (2 ^ 63) then negsuc m else pos (u64_mod - 1 - m)

-- Seconds since the epoch as a time point of the system clock.
unfoldable pub instant : ℤ → ℤ
unfolding wrap_64
instant seconds = wrap_64 (seconds *ℤ pos ticks_per_second)

pub record TimestampCursor : Type 0 where
  pub generation : TimestampGeneration
  pub position : ℕ
  pub step : ℕ
  pub span : ℕ
  pub system_clock : CachedSystemClock

make_in_mode :
    TimestampGenerationMode
    → TimestampGeneration
    → ℕ
    → ℕ
    → CachedSystemClock
    → Result TimestampCursor
make_in_mode offset generation worker_index worker_count clock = ok (record {
  generation = generation;
  position = worker_index;
  step = worker_count;
  span = 0;
  system_clock = clock;
})
make_in_mode range generation worker_index worker_count clock =
    let span = inclusive_seconds generation.range in
    if span == 0
    then throws (invalid_argument (codes "Timestamp range is invalid"))
    else ok (record {
      generation = generation;
      position = worker_index % span;
      step = worker_count % span;
      span = span;
      system_clock = clock;
    })

unfoldable pub make_timestamp_cursor :
    TimestampGeneration → ℕ → ℕ → Bool → ℤ → Result TimestampCursor
unfolding make_in_mode
make_timestamp_cursor generation worker_index worker_count high_rate reading =
    make_in_mode generation.mode generation worker_index worker_count (make_clock high_rate reading)

-- `position_ += step_; if (position_ >= span_) position_ -= span_;` on 64-bit words.
advance : TimestampCursor → TimestampCursor
advance c =
    let moved = (c.position + c.step) % u64_mod in
    record c { position = if leb c.span moved then moved - c.span else moved }

next_in_mode : TimestampGenerationMode → TimestampCursor → ℤ → ℤ × TimestampCursor
unfolding clock_now advance instant
next_in_mode offset c reading =
    let (now, clock) = clock_now c.system_clock reading in (now, record c { system_clock = clock })
next_in_mode range c reading = (instant (c.generation.range.start +ℤ pos c.position), advance c)

unfoldable pub next_timestamp : TimestampCursor → ℤ → ℤ × TimestampCursor
unfolding next_in_mode
next_timestamp c reading = next_in_mode c.generation.mode c reading

unfoldable pub calendar_time : TimestampCursor → Bool
calendar_time c = elim c.generation.mode [ offset ↦ false | range ↦ true ]
