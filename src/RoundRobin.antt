-- ===== src/RoundRobin.antt =====
-- src/application/round_robin_cursor.hpp, and the class `WorkerRoundRobinCursor` of
-- src/application/stress_test_service.cpp, which reserves a block of turns for one worker.
-- Each operation returns its result with the new state; the shared cursor is an argument.
pub mod Turns
use log_generator.Prelude.Result.{Result, ok, throws, invalid_argument}
use log_generator.Prelude.Words.{u64_mod}
use log_generator.Prelude.{ℕ, ◌+◌, ◌-◌, ◌%◌, ◌==◌, if◌then◌else◌, codes}

pub record RoundRobinCursor : Type 0 where
  pub item_count : ℕ
  pub next : ℕ

unfoldable pub make_cursor : ℕ → Result RoundRobinCursor
make_cursor item_count =
    if item_count == 0
    then throws (invalid_argument (codes "Round-robin item count must be greater than zero"))
    else ok (record { item_count = item_count; next = 0 })

-- `fetch_add` wraps around at the width of `std::size_t`.
unfoldable pub reserve : ℕ → RoundRobinCursor → ℕ × RoundRobinCursor
reserve count c =
    if c.item_count == 1
    then (0, c)
    else (c.next % c.item_count, record c { next = (c.next + count) % u64_mod })

unfoldable pub next_index : RoundRobinCursor → ℕ × RoundRobinCursor
unfolding reserve
next_index c = reserve 1 c

pub record WorkerRoundRobinCursor : Type 0 where
  pub reservation_size : ℕ
  pub current : ℕ
  pub remaining : ℕ

abbrev pub make_worker_cursor : ℕ → WorkerRoundRobinCursor
make_worker_cursor reservation_size = record {
  reservation_size = reservation_size;
  current = 0;
  remaining = 0;
}

-- `if (remaining_ == 0) { ... }`.
refill : WorkerRoundRobinCursor → RoundRobinCursor → WorkerRoundRobinCursor × RoundRobinCursor
unfolding reserve
refill w c =
    if w.remaining == 0
    then (
      record w { current = (reserve w.reservation_size c).0; remaining = w.reservation_size },
      (reserve w.reservation_size c).1,
    )
    else (w, c)

take_turn : WorkerRoundRobinCursor → ℕ → WorkerRoundRobinCursor
take_turn w item_count = record w {
  current = if w.current + 1 == item_count then 0 else w.current + 1;
  remaining = (w.remaining + u64_mod - 1) % u64_mod;
}

pub worker_next :
    WorkerRoundRobinCursor → RoundRobinCursor → ℕ × WorkerRoundRobinCursor × RoundRobinCursor
worker_next w c = let (w', c') = refill w c in (w'.current, take_turn w' c'.item_count, c')
