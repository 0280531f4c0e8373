-- ===== src/FileLogger.antt =====
-- src/infrastructure/async_file_logger.cpp and src/application/ports/logger.hpp: a bounded queue of
-- entries, which callers fill and one thread empties into a file for each day. The clock, the local
-- time and the file system are arguments or steps of Steps.
pub mod Lines
pub mod Steps
pub mod Delivery
use log_generator.Prelude.Decimal.{to_string}
use log_generator.Prelude.Int.{ℤ, pos, negsuc}
use log_generator.Prelude.Result.{Result, ok, throws, invalid_argument, ◌>>=◌, ◌>>◌, throw_if}
use log_generator.Prelude.{
  ℕ, suc, ◌+◌, ◌/◌, ◌%◌, Bool, true, false, not, ◌&&◌, List, [], ◌∷◌, ◌++◌, Option, none, some,
  ◌==◌, leb, Bytes, codes, equal, is_empty, length, take, if◌then◌else◌,
}
use log_generator.Renderer.Clock.{Tm, pad, pad_year, two, clock_text}

pub data LogLevel : Type 0 where
  debug info warning error critical : LogLevel

unfoldable pub log_level_name : LogLevel → Bytes
log_level_name debug = codes "DEBUG"
log_level_name info = codes "INFO"
log_level_name warning = codes "WARN"
log_level_name error = codes "ERROR"
log_level_name critical = codes "CRITICAL"

-- The instant in nanoseconds since the epoch.
pub record Entry : Type 0 where
  pub timestamp : ℤ
  pub level : LogLevel
  pub thread_id : ℕ
  pub message : Bytes

-- No line feed is left, and no carriage return.
unfoldable pub sanitize_message : Bytes → Bytes
sanitize_message [] = []
sanitize_message (c ∷ cs) =
    let rest = sanitize_message cs in
    if c == 13 then rest else if c == 10 then 92 ∷ b'n' ∷ rest else c ∷ rest

-- The members; what `run` has taken from the queue and not written yet is `pending`, and a file that
-- is open has its date in `active_date`.
pub record AsyncFileLogger : Type 0 where
  pub queue_capacity : ℕ
  pub queue : List Entry
  pub pending : List Entry
  pub accepting : Bool
  pub dropped_pending : ℕ
  pub dropped_total : ℕ
  pub active_date : Option Bytes

-- The checks of the constructor.
unfoldable pub make_logger : Bytes → ℕ → Result AsyncFileLogger
make_logger base_name queue_capacity = do
  throw_if (is_empty base_name) (invalid_argument (codes "Logger base name must not be empty"))
  throw_if (queue_capacity == 0)
      (invalid_argument (codes "Logger queue capacity must be greater than zero"))
  ok (record {
    queue_capacity = queue_capacity;
    queue = [];
    pending = [];
    accepting = true;
    dropped_pending = 0;
    dropped_total = 0;
    active_date = none;
  })

-- `log`, whose lock makes it one step.
unfoldable pub log : AsyncFileLogger → Entry → AsyncFileLogger
log logger entry =
    if not logger.accepting
    then logger
    else if leb logger.queue_capacity (length logger.queue)
    then record logger {
      dropped_pending = logger.dropped_pending + 1;
      dropped_total = logger.dropped_total + 1;
    }
    else record logger { queue = logger.queue ++ entry ∷ [] }

-- The `catch` of `log`: an exception on the way to the queue drops the entry.
unfoldable pub log_failed : AsyncFileLogger → AsyncFileLogger
log_failed logger = record logger {
  dropped_pending = logger.dropped_pending + 1;
  dropped_total = logger.dropped_total + 1;
}

-- `queue_.swap(pending)`, where nothing is pending.
unfoldable pub swap : AsyncFileLogger → AsyncFileLogger
swap logger = record logger { queue = logger.pending; pending = logger.queue }

-- `dropped_pending_.exchange(0)`.
unfoldable pub exchange_dropped : AsyncFileLogger → ℕ × AsyncFileLogger
exchange_dropped logger = (logger.dropped_pending, record logger { dropped_pending = 0 })

unfoldable pub is_urgent : LogLevel → Bool
is_urgent error = true
is_urgent critical = true
is_urgent _ = false

-- `count() % 1000` of the milliseconds, with the sign that C++ gives it.
abbrev pub milliseconds : ℤ → Bytes
milliseconds (pos n) = pad 3 (n / 1000000 % 1000)
milliseconds (negsuc n) =
    let m = suc n / 1000000 % 1000 in if m == 0 then pad 3 0 else b'-' ∷ pad 2 m

unfoldable pub date_key : Tm → Bytes
unfolding to_string
date_key t = take 15 (pad_year t.tm_year ++ (two (t.tm_mon + 1) ++ two t.tm_mday))

unfoldable pub time_stamp : Tm → ℤ → Bytes
unfolding to_string
time_stamp t point = take 63 (
    pad_year t.tm_year
    ++ (b'-'
        ∷ (two (t.tm_mon + 1)
            ++ (b'-' ∷ (two t.tm_mday ++ (b' ' ∷ (clock_text t ++ (b'.' ∷ milliseconds point))))))))

-- A line, without its line feed, and with it.
unfoldable pub entry_line : (ℤ → Tm) → Entry → Bytes
unfolding time_stamp log_level_name sanitize_message to_string
entry_line local_time entry =
    b'['
    ∷ (time_stamp (local_time entry.timestamp) entry.timestamp
        ++ (codes "] ["
            ++ (log_level_name entry.level
                ++ (codes "] [T"
                    ++ (to_string entry.thread_id
                        ++ (codes "] " ++ sanitize_message entry.message))))))

unfoldable pub format_entry : (ℤ → Tm) → Entry → Bytes
unfolding entry_line
format_entry local_time entry = entry_line local_time entry ++ 10 ∷ []

-- The entry of `write_dropped_notice`.
unfoldable pub dropped_notice : ℤ → ℕ → ℕ → Entry
dropped_notice now thread_id count = record {
  timestamp = now;
  level = warning;
  thread_id = thread_id;
  message = codes "Logger queue discarded " ++ (to_string count ++ codes " entries");
}

-- `open_for`: whether a file is opened, and the logger with the file of the date.
unfoldable pub open_for : (ℤ → Tm) → AsyncFileLogger → ℤ → Bool × AsyncFileLogger
unfolding date_key
open_for local_time logger timestamp =
    let requested_date = date_key (local_time timestamp) in
    let opened : Bool × AsyncFileLogger =
      (true, record logger { active_date = some requested_date }) in
    elim logger.active_date [
      | none ↦ opened
      | some active ↦ if equal requested_date active then (false, logger) else opened
    ]

-- The path behind the directory.
unfoldable pub log_path : Bytes → Bytes → Bytes
log_path base_name date = base_name ++ (b'_' ∷ (date ++ codes ".log"))
