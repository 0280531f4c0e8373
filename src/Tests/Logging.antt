-- ===== src/Tests/Logging.antt =====
-- The logger on concrete entries.
use log_generator.FileLogger.Lines.{format_entry-IsLine}
use log_generator.FileLogger.Steps.{History, first_history, after_log}
use log_generator.FileLogger.{AsyncFileLogger, Entry, error, warning, format_entry}
use log_generator.Prelude.Int.{pos, ◌+ℤ◌, ◌*ℤ◌}
use log_generator.Prelude.Decimal.{to_string}
use log_generator.Prelude.{◌≡◌, ◌≢◌, refl, [], ◌∷◌, ◌++◌, none, true, Bytes, codes, All}
use log_generator.Renderer.Clock.{convert_utc_time}

abbrev forged : Entry
forged = record {
  timestamp = pos 1709251198007000000;
  level = warning;
  thread_id = 12;
  message = codes "bad" ++ 13 ∷ 10 ∷ codes "[forged]";
}

forged_test :
    format_entry (λ t. convert_utc_time t) forged
    ≡ codes "[2024-02-29 23:59:58.007] [WARN] [T12] bad\\n[forged]" ++ 10 ∷ []
unfolding format_entry convert_utc_time ◌+ℤ◌ ◌*ℤ◌ to_string
forged_test = refl

format_entry-IsLine_example :
    (line : Bytes) × (format_entry (λ t. convert_utc_time t) forged ≡ line ++ 10 ∷ [])
    × All (λ c. c ≢ 10) line
format_entry-IsLine_example = format_entry-IsLine (λ t. convert_utc_time t) forged

abbrev small : AsyncFileLogger
small = record {
  queue_capacity = 1;
  queue = [];
  pending = [];
  accepting = true;
  dropped_pending = 0;
  dropped_total = 0;
  active_date = none;
}

abbrev second_entry : Entry
second_entry = record forged { level = error }

-- Two entries for one place.
abbrev full : History
full = after_log (after_log (first_history small) forged) second_entry
