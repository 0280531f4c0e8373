-- ===== src/FileLogger/Steps.antt =====
-- The logger in the course of time: its callers, its thread and its end, one step after the other, with
-- a record of what has been offered, taken and written.
use log_generator.FileLogger.{AsyncFileLogger, Entry, log, log_failed, swap, exchange_dropped}
use log_generator.Prelude.{
  ℕ, suc, ◌+◌, ◌≡◌, Bool, true, false, not, ◌&&◌, List, [], ◌∷◌, ◌++◌, leb, length, if◌then◌else◌,
}

-- `offered` counts the calls of `log` before the end, `accepted` holds the entries that went into the
-- queue, `written` those that are in a file, and `noticed` counts the dropped ones of the notices that
-- are in a file. `unnoticed` is what `exchange(0)` has returned and no notice tells yet.
pub record History : Type 0 where
  pub logger : AsyncFileLogger
  pub alive : Bool
  pub offered : ℕ
  pub accepted : List Entry
  pub written : List Entry
  pub unnoticed : ℕ
  pub noticed : ℕ

abbrev pub first_history : AsyncFileLogger → History
first_history logger = record {
  logger = logger;
  alive = true;
  offered = 0;
  accepted = [];
  written = [];
  unnoticed = 0;
  noticed = 0;
}

-- Whether a call of `log` puts its entry into the queue.
abbrev pub takes : AsyncFileLogger → Bool
takes l = l.accepting && not (leb l.queue_capacity (length l.queue))

abbrev pub after_log : History → Entry → History
after_log h entry = record h {
  logger = log h.logger entry;
  offered = if h.logger.accepting then suc h.offered else h.offered;
  accepted = if takes h.logger then h.accepted ++ entry ∷ [] else h.accepted;
}

-- A step: a caller logs, or meets an exception; the thread takes the queue when it has written what was
-- pending and told what was dropped, writes the next entry, fetches the dropped count, writes the
-- notice of it, or ends by an exception, between any two of these; the destructor ends the acceptance.
pub data Step : History → History → Type 0 where
  logs : (h : History) (entry : Entry) → Step h (after_log h entry)
  logs_in_vain :
      (h : History)
      → h.logger.accepting ≡ true
      → Step h (record h { logger = log_failed h.logger; offered = suc h.offered })
  takes_queue :
      (h : History)
      → h.alive ≡ true
      → h.logger.pending ≡ []
      → h.unnoticed ≡ 0
      → Step h (record h { logger = swap h.logger })
  writes :
      (h : History) (entry : Entry) (rest : List Entry)
      → h.alive ≡ true
      → h.logger.pending ≡ entry ∷ rest
      → Step h (record h {
        logger = record h.logger { pending = rest };
        written = h.written ++ entry ∷ [];
      })
  fetches :
      (h : History)
      → h.alive ≡ true
      → h.logger.pending ≡ []
      → h.unnoticed ≡ 0
      → Step h (record h {
        logger = (exchange_dropped h.logger).1;
        unnoticed = (exchange_dropped h.logger).0;
      })
  notices :
      (h : History)
      → h.alive ≡ true
      → Step h (record h { unnoticed = 0; noticed = h.noticed + h.unnoticed })
  fails : (h : History) → Step h (record h { alive = false })
  closes : (h : History) → Step h (record h { logger = record h.logger { accepting = false } })

-- What can be reached from a new logger.
pub data Reaches (logger : AsyncFileLogger) : History → Type 0 where
  start : Reaches logger (first_history logger)
  next : {h k : History} → Reaches logger h → Step h k → Reaches logger k
