-- ===== src/FileLogger/Delivery.antt =====
-- Where the entries of the logger are, and what its counts say.
use log_generator.FileLogger.Steps.{History, Step}
use log_generator.Prelude.{ℕ, ◌+◌, ◌≤◌, ◌≡◌, false, ◌++◌, length}

record IsFaithful (capacity : ℕ) (h : History) : Type 0 where
  same_capacity : h.logger.queue_capacity ≡ capacity
  order : h.accepted ≡ h.written ++ (h.logger.pending ++ h.logger.queue)
  bounded : length h.logger.queue ≤ capacity
  counted : h.offered ≡ length h.accepted + h.logger.dropped_total
  noticed : h.logger.dropped_total ≡ h.logger.dropped_pending + (h.unnoticed + h.noticed)

-- What can come after a history.
pub data Later (h : History) : History → Type 0 where
  now : Later h h
  then : {k l : History} → Later h k → Step k l → Later h l

-- Nothing of these changes when the thread has ended.
record IsDead (h k : History) : Type 0 where
  dead : k.alive ≡ false
  written : k.written ≡ h.written
  pending : k.logger.pending ≡ h.logger.pending
  unnoticed : k.unnoticed ≡ h.unnoticed
  told : k.noticed ≡ h.noticed
