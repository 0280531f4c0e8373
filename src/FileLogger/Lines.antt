-- ===== src/FileLogger/Lines.antt =====
-- An entry is one line.
use log_generator.FileLogger.{
  LogLevel, debug, Entry, log_level_name, sanitize_message, entry_line, format_entry, time_stamp,
  milliseconds,
}
use log_generator.Prelude.Decimal.{Digits, to_string, to_string-Digits}
use log_generator.Prelude.Int.{ℤ, pos, negsuc}
use log_generator.Prelude.{
  ℕ, zero, suc, ◌+◌, ◌-◌, ◌/◌, ◌%◌, ◌≡◌, ◌≢◌, refl, [], ◌∷◌, ◌++◌, ◌==◌, Bytes, codes, All,
  All-append, arith, is_digit, take, length, replicate, if-holds,
}
use log_generator.Renderer.Clock.{Tm, pad, pad_year, two, clock_text}

-- No line feed.
abbrev pub IsLine : Bytes → Type 0
IsLine = All (λ c. c ≢ 10)

Digits-IsLine : (ds : Bytes) → Digits ds → IsLine ds
Digits-IsLine [] h = tt
Digits-IsLine (d ∷ ds) h = ((unfold is_digit in ground (arith, h.0)), Digits-IsLine ds h.1)

append-IsLine : (xs ys : Bytes) → IsLine xs → IsLine ys → IsLine (xs ++ ys)
append-IsLine xs ys = All-append (λ c. c ≢ 10) xs ys

to_string-IsLine : (n : ℕ) → IsLine (to_string n)
to_string-IsLine n = Digits-IsLine (to_string n) (to_string-Digits n)

zeros-IsLine : (k : ℕ) → IsLine (replicate k b'0')
zeros-IsLine zero = tt
zeros-IsLine (suc k) = (omega arith, zeros-IsLine k)

pad-IsLine : (w n : ℕ) → IsLine (pad w n)
pad-IsLine w n =
    append-IsLine (replicate (w - length (to_string n)) b'0') (to_string n)
      (zeros-IsLine (w - length (to_string n))) (to_string-IsLine n)

pad_year-IsLine : (y : ℤ) → IsLine (pad_year y)
pad_year-IsLine (pos n) = pad-IsLine 4 n
pad_year-IsLine (negsuc n) = (omega arith, pad-IsLine 3 (suc n))

take-IsLine : (k : ℕ) (xs : Bytes) → IsLine xs → IsLine (take k xs)
take-IsLine zero xs h = tt
take-IsLine (suc k) [] h = tt
take-IsLine (suc k) (x ∷ xs) h = (h.0, take-IsLine k xs h.1)

milliseconds-IsLine : (point : ℤ) → IsLine (milliseconds point)
milliseconds-IsLine (pos n) = pad-IsLine 3 (n / 1000000 % 1000)
milliseconds-IsLine (negsuc n) =
    if-holds IsLine (suc n / 1000000 % 1000 == 0) (λ _. pad-IsLine 3 0)
      (λ _. (omega arith, pad-IsLine 2 (suc n / 1000000 % 1000)))

clock_text-IsLine : (t : Tm) → IsLine (clock_text t)
clock_text-IsLine t = append-IsLine (two t.tm_hour) _ (pad-IsLine 2 t.tm_hour) (
  omega arith,
  append-IsLine (two t.tm_min) _ (pad-IsLine 2 t.tm_min) (omega arith, pad-IsLine 2 t.tm_sec),
)

time_stamp-IsLine : (t : Tm) (point : ℤ) → IsLine (time_stamp t point)
unfolding time_stamp
time_stamp-IsLine t point = take-IsLine 63 _ (
    append-IsLine (pad_year t.tm_year) _ (pad_year-IsLine t.tm_year) (
      omega arith,
      append-IsLine (two (t.tm_mon + 1)) _ (pad-IsLine 2 (t.tm_mon + 1)) (
        omega arith,
        append-IsLine (two t.tm_mday) _ (pad-IsLine 2 t.tm_mday) (
          omega arith,
          append-IsLine (clock_text t) _ (clock_text-IsLine t)
              (omega arith, milliseconds-IsLine point),
        ),
      ),
    ))

log_level_name-IsLine : (level : LogLevel) → IsLine (log_level_name level)
unfolding log_level_name
log_level_name-IsLine debug = omega arith
log_level_name-IsLine _ = omega arith

sanitize_message-IsLine : (message : Bytes) → IsLine (sanitize_message message)
unfolding sanitize_message
sanitize_message-IsLine [] = tt
sanitize_message-IsLine (c ∷ cs) =
    if-holds IsLine (c == 13) (λ _. sanitize_message-IsLine cs)
      (λ _.
        if-holds IsLine (c == 10) (λ _. (omega arith, (omega arith, sanitize_message-IsLine cs)))
          (λ other. (ground arith, sanitize_message-IsLine cs)))

entry_line-IsLine : (local_time : ℤ → Tm) (entry : Entry) → IsLine (entry_line local_time entry)
unfolding entry_line
entry_line-IsLine local_time entry = (
  omega arith,
  append-IsLine (time_stamp (local_time entry.timestamp) entry.timestamp) _
      (time_stamp-IsLine (local_time entry.timestamp) entry.timestamp)
      (append-IsLine (codes "] [") _ (omega arith) (
        append-IsLine (log_level_name entry.level) _ (log_level_name-IsLine entry.level) (
          append-IsLine (codes "] [T") _ (omega arith) (
            append-IsLine (to_string entry.thread_id) _ (to_string-IsLine entry.thread_id) (
              append-IsLine (codes "] ") _ (omega arith)
                (sanitize_message-IsLine entry.message)))))),
)

-- Whatever its message, an entry is written as one line: some text without a line feed, and a line feed.
pub format_entry-IsLine :
    (local_time : ℤ → Tm) (entry : Entry)
    → (line : Bytes) × (format_entry local_time entry ≡ line ++ 10 ∷ []) × All (λ c. c ≢ 10) line
unfolding format_entry
format_entry-IsLine local_time entry =
    (entry_line local_time entry, refl, entry_line-IsLine local_time entry)
