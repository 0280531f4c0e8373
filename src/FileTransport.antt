-- ===== src/FileTransport.antt =====
-- src/infrastructure/file_transport.cpp: `FileTransport`, one file for each log. The operating
-- system is an argument: `create` is the exclusive creation of a file, `write` one call of the
-- system's write, which tells how many bytes it took, and then `close` and `remove`. A path is the
-- output directory and the file's name; `sys_now` is what the steady clock reads, in milliseconds.
pub mod Limits
pub mod Pieces
use log_generator.Prelude.Int.{ℤ, pos, negsuc}
use log_generator.Domain.{
  EndpointConfig, SendResult, sent, total_bytes_limit_reached, file_count_limit_reached,
  duration_limit_reached,
}
use log_generator.Prelude.Decimal.{to_string}
use log_generator.Prelude.Result.{Result, ok, throws, Exception, runtime_error}
use log_generator.Prelude.Words.{u64_mod}
use log_generator.Prelude.{
  ℕ, zero, suc, ◌+◌, ◌-◌, ◌%◌, Bool, true, false, ◌&&◌, ◌||◌, List, [], ◌∷◌, ◌++◌, Option, none,
  some, ltb, leb, ◌==◌, if◌then◌else◌, Bytes, length, drop, replicate, count, codes, is_empty,
}

pub data Created : Type 0 where
  created collided : Created
  create_failed : Exception → Created

pub record Os (F : Type 0) : Type 0 where
  pub create : F → Bytes → Created × F
  pub write : F → Bytes → Option ℕ × F
  pub close : F → Bool × F
  pub remove : F → Bytes → F

pub record FileTransport : Type 0 where
  pub timestamp : Bytes
  pub next_file_index : ℕ
  pub file_count : ℕ
  pub total_size : ℕ
  pub max_total_bytes : ℕ
  pub max_file_count : ℕ
  pub max_duration : ℕ
  pub started_at : ℕ

unfoldable pub file_name : Bytes → ℕ → Bytes
file_name timestamp index =
    let sequence = to_string (index + 1) in
    let numbered = b'_' ∷ (replicate (4 - length sequence) b'0' ++ sequence) in
    (timestamp ++ (if ltb 0 index then numbered else [])) ++ codes ".log"

-- What `local_time` yields: the fields of `std::tm`, with the year and the month as they are shown.
pub record LocalTime : Type 0 where
  pub year : ℕ
  pub month : ℕ
  pub day : ℕ
  pub hour : ℕ
  pub minute : ℕ
  pub second : ℕ

-- `{:0w}`.
abbrev padded : ℕ → ℕ → Bytes
padded w n = replicate (w - length (to_string n)) b'0' ++ to_string n

-- The milliseconds in the current second; `%` of C++ keeps the sign.
unfoldable pub milliseconds_of : ℤ → ℕ
milliseconds_of (pos n) = n % 1000
milliseconds_of (negsuc n) = if suc n % 1000 == 0 then 0 else 1000 - suc n % 1000

unfoldable pub format_timestamp : LocalTime → ℕ → Bytes
unfolding to_string
format_timestamp t milliseconds =
    padded 4 t.year
    ++ (padded 2 t.month
        ++ (padded 2 t.day
            ++ (b'_'
                ∷ (padded 2 t.hour
                    ++ (padded 2 t.minute
                        ++ (padded 2 t.second ++ (b'_' ∷ padded 3 milliseconds)))))))

-- `connect`, when the output directory exists or is created; `now` is the time since the epoch in
-- milliseconds and `local_time` its local time.
unfoldable pub connect : EndpointConfig → LocalTime → ℤ → ℕ → FileTransport
connect endpoint local_time now sys_now = record {
  timestamp = format_timestamp local_time (milliseconds_of now);
  next_file_index = 0;
  file_count = 0;
  total_size = 0;
  max_total_bytes = endpoint.file_max_total_bytes;
  max_file_count = endpoint.file_max_count;
  max_duration = endpoint.file_max_duration;
  started_at = sys_now;
}

-- What `write_log` ends with.
pub data Written : Type 0 where
  written collision : Written
  write_failed : Exception → Written

-- The pieces that `find` and `substr` cut: each ends with its newline, but perhaps for the last.
unfoldable pub split_logs : Bytes → Bytes → List Bytes
split_logs log [] = if is_empty log then [] else log ∷ []
split_logs log (c ∷ cs) =
    let ended = (log ++ c ∷ []) ∷ split_logs [] cs in
    let longer = split_logs (log ++ c ∷ []) cs in if c == b'\n' then ended else longer

unfoldable pub ends_with_newline : Bytes → Bool
ends_with_newline [] = false
ends_with_newline (c ∷ []) = c == b'\n'
ends_with_newline (c ∷ d ∷ cs) = ends_with_newline (d ∷ cs)

unfoldable pub log_count : Bytes → ℕ
log_count payload = count b'\n' payload + (if ends_with_newline payload then 0 else 1)

-- The checks of `send` in front of its loop; `none` lets the payload through.
unfoldable pub refusal : ℕ → Bytes → FileTransport → Option SendResult
unfolding log_count
refusal sys_now payload t =
    if ltb 0 t.max_duration && leb t.max_duration (sys_now - t.started_at)
    then some duration_limit_reached
    else if ltb 0 t.max_total_bytes
        && (leb t.max_total_bytes t.total_size
            || ltb (t.max_total_bytes - t.total_size) (length payload))
    then some total_bytes_limit_reached
    else if ltb 0 t.max_file_count
        && (leb t.max_file_count t.file_count
            || ltb (t.max_file_count - t.file_count) (log_count payload))
    then some file_count_limit_reached
    else none

-- What the loop over the file names ends with: the next index, an exception, or no fuel.
pub data Placed : Type 0 where
  placed : ℕ → Placed
  place_failed : Exception → ℕ → Placed
  exhausted : ℕ → Placed

pub data Sending : Type 0 where
  done : SendResult → Sending
  send_failed : Exception → Sending
  no_fuel : Sending

abbrev pub count_log : FileTransport → ℕ → Bytes → FileTransport
count_log t index log = record t {
  next_file_index = index;
  file_count = (t.file_count + 1) % u64_mod;
  total_size = (t.total_size + length log) % u64_mod;
}

module _ {F : Type 0} (os : Os F) where
  -- `write_all`: each round takes a byte at least, so the length is fuel enough.
  write_all : ℕ → Bytes → F → Result (Unit {0}) × F
  write_all zero content f = (ok tt, f)
  write_all (suc fuel) [] f = (ok tt, f)
  write_all (suc fuel) (c ∷ cs) f =
      let f' = (os.write f (c ∷ cs)).1 in
      elim (os.write f (c ∷ cs)).0 [
        | none ↦ (throws (runtime_error (codes "Generated log write failed")), f')
        | some n ↦
            let rest = write_all fuel (drop n (c ∷ cs)) f' in
            if n == 0
            then (throws (runtime_error (codes "Generated log write made no progress")), f')
            else rest
      ]

  -- `file.close()` after the content; the handler closes what is still open and removes the file.
  close_log : Bytes → Result (Unit {0}) × F → Written × F
  close_log path (ok _, f) =
      let (closed, f') = os.close f in
      if closed
      then (written, f')
      else (write_failed (runtime_error (codes "Generated log close failed")), os.remove f' path)
  close_log path (throws e, f) = (write_failed e, os.remove (os.close f).1 path)

  fill_log : Bytes → Bytes → Created × F → Written × F
  fill_log path log (collided, f) = (collision, f)
  fill_log path log (create_failed e, f) = (write_failed e, f)
  fill_log path log (created, f) = close_log path (write_all (length log) log f)

  unfoldable pub write_log : Bytes → Bytes → F → Written × F
  unfolding write_all close_log fill_log
  write_log path log f = fill_log path log (os.create f path)

  -- `for (;;)`: a name that is taken is passed over.
  unfoldable pub place_log : ℕ → Bytes → ℕ → Bytes → F → Placed × F
  place_log zero timestamp index log f = (exhausted index, f)
  place_log (suc fuel) timestamp index log f =
      let f' = (write_log (file_name timestamp index) log f).1 in
      elim (write_log (file_name timestamp index) log f).0 [
        | written ↦ (placed ((index + 1) % u64_mod), f')
        | write_failed e ↦ (place_failed e ((index + 1) % u64_mod), f')
        | collision ↦ place_log fuel timestamp ((index + 1) % u64_mod) log f'
      ]

  -- The loop of `send` over the logs of the payload.
  write_logs : ℕ → List Bytes → FileTransport → F → Sending × FileTransport × F
  write_logs fuel [] t f = (done sent, t, f)
  write_logs fuel (log ∷ logs) t f =
      let f' = (place_log fuel t.timestamp t.next_file_index log f).1 in
      elim (place_log fuel t.timestamp t.next_file_index log f).0 [
        | placed index ↦ write_logs fuel logs (count_log t index log) f'
        | place_failed e index ↦ (send_failed e, record t { next_file_index = index }, f')
        | exhausted index ↦ (no_fuel, record t { next_file_index = index }, f')
      ]

  -- `send`; the fuel bounds how many taken names the loop passes over for one log.
  unfoldable pub send : ℕ → ℕ → Bytes → FileTransport → F → Sending × FileTransport × F
  unfolding write_logs place_log refusal
  send fuel sys_now payload t f =
      let checked : Sending × FileTransport × F = elim (refusal sys_now payload t) [
        | some limit ↦ (done limit, t, f)
        | none ↦ write_logs fuel (split_logs [] payload) t f
      ] in
      if is_empty t.timestamp
      then (send_failed (runtime_error (codes "FILE transport is not connected")), t, f)
      else if is_empty payload
      then (done sent, t, f)
      else checked
