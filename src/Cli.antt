-- ===== src/Cli.antt =====
-- src/presentation/cli_app.cpp: `parse_arguments`. A path is its text, a date its count of days since
-- the epoch. Values has the texts of numbers, dates and addresses, State the
-- options and their defaults, Options the loop over the arguments, Run what is done with the result.
mod State
mod Options
pub mod Values
pub mod Accepted
pub mod Offsets
pub mod Run
unfoldable pub use State.*
unfoldable pub use Options.*
use log_generator.Catalog.{valid_sample_id}
use log_generator.Cli.Values.{lowercase, parse_unsigned, parse_signed, parse_date, valid_ipv4}
use log_generator.Domain.{
  udp, tcp, tls, file, newline, octet_counting, sequential, parallel, one_event_per_datagram,
  newline_packed, EndpointConfig, TimeOffset, TimeRange, TimestampGeneration, offset, range,
  GeneratorConfig, is_packed, is_udp,
}
use log_generator.Prelude.Int.{ℤ, pos, negsuc, ◌+ℤ◌, ◌-ℤ◌, ◌*ℤ◌, leb_ℤ}
use log_generator.Prelude.Result.{Result, ok, throws, invalid_argument, ◌>>=◌, ◌>>◌, throw_if}
use log_generator.Prelude.{
  ℕ, suc, ◌+◌, ◌-◌, ◌*◌, ◌/◌, ◌%◌, ◌^◌, Bool, true, false, not, ◌&&◌, ◌||◌, List, [], ◌∷◌, ◌++◌,
  Option, none, some, ltb, ◌==◌, if◌then◌else◌, Bytes, codes, words, equal, is_empty,
}
use log_generator.Privacy.{equals_any}

abbrev pub is_run : CliCommand → Bool
is_run run = true
is_run _ = false

abbrev pub is_list : CliCommand → Bool
is_list list = true
is_list _ = false

abbrev pub magnitude : ℤ → ℕ
magnitude (pos n) = n
magnitude (negsuc n) = suc n

abbrev pub is_negative : ℤ → Bool
is_negative (pos n) = false
is_negative (negsuc n) = true

-- The offset of so many minutes.
unfoldable pub offset_of_minutes : ℤ → Result TimeOffset
offset_of_minutes minutes = do
  throw_if (ltb (2 ^ 31 - 1) (magnitude minutes / 1440))
      (invalid_argument (codes "--offset-minutes 값이 너무 큽니다"))
  ok (record {
    negative = is_negative minutes;
    days = pos (magnitude minutes / 1440);
    hours = pos (magnitude minutes % 1440 / 60);
    minutes = pos (magnitude minutes % 60);
  })

set_generation : CliOptions → TimestampGeneration → CliOptions
set_generation o g = record o { config = record o.config { timestamp_generation = g } }

-- The timestamps: a range of whole days, or an offset.
unfoldable pub finish_timestamps : Option ℤ → Option ℤ → ℤ → CliOptions → Result CliOptions
unfolding set_generation offset_of_minutes
finish_timestamps (some first) (some last) minutes o = do
  throw_if (not (leb_ℤ first last)) (invalid_argument (codes "--from 날짜는 --to 날짜보다 늦을 수 없습니다"))
  ok (
      set_generation o (record o.config.timestamp_generation {
        mode = range;
        range = record { start = first *ℤ pos 86400; end = (last +ℤ pos 1) *ℤ pos 86400 -ℤ pos 1 };
      }))
finish_timestamps none none minutes o = do
  made ← offset_of_minutes minutes
  ok (set_generation o (record o.config.timestamp_generation { offset = made }))
finish_timestamps _ _ minutes o = throws (invalid_argument (codes "--from과 --to는 함께 지정해야 합니다"))

-- The checks after the loop, as far as they do not read the dates.
unfoldable pub check_options : CliOptions → Result (Unit {0})
unfolding valid_ipv4
check_options o = do
  throw_if (is_run o.command && (o.all_samples && not (is_empty o.sample_ids)))
      (invalid_argument (codes "--all과 --sample-id는 함께 사용할 수 없습니다"))
  throw_if (is_run o.command && (not o.all_samples && is_empty o.sample_ids))
      (invalid_argument (codes "--all 또는 --sample-id를 지정해야 합니다"))
  throw_if (is_list o.command && (o.all_samples || not (is_empty o.sample_ids)))
      (invalid_argument (codes "--all과 --sample-id는 run 명령에서만 사용할 수 있습니다"))
  throw_if (not (valid_ipv4 o.config.source_ip) || not (valid_ipv4 o.config.destination_ip))
      (invalid_argument (codes "--source-ip와 --destination-ip는 유효한 IPv4 주소여야 합니다"))
  throw_if
      (is_packed o.config.endpoint.udp_packetization && not (is_udp o.config.endpoint.protocol))
      (invalid_argument (codes "--udp-integration allow는 UDP 프로토콜에서만 사용할 수 있습니다"))

-- What follows the loop.
unfoldable pub finish : Parsing → Result CliOptions
finish p = do
  check_options p.options
  finish_timestamps p.range_start p.range_end p.offset_minutes p.options

unfoldable pub parse_command : Bytes → List Bytes → Result CliOptions
parse_command command arguments =
    if equals_any command (words "--help -h help")
    then ok default_options
    else if equal command (codes "list")
    then parse_options arguments (start_parsing list) >>= finish
    else if equal command (codes "run")
    then parse_options arguments (start_parsing run) >>= finish
    else throws (invalid_argument (codes "첫 번째 인자는 list 또는 run이어야 합니다"))

unfoldable pub parse_arguments : List Bytes → Result CliOptions
unfolding parse_command
parse_arguments [] = ok default_options
parse_arguments (command ∷ arguments) = parse_command (lowercase command) arguments
