-- ===== src/Tests/Sending.antt =====
-- A worker and the file transport on concrete inputs.
use log_generator.Domain.{
  EndpointConfig, udp, newline_packed, SendResult, sent, total_bytes_limit_reached,
}
use log_generator.Prelude.Decimal.{to_string}
use log_generator.FileTransport.Pieces.{split_logs-count, joined}
use log_generator.FileTransport.{
  connect, format_timestamp, milliseconds_of, Os, FileTransport, created, split_logs, log_count,
}
use log_generator.Packing.Contents.{make_batch-keeps, Yields, unsent, frames}
use log_generator.Packing.Progress.{make_batch-IsFull, IsFull}
use log_generator.Packing.Limits.{make_batch-fits, PackerFits, BatchFits}
use log_generator.Packing.{
  maximum_udp_payload, Packer, Batch, make_batch, fill_batch, build_packet, fill_packet,
  rate_limited_event_target,
}
use log_generator.Framing.{append_frame, newline_frame_size}
use log_generator.Prelude.Int.{ℤ, pos}
use log_generator.Prelude.Result.{Result, ok}
use log_generator.Prelude.{
  ℕ, zero, suc, ◌+◌, ◌≤◌, ◌≡◌, refl, inl, inr, Bool, true, false, List, [], ◌∷◌, ◌++◌, some, none,
  Bytes, codes, length, arith, is_empty, count, drop, map, take,
}
use log_generator.Tests.Formats.{endpoint, ten_seconds}
use log_generator.Worker.{Source, Transport, Round, Run, Counter}

-- A source that counts, and yields a digit at each call.
abbrev digit : ℕ → Bytes × ℕ
digit n = ((48 + n) ∷ [], suc n)

abbrev idle : Packer ℕ
idle = record { pending_packet = []; pending_packet_events = 0; pending_payload = none; source = 0 }

abbrev two_digits : Batch
two_digits = record { packets = codes "0\n1\n" ∷ []; batch_bytes = 4; events = 2 }

abbrev after_two : Packer ℕ
after_two = record idle { source = 2 }

made : make_batch digit 400 idle ≡ ok (two_digits, after_two)
unfolding fill_batch build_packet fill_packet rate_limited_event_target newline_frame_size
    append_frame
made = refl

make_batch-keeps_example :
    (drawn : List Bytes) × Yields digit 0 drawn 2
    × (log_generator.Packing.Contents.joined two_digits.packets ++ unsent digit after_two
        ≡ unsent digit idle ++ frames drawn)
make_batch-keeps_example = make_batch-keeps digit 400 idle two_digits after_two made

idle-PackerFits : PackerFits digit (rate_limited_event_target 400) idle
unfolding count
idle-PackerFits = record {
  packet = record { sized = omega arith; counted = refl; paced = omega arith; started = inr refl };
  payload = tt;
}

make_batch-fits_example :
    BatchFits (rate_limited_event_target 400) two_digits
    × PackerFits digit (rate_limited_event_target 400) after_two
make_batch-fits_example = make_batch-fits digit 400 idle two_digits after_two idle-PackerFits made

-- A log that renders as its own text, and a transport that takes two sends.
abbrev plain : Bytes → ℤ → Bool → Bytes × Bytes
plain log _ _ = (log, log)

abbrev two_sends : ℕ → Result SendResult × ℕ
two_sends zero = (ok total_bytes_limit_reached, 0)
two_sends (suc n) = (ok sent, n)

abbrev small_transport : Transport ℕ
small_transport = record { send_one = λ t _. two_sends t; send_batch = λ t _. two_sends t }

abbrev packed_endpoint : EndpointConfig
packed_endpoint = record endpoint { protocol = udp; udp_packetization = newline_packed }

abbrev zero_counter : Counter
zero_counter = record { total = 0; local = 0 }

abbrev first_run : Run (Packer (Source Bytes)) ℕ
first_run = record {
  source = record {
    pending_packet = [];
    pending_packet_events = 0;
    pending_payload = none;
    source = record {
      logs = codes "x" ∷ codes "y" ∷ [];
      selection = record { reservation_size = 1; current = 0; remaining = 0 };
      shared = record { item_count = 2; next = 0 };
      others = λ _. 0;
      turns = 0;
      clock = record {
        generation = ten_seconds;
        position = 0;
        step = 1;
        span = 10;
        system_clock = record { high_rate = false; refresh_countdown = 0; cached = pos 0 };
      };
      readings = λ n. pos n;
      reads = 0;
    };
  };
  transport = 2;
  counters = record { messages = zero_counter; datagrams = zero_counter; bytes = zero_counter };
}

abbrev four_rounds : List Round
four_rounds =
    let round : Round = record { at_test = false; after_wait = false } in
    round ∷ round ∷ round ∷ round ∷ []

-- An operating system that takes one byte at each write, and fails to write after three of them.
abbrev weak_os : Os ℕ
weak_os = record {
  create = λ f _. (created, f);
  write = λ f _. one_byte f;
  close = λ f. (true, f);
  remove = λ f _. f;
}
  where
    one_byte : ℕ → log_generator.Prelude.Option ℕ × ℕ
    one_byte zero = (none, 0)
    one_byte (suc n) = (some 1, n)

abbrev limited : FileTransport
limited = record {
  timestamp = codes "20240102_030405_006";
  next_file_index = 0;
  file_count = 1;
  total_size = 3;
  max_total_bytes = 10;
  max_file_count = 4;
  max_duration = 0;
  started_at = 0;
}

abbrev two_logs : Bytes
two_logs = codes "a\nbc"

split_logs-count_example :
    (length (split_logs [] two_logs) ≡ log_count two_logs)
    × (joined (split_logs [] two_logs) ≡ two_logs)
split_logs-count_example = split_logs-count two_logs refl

-- A source that repeats one payload.
abbrev letter : ℕ → Bytes × ℕ
letter n = (codes "x", suc n)

letter_small : (n : ℕ) → newline_frame_size (letter n).0 ≤ maximum_udp_payload
unfolding newline_frame_size
letter_small n = omega arith

make_batch-IsFull_example :
    (r : Batch × Packer ℕ) × (make_batch letter 400 idle ≡ ok r)
    × IsFull letter (rate_limited_event_target 400) r
make_batch-IsFull_example = make_batch-IsFull letter letter_small 400 idle

timestamp_test :
    (connect endpoint
      (record { year = 2024; month = 1; day = 2; hour = 3; minute = 4; second = 5 })
      (pos 1704164645006)
      77).timestamp
    ≡ codes "20240102_030405_006"
unfolding connect format_timestamp milliseconds_of to_string
timestamp_test = refl
