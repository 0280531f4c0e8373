-- ===== src/Tests/Formats.antt =====
-- Frames, turns, instants and quotas on concrete inputs.
use log_generator.Domain.{
  newline, octet_counting, TimestampGeneration, range, inclusive_seconds, EndpointConfig, file,
  one_event_per_datagram,
}
use log_generator.Framing.Newline.{
  split_lines-append_frames, split_lines, escaped, length-append_frame,
}
use log_generator.Framing.OctetCounting.{read_frames-append_frames, read_frames}
use log_generator.Framing.{append_frame, append_frames, newline_frame_size}
use log_generator.Prelude.Result.{ok}
use log_generator.Prelude.Int.{pos, negsuc, ◌+ℤ◌, ◌-ℤ◌, ◌*ℤ◌, ◌≤ℤ◌}
use log_generator.Prelude.{
  suc, ◌+◌, ◌*◌, ◌%◌, ◌≡◌, refl, true, false, List, [], ◌∷◌, some, map, Bytes, codes, length, arith,
}
use log_generator.Quota.Shares.{batches-ArePaced, IsPaced, AreUnlimited}
use log_generator.Quota.{stream_batch_events, datagram_batch_events, file_batch_events}
use log_generator.RoundRobin.Turns.{draws-turns, draws, turns}
use log_generator.RoundRobin.{RoundRobinCursor, make_cursor, make_worker_cursor}
use log_generator.Timestamps.Coverage.{timestamps-cover, after_calls}
use log_generator.Timestamps.{
  TimestampCursor, make_clock, make_timestamp_cursor, next_timestamp, ticks_per_second,
}

abbrev two_lines : List Bytes
two_lines = (b'a' ∷ b'\n' ∷ b'b' ∷ []) ∷ codes "cd" ∷ []

split_lines-append_frames_example :
    split_lines [] (append_frames [] two_lines newline) ≡ map escaped two_lines
split_lines-append_frames_example = split_lines-append_frames two_lines

escaped_test :
    append_frame [] (b'a' ∷ b'\n' ∷ b'b' ∷ []) newline ≡ b'a' ∷ b'\\' ∷ b'n' ∷ b'b' ∷ b'\n' ∷ []
unfolding append_frame
escaped_test = refl

length-append_frame_example :
    length (append_frame (codes "x") (b'a' ∷ b'\n' ∷ b'b' ∷ []) newline)
    ≡ length (codes "x") + newline_frame_size (b'a' ∷ b'\n' ∷ b'b' ∷ [])
length-append_frame_example = length-append_frame (codes "x") (b'a' ∷ b'\n' ∷ b'b' ∷ [])

read_frames-append_frames_example :
    read_frames (suc (length two_lines)) (append_frames [] two_lines octet_counting)
    ≡ some two_lines
read_frames-append_frames_example = read_frames-append_frames two_lines

octet_test : append_frame [] (codes "cd") octet_counting ≡ codes "2 cd"
unfolding append_frame
octet_test = refl

abbrev pub endpoint : EndpointConfig
endpoint = record {
  protocol = file;
  host = [];
  port = 0;
  tls_server_name = [];
  verify_certificate = true;
  framing = newline;
  udp_packetization = one_event_per_datagram;
  file_output_directory = codes "out";
  file_max_total_bytes = 0;
  file_max_count = 0;
  file_max_duration = 0;
}

batches-ArePaced_example :
    IsPaced 200 1024 5000 (stream_batch_events 5000)
    × IsPaced 1000 (64) 5000 (datagram_batch_events 5000 64)
    × (AreUnlimited endpoint → IsPaced 20 256 5000 (file_batch_events 5000 endpoint))
    × (¬ AreUnlimited endpoint → file_batch_events 5000 endpoint ≡ 1)
batches-ArePaced_example = batches-ArePaced 5000 64 endpoint

abbrev three_templates : RoundRobinCursor
three_templates = record { item_count = 3; next = 0 }

draws-turns_example : draws 5 (make_worker_cursor 2) three_templates ≡ turns 5 0 3
draws-turns_example =
    draws-turns 5 3 2 three_templates (unfold make_cursor in refl) (omega arith) (omega arith)

turns_test : turns 5 0 3 ≡ 0 ∷ 1 ∷ 2 ∷ 0 ∷ 1 ∷ []
unfolding turns
turns_test = refl

abbrev pub ten_seconds : TimestampGeneration
ten_seconds = record {
  mode = range;
  offset = record { negative = false; days = pos 0; hours = pos 0; minutes = pos 0 };
  range = record { start = negsuc 3; end = pos 5 };
}

abbrev second_worker : TimestampCursor
second_worker = record {
  generation = ten_seconds;
  position = 1;
  step = 2;
  span = 10;
  system_clock = make_clock true (pos 7);
}

second_worker-made : make_timestamp_cursor ten_seconds 1 2 true (pos 7) ≡ ok second_worker
unfolding make_timestamp_cursor inclusive_seconds ◌-ℤ◌
second_worker-made = refl

timestamps-cover_example :
    let second = negsuc 3 +ℤ pos ((1 + 6 * 2) % inclusive_seconds ten_seconds.range) in
    ((next_timestamp (after_calls 6 second_worker (pos 8)) (pos 9)).0
      ≡ second *ℤ pos ticks_per_second)
    × (negsuc 3 ≤ℤ second)
    × (second ≤ℤ pos 5)
timestamps-cover_example =
    timestamps-cover ten_seconds 1 2 6 true (pos 7) (pos 8) (pos 9) second_worker refl
      (omega arith, omega arith) (omega arith, omega arith) second_worker-made
