-- ===== src/Worker/Branches.antt =====
-- src/application/stress_test_service.cpp: what a round of `run_worker` sends, for each transport,
-- and the choice between them.
use log_generator.Domain.{EndpointConfig, is_file, is_packed, StreamFraming}
use log_generator.Framing.{append_frame}
use log_generator.Packing.{Packer, make_batch}
use log_generator.Worker.Loop.{
  Transport, Load, Exit, Round, Run, prepare_then_wait, wait_then_prepare, worker_loop, worker_end,
  statistics_publish_events, deliver_one,
}
use log_generator.Prelude.Int.{ℤ, pos}
use log_generator.Prelude.Result.{Result, ok, throws}
use log_generator.Prelude.Words.{u64_mod}
use log_generator.Prelude.{
  ℕ, zero, suc, ◌+◌, ◌%◌, Bool, false, List, [], ◌∷◌, none, some, ltb, ◌==◌, if◌then◌else◌, Bytes,
  length, get_elem?,
}
use log_generator.Quota.{stream_batch_events, datagram_batch_events, file_batch_events}
use log_generator.RoundRobin.{RoundRobinCursor, WorkerRoundRobinCursor, worker_next}
use log_generator.Timestamps.{TimestampCursor, next_timestamp, calendar_time}

-- Where the payloads come from.
pub record Source (L : Type 0) : Type 0 where
  pub logs : List L
  pub selection : WorkerRoundRobinCursor
  pub shared : RoundRobinCursor
  pub others : ℕ → ℕ
  pub turns : ℕ
  pub clock : TimestampCursor
  pub readings : ℕ → ℤ
  pub reads : ℕ

module _ {L : Type 0} (render : L → ℤ → Bool → Bytes × L) where
  abbrev set : List L → ℕ → L → List L
  set [] i v = []
  set (x ∷ xs) zero v = v ∷ xs
  set (x ∷ xs) (suc i) v = x ∷ set xs i v

  -- `logs[index].render(timestamp, calendar_time)`; an index out of range is undefined in C++.
  unfoldable pub render_at : ℕ → ℤ → Source L → Bytes × Source L
  render_at index timestamp s = elim (get_elem? s.logs index) [
    | none ↦ ([], s)
    | some log ↦
        let (payload, log') = render log timestamp (calendar_time s.clock) in
        (payload, record s { logs = set s.logs index log' })
  ]

  -- `selection.next()`, after the other workers have moved the shared cursor.
  unfoldable pub next_turn : Source L → ℕ × Source L
  next_turn s =
      let shared = record s.shared { next = (s.shared.next + s.others s.turns) % u64_mod } in
      let (index, selection, shared') = worker_next s.selection shared in
      (index, record s { selection = selection; shared = shared'; turns = s.turns + 1 })

  -- `clock.next()`.
  unfoldable pub next_time : Source L → ℤ × Source L
  next_time s =
      let (time, clock) = next_timestamp s.clock (s.readings s.reads) in
      (time, record s { clock = clock; reads = s.reads + 1 })

  unfoldable pub next_payload : Source L → Bytes × Source L
  unfolding render_at next_turn next_time
  next_payload s =
      let (index, s') = next_turn s in let (time, s'') = next_time s' in render_at index time s''

  unfoldable pub prepare_packed : ℕ → Packer (Source L) → Result (Load × Packer (Source L))
  prepare_packed quota s = elim (make_batch next_payload quota s) [
    | throws e ↦ throws e
    | ok (b, s') ↦ ok (
      record {
        payloads = b.packets;
        events = b.events;
        datagrams = length b.packets;
        size = b.batch_bytes;
      },
      s',
    )
  ]

  unfoldable pub draw_payloads : ℕ → Source L → List Bytes × Source L
  draw_payloads zero s = ([], s)
  draw_payloads (suc k) s =
      let (payload, s') = next_payload s in
      let (payloads, s'') = draw_payloads k s' in (payload ∷ payloads, s'')

  abbrev pub total_size : List Bytes → ℕ
  total_size [] = 0
  total_size (p ∷ ps) = length p + total_size ps

  unfoldable pub prepare_datagrams : ℕ → Source L → Result (Load × Source L)
  unfolding draw_payloads
  prepare_datagrams batch_limit s =
      let (payloads, s') = draw_payloads batch_limit s in
      ok (
        record {
          payloads = payloads;
          events = batch_limit;
          datagrams = batch_limit;
          size = total_size payloads;
        },
        s',
      )

  -- In offset mode one instant serves the whole batch.
  stream_payload : ℤ → Source L → Bytes × Source L
  unfolding render_at next_turn next_time
  stream_payload batch_timestamp s =
      let (timestamp, s') = (if calendar_time s.clock then next_time s else (batch_timestamp, s)) in
      let (index, s'') = next_turn s' in render_at index timestamp s''

  fill_stream : ℕ → ℕ → StreamFraming → ℤ → Bytes → ℕ → Source L → Bytes × ℕ × Source L
  unfolding stream_payload
  fill_stream zero limit framing time batch events s = (batch, events, s)
  fill_stream (suc room) limit framing time batch events s =
      let (payload, s') = stream_payload time s in
      let rest =
        fill_stream room limit framing time (append_frame batch payload framing) (events + 1) s' in
      if ltb (length batch) limit then rest else (batch, events, s)

  -- A batch of `event_limit` events at most, for a file or a stream.
  unfoldable pub prepare_stream : ℕ → ℕ → StreamFraming → Source L → Result (Load × Source L)
  unfolding fill_stream next_time
  prepare_stream event_limit batch_limit framing s =
      let (time, s') = (if calendar_time s.clock then (pos 0, s) else next_time s) in
      let (batch, events, s'') = fill_stream event_limit batch_limit framing time [] 0 s' in
      ok
        (record { payloads = batch ∷ []; events = events; datagrams = 0; size = length batch }, s'')

  unfoldable pub prepare_one : Source L → Result (Load × Source L)
  prepare_one s =
      let (payload, s') = next_payload s in
      ok (record { payloads = payload ∷ []; events = 1; datagrams = 1; size = length payload }, s')

  -- The packer's leftovers play no part where datagrams are not packed.
  unfoldable pub unpacked :
      (Source L → Result (Load × Source L)) → Packer (Source L) → Result (Load × Packer (Source L))
  unpacked prepare s = elim (prepare s.source) [
    | throws e ↦ throws e
    | ok (load, source) ↦ ok (load, record s { source = source })
  ]

  module _ {T : Type 0} (transport : Transport T) where
    -- The choice among the loops, by the transport and the configuration.
    unfoldable pub round_body :
        ℕ
        → EndpointConfig
        → Bool
        → ℕ
        → Round
        → Run (Packer (Source L)) T
        → Run (Packer (Source L)) T × Exit
    round_body quota endpoint is_datagram preferred_batch_size round r =
        let threshold = statistics_publish_events quota in
        let batch_limit = datagram_batch_events quota preferred_batch_size in
        let to_file = is_file endpoint.protocol in
        let event_limit =
          if to_file then file_batch_events quota endpoint else stream_batch_events quota in
        let byte_limit : ℕ = if to_file then 65536 else 1048576 in
        if is_datagram
        then (if is_packed endpoint.udp_packetization
            then prepare_then_wait transport.send_batch (prepare_packed quota) false threshold round
                r
            else if batch_limit == 1
            then wait_then_prepare (deliver_one transport) (unpacked prepare_one) false threshold
                round r
            else prepare_then_wait transport.send_batch (unpacked (prepare_datagrams batch_limit))
                false threshold round r)
        else prepare_then_wait (deliver_one transport)
            (unpacked (prepare_stream event_limit byte_limit endpoint.framing)) to_file threshold
            round r

    unfoldable pub run_rounds :
        ℕ
        → EndpointConfig
        → Bool
        → ℕ
        → List Round
        → Run (Packer (Source L)) T
        → Run (Packer (Source L)) T × Exit
    run_rounds quota endpoint is_datagram preferred_batch_size rounds r =
        worker_end
          (worker_loop (round_body quota endpoint is_datagram preferred_batch_size) rounds r)
