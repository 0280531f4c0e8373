-- ===== src/Packing.antt =====
-- src/application/stress_test_service.cpp: the loops of `run_worker` that pack newline frames into
-- datagrams and datagrams into a batch. `next_payload` is the call
-- `logs[selection.next()].render(clock.next(), calendar_time)`, over the state that it changes.
-- `pending_payload` with `has_pending_payload` is an option here; a string that was moved from is
-- empty.
pub mod Rounds
pub mod Contents
pub mod Limits
pub mod Progress
use log_generator.Domain.{newline}
use log_generator.Framing.{append_frame, newline_frame_size}
use log_generator.Prelude.Result.{Result, ok, throws, runtime_error, ◌>>=◌}
use log_generator.Prelude.Words.{clamp, u64_mod}
use log_generator.Prelude.{
  ℕ, zero, suc, ◌+◌, ◌-◌, ◌*◌, ◌/◌, Bool, true, false, not, ◌&&◌, List, [], ◌∷◌, ◌++◌, Option, none,
  some, ltb, ◌==◌, if◌then◌else◌, Bytes, length, is_empty, codes,
}

abbrev pub packed_event_limit : ℕ
packed_event_limit = 256

abbrev pub packed_datagram_target : ℕ
packed_datagram_target = 60 * 1024

abbrev pub integrated_batch_target : ℕ
integrated_batch_target = 600 * 1024

abbrev pub maximum_udp_payload : ℕ
maximum_udp_payload = 65507

unfoldable pub rate_limited_event_target : ℕ → ℕ
rate_limited_event_target quota =
    if quota == 0 then u64_mod - 1 else clamp (quota / 200) 1 (u64_mod - 1)

-- A packet that is being filled, and the payload that did not fit.
pub record Fill {ℓ} (S : Type ℓ) : Type ℓ where
  pub packet : Bytes
  pub packet_events : ℕ
  pub pending_payload : Option Bytes
  pub source : S

-- What the worker keeps from one batch to the next.
pub record Packer {ℓ} (S : Type ℓ) : Type ℓ where
  pub pending_packet : Bytes
  pub pending_packet_events : ℕ
  pub pending_payload : Option Bytes
  pub source : S

pub record Batch : Type 0 where
  pub packets : List Bytes
  pub batch_bytes : ℕ
  pub events : ℕ

abbrev pub empty_batch : Batch
empty_batch = record { packets = []; batch_bytes = 0; events = 0 }

module _ {ℓ} {S : Type ℓ} (next_payload : S → Bytes × S) where
  -- One round of the inner loop, before the next one: `inl` where the loop is left by `break`.
  abbrev pub append_payload : Fill S → Bytes → S → Fill S
  append_payload f payload source = record {
    packet = append_frame f.packet payload newline;
    packet_events = f.packet_events + 1;
    pending_payload = f.pending_payload;
    source = source;
  }

  abbrev pub keep_payload : Fill S → Bytes → S → Fill S
  keep_payload f payload source = record {
    packet = f.packet;
    packet_events = f.packet_events;
    pending_payload = some payload;
    source = source;
  }

  -- `room` is `packed_event_limit - packet_events`, so that 0 is the end of the loop by its test.
  unfoldable pub fill_packet : ℕ → ℕ → ℕ → Fill S → Result (Fill S)
  fill_packet zero events target f = ok f
  fill_packet (suc room) events target f =
      let payload = (next_payload f.source).0 in
      let source = (next_payload f.source).1 in
      let rest = fill_packet room events target (append_payload f payload source) in
      if not (ltb (events + f.packet_events) target)
      then ok f
      else if ltb maximum_udp_payload (newline_frame_size payload)
      then throws (runtime_error (codes "A newline-framed log exceeds the maximum UDP payload"))
      else if ltb 0 f.packet_events
          && ltb packed_datagram_target (length f.packet + newline_frame_size payload)
      then ok (keep_payload f payload source)
      else rest

  -- A new packet begins with the payload that did not fit into the last one.
  abbrev pub open_packet : Option Bytes → S → Fill S
  open_packet none source = record {
    packet = [];
    packet_events = 0;
    pending_payload = none;
    source = source;
  }
  open_packet (some payload) source = record {
    packet = append_frame [] payload newline;
    packet_events = 1;
    pending_payload = none;
    source = source;
  }

  abbrev pub close_packet : Fill S → Bytes × ℕ × Packer S
  close_packet f = (
    f.packet,
    f.packet_events,
    record {
      pending_packet = [];
      pending_packet_events = 0;
      pending_payload = f.pending_payload;
      source = f.source;
    },
  )

  unfoldable pub build_packet : Packer S → ℕ → ℕ → Result (Bytes × ℕ × Packer S)
  build_packet s events target =
      if not (is_empty s.pending_packet)
      then ok (
        s.pending_packet,
        s.pending_packet_events,
        record {
          pending_packet = [];
          pending_packet_events = 0;
          pending_payload = s.pending_payload;
          source = s.source;
        },
      )
      else (do
        let first = open_packet s.pending_payload s.source
        f ← fill_packet (packed_event_limit - first.packet_events) events target first
        ok (close_packet f))

  abbrev pub add_packet : Batch → Bytes → ℕ → Batch
  add_packet b packet packet_events = record {
    packets = b.packets ++ packet ∷ [];
    batch_bytes = b.batch_bytes + length packet;
    events = b.events + packet_events;
  }

  abbrev pub keep_packet : Packer S → Bytes → ℕ → Packer S
  keep_packet s packet packet_events = record {
    pending_packet = packet;
    pending_packet_events = packet_events;
    pending_payload = s.pending_payload;
    source = s.source;
  }

  unfoldable pub fill_batch : ℕ → ℕ → Batch → Packer S → Result (Batch × Packer S)
  fill_batch zero target b s = ok (b, s)
  fill_batch (suc fuel) target b s =
      let round = build_packet s b.events target >>= λ (packet, packet_events, s').
      let rest = fill_batch fuel target (add_packet b packet packet_events) s' in
      if not (is_empty b.packets) && ltb integrated_batch_target (b.batch_bytes + length packet)
      then ok (b, keep_packet s' packet packet_events)
      else rest in
      if ltb b.batch_bytes integrated_batch_target && ltb b.events target then round else ok (b, s)

  -- A batch: every packet has a byte, so the fuel is enough.
  abbrev pub make_batch : ℕ → Packer S → Result (Batch × Packer S)
  make_batch quota =
      fill_batch integrated_batch_target (rate_limited_event_target quota) empty_batch
