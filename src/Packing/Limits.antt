-- ===== src/Packing/Limits.antt =====
-- The sizes of packets and batches, and the count of their events.
use log_generator.Domain.{newline}
use log_generator.Framing.Newline.{length-append_frame, count-append_frame}
use log_generator.Framing.{append_frame, newline_frame_size}
use log_generator.Packing.Contents.{joined, joined-append}
use log_generator.Packing.Rounds.{
  stops, breaks, goes_on, fill_packet-FillRound, resumes, fills, build_packet-Built, ends, defers,
  adds, fill_batch-BatchRound, fill_packet-zero, fill_batch-zero,
}
use log_generator.Packing.{
  packed_datagram_target, integrated_batch_target, maximum_udp_payload, Fill, Packer, Batch,
  empty_batch, append_payload, fill_packet, open_packet, build_packet, add_packet, fill_batch,
  make_batch, rate_limited_event_target,
}
use log_generator.Prelude.Result.{ok}
use log_generator.Prelude.{
  ℕ, zero, suc, ◌+◌, ◌≤◌, ◌<◌, ◌≡◌, ◌≢◌, refl, true, ap, ◌⊎◌, inl, inr, List, [], ◌∷◌, ◌++◌, Option,
  none, some, Bytes, length, length-append, count, count-append, All, All-append, append-nil,
  is_empty, arith,
}

-- A packet that fits a datagram, holds as many lines as it counts events, and keeps the batch that
-- has `events` already within the target.
pub record PacketFits (events target : ℕ) (packet : Bytes) (packet_events : ℕ) : Type 0 where
  pub sized : length packet ≤ maximum_udp_payload
  pub counted : count b'\n' packet ≡ packet_events
  pub paced : events + packet_events ≤ target
  pub started : (0 < packet_events) ⊎ (packet ≡ [])

abbrev pub PendingFits : Option Bytes → Type 0
PendingFits none = Unit
PendingFits (some p) = newline_frame_size p ≤ maximum_udp_payload

pub record BatchFits (target : ℕ) (b : Batch) : Type 0 where
  pub sized : All (λ p. length p ≤ maximum_udp_payload) b.packets
  pub measured : b.batch_bytes ≡ length (joined b.packets)
  pub bounded : b.batch_bytes ≤ integrated_batch_target
  pub counted : count b'\n' (joined b.packets) ≡ b.events
  pub paced : b.events ≤ target

no_packet : (events target : ℕ) → events ≤ target → PacketFits events target [] 0
unfolding count
no_packet events target h = record {
  sized = omega arith;
  counted = refl;
  paced = omega arith;
  started = inr refl;
}

later_packet :
    (events target : ℕ) (packet : Bytes) (n : ℕ)
    → PacketFits events target packet n
    → PacketFits 0 target packet n
later_packet events target packet n v = record {
  sized = v.sized;
  counted = v.counted;
  paced = omega (arith, v.paced);
  started = v.started;
}

module _ {ℓ} {S : Type ℓ} (next_payload : S → Bytes × S) where
  pub record PackerFits (target : ℕ) (s : Packer S) : Type ℓ where
    pub packet : PacketFits 0 target s.pending_packet s.pending_packet_events
    pub payload : PendingFits s.pending_payload

  append_frame-PacketFits :
      (events target : ℕ) (packet p : Bytes) (n : ℕ)
      → PacketFits events target packet n
      → events + n < target
      → newline_frame_size p ≤ maximum_udp_payload
      → (n ≡ 0) ⊎ (length packet + newline_frame_size p ≤ packed_datagram_target)
      → PacketFits events target (append_frame packet p newline) (n + 1)
  append_frame-PacketFits events target packet p n v space small fits = record {
    sized = ground (arith, length-append_frame packet p, v.sized, v.started, fits);
    counted = omega (arith, count-append_frame packet p, v.counted);
    paced = omega arith;
    started = inl (omega arith);
  }

  fill_packet-fits :
      (room events target : ℕ) (f g : Fill S)
      → PacketFits events target f.packet f.packet_events
      → PendingFits f.pending_payload
      → fill_packet next_payload room events target f ≡ ok g
      → PacketFits events target g.packet g.packet_events × PendingFits g.pending_payload
  fill_packet-fits zero events target f g v w h =
      rw (fill_packet-zero next_payload events target f g h) (v, w)
  fill_packet-fits (suc room) events target f g v w h =
      elim (fill_packet-FillRound next_payload room events target f g h) [
        | stops _ same ↦ rw same (v, w)
        | breaks _ small same ↦ rw same (v, small)
        | goes_on space small fits later ↦
            fill_packet-fits room events target
              (append_payload next_payload f (next_payload f.source).0 (next_payload f.source).1) g
              (append_frame-PacketFits events target f.packet _ f.packet_events v space small fits)
              w later
      ]

  open_packet-fits :
      (events target : ℕ) (o : Option Bytes) (source : S)
      → PendingFits o
      → events < target
      → let f = open_packet next_payload o source in
        PacketFits events target f.packet f.packet_events × PendingFits f.pending_payload
  open_packet-fits events target none source w space = (no_packet events target (omega arith), tt)
  open_packet-fits events target (some p) source w space = (
    append_frame-PacketFits events target [] p 0 (no_packet events target (omega arith))
        (omega arith) w (inl refl),
    tt,
  )

  build_packet-fits :
      (s : Packer S) (events target : ℕ) (packet : Bytes) (n : ℕ) (s' : Packer S)
      → PackerFits target s
      → (events ≡ 0) ⊎ (s.pending_packet ≡ [])
      → events < target
      → build_packet next_payload s events target ≡ ok (packet, n, s')
      → PacketFits events target packet n × PackerFits target s' × (s'.pending_packet ≡ [])
  build_packet-fits s events target packet n s' v fresh space h =
      elim (build_packet-Built next_payload s events target (packet, n, s') h) [
        | resumes kept same ↦
            rw (ap (λ r. r.2) same, ap (λ r. r.1) same, ap (λ r. r.0) same)
              (
                resumed fresh kept,
                record { packet = no_packet 0 target (omega arith); payload = v.payload },
                refl,
              )
        | fills _ f filled same ↦
            let (first, waiting) =
              open_packet-fits events target s.pending_payload s.source v.payload space in
            let (sized, later) =
              fill_packet-fits _ events target (open_packet next_payload s.pending_payload s.source)
                f first waiting filled in
            rw (ap (λ r. r.2) same, ap (λ r. r.1) same, ap (λ r. r.0) same)
              (sized, record { packet = no_packet 0 target (omega arith); payload = later }, refl)
      ]
    where
      resumed :
          (events ≡ 0) ⊎ (s.pending_packet ≡ [])
          → s.pending_packet ≢ []
          → PacketFits events target s.pending_packet s.pending_packet_events
      resumed (inl zero_events) kept = rw zero_events v.packet
      resumed (inr empty) kept = absurd (kept empty)

  add_packet-fits :
      (target : ℕ) (b : Batch) (packet : Bytes) (n : ℕ)
      → BatchFits target b
      → PacketFits b.events target packet n
      → (is_empty b.packets ≡ true) ⊎ (b.batch_bytes + length packet ≤ integrated_batch_target)
      → BatchFits target (add_packet next_payload b packet n)
  add_packet-fits target b packet n v p fits = record {
    sized =
        All-append (λ q. length q ≤ maximum_udp_payload) b.packets (packet ∷ []) v.sized
          (p.sized, tt);
    measured = omega (
      arith,
      v.measured,
      ap length (joined-append b.packets (packet ∷ [])),
      length-append (joined b.packets) (packet ++ []),
      length-append packet [],
    );
    bounded = bytes_bound fits;
    counted = omega (
      arith,
      v.counted,
      p.counted,
      ap (count b'\n') (joined-append b.packets (packet ∷ [])),
      count-append b'\n' (joined b.packets) (packet ++ []),
      ap (count b'\n') (append-nil packet),
    );
    paced = p.paced;
  }
    where
      no_packets : (ps : List Bytes) → is_empty ps ≡ true → length (joined ps) ≡ 0
      no_packets [] h = refl
      no_packets (q ∷ ps) h = cc

      bytes_bound :
          (is_empty b.packets ≡ true) ⊎ (b.batch_bytes + length packet ≤ integrated_batch_target)
          → b.batch_bytes + length packet ≤ integrated_batch_target
      bytes_bound (inl first) = omega (arith, p.sized, v.measured, no_packets b.packets first)
      bytes_bound (inr h) = h

  fill_batch-fits :
      (fuel target : ℕ) (b : Batch) (s : Packer S) (b' : Batch) (s' : Packer S)
      → BatchFits target b
      → PackerFits target s
      → (b.events ≡ 0) ⊎ (s.pending_packet ≡ [])
      → fill_batch next_payload fuel target b s ≡ ok (b', s')
      → BatchFits target b' × PackerFits target s'
  fill_batch-fits zero target b s b' s' v w fresh h =
      rw
        (
          ap (λ r. r.1) (fill_batch-zero next_payload target b s (b', s') h),
          ap (λ r. r.0) (fill_batch-zero next_payload target b s (b', s') h),
        )
        (v, w)
  fill_batch-fits (suc fuel) target b s b' s' v w fresh h =
      elim (fill_batch-BatchRound next_payload fuel target b s (b', s') h) [
        | ends _ same ↦ rw (ap (λ r. r.1) same, ap (λ r. r.0) same) (v, w)
        | defers space packet n t built _ large same ↦
            let (p, q, _) = build_packet-fits s b.events target packet n t w fresh space built in
            rw (ap (λ r. r.1) same, ap (λ r. r.0) same)
              (v, record { packet = later_packet b.events target packet n p; payload = q.payload })
        | adds below space packet n t built fits later ↦
            let (p, q, e) = build_packet-fits s b.events target packet n t w fresh space built in
            fill_batch-fits fuel target (add_packet next_payload b packet n) t b' s'
              (add_packet-fits target b packet n v p fits) q (inr e) later
      ]

  -- If what waits is within the limits and a batch is made, no packet of it is larger than a UDP
  -- payload, the batch is not larger than its target size, it counts its bytes and its lines exactly,
  -- and it holds no more events than the rate allows at once; and what then waits is within the
  -- limits again.
  pub make_batch-fits :
      (quota : ℕ) (s : Packer S) (b : Batch) (s' : Packer S)
      → PackerFits (rate_limited_event_target quota) s
      → make_batch next_payload quota s ≡ ok (b, s')
      → BatchFits (rate_limited_event_target quota) b
        × PackerFits (rate_limited_event_target quota) s'
  make_batch-fits quota s b s' w h =
      fill_batch-fits integrated_batch_target (rate_limited_event_target quota) empty_batch s b s'
        none_packed w (inl refl) h
    where
      none_packed : BatchFits (rate_limited_event_target quota) empty_batch
      none_packed = record {
        sized = tt;
        measured = refl;
        bounded = omega arith;
        counted = unfold count in refl;
        paced = omega arith;
      }
