-- ===== src/Packing/Progress.antt =====
-- Packing goes on until a batch is full, and succeeds unless a payload is too large.
use log_generator.Framing.Newline.{length-append_frame}
use log_generator.Framing.{newline_frame_size}
use log_generator.Domain.{newline}
use log_generator.Packing.Rounds.{
  stops, breaks, goes_on, fill_packet-FillRound, resumes, fills, build_packet-Built, ends, defers,
  adds, fill_batch-BatchRound, fill_packet-zero, fill_batch-zero,
}
use log_generator.Packing.{
  packed_event_limit, integrated_batch_target, maximum_udp_payload, Fill, Packer, Batch,
  empty_batch, append_payload, keep_payload, keep_packet, packed_datagram_target, fill_packet,
  open_packet, close_packet, build_packet, add_packet, fill_batch, make_batch,
  rate_limited_event_target,
}
use log_generator.Prelude.Result.{Result, ok, ◌>>=◌}
use log_generator.Prelude.{
  ℕ, zero, suc, ◌+◌, ◌-◌, ◌≤◌, ◌<◌, ◌≡◌, ◌≢◌, ◌⊎◌, refl, ap, inl, inr, if-holds, not, ◌&&◌, ltb,
  is_empty, false, List, [], ◌∷◌, Option, none, some, Bytes, length, arith,
}

abbrev Succeeds {ℓ} : {A : Type ℓ} → Result A → Type ℓ
Succeeds {A = A} r = (a : A) × (r ≡ ok a)

not_empty : (p : Bytes) → p ≢ [] → 0 < length p
not_empty [] h = absurd (h refl)
not_empty (x ∷ p) h = omega arith

module _ {ℓ} {S : Type ℓ} (next_payload : S → Bytes × S) where
  fill_packet-nonempty :
      (room events target : ℕ) (f g : Fill S)
      → (0 < length f.packet) ⊎ ((0 < room) × (f.packet_events ≡ 0) × (events < target))
      → fill_packet next_payload room events target f ≡ ok g
      → 0 < length g.packet
  fill_packet-nonempty zero events target f g v h =
      rw (fill_packet-zero next_payload events target f g h) (omega arith)
  fill_packet-nonempty (suc room) events target f g v h =
      elim (fill_packet-FillRound next_payload room events target f g h) [
        | stops full same ↦ rw same (omega arith)
        | breaks some_events _ same ↦ rw same (omega arith)
        | goes_on _ _ _ later ↦
            fill_packet-nonempty room events target
              (append_payload next_payload f (next_payload f.source).0 (next_payload f.source).1) g
              (inl (longer f.packet (next_payload f.source).0)) later
      ]
    where
      longer : (packet p : Bytes) → 0 < length (log_generator.Framing.append_frame packet p newline)
      longer packet p = unfold newline_frame_size in omega (arith, length-append_frame packet p)

  open_packet-room :
      (o : Option Bytes) (source : S) (events target : ℕ)
      → events < target
      → let f = open_packet next_payload o source in
        (0 < length f.packet)
        ⊎ ((0 < packed_event_limit - f.packet_events) × (f.packet_events ≡ 0) × (events < target))
  open_packet-room none source events target h = inr (omega arith, refl, h)
  open_packet-room (some p) source events target h =
      inl (unfold newline_frame_size in omega (arith, length-append_frame [] p))

  build_packet-nonempty :
      (s : Packer S) (events target : ℕ) (packet : Bytes) (n : ℕ) (s' : Packer S)
      → events < target
      → build_packet next_payload s events target ≡ ok (packet, n, s')
      → 0 < length packet
  build_packet-nonempty s events target packet n s' room h =
      elim (build_packet-Built next_payload s events target (packet, n, s') h) [
        | resumes kept same ↦ rw (ap (λ r. r.0) same) (not_empty s.pending_packet kept)
        | fills _ f filled same ↦ rw (ap (λ r. r.0) same) (
            fill_packet-nonempty _ events target
              (open_packet next_payload s.pending_payload s.source) f
              (open_packet-room s.pending_payload s.source events target room) filled)
      ]

  abbrev pub IsFull : ℕ → Batch × Packer S → Type 0
  IsFull target (b, s) =
      (integrated_batch_target ≤ b.batch_bytes)
      ⊎ (target ≤ b.events)
      ⊎ ((s.pending_packet ≢ [])
          × (b.packets ≢ [])
          × (integrated_batch_target < b.batch_bytes + length s.pending_packet))

  packets-some : (ps : List Bytes) → is_empty ps ≡ false → ps ≢ []
  packets-some [] h = cc h
  packets-some (p ∷ ps) h = λ e. cc e

  fill_batch-IsFull :
      (fuel target : ℕ) (b : Batch) (s : Packer S) (r : Batch × Packer S)
      → integrated_batch_target ≤ b.batch_bytes + fuel
      → fill_batch next_payload fuel target b s ≡ ok r
      → IsFull target r
  fill_batch-IsFull zero target b s r enough h =
      rw (fill_batch-zero next_payload target b s r h) (inl (omega arith))
  fill_batch-IsFull (suc fuel) target b s r enough h =
      elim (fill_batch-BatchRound next_payload fuel target b s r h) [
        | ends (inl large) same ↦ rw same (inl large)
        | ends (inr fast) same ↦ rw same (inr (inl fast))
        | defers room packet n t built some_packets large same ↦ rw same (
            inr (
              inr (
                λ e. absurd (
                    omega (
                      arith,
                      ap length e,
                      build_packet-nonempty s b.events target packet n t room built,
                    )),
                packets-some b.packets some_packets,
                large,
              )))
        | adds _ room packet n t built _ later ↦
            fill_batch-IsFull fuel target (add_packet next_payload b packet n) t r
              (omega (arith, build_packet-nonempty s b.events target packet n t room built)) later
      ]

  module _ (small : (x : S) → newline_frame_size (next_payload x).0 ≤ maximum_udp_payload) where
    fill_packet-Succeeds :
        (room events target : ℕ) (f : Fill S)
        → Succeeds (fill_packet next_payload room events target f)
    unfolding fill_packet
    fill_packet-Succeeds zero events target f = (f, refl)
    fill_packet-Succeeds (suc room) events target f =
        if-holds Succeeds (not (ltb (events + f.packet_events) target)) (λ _. (f, refl))
          (λ _.
            if-holds Succeeds (ltb maximum_udp_payload (newline_frame_size payload))
              (λ large. absurd (ground (arith, large, small f.source)))
              (λ _.
                if-holds Succeeds
                  (ltb 0 f.packet_events
                    && ltb packed_datagram_target (length f.packet + newline_frame_size payload))
                  (λ _. (keep_payload next_payload f payload source, refl))
                  (λ _.
                    fill_packet-Succeeds room events target
                      (append_payload next_payload f payload source))))
      where
        payload : Bytes
        payload = (next_payload f.source).0

        source : S
        source = (next_payload f.source).1

    build_packet-Succeeds :
        (s : Packer S) (events target : ℕ) → Succeeds (build_packet next_payload s events target)
    unfolding build_packet
    build_packet-Succeeds s events target =
        if-holds Succeeds (not (is_empty s.pending_packet))
          (λ _.
            ((s.pending_packet, s.pending_packet_events, keep_packet next_payload s [] 0), refl))
          (λ _. (
            close_packet next_payload filled.0,
            ap (λ m. m >>= λ g. ok (close_packet next_payload g)) filled.1,
          ))
      where
        first : Fill S
        first = open_packet next_payload s.pending_payload s.source

        filled : Succeeds (
            fill_packet next_payload (packed_event_limit - first.packet_events) events target first)
        filled = fill_packet-Succeeds (packed_event_limit - first.packet_events) events target first

    fill_batch-Succeeds :
        (fuel target : ℕ) (b : Batch) (s : Packer S)
        → Succeeds (fill_batch next_payload fuel target b s)
    unfolding fill_batch
    fill_batch-Succeeds zero target b s = ((b, s), refl)
    fill_batch-Succeeds (suc fuel) target b s =
        let ((packet, n, t), e) = build_packet-Succeeds s b.events target in
        if-holds Succeeds (ltb b.batch_bytes integrated_batch_target && ltb b.events target)
          (λ _. rw e (
            if-holds Succeeds
              (not (is_empty b.packets)
                && ltb integrated_batch_target (b.batch_bytes + length packet))
              (λ _. ((b, keep_packet next_payload t packet n), refl))
              (λ _. fill_batch-Succeeds fuel target (add_packet next_payload b packet n) t)))
          (λ _. ((b, s), refl))

    -- If no payload of the source is too large for a datagram, a batch is made, and it is full: it
    -- has reached its target size or the events that the rate allows at once, or it has a packet and
    -- the next one, which waits, would make it larger than its target size.
    pub make_batch-IsFull :
        (quota : ℕ) (s : Packer S)
        → (r : Batch × Packer S) × (make_batch next_payload quota s ≡ ok r)
          × IsFull (rate_limited_event_target quota) r
    make_batch-IsFull quota s =
        let (r, made) =
          fill_batch-Succeeds integrated_batch_target (rate_limited_event_target quota) empty_batch
            s in
        (
          r,
          made,
          fill_batch-IsFull integrated_batch_target (rate_limited_event_target quota) empty_batch s
              r (omega arith) made,
        )
