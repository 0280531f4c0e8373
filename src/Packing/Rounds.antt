-- ===== src/Packing/Rounds.antt =====
-- The ways in which one round of each packing loop can end.
use log_generator.Framing.{newline_frame_size}
use log_generator.Packing.{
  packed_event_limit, packed_datagram_target, integrated_batch_target, maximum_udp_payload, Fill,
  Packer, Batch, append_payload, keep_payload, fill_packet, open_packet, close_packet, build_packet,
  add_packet, keep_packet, fill_batch,
}
use log_generator.Prelude.Result.{ok, ok-injective, >>=-eq-ok}
use log_generator.Prelude.{
  ℕ, zero, suc, ◌+◌, ◌-◌, ◌≤◌, ◌<◌, ◌≡◌, ◌≢◌, ◌⊎◌, refl, sym, inl, inr, true, false, not, ◌&&◌, [],
  ◌∷◌, ltb, if-cases, Bytes, length, is_empty, arith,
}

module _ {ℓ} {S : Type ℓ} (next_payload : S → Bytes × S) where
  pub data FillRound (room events target : ℕ) (f g : Fill S) : Type ℓ where
    stops : target ≤ events + f.packet_events → g ≡ f → FillRound room events target f g
    breaks :
        0 < f.packet_events
        → newline_frame_size (next_payload f.source).0 ≤ maximum_udp_payload
        → g ≡ keep_payload next_payload f (next_payload f.source).0 (next_payload f.source).1
        → FillRound room events target f g
    goes_on :
        events + f.packet_events < target
        → newline_frame_size (next_payload f.source).0 ≤ maximum_udp_payload
        → (f.packet_events ≡ 0)
          ⊎ (length f.packet + newline_frame_size (next_payload f.source).0
              ≤ packed_datagram_target)
        → fill_packet next_payload room events target
            (append_payload next_payload f (next_payload f.source).0 (next_payload f.source).1)
          ≡ ok g
        → FillRound room events target f g

  pub fill_packet-FillRound :
      (room events target : ℕ) (f g : Fill S)
      → fill_packet next_payload (suc room) events target f ≡ ok g
      → FillRound room events target f g
  unfolding fill_packet
  fill_packet-FillRound room events target f g h =
      elim (if-cases (not (ltb (events + f.packet_events) target)) h) [
        | inl (full, e) ↦ stops (ground (arith, full)) (ok-injective (sym e))
        | inr (space, e) ↦
            elim (if-cases (ltb maximum_udp_payload (newline_frame_size (next_payload f.source).0))
              e) [
                | inl (large, e') ↦ absurd (ground (arith, e'))
                | inr (small, e') ↦
                    elim (if-cases
                      (ltb 0 f.packet_events
                        && ltb packed_datagram_target
                            (length f.packet + newline_frame_size (next_payload f.source).0))
                      e') [
                        | inl (over, e'') ↦
                            breaks (ground (arith, over)) (ground (arith, small))
                              (ok-injective (sym e''))
                        | inr (fits, e'') ↦
                            goes_on (ground (arith, space)) (ground (arith, small))
                              (ground (arith, fits)) e''
                      ]
              ]
      ]

  pub data Built (s : Packer S) (events target : ℕ) (r : Bytes × ℕ × Packer S) : Type ℓ where
    resumes :
        s.pending_packet ≢ []
        → r ≡ (s.pending_packet, s.pending_packet_events, keep_packet next_payload s [] 0)
        → Built s events target r
    fills :
        s.pending_packet ≡ []
        → (f : Fill S)
        → fill_packet next_payload
            (packed_event_limit
              - (open_packet next_payload s.pending_payload s.source).packet_events)
            events
            target
            (open_packet next_payload s.pending_payload s.source)
          ≡ ok f
        → r ≡ close_packet next_payload f
        → Built s events target r

  pub build_packet-Built :
      (s : Packer S) (events target : ℕ) (r : Bytes × ℕ × Packer S)
      → build_packet next_payload s events target ≡ ok r
      → Built s events target r
  unfolding build_packet
  build_packet-Built s events target r h = elim (if-cases (not (is_empty s.pending_packet)) h) [
    | inl (kept, e) ↦ resumes (not_empty s.pending_packet kept) (ok-injective (sym e))
    | inr (none_kept, e) ↦
        let (f, filled, e') = >>=-eq-ok _ (λ f. ok (close_packet next_payload f)) e in
        fills (empty s.pending_packet none_kept) f filled (ok-injective (sym e'))
  ]
    where
      not_empty : (p : Bytes) → not (is_empty p) ≡ true → p ≢ []
      not_empty [] k = cc
      not_empty (x ∷ p) k = cc

      empty : (p : Bytes) → not (is_empty p) ≡ false → p ≡ []
      empty [] k = refl
      empty (x ∷ p) k = cc

  pub data BatchRound (fuel target : ℕ) (b : Batch) (s : Packer S) (r : Batch × Packer S)
      : Type ℓ where
    ends :
        (integrated_batch_target ≤ b.batch_bytes) ⊎ (target ≤ b.events)
        → r ≡ (b, s)
        → BatchRound fuel target b s r
    defers :
        b.events < target
        → (packet : Bytes) (packet_events : ℕ) (s' : Packer S)
        → build_packet next_payload s b.events target ≡ ok (packet, packet_events, s')
        → is_empty b.packets ≡ false
        → integrated_batch_target < b.batch_bytes + length packet
        → r ≡ (b, keep_packet next_payload s' packet packet_events)
        → BatchRound fuel target b s r
    adds :
        b.batch_bytes < integrated_batch_target
        → b.events < target
        → (packet : Bytes) (packet_events : ℕ) (s' : Packer S)
        → build_packet next_payload s b.events target ≡ ok (packet, packet_events, s')
        → (is_empty b.packets ≡ true) ⊎ (b.batch_bytes + length packet ≤ integrated_batch_target)
        → fill_batch next_payload fuel target (add_packet next_payload b packet packet_events) s'
          ≡ ok r
        → BatchRound fuel target b s r

  pub fill_batch-BatchRound :
      (fuel target : ℕ) (b : Batch) (s : Packer S) (r : Batch × Packer S)
      → fill_batch next_payload (suc fuel) target b s ≡ ok r
      → BatchRound fuel target b s r
  unfolding fill_batch
  fill_batch-BatchRound fuel target b s r h =
      elim (if-cases (ltb b.batch_bytes integrated_batch_target && ltb b.events target) h) [
        | inr (over, e) ↦ ends (ground (arith, over)) (ok-injective (sym e))
        | inl (space, e) ↦
            let (built, made, e') = >>=-eq-ok (build_packet next_payload s b.events target) _ e in
            elim (if-cases
              (not (is_empty b.packets)
                && ltb integrated_batch_target (b.batch_bytes + length built.0))
              e') [
                | inl (large, e'') ↦
                    defers (ground (arith, space)) built.0 built.1 built.2 made
                      (ground (arith, large)) (ground (arith, large)) (ok-injective (sym e''))
                | inr (fits, e'') ↦
                    adds (ground (arith, space)) (ground (arith, space)) built.0 built.1 built.2
                      made (ground (arith, fits)) e''
              ]
      ]

  -- With no fuel left the loops return what they have.
  pub fill_packet-zero :
      (events target : ℕ) (f g : Fill S)
      → fill_packet next_payload zero events target f ≡ ok g
      → g ≡ f
  unfolding fill_packet
  fill_packet-zero events target f g h = ok-injective (sym h)

  pub fill_batch-zero :
      (target : ℕ) (b : Batch) (s : Packer S) (r : Batch × Packer S)
      → fill_batch next_payload zero target b s ≡ ok r
      → r ≡ (b, s)
  unfolding fill_batch
  fill_batch-zero target b s r h = ok-injective (sym h)
