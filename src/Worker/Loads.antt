-- ===== src/Worker/Loads.antt =====
-- src/application/stress_test_service.cpp: what `run_worker` counts of a load, against the payloads
-- that it hands to the transport.
use log_generator.Domain.{EndpointConfig, StreamFraming, is_file, is_packed}
use log_generator.Packing.Rounds.{ends, defers, adds, fill_batch-BatchRound, fill_batch-zero}
use log_generator.Packing.{
  Packer, Batch, add_packet, fill_batch, make_batch, integrated_batch_target,
  rate_limited_event_target, empty_batch,
}
use log_generator.Prelude.Int.{ℤ}
use log_generator.Prelude.Result.{Result, ok, throws, ok-injective}
use log_generator.Prelude.{
  ℕ, zero, suc, ◌+◌, ◌≡◌, ◌==◌, refl, ap, sym, subst, Bool, true, false, List, [], ◌∷◌, ◌++◌, Bytes,
  length, arith, if◌then◌else◌, if-holds,
}
use log_generator.Quota.{datagram_batch_events, stream_batch_events, file_batch_events}
use log_generator.Worker.Branches.{
  Source, total_size, draw_payloads, prepare_packed, prepare_one, prepare_datagrams, prepare_stream,
  unpacked,
}
use log_generator.Worker.Loop.{Load}

module _ {L : Type 0} (render : L → ℤ → Bool → Bytes × L) where
  -- The bytes are those of the payloads; each payload is a datagram, or none is.
  abbrev pub IsMeasured : Bool → Load → Type 0
  IsMeasured is_datagram l =
      (l.size ≡ total_size render l.payloads)
      × (l.datagrams ≡ (if is_datagram then length l.payloads else 0))

  -- Every load that is prepared is measured.
  abbrev pub AreMeasured : {P : Type 0} → Bool → (P → Result (Load × P)) → Type 0
  AreMeasured {P = P} is_datagram prepare =
      (p p' : P) (l : Load) → prepare p ≡ ok (l, p') → IsMeasured is_datagram l

  total_size-append :
      (ps qs : List Bytes)
      → total_size render (ps ++ qs) ≡ total_size render ps + total_size render qs
  total_size-append [] qs = omega arith
  total_size-append (p ∷ ps) qs = omega (arith, total_size-append ps qs)

  module _ {ℓ} {S : Type ℓ} (next_payload : S → Bytes × S) where
    fill_batch-measured :
        (fuel target : ℕ) (b : Batch) (s : Packer S) (r : Batch × Packer S)
        → b.batch_bytes ≡ total_size render b.packets
        → fill_batch next_payload fuel target b s ≡ ok r
        → r.0.batch_bytes ≡ total_size render r.0.packets
    fill_batch-measured zero target b s r m h = rw (fill_batch-zero next_payload target b s r h) m
    fill_batch-measured (suc fuel) target b s r m h =
        elim (fill_batch-BatchRound next_payload fuel target b s r h) [
          | ends _ same ↦ rw same m
          | defers _ packet n t built _ large same ↦ rw same m
          | adds _ _ packet n t built _ later ↦
              fill_batch-measured fuel target (add_packet next_payload b packet n) t r
                (omega (arith, m, total_size-append b.packets (packet ∷ []))) later
        ]

  length-draw_payloads : (k : ℕ) (s : Source L) → length (draw_payloads render k s).0 ≡ k
  unfolding draw_payloads
  length-draw_payloads zero s = refl
  length-draw_payloads (suc k) s =
      ap suc (length-draw_payloads k (log_generator.Worker.Branches.next_payload render s).1)

  -- A load that is made is measured if it is the one that is prepared.
  ok-IsMeasured :
      {P : Type 0} {p p' : P} (is_datagram : Bool) {made l : Load}
      → ◌≡◌ {A = Result (Load × P)} (ok (made, p)) (ok (l, p'))
      → IsMeasured is_datagram made
      → IsMeasured is_datagram l
  ok-IsMeasured is_datagram h m = subst (IsMeasured is_datagram) (ap (λ r. r.0) (ok-injective h)) m

  unpacked-AreMeasured :
      (is_datagram : Bool) (prepare : Source L → Result (Load × Source L))
      → AreMeasured is_datagram prepare
      → AreMeasured is_datagram (unpacked render prepare)
  unfolding unpacked
  unpacked-AreMeasured is_datagram prepare m p p' l h = of_made (prepare p.source) refl h
    where
      of_made :
          (made : Result (Load × Source L))
          → prepare p.source ≡ made
          → elim made as (λ _. Result (Load × Packer (Source L))) [
            | throws e ↦ throws e
            | ok (load, source) ↦ ok (load, record p { source = source })
          ]
            ≡ ok (l, p')
          → IsMeasured is_datagram l
      of_made (throws e) made k = cc k
      of_made (ok (load, source)) made k = ok-IsMeasured is_datagram k (m p.source source load made)

  prepare_packed-AreMeasured : (quota : ℕ) → AreMeasured true (prepare_packed render quota)
  unfolding prepare_packed
  prepare_packed-AreMeasured quota p p' l h =
      of_made (make_batch (log_generator.Worker.Branches.next_payload render) quota p) refl h
    where
      of_made :
          (made : Result (Batch × Packer (Source L)))
          → make_batch (log_generator.Worker.Branches.next_payload render) quota p ≡ made
          → elim made as (λ _. Result (Load × Packer (Source L))) [
            | throws e ↦ throws e
            | ok (b, s') ↦ ok (
              record {
                payloads = b.packets;
                events = b.events;
                datagrams = length b.packets;
                size = b.batch_bytes;
              },
              s',
            )
          ]
            ≡ ok (l, p')
          → IsMeasured true l
      of_made (throws e) made k = cc k
      of_made (ok (b, s')) made k = ok-IsMeasured true k (
        fill_batch-measured _ integrated_batch_target (rate_limited_event_target quota) empty_batch
            p (b, s') refl made,
        refl,
      )

  prepare_one-AreMeasured : AreMeasured true (prepare_one render)
  unfolding prepare_one
  prepare_one-AreMeasured p p' l h = ok-IsMeasured true h (omega arith, refl)

  prepare_datagrams-AreMeasured : (k : ℕ) → AreMeasured true (prepare_datagrams render k)
  unfolding prepare_datagrams
  prepare_datagrams-AreMeasured k p p' l h =
      ok-IsMeasured true h (refl, sym (length-draw_payloads k p))

  prepare_stream-AreMeasured :
      (events bytes : ℕ) (framing : StreamFraming)
      → AreMeasured false (prepare_stream render events bytes framing)
  unfolding prepare_stream
  prepare_stream-AreMeasured events bytes framing p p' l h =
      ok-IsMeasured false h (omega arith, refl)

  -- How the chosen loop prepares its loads.
  abbrev pub preparation :
      EndpointConfig → Bool → ℕ → ℕ → Packer (Source L) → Result (Load × Packer (Source L))
  preparation endpoint is_datagram quota preferred =
      let batch_limit = datagram_batch_events quota preferred in
      let to_file = is_file endpoint.protocol in
      if is_datagram
      then (if is_packed endpoint.udp_packetization
          then prepare_packed render quota
          else if batch_limit == 1
          then unpacked render (prepare_one render)
          else unpacked render (prepare_datagrams render batch_limit))
      else unpacked render (
          prepare_stream render
            (if to_file then file_batch_events quota endpoint else stream_batch_events quota)
            (if to_file then 65536 else 1048576) endpoint.framing)

  pub preparation-AreMeasured :
      (endpoint : EndpointConfig) (is_datagram : Bool) (quota preferred : ℕ)
      → AreMeasured is_datagram (preparation endpoint is_datagram quota preferred)
  preparation-AreMeasured endpoint true quota preferred =
      if-holds (AreMeasured true) (is_packed endpoint.udp_packetization)
        (λ _. prepare_packed-AreMeasured quota)
        (λ _.
          if-holds (AreMeasured true) (datagram_batch_events quota preferred == 1)
            (λ _. unpacked-AreMeasured true _ prepare_one-AreMeasured)
            (λ _.
              unpacked-AreMeasured true _
                (prepare_datagrams-AreMeasured (datagram_batch_events quota preferred))))
  preparation-AreMeasured endpoint false quota preferred =
      unpacked-AreMeasured false _ (prepare_stream-AreMeasured _ _ endpoint.framing)
