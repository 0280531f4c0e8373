-- ===== src/Packing/Contents.antt =====
-- No payload is lost, repeated or reordered between the source and the packets.
use log_generator.Domain.{newline}
use log_generator.Framing.Newline.{append_frame-escaped}
use log_generator.Framing.{append_frame}
use log_generator.Packing.{
  integrated_batch_target, Fill, Packer, Batch, empty_batch, append_payload, fill_packet,
  open_packet, build_packet, add_packet, fill_batch, make_batch, rate_limited_event_target,
}
use log_generator.Packing.Rounds.{
  stops, breaks, goes_on, fill_packet-FillRound, resumes, fills, build_packet-Built, ends, defers,
  adds, fill_batch-BatchRound, fill_packet-zero, fill_batch-zero,
}
use log_generator.Prelude.Result.{ok}
use log_generator.Prelude.{
  ℕ, zero, suc, ◌≡◌, refl, subst, sym, ap, ◌∙◌, List, [], ◌∷◌, ◌++◌, Option, none, some,
  append_assoc, append-nil, Bytes,
}
use mathlib.Core.Path.{◌≡⟨◌⟩◌, ◌∎}

-- The frame of one payload.
abbrev pub frame : Bytes → Bytes
frame p = append_frame [] p newline

pub append_frame-frame : (batch p : Bytes) → append_frame batch p newline ≡ batch ++ frame p
append_frame-frame batch p =
    append_frame-escaped batch p ∙ ap (◌++◌ batch) (sym (append_frame-escaped [] p))

abbrev pub frames : List Bytes → Bytes
frames [] = []
frames (p ∷ ps) = frame p ++ frames ps

pub frames-append : (ps qs : List Bytes) → frames (ps ++ qs) ≡ frames ps ++ frames qs
frames-append [] qs = refl
frames-append (p ∷ ps) qs =
    ap (◌++◌ (frame p)) (frames-append ps qs) ∙ sym (append_assoc (frame p) _ _)

-- The packets of a batch, one after another.
abbrev pub joined : List Bytes → Bytes
joined [] = []
joined (p ∷ ps) = p ++ joined ps

pub joined-append : (ps qs : List Bytes) → joined (ps ++ qs) ≡ joined ps ++ joined qs
joined-append [] qs = refl
joined-append (p ∷ ps) qs = ap (◌++◌ p) (joined-append ps qs) ∙ sym (append_assoc p _ _)

abbrev pub pending_frame : Option Bytes → Bytes
pending_frame none = []
pending_frame (some p) = frame p

regroup :
    (ps : List Bytes) (packet before after : Bytes) (drawn drawn' : List Bytes)
    → packet ++ after ≡ before ++ frames drawn
    → (joined (ps ++ packet ∷ []) ++ after) ++ frames drawn'
      ≡ (joined ps ++ before) ++ frames (drawn ++ drawn')
regroup ps packet before after drawn drawn' kept =
    (joined (ps ++ packet ∷ []) ++ after) ++ frames drawn'
    ≡⟨ (simp (joined-append, append_assoc, append-nil)) ⟩
      joined ps ++ ((packet ++ after) ++ frames drawn')
    ≡⟨ ap (λ u. joined ps ++ (u ++ frames drawn')) kept ⟩
      joined ps ++ ((before ++ frames drawn) ++ frames drawn')
    ≡⟨ (simp (frames-append, append_assoc)) ⟩ (joined ps ++ before) ++ frames (drawn ++ drawn') ∎

module _ {ℓ} {S : Type ℓ} (next_payload : S → Bytes × S) where
  -- The source yields these payloads on the way from one state to another.
  pub data Yields : S → List Bytes → S → Type ℓ where
    none_yet : {s : S} → Yields s [] s
    one_more :
        {s t : S} {ps : List Bytes}
        → Yields (next_payload s).1 ps t
        → Yields s ((next_payload s).0 ∷ ps) t

  Yields-trans :
      {s t u : S} {ps qs : List Bytes} → Yields s ps t → Yields t qs u → Yields s (ps ++ qs) u
  Yields-trans none_yet b = b
  Yields-trans (one_more a) b = one_more (Yields-trans a b)

  -- The payloads `drawn` between two states of a fill are in its packet or wait behind it.
  abbrev FillKeeps : Fill S → Fill S → Type ℓ
  FillKeeps f g =
      (drawn : List Bytes) × Yields f.source drawn g.source
      × (g.packet ++ pending_frame g.pending_payload ≡ f.packet ++ frames drawn)

  fill-stops : (f g : Fill S) → f.pending_payload ≡ none → g ≡ f → FillKeeps f g
  fill-stops f g e same = rw same ([], none_yet, rw e)

  fill_packet-keeps :
      (room events target : ℕ) (f g : Fill S)
      → f.pending_payload ≡ none
      → fill_packet next_payload room events target f ≡ ok g
      → FillKeeps f g
  fill_packet-keeps zero events target f g e h =
      fill-stops f g e (fill_packet-zero next_payload events target f g h)
  fill_packet-keeps (suc room) events target f g e h =
      elim (fill_packet-FillRound next_payload room events target f g h) [
        | stops _ same ↦ fill-stops f g e same
        | breaks _ _ same ↦
            rw same (_ ∷ [], one_more none_yet, ap (◌++◌ f.packet) (sym (append-nil _)))
        | goes_on _ _ _ later ↦
            let p : Bytes = (next_payload f.source).0 in
            let (drawn, y, kept) =
              fill_packet-keeps room events target
                (append_payload next_payload f p (next_payload f.source).1) g e later in
            (
              p ∷ drawn,
              one_more y,
              kept
                  ∙ ap (λ t. t ++ frames drawn) (append_frame-frame f.packet p)
                  ∙ append_assoc f.packet (frame p) (frames drawn),
            )
      ]

  -- What waits to be sent, oldest first.
  abbrev pub unsent : Packer S → Bytes
  unsent s = s.pending_packet ++ pending_frame s.pending_payload

  open_packet-pending :
      (o : Option Bytes) (source : S)
      → ((open_packet next_payload o source).packet ≡ pending_frame o)
        × ((open_packet next_payload o source).source ≡ source)
        × ((open_packet next_payload o source).pending_payload ≡ none)
  open_packet-pending none source = (refl, refl, refl)
  open_packet-pending (some p) source = (refl, refl, refl)

  build_packet-keeps :
      (s : Packer S) (events target : ℕ) (packet : Bytes) (n : ℕ) (s' : Packer S)
      → build_packet next_payload s events target ≡ ok (packet, n, s')
      → (drawn : List Bytes) × Yields s.source drawn s'.source
        × (packet ++ unsent s' ≡ unsent s ++ frames drawn)
  build_packet-keeps s events target packet n s' h =
      elim (build_packet-Built next_payload s events target (packet, n, s') h) [
        | resumes _ same ↦
            rw (ap (λ r. r.2) same, ap (λ r. r.0) same) ([], none_yet, sym (append-nil _))
        | fills empty f filled same ↦
            let (packet_is, source_is, no_pending) =
              open_packet-pending s.pending_payload s.source in
            let (drawn, y, kept) =
              fill_packet-keeps _ events target
                (open_packet next_payload s.pending_payload s.source) f no_pending filled in
            rw (ap (λ r. r.2) same, ap (λ r. r.0) same, empty)
              (
                drawn,
                subst (λ a. Yields a drawn f.source) source_is y,
                kept ∙ ap (λ t. t ++ frames drawn) packet_is,
              )
      ]

  -- From one point of a batch to a later one.
  abbrev BatchKeeps : Batch → Packer S → Batch → Packer S → Type ℓ
  BatchKeeps b s b' s' =
      (drawn : List Bytes) × Yields s.source drawn s'.source
      × (joined b'.packets ++ unsent s' ≡ (joined b.packets ++ unsent s) ++ frames drawn)

  batch-stays :
      (b : Batch) (s : Packer S) (b' : Batch) (s' : Packer S)
      → ◌≡◌ {A = Batch × Packer S} (b', s') (b, s)
      → BatchKeeps b s b' s'
  batch-stays b s b' s' same =
      rw (ap (λ r. r.1) same, ap (λ r. r.0) same) ([], none_yet, sym (append-nil _))

  build_packet-empties :
      (s : Packer S) (events target : ℕ) (packet : Bytes) (n : ℕ) (s' : Packer S)
      → build_packet next_payload s events target ≡ ok (packet, n, s')
      → s'.pending_packet ≡ []
  build_packet-empties s events target packet n s' h =
      elim (build_packet-Built next_payload s events target (packet, n, s') h) [
        | resumes _ same ↦ ap (λ r. r.2.pending_packet) same
        | fills _ f _ same ↦ ap (λ r. r.2.pending_packet) same
      ]

  fill_batch-keeps :
      (fuel target : ℕ) (b : Batch) (s : Packer S) (b' : Batch) (s' : Packer S)
      → fill_batch next_payload fuel target b s ≡ ok (b', s')
      → BatchKeeps b s b' s'
  fill_batch-keeps zero target b s b' s' h =
      batch-stays b s b' s' (fill_batch-zero next_payload target b s (b', s') h)
  fill_batch-keeps (suc fuel) target b s b' s' h =
      elim (fill_batch-BatchRound next_payload fuel target b s (b', s') h) [
        | ends _ same ↦ batch-stays b s b' s' same
        | defers _ packet n t built _ _ same ↦
            let (drawn, y, kept) = build_packet-keeps s b.events target packet n t built in
            let emptied = build_packet-empties s b.events target packet n t built in
            rw (ap (λ r. r.1) same, ap (λ r. r.0) same)
              (
                drawn,
                y,
                ap (λ u. joined b.packets ++ u)
                      (ap (λ u. packet ++ (u ++ pending_frame t.pending_payload)) (sym emptied)
                        ∙ kept)
                    ∙ sym (append_assoc (joined b.packets) (unsent s) (frames drawn)),
              )
        | adds _ _ packet n t built _ later ↦
            let (drawn, y, kept) = build_packet-keeps s b.events target packet n t built in
            let (drawn', y', kept') =
              fill_batch-keeps fuel target (add_packet next_payload b packet n) t b' s' later in
            (
              drawn ++ drawn',
              Yields-trans y y',
              kept' ∙ regroup b.packets packet (unsent s) (unsent t) drawn drawn' kept,
            )
      ]

  -- If a batch is made, what it sends, followed by what still waits, is what waited before, followed
  -- by the frames of the payloads drawn from the source for this batch, in order.
  pub make_batch-keeps :
      (quota : ℕ) (s : Packer S) (b : Batch) (s' : Packer S)
      → make_batch next_payload quota s ≡ ok (b, s')
      → (drawn : List Bytes) × Yields s.source drawn s'.source
        × (joined b.packets ++ unsent s' ≡ unsent s ++ frames drawn)
  make_batch-keeps quota s b s' h =
      fill_batch-keeps integrated_batch_target (rate_limited_event_target quota) empty_batch s b s'
        h
