-- ===== src/Framing/OctetCounting.antt =====
-- Octet counting: a receiver that reads a length, a space, and then so many bytes.
use log_generator.Domain.{octet_counting}
use log_generator.Framing.{append_frame, append_frames}
use log_generator.Prelude.Decimal.{
  to_string, value_onto, value_onto-to_string, to_string-Digits, Digits,
}
use log_generator.Prelude.{
  ℕ, zero, suc, ◌+◌, ◌*◌, ◌-◌, ◌<◌, ◌≡◌, refl, sym, ap, ◌∙◌, List, [], ◌∷◌, ◌++◌, Option, none,
  some, append_assoc, append-nil, ◌==◌, leb, if◌then◌else◌, Bytes, length, length-append, take,
  drop, take-append, drop-append, is_digit, arith,
}

-- The decimal length up to the space; `none` where another byte stands.
read_size : ℕ → Bytes → Option (ℕ × Bytes)
read_size n [] = none
read_size n (c ∷ cs) =
    if c == b' '
    then some (n, cs)
    else if is_digit c
    then read_size (n * 10 + (c - b'0')) cs
    else none

read_payload : Option (ℕ × Bytes) → Option (Bytes × Bytes)
read_payload none = none
read_payload (some (n, rest)) =
    if leb n (length rest) then some (take n rest, drop n rest) else none

-- The payloads of a stream of frames; `none` where a frame is cut off or has no length.
pub read_frames : ℕ → Bytes → Option (List Bytes)
read_frames zero stream = none
read_frames (suc fuel) [] = some []
read_frames (suc fuel) (c ∷ cs) = elim (read_payload (read_size 0 (c ∷ cs))) [
  | none ↦ none
  | some (payload, rest) ↦ elim (read_frames fuel rest) [
    | none ↦ none
    | some payloads ↦ some (payload ∷ payloads)
  ]
]

read_size-Digits :
    (ds : Bytes) (n : ℕ) (rest : Bytes)
    → Digits ds
    → read_size n (ds ++ (b' ' ∷ rest)) ≡ some (value_onto n ds, rest)
unfolding read_size value_onto is_digit
read_size-Digits [] n rest h = refl
read_size-Digits (d ∷ ds) n rest h =
    ground (arith, read_size-Digits ds (n * 10 + (d - b'0')) rest h.1)

frame : Bytes → Bytes → Bytes
frame p rest = to_string (length p) ++ (b' ' ∷ (p ++ rest))

read_payload-frame : (p rest : Bytes) → read_payload (read_size 0 (frame p rest)) ≡ some (p, rest)
unfolding frame
read_payload-frame p rest =
    rw
      (
        read_size-Digits (to_string (length p)) 0 (p ++ rest) (to_string-Digits (length p)),
        value_onto-to_string (length p),
      )
      (unfold read_payload in
        ground (arith, length-append p rest, take-append p rest, drop-append p rest))

append_frame-frame : (batch p : Bytes) → append_frame batch p octet_counting ≡ batch ++ frame p []
unfolding append_frame frame
append_frame-frame batch p = simp (append_assoc, append-nil)

frame-append : (p rest : Bytes) → frame p [] ++ rest ≡ frame p rest
unfolding frame
frame-append p rest = simp (append_assoc, append-nil)

streamed : List Bytes → Bytes
streamed [] = []
streamed (p ∷ ps) = frame p (streamed ps)

append_frames-streamed :
    (ps : List Bytes) (batch : Bytes) → append_frames batch ps octet_counting ≡ batch ++ streamed ps
unfolding append_frames streamed
append_frames-streamed [] batch = sym (append-nil batch)
append_frames-streamed (p ∷ ps) batch = rw (append_frame-frame batch p) (
    append_frames-streamed ps _
    ∙ simp append_assoc (ap (◌++◌ batch) (frame-append p (streamed ps))))

read_frames-step :
    (fuel : ℕ) (stream p rest : Bytes) (ps : List Bytes)
    → read_payload (read_size 0 stream) ≡ some (p, rest)
    → read_frames fuel rest ≡ some ps
    → read_frames (suc fuel) stream ≡ some (p ∷ ps)
unfolding read_frames
read_frames-step fuel [] p rest ps h k = unfold read_size in unfold read_payload in cc
read_frames-step fuel (c ∷ cs) p rest ps h k = rw (h, read_frames) (rw (k, read_frames))

read_frames-streamed :
    (ps : List Bytes) (fuel : ℕ) → length ps < fuel → read_frames fuel (streamed ps) ≡ some ps
unfolding streamed
read_frames-streamed ps zero h = absurd (omega arith)
read_frames-streamed [] (suc fuel) h = unfold read_frames in refl
read_frames-streamed (p ∷ ps) (suc fuel) h =
    read_frames-step fuel (frame p (streamed ps)) p (streamed ps) ps
      (read_payload-frame p (streamed ps)) (read_frames-streamed ps fuel (omega arith))

-- A receiver that reads lengths gets back exactly the payloads, whatever bytes they hold.
pub read_frames-append_frames :
    (ps : List Bytes) → read_frames (suc (length ps)) (append_frames [] ps octet_counting) ≡ some ps
read_frames-append_frames ps =
    ap (read_frames (suc (length ps))) (append_frames-streamed ps [])
    ∙ read_frames-streamed ps (suc (length ps)) (omega arith)
