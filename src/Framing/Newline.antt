-- ===== src/Framing/Newline.antt =====
-- Newline framing: a receiver that cuts the stream at newlines.
use log_generator.Domain.{newline}
use log_generator.Prelude.{
  ℕ, ◌+◌, ◌≡◌, refl, sym, ap, ◌∙◌, false, List, [], ◌∷◌, ◌++◌, map, append_assoc, append-nil, inl,
  inr, ◌==◌, if◌then◌else◌, Bytes, length, length-append, arith, Bool-cases, count, count-append,
}
use log_generator.Framing.{
  has_break, escape_byte, append_escaped, append_frame, newline_frame_size, count_breaks,
  append_frames,
}

-- The text that stands for a payload on one line.
unfoldable pub escaped : Bytes → Bytes
escaped [] = []
escaped (c ∷ cs) = escape_byte c ++ escaped cs

append_escaped-escaped : (p batch : Bytes) → append_escaped batch p ≡ batch ++ escaped p
unfolding append_escaped escaped
append_escaped-escaped [] batch = sym (append-nil batch)
append_escaped-escaped (c ∷ cs) batch =
    append_escaped-escaped cs (batch ++ escape_byte c) ∙ append_assoc batch (escape_byte c) _

-- A payload without line breaks goes on the line as it is.
pub escaped_plain : (p : Bytes) → has_break p ≡ false → escaped p ≡ p
unfolding escaped has_break
escaped_plain [] h = refl
escaped_plain (c ∷ cs) h = ground (arith, escaped_plain cs)

pub append_frame-escaped :
    (batch p : Bytes) → append_frame batch p newline ≡ batch ++ (escaped p ++ b'\n' ∷ [])
unfolding append_frame
append_frame-escaped batch p = elim (Bool-cases (has_break p)) [
  | inl broken ↦ rw (broken, append_escaped-escaped p batch) (append_assoc batch (escaped p) _)
  | inr plain ↦ rw (plain, escaped_plain p plain) (append_assoc batch p _)
]

length-escaped : (p : Bytes) → length (escaped p) ≡ length p + count_breaks p
unfolding escaped count_breaks
length-escaped [] = omega arith
length-escaped (c ∷ cs) = ground (arith, length-escaped cs)

-- `newline_frame_size` predicts by how much a newline frame makes the batch longer.
pub length-append_frame :
    (batch p : Bytes) → length (append_frame batch p newline) ≡ length batch + newline_frame_size p
unfolding newline_frame_size
length-append_frame batch p = rw (append_frame-escaped batch p) (
    omega (
      arith,
      length-append batch (escaped p ++ b'\n' ∷ []),
      length-append (escaped p) (b'\n' ∷ []),
      length-escaped p,
    ))

-- What a receiver reads: the complete lines of the stream; `line` is what came since the last one.
unfoldable pub split_lines : Bytes → Bytes → List Bytes
split_lines line [] = []
split_lines line (c ∷ cs) =
    let ended = line ∷ split_lines [] cs in
    let longer = split_lines (line ++ c ∷ []) cs in if c == b'\n' then ended else longer

split_lines-plain :
    (c : ℕ) (line rest : Bytes)
    → (c == b'\n') ≡ false
    → split_lines line (c ∷ rest) ≡ split_lines (line ++ c ∷ []) rest
unfolding split_lines
split_lines-plain c line rest h = rw h

split_lines-escape_byte :
    (c : ℕ) (line rest : Bytes)
    → split_lines line (escape_byte c ++ rest) ≡ split_lines (line ++ escape_byte c) rest
unfolding split_lines
split_lines-escape_byte c line rest =
    ground (
      arith,
      append_assoc line (b'\\' ∷ []) (b'n' ∷ []),
      append_assoc line (b'\\' ∷ []) (b'r' ∷ []),
    )

split_lines-escaped :
    (p line rest : Bytes)
    → split_lines line (escaped p ++ (b'\n' ∷ rest)) ≡ (line ++ escaped p) ∷ split_lines [] rest
unfolding escaped
split_lines-escaped [] line rest = rw append-nil (unfold split_lines in refl)
split_lines-escaped (c ∷ cs) line rest =
    ap (split_lines line) (append_assoc (escape_byte c) (escaped cs) (b'\n' ∷ rest))
    ∙ split_lines-escape_byte c line (escaped cs ++ (b'\n' ∷ rest))
    ∙ split_lines-escaped cs (line ++ escape_byte c) rest
    ∙ ap (λ t. t ∷ split_lines [] rest) (append_assoc line (escape_byte c) (escaped cs))

-- All frames, each in front of what follows it.
rendered : List Bytes → Bytes
rendered [] = []
rendered (p ∷ ps) = escaped p ++ (b'\n' ∷ rendered ps)

append_frames-rendered :
    (ps : List Bytes) (batch : Bytes) → append_frames batch ps newline ≡ batch ++ rendered ps
unfolding append_frames rendered
append_frames-rendered [] batch = sym (append-nil batch)
append_frames-rendered (p ∷ ps) batch =
    rw (append_frame-escaped batch p)
      (append_frames-rendered ps _ ∙ simp (append_assoc, append_assoc))

split_lines-rendered : (ps : List Bytes) → split_lines [] (rendered ps) ≡ map escaped ps
unfolding rendered
split_lines-rendered [] = unfold split_lines in refl
split_lines-rendered (p ∷ ps) =
    split_lines-escaped p [] (rendered ps) ∙ ap (◌∷◌ (escaped p)) (split_lines-rendered ps)

-- A receiver that cuts the stream at newlines gets one line for each payload, in order: the
-- payload with its line breaks escaped.
pub split_lines-append_frames :
    (ps : List Bytes) → split_lines [] (append_frames [] ps newline) ≡ map escaped ps
split_lines-append_frames ps =
    ap (split_lines []) (append_frames-rendered ps []) ∙ split_lines-rendered ps

count-escaped : (p : Bytes) → count b'\n' (escaped p) ≡ 0
unfolding escaped count
count-escaped [] = refl
count-escaped (c ∷ cs) = ground (arith, count-escaped cs)

-- A newline frame ends in the only newline that it holds.
pub count-append_frame :
    (batch p : Bytes) → count b'\n' (append_frame batch p newline) ≡ count b'\n' batch + 1
count-append_frame batch p = rw (append_frame-escaped batch p) (
    omega (
      arith,
      count-append b'\n' batch (escaped p ++ b'\n' ∷ []),
      count-append b'\n' (escaped p) (b'\n' ∷ []),
      count-escaped p,
      last,
    ))
  where
    last : count b'\n' (b'\n' ∷ []) ≡ 1
    last = unfold count in refl
