-- ===== src/Framing.antt =====
-- src/application/stress_test_service.cpp: `append_frame` and `newline_frame_size`.
pub mod Newline
pub mod OctetCounting
use log_generator.Domain.{StreamFraming, newline, octet_counting}
use log_generator.Prelude.Decimal.{to_string}
use log_generator.Prelude.{
  ℕ, ◌+◌, Bool, true, false, ◌||◌, List, [], ◌∷◌, ◌++◌, ◌==◌, if◌then◌else◌, Bytes, length, count,
}

abbrev pub is_break : ℕ → Bool
is_break c = c == b'\r' || c == b'\n'

-- `payload.find_first_of("\r\n") != npos`.
unfoldable pub has_break : Bytes → Bool
has_break [] = false
has_break (c ∷ cs) = is_break c || has_break cs

abbrev pub escape_byte : ℕ → Bytes
escape_byte c =
    if c == b'\r' then b'\\' ∷ b'r' ∷ [] else if c == b'\n' then b'\\' ∷ b'n' ∷ [] else c ∷ []

append_escaped : Bytes → Bytes → Bytes
append_escaped batch [] = batch
append_escaped batch (c ∷ cs) = append_escaped (batch ++ escape_byte c) cs

unfoldable pub append_frame : Bytes → Bytes → StreamFraming → Bytes
unfolding has_break append_escaped to_string
append_frame batch payload octet_counting =
    ((batch ++ to_string (length payload)) ++ b' ' ∷ []) ++ payload
append_frame batch payload newline =
    if has_break payload
    then append_escaped batch payload ++ b'\n' ∷ []
    else (batch ++ payload) ++ b'\n' ∷ []

count_breaks : Bytes → ℕ
count_breaks [] = 0
count_breaks (c ∷ cs) = (if is_break c then 1 else 0) + count_breaks cs

unfoldable pub newline_frame_size : Bytes → ℕ
unfolding count_breaks
newline_frame_size payload = length payload + 1 + count_breaks payload

-- The loops of `run_worker` append one payload after another.
unfoldable pub append_frames : Bytes → List Bytes → StreamFraming → Bytes
append_frames batch [] framing = batch
append_frames batch (p ∷ ps) framing = append_frames (append_frame batch p framing) ps framing
