-- ===== src/FileTransport/Pieces.antt =====
-- The pieces of a payload: nothing is lost, and there are as many as `send` counts beforehand.
use log_generator.FileTransport.{split_logs, ends_with_newline, log_count}
use log_generator.Prelude.{
  ℕ, ◌≡◌, refl, ap, ◌∙◌, false, List, [], ◌∷◌, ◌++◌, append_assoc, ◌==◌, if-holds, Bytes, length,
  count, is_empty, arith,
}

abbrev pub joined : List Bytes → Bytes
joined [] = []
joined (p ∷ ps) = p ++ joined ps

-- The logs put together again are the payload.
pub joined-split_logs : (cs log : Bytes) → joined (split_logs log cs) ≡ log ++ cs
unfolding split_logs
joined-split_logs [] [] = refl
joined-split_logs [] (x ∷ log) = refl
joined-split_logs (c ∷ cs) log =
    if-holds (λ ps. joined ps ≡ log ++ (c ∷ cs)) (c == b'\n')
      (λ _. ap (◌++◌ (log ++ c ∷ [])) (joined-split_logs cs []) ∙ append_assoc log (c ∷ []) cs)
      (λ _. joined-split_logs cs (log ++ c ∷ []) ∙ append_assoc log (c ∷ []) cs)

length-split_logs-cons :
    (c : ℕ) (cs log : Bytes) → length (split_logs log (c ∷ cs)) ≡ log_count (c ∷ cs)
unfolding split_logs log_count ends_with_newline count
length-split_logs-cons c [] log = ground (arith, last log)
  where
    last : (log : Bytes) → is_empty (log ++ c ∷ []) ≡ false
    last [] = refl
    last (x ∷ log) = refl
length-split_logs-cons c (d ∷ cs) log =
    ground (arith, length-split_logs-cons d cs [], length-split_logs-cons d cs (log ++ c ∷ []))

-- `send` cuts a payload that is not empty into as many logs as it has counted for the limit, and the
-- logs together are the payload, byte for byte.
pub split_logs-count :
    (payload : Bytes)
    → is_empty payload ≡ false
    → (length (split_logs [] payload) ≡ log_count payload)
      × (joined (split_logs [] payload) ≡ payload)
split_logs-count [] h = cc
split_logs-count (c ∷ cs) h = (length-split_logs-cons c cs [], joined-split_logs (c ∷ cs) [])
