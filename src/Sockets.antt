-- ===== src/Sockets.antt =====
-- The sending loops over a socket, as they are on Linux: `send_all` and `send_datagram` of
-- src/infrastructure/socket_support.cpp, src/infrastructure/tcp_transport.cpp, and
-- src/infrastructure/udp_transport.cpp. What `send` and `sendmmsg` answer, call by call, and the text of
-- an error are arguments.
pub mod Delivery
use log_generator.Prelude.Int.{ℤ, pos, negsuc}
use log_generator.Prelude.Result.{
  Exception, Result, ok, throws, runtime_error, ◌>>=◌, ◌>>◌, throw_if,
}
use log_generator.Prelude.{
  ℕ, zero, suc, ◌+◌, ◌^◌, ◌-◌, min, Bool, true, false, not, ◌||◌, List, [], ◌∷◌, ◌++◌, map, Option,
  none, some, ◌==◌, ltb, Bytes, codes, length, take, drop, is_empty, if◌then◌else◌,
}

-- What a round of a loop does with the answer to it: it goes on behind some items, which the system
-- took or which are given up, or it throws.
pub data Answer : Type 0 where
  advances : ℕ → Bool → Answer
  stops : Exception → Answer

-- Both loops: while items are left, the next ones, `limit` at most, are offered. The items that were
-- passed are noted with whether the system took them; the outcome is missing where the fuel ends.
module _ {A : Type 0} (limit : ℕ) (ask : ℕ → ℕ → Answer) where
  unfoldable pub drain :
      ℕ → ℕ → List A → List (A × Bool) → List (A × Bool) × Option (Result (Unit {0}))
  drain fuel call [] passed = (passed, some (ok tt))
  drain zero call (x ∷ xs) passed = (passed, none)
  drain (suc fuel) call (x ∷ xs) passed = elim (ask call (min limit (length (x ∷ xs)))) [
    | stops e ↦ (passed, some (throws e))
    | advances n taken ↦
        drain fuel (suc call) (drop n (x ∷ xs)) (passed ++ map (λ y. (y, taken)) (take n (x ∷ xs)))
  ]

-- `socket_error_message(action)`.
abbrev pub ErrorText : Type 0
ErrorText = Bytes → Bytes

-- The answer of `send` to a round of `send_all`.
unfoldable pub stream_answer : ErrorText → ℤ → Answer
stream_answer error_text (negsuc n) = stops (runtime_error (error_text (codes "send")))
stream_answer error_text (pos zero) =
    stops (runtime_error (codes "Remote endpoint closed the connection"))
stream_answer error_text (pos (suc n)) = advances (suc n) true

abbrev pub int_max : ℕ
int_max = 2 ^ 31 - 1

-- `send_all`, from the call number `call` on; every round sends a byte, so that the number of bytes is
-- fuel enough.
unfoldable pub send_all :
    ErrorText → (ℕ → ℕ → ℤ) → Bytes → List (ℕ × Bool) × Option (Result (Unit {0}))
unfolding drain stream_answer
send_all error_text send payload =
    drain int_max (λ call count. stream_answer error_text (send call count)) (length payload) 0
      payload []

-- What `sendmmsg` or `send` answers: a number, the refusal of an earlier datagram, or another error.
pub data DatagramAnswer : Type 0 where
  count : ℕ → DatagramAnswer
  refused : DatagramAnswer
  failed : DatagramAnswer

unfoldable pub send_datagram : ErrorText → DatagramAnswer → Bytes → Result (Unit {0})
send_datagram error_text refused payload = ok tt
send_datagram error_text failed payload = throws (runtime_error (error_text (codes "UDP send")))
send_datagram error_text (count sent) payload =
    throw_if (not (sent == length payload)) (runtime_error (codes "UDP send was incomplete"))

abbrev pub maximum_payload : ℕ
maximum_payload = 65507

abbrev pub too_large : Exception
too_large = runtime_error (codes "UDP payload exceeds 65,507 bytes")

-- `UdpTransport::send`.
unfoldable pub send_udp : ErrorText → DatagramAnswer → Bytes → Result (Unit {0})
unfolding send_datagram
send_udp error_text answer payload = do
  throw_if (ltb maximum_payload (length payload)) too_large
  send_datagram error_text answer payload

abbrev pub maximum_datagram_batch : ℕ
maximum_datagram_batch = 256

-- The answer of `sendmmsg` to a round that offers `offered` datagrams.
unfoldable pub batch_answer : ErrorText → ℕ → DatagramAnswer → Answer
batch_answer error_text offered refused = advances offered false
batch_answer error_text offered failed = stops (runtime_error (error_text (codes "UDP sendmmsg")))
batch_answer error_text offered (count sent) =
    if sent == 0 || ltb offered sent
    then stops (runtime_error (codes "UDP sendmmsg returned an invalid datagram count"))
    else advances sent true

unfoldable pub check_sizes : List Bytes → Result (Unit {0})
check_sizes [] = ok tt
check_sizes (payload ∷ payloads) = do
  throw_if (ltb maximum_payload (length payload)) too_large
  check_sizes payloads

-- The loop of `send_batch`, behind the check of the sizes.
unfoldable pub send_checked :
    ErrorText
    → (ℕ → ℕ → DatagramAnswer)
    → List Bytes
    → Result (Unit {0})
    → List (Bytes × Bool) × Option (Result (Unit {0}))
unfolding drain batch_answer
send_checked error_text sendmmsg payloads (throws e) = ([], some (throws e))
send_checked error_text sendmmsg payloads (ok _) =
    drain maximum_datagram_batch
      (λ call offered. batch_answer error_text offered (sendmmsg call offered)) (length payloads) 0
      payloads []

-- `UdpTransport::send_batch`.
unfoldable pub send_udp_batch :
    ErrorText
    → (ℕ → ℕ → DatagramAnswer)
    → List Bytes
    → List (Bytes × Bool) × Option (Result (Unit {0}))
unfolding send_checked check_sizes
send_udp_batch error_text sendmmsg payloads =
    send_checked error_text sendmmsg payloads (check_sizes payloads)

-- `UdpTransport::preferred_batch_size`.
unfoldable pub preferred_batch_size : ℕ
preferred_batch_size = maximum_datagram_batch
