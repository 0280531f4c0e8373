-- ===== src/Tests/Network.antt =====
-- The sending loops against concrete answers.
use log_generator.Prelude.Int.{ℤ, pos}
use log_generator.Prelude.Result.{ok, throws, runtime_error}
use log_generator.Prelude.{
  ℕ, zero, suc, ◌≡◌, refl, min, true, false, List, [], ◌∷◌, some, Bytes, codes,
}
use log_generator.Sockets.{ErrorText, DatagramAnswer, count, refused, send_udp_batch}

abbrev plain_text : ErrorText
plain_text action = action

-- Four bytes a call at most.
abbrev by_four : ℕ → ℕ → ℤ
by_four call offered = pos (min 4 offered)

-- The first call takes one datagram, the second refuses all the others.
abbrev one_then_refused : ℕ → ℕ → DatagramAnswer
one_then_refused zero offered = count 1
one_then_refused (suc call) offered = refused

abbrev three : List Bytes
three = codes "a" ∷ codes "b" ∷ codes "c" ∷ []

refused_test :
    send_udp_batch plain_text one_then_refused three
    ≡ ((codes "a", true) ∷ (codes "b", false) ∷ (codes "c", false) ∷ [], some (ok tt))
unfolding send_udp_batch
refused_test = refl

-- A system that answers more than it was offered is not believed.
invalid_test :
    send_udp_batch plain_text (λ call offered. count 9) three
    ≡ ([], some (throws (runtime_error (codes "UDP sendmmsg returned an invalid datagram count"))))
unfolding send_udp_batch
invalid_test = refl
