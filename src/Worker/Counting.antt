-- ===== src/Worker/Counting.antt =====
-- The statistics of a worker against what the transport has accepted.
use log_generator.Quota.{datagram_batch_events}
use log_generator.Domain.{is_packed, EndpointConfig, SendResult, sent}
use log_generator.Prelude.Result.{Result, ok}
use log_generator.Prelude.Words.{u64_mod}
use log_generator.Prelude.{
  ℕ, ◌+◌, ◌%◌, ◌≡◌, ◌≢◌, Bool, not, ◌==◌, ◌&&◌, ◌||◌, List, [], ◌∷◌, if◌then◌else◌, Bytes, arith,
}
use log_generator.Worker.Loop.{Counter, Counters, Transport, Load, deliver_one, Exit, running, Run}

-- A counter with what the worker has still to add.
abbrev pub due : Counter → ℕ
due c = (c.total + c.local) % u64_mod

-- The counters have grown by the counts of these loads.
abbrev pub sum_of : (Load → ℕ) → List Load → ℕ
sum_of f [] = 0
sum_of f (l ∷ ls) = f l + sum_of f ls

pub record Grown (ls : List Load) (c d : Counters) : Type 0 where
  pub messages : due d.messages ≡ (due c.messages + sum_of (λ l. l.events) ls) % u64_mod
  pub datagrams : due d.datagrams ≡ (due c.datagrams + sum_of (λ l. l.datagrams) ls) % u64_mod
  pub bytes : due d.bytes ≡ (due c.bytes + sum_of (λ l. l.size) ls) % u64_mod

Grown-nothing :
    (c d : Counters)
    → due d.messages ≡ due c.messages
    → due d.datagrams ≡ due c.datagrams
    → due d.bytes ≡ due c.bytes
    → Grown [] c d
Grown-nothing c d m g b = omega arith

-- Nothing is left that the worker has counted and not added.
abbrev pub IsFlushed : Counters → Type 0
IsFlushed c = (c.messages.local ≡ 0) × (c.datagrams.local ≡ 0) × (c.bytes.local ≡ 0)

module _ {P T : Type 0} (prepare : P → Result (Load × P))
    (deliver : T → List Bytes → Result SendResult × T) where
  -- The loads are those that are prepared one after another, and the transport takes each of them.
  pub data Accepts : P → T → List Load → Type 0 where
    done : {p : P} {t : T} → Accepts p t []
    next :
        {p p' : P} {t t' : T} {l : Load} {ls : List Load}
        → prepare p ≡ ok (l, p')
        → deliver t l.payloads ≡ (ok sent, t')
        → Accepts p' t' ls
        → Accepts p t (l ∷ ls)

module _ {P T : Type 0} (prepare : P → Result (Load × P))
    (deliver : T → List Bytes → Result SendResult × T) where
  -- A round sends one load and goes on, or it sends nothing that counts and ends the loop.
  data Outcome (r : Run P T) (q : Run P T) (exit : Exit) : Type 0 where
    sends :
        (l : Load)
        → prepare r.source ≡ ok (l, q.source)
        → deliver r.transport l.payloads ≡ (ok sent, q.transport)
        → exit ≡ running
        → Grown (l ∷ []) r.counters q.counters
        → Outcome r q exit
    quits : exit ≢ running → Grown [] r.counters q.counters → Outcome r q exit

  -- The counters of `s` are those of `r` with the loads that the transport took in between.
  abbrev Tallies : Run P T → Run P T × Exit → Type 0
  Tallies r s =
      (ls : List Load) × Accepts prepare deliver r.source r.transport ls
      × Grown ls r.counters s.0.counters

  -- The same, and once the worker has ended it has nothing left to add.
  abbrev pub Counts : Run P T → Run P T × Exit → Type 0
  Counts r s =
      (ls : List Load) × Accepts prepare deliver r.source r.transport ls
      × Grown ls r.counters s.0.counters
      × (s.1 ≢ running → IsFlushed s.0.counters)

-- How the chosen loop hands a load to the transport.
abbrev pub delivery :
    {T : Type 0}
    → Transport T
    → EndpointConfig
    → Bool
    → ℕ
    → ℕ
    → T
    → List Bytes
    → Result SendResult × T
delivery transport endpoint is_datagram quota preferred =
    if is_datagram
      && (is_packed endpoint.udp_packetization || not (datagram_batch_events quota preferred == 1))
    then transport.send_batch
    else deliver_one transport
