-- ===== src/Worker/Loop.antt =====
-- src/application/stress_test_service.cpp: one round of `run_worker`, its statistics, and the loop
-- over the rounds, whatever a round prepares.
use log_generator.Domain.{SendResult, sent}
use log_generator.Prelude.Result.{Result, ok, throws, Exception}
use log_generator.Prelude.Words.{u64_mod, clamp}
use log_generator.Prelude.{
  ℕ, ◌+◌, ◌/◌, ◌%◌, Bool, false, ◌||◌, List, [], ◌∷◌, ltb, leb, ◌==◌, if◌then◌else◌, Bytes,
}

-- One of the three statistics: what the service shows, and what the worker has not added yet.
pub record Counter : Type 0 where
  pub total : ℕ
  pub local : ℕ

unfoldable pub add : ℕ → Counter → Counter
add n c = record c { local = (c.local + n) % u64_mod }

unfoldable pub flush_counter : Counter → Counter
flush_counter c =
    if ltb 0 c.local then record { total = (c.total + c.local) % u64_mod; local = 0 } else c

pub record Counters : Type 0 where
  pub messages : Counter
  pub datagrams : Counter
  pub bytes : Counter

unfoldable pub flush : Counters → Counters
unfolding flush_counter
flush c = record {
  messages = flush_counter c.messages;
  datagrams = flush_counter c.datagrams;
  bytes = flush_counter c.bytes;
}

-- `ILogTransport`: `send_one` is `send`.
pub record Transport (T : Type 0) : Type 0 where
  pub send_one : T → Bytes → Result SendResult × T
  pub send_batch : T → List Bytes → Result SendResult × T

-- `ILogTransport::send_batch`, where a transport has none of its own.
unfoldable pub default_send_batch :
    {T : Type 0} → (T → Bytes → Result SendResult × T) → T → List Bytes → Result SendResult × T
default_send_batch send t [] = (ok sent, t)
default_send_batch send t (payload ∷ payloads) = elim (send t payload).0 [
  | ok sent ↦ default_send_batch send (send t payload).1 payloads
  | other ↦ (other, (send t payload).1)
]

-- `send(payload)` for a load of one payload.
unfoldable pub deliver_one : {T : Type 0} → Transport T → T → List Bytes → Result SendResult × T
deliver_one transport t [] = (ok sent, t)
deliver_one transport t (payload ∷ more) = transport.send_one t payload

-- What one round hands to the transport, and what it counts for.
pub record Load : Type 0 where
  pub payloads : List Bytes
  pub events : ℕ
  pub datagrams : ℕ
  pub size : ℕ

unfoldable pub count_load : Load → Counters → Counters
unfolding add
count_load l c = record {
  messages = add l.events c.messages;
  datagrams = add l.datagrams c.datagrams;
  bytes = add l.size c.bytes;
}

pub data Exit : Type 0 where
  running stopped : Exit
  completed : SendResult → Exit
  failed : Exception → Exit

-- Whether a stop was requested, at the loop's test and after `pacer.wait`.
pub record Round : Type 0 where
  pub at_test : Bool
  pub after_wait : Bool

pub record Run (P T : Type 0) : Type 0 where
  pub source : P
  pub transport : T
  pub counters : Counters

unfoldable pub statistics_publish_events : ℕ → ℕ
statistics_publish_events quota = if quota == 0 then 16384 else clamp (quota / 10) 1 16384

module _ {P T : Type 0} where
  -- After a send: `Sent` is counted, a limit or an exception ends the worker.
  unfoldable pub after_send : Bool → ℕ → Load → Result SendResult × T → Run P T → Run P T × Exit
  after_send always threshold load (ok sent, t) r =
      let counted = count_load load r.counters in
      let shown =
        if always || leb threshold counted.messages.local then flush counted else counted in
      (record r { transport = t; counters = shown }, running)
  after_send always threshold load (ok limit, t) r =
      (record r { transport = t; counters = flush r.counters }, completed limit)
  after_send always threshold load (throws e, t) r = (record r { transport = t }, failed e)

  module _ (deliver : T → List Bytes → Result SendResult × T) (prepare : P → Result (Load × P))
      (always : Bool) (threshold : ℕ) where
    abbrev pub send_load : Run P T → Load × P → Run P T × Exit
    send_load r (load, p) =
        after_send always threshold load (deliver r.transport load.payloads)
          (record r { source = p })

    -- An exception on the way to the load ends the worker; a stop after the wait discards the load.
    unfoldable pub send_prepared : Bool → Run P T → Result (Load × P) → Run P T × Exit
    send_prepared stop_requested r (throws e) = (r, failed e)
    send_prepared stop_requested r (ok made) =
        if stop_requested then (record r { source = made.1 }, stopped) else send_load r made

    -- The batch is made before the wait.
    unfoldable pub prepare_then_wait : Round → Run P T → Run P T × Exit
    prepare_then_wait round r = send_prepared round.after_wait r (prepare r.source)

    -- The single datagram is rendered after the wait.
    unfoldable pub wait_then_prepare : Round → Run P T → Run P T × Exit
    wait_then_prepare round r =
        if round.after_wait then (r, stopped) else send_prepared false r (prepare r.source)

  -- `while (!stop_token.stop_requested()) { ... }`.
  unfoldable pub worker_loop :
      (Round → Run P T → Run P T × Exit) → List Round → Run P T → Run P T × Exit
  worker_loop body [] r = (r, running)
  worker_loop body (round ∷ rounds) r =
      let rest : Run P T × Exit = elim (body round r).1 [
        | running ↦ worker_loop body rounds (body round r).0
        | other ↦ ((body round r).0, other)
      ] in
      if round.at_test then (r, stopped) else rest

  -- However the loop is left, the worker adds its last counts.
  unfoldable pub worker_end : Run P T × Exit → Run P T × Exit
  worker_end (r, running) = (r, running)
  worker_end (r, other) = (record r { counters = flush r.counters }, other)
