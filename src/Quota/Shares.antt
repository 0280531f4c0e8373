-- ===== src/Quota/Shares.antt =====
-- The shares of the workers in a target rate, and the sizes of their batches.
use log_generator.Domain.{EndpointConfig}
use log_generator.Prelude.{
  ℕ, zero, suc, ◌+◌, ◌*◌, ◌/◌, ◌%◌, ◌≤◌, ◌<◌, min, max, ◌≡◌, ◌≢◌, ◌⊎◌, ◌∙◌, false, arith, ltb, ◌==◌,
  if◌then◌else◌, sum_below,
}
use native.Mathlib.Nat.{div-add-mod, mod-lt}
use log_generator.Quota.{
  quota_for_worker, stream_batch_events, datagram_batch_events, file_batch_events,
}

sum-quotas :
    (base extra n : ℕ)
    → sum_below n (λ i. base + (if ltb i extra then 1 else 0)) ≡ n * base + min n extra
sum-quotas base extra zero = omega arith
sum-quotas base extra (suc n) = ground (arith, sum-quotas base extra n)

pub quota_pos : (target i w : ℕ) → 0 < w → w ≤ target → 0 < quota_for_worker target i w
unfolding quota_for_worker
quota_pos target i w h k = ground (arith, div-add-mod target w, mod-lt target {m = w})

pub share_sum :
    (target w : ℕ) → 0 < w → w ≤ target → sum_below w (λ i. quota_for_worker target i w) ≡ target
unfolding quota_for_worker
share_sum target w h k = rw nonzero (sum-quotas (target / w) (target % w) w ∙ whole)
  where
    nonzero : (target == 0) ≡ false
    nonzero = ground arith

    whole : w * (target / w) + min w (target % w) ≡ target
    whole = omega (arith, div-add-mod target w, mod-lt target h)

-- Of the numbers from 1 to `maximum`, `n` is the largest whose events a worker of this quota sends in
-- `1 / rate` seconds, or 1 if there is none; without a limit on the rate it is `maximum`.
abbrev pub IsPaced : ℕ → ℕ → ℕ → ℕ → Type 0
IsPaced rate maximum quota n =
    (1 ≤ n)
    × (n ≤ maximum)
    × (quota ≡ 0 → n ≡ maximum)
    × (quota ≢ 0 → ((n ≡ 1) ⊎ (n * rate ≤ quota)) × ((n ≡ maximum) ⊎ (quota < (n + 1) * rate)))

abbrev pub AreUnlimited : EndpointConfig → Type 0
AreUnlimited e = (e.file_max_total_bytes ≡ 0) × (e.file_max_count ≡ 0) × (e.file_max_duration ≡ 0)

of_stream : (quota : ℕ) → IsPaced 200 1024 quota (stream_batch_events quota)
unfolding stream_batch_events
of_stream quota = ground arith

of_datagrams :
    (quota preferred : ℕ)
    → IsPaced 1000 (max 1 (min preferred 256)) quota (datagram_batch_events quota preferred)
unfolding datagram_batch_events
of_datagrams quota preferred = ground arith

of_files :
    (quota : ℕ) (e : EndpointConfig)
    → AreUnlimited e
    → IsPaced 20 256 quota (file_batch_events quota e)
unfolding file_batch_events
of_files quota e h = ground arith

of_limited_files :
    (quota : ℕ) (e : EndpointConfig) → ¬ AreUnlimited e → file_batch_events quota e ≡ 1
unfolding file_batch_events
of_limited_files quota e h = ground arith

-- For any quota, a batch of a stream has the events of 1 / 200 second, from 1 to 1024; one of
-- datagrams those of 1 / 1000 second, from 1 to 256 or what the transport prefers, if that is less;
-- and one of files those of 1 / 20 second, from 1 to 256, unless the files have a limit, with which
-- it is one event.
pub batches-ArePaced :
    (quota preferred : ℕ) (e : EndpointConfig)
    → IsPaced 200 1024 quota (stream_batch_events quota)
      × IsPaced 1000 (max 1 (min preferred 256)) quota (datagram_batch_events quota preferred)
      × (AreUnlimited e → IsPaced 20 256 quota (file_batch_events quota e))
      × (¬ AreUnlimited e → file_batch_events quota e ≡ 1)
batches-ArePaced quota preferred e =
    (of_stream quota, of_datagrams quota preferred, of_files quota e, of_limited_files quota e)
