-- ===== src/Service/Start.antt =====
-- What `start` accepts, and the configuration, the workers and the quotas with which it runs.
use log_generator.Domain.{TransportProtocol, valid, GeneratorConfig, is_file}
use log_generator.Prelude.Result.{ok}
use log_generator.Prelude.{
  ℕ, ◌≤◌, ◌<◌, ◌≡◌, ◌⊎◌, inl, inr, false, true, not, ◌||◌, ◌==◌, is_empty, arith, sum_below,
}
use log_generator.Quota.Shares.{quota_pos, share_sum}
use log_generator.Quota.{quota_for_worker}
use log_generator.Service.{is_range, normalized, worker_count, prepare_start}

pub worker_count_bounds :
    (optimal : TransportProtocol → ℕ) (c : GeneratorConfig)
    → (1 ≤ worker_count optimal c)
      × (worker_count optimal c ≤ 64)
      × ((c.target_eps ≡ 0) ⊎ (worker_count optimal c ≤ c.target_eps))
unfolding worker_count
worker_count_bounds optimal c = ground arith

-- A configuration that has a template, a destination unless it writes files, and a range that is in
-- order if it draws timestamps from one.
abbrev pub IsAcceptable : GeneratorConfig → Type 0
IsAcceptable c =
    (is_empty c.templates ≡ false)
    × ((is_file c.endpoint.protocol || not (is_empty c.endpoint.host || c.endpoint.port == 0))
        ≡ true)
    × ((not (is_range c.timestamp_generation.mode) || valid c.timestamp_generation.range) ≡ true)

prepare_start-ok :
    (optimal : TransportProtocol → ℕ) (c c' : GeneratorConfig) (w : ℕ)
    → prepare_start optimal c ≡ ok (c', w)
    → IsAcceptable c × (c' ≡ normalized c) × (w ≡ worker_count optimal (normalized c))
unfolding prepare_start
prepare_start-ok optimal c c' w h = ground arith

-- The workers share a target rate without remainder, and none of them gets the quota 0, which would
-- lift its limit.
abbrev pub AreShared : ℕ → ℕ → Type 0
AreShared target w =
    (sum_below w (λ i. quota_for_worker target i w) ≡ target)
    × ((i : ℕ) → 0 < quota_for_worker target i w)

-- If `start` accepts a configuration, then it is acceptable and runs in its normal form, on at least
-- 1 and at most 64 workers; and unless the rate is unlimited, the quotas of the workers add up to
-- the target rate and none of them is 0.
pub prepare_start-runs :
    (optimal : TransportProtocol → ℕ) (c c' : GeneratorConfig) (w : ℕ)
    → prepare_start optimal c ≡ ok (c', w)
    → IsAcceptable c
      × (c' ≡ normalized c)
      × (1 ≤ w)
      × (w ≤ 64)
      × ((c.target_eps ≡ 0) ⊎ AreShared c.target_eps w)
prepare_start-runs optimal c c' w h =
    let (fine, normal, count) = prepare_start-ok optimal c c' w h in
    let (low, high, below) = worker_count_bounds optimal (normalized c) in
    rw count (fine, normal, low, high, shared below low)
  where
    n : ℕ
    n = worker_count optimal (normalized c)

    shared :
        (c.target_eps ≡ 0) ⊎ (n ≤ c.target_eps)
        → 1 ≤ n
        → (c.target_eps ≡ 0) ⊎ AreShared c.target_eps n
    shared (inl unlimited) low = inl unlimited
    shared (inr below) low =
        inr (share_sum c.target_eps n low below, λ i. quota_pos c.target_eps i n low below)
