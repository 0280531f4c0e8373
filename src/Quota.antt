-- ===== src/Quota.antt =====
-- src/application/stress_test_service.cpp: how a target rate is shared among the workers, and how
-- many events a worker puts into one transmission.
pub mod Shares
use log_generator.Domain.{EndpointConfig}
use log_generator.Prelude.Words.{clamp}
use log_generator.Prelude.{ℕ, ◌+◌, ◌*◌, ◌/◌, ◌%◌, ◌||◌, ltb, ◌==◌, if◌then◌else◌}

-- A quota of 0 means no limit.
unfoldable pub quota_for_worker : ℕ → ℕ → ℕ → ℕ
quota_for_worker target_eps worker_index worker_count =
    if target_eps == 0
    then 0
    else target_eps / worker_count + (if ltb worker_index (target_eps % worker_count) then 1 else 0)

unfoldable pub stream_batch_events : ℕ → ℕ
stream_batch_events quota = if quota == 0 then 1024 else clamp (quota / 200) 1 1024

unfoldable pub datagram_batch_events : ℕ → ℕ → ℕ
datagram_batch_events quota preferred_batch_size =
    let maximum = clamp preferred_batch_size 1 256 in
    if quota == 0 then maximum else clamp (quota / 1000) 1 maximum

unfoldable pub file_batch_events : ℕ → EndpointConfig → ℕ
file_batch_events quota endpoint =
    if ltb 0 endpoint.file_max_total_bytes
      || ltb 0 endpoint.file_max_count
      || ltb 0 endpoint.file_max_duration
    then 1
    else if quota == 0
    then 256
    else clamp (quota / 20) 1 256
