-- ===== src/Service.antt =====
-- src/application/stress_test_service.cpp: `StressTestService`, its state and what each of its
-- threads does to it. A mutex-protected block or an atomic operation is one function; an operation
-- that other threads can interrupt is composed of them, and Lifecycle has its parts as steps. Times are ticks of the steady clock, 0
-- while unset. The floating-point meter of the current rate is left out.
pub mod Start
pub mod Lifecycle
pub mod Race
use log_generator.Domain.{
  TransportProtocol, newline, TransmissionMode, sequential, UdpPacketization,
  one_event_per_datagram, EndpointConfig, TimestampGenerationMode, offset, range, valid,
  GeneratorConfig, GeneratorState, stopped, connecting, running, stopping, failed, is_file, is_udp,
  is_parallel, SendResult, sent, total_bytes_limit_reached, file_count_limit_reached,
  duration_limit_reached,
}
use log_generator.Prelude.Result.{Result, ok, throws, invalid_argument, ◌>>=◌, ◌>>◌, throw_if}
use log_generator.Prelude.Words.{u64_mod, clamp}
use log_generator.Prelude.{
  ℕ, ◌+◌, ◌-◌, ◌%◌, ◌^◌, Bool, true, false, not, ◌&&◌, ◌||◌, List, [], ltb, ◌==◌, if◌then◌else◌,
  Bytes, codes, is_empty, min,
}

pub record Service : Type 0 where
  pub state : GeneratorState
  pub total_messages : ℕ
  pub total_datagrams : ℕ
  pub total_bytes : ℕ
  pub send_errors : ℕ
  pub connected_workers : ℕ
  pub active_workers : ℕ
  pub transmission_mode : TransmissionMode
  pub udp_packetization : UdpPacketization
  pub last_error : Bytes
  pub status_message : Bytes
  pub started_at : ℕ
  pub finished_at : ℕ
  pub joinable : Bool
  pub stop_requested : Bool

abbrev pub is_failed : GeneratorState → Bool
is_failed failed = true
is_failed _ = false

abbrev pub is_connecting : GeneratorState → Bool
is_connecting connecting = true
is_connecting _ = false

abbrev pub is_range : TimestampGenerationMode → Bool
is_range range = true
is_range offset = false

-- The part of `start` between `stop()` and the lock: the checks, the normal form of the
-- configuration, and the number of workers. `optimal` is `optimal_worker_count`.
abbrev pub normalized : GeneratorConfig → GeneratorConfig
normalized c =
    let to_file = is_file c.endpoint.protocol in
    record c {
      endpoint = record c.endpoint {
        framing = if to_file then newline else c.endpoint.framing;
        udp_packetization =
            if is_udp c.endpoint.protocol
            then c.endpoint.udp_packetization
            else one_event_per_datagram;
      };
      transmission_mode = if to_file then sequential else c.transmission_mode;
    }

unfoldable pub worker_count : (TransportProtocol → ℕ) → GeneratorConfig → ℕ
worker_count optimal c =
    let workers =
      if is_parallel c.transmission_mode && not (is_file c.endpoint.protocol)
      then clamp (optimal c.endpoint.protocol) 1 64
      else 1 in
    if ltb 0 c.target_eps then min workers c.target_eps else workers

unfoldable pub prepare_start :
    (TransportProtocol → ℕ) → GeneratorConfig → Result (GeneratorConfig × ℕ)
prepare_start optimal c = do
  throw_if (is_empty c.templates) (invalid_argument (codes "At least one log template is required"))
  throw_if (not (is_file c.endpoint.protocol) && (is_empty c.endpoint.host || c.endpoint.port == 0))
      (invalid_argument (codes "A destination host and port are required"))
  throw_if (is_range c.timestamp_generation.mode && not (valid c.timestamp_generation.range))
      (invalid_argument (codes "A valid timestamp range is required"))
  ok (normalized c, worker_count optimal (normalized c))

-- The locked part of `start`.
unfoldable pub begin_run : GeneratorConfig → ℕ → Service → Service
begin_run c workers s = record {
  state = connecting;
  total_messages = 0;
  total_datagrams = 0;
  total_bytes = 0;
  send_errors = 0;
  connected_workers = 0;
  active_workers = workers;
  transmission_mode = c.transmission_mode;
  udp_packetization = c.endpoint.udp_packetization;
  last_error = [];
  status_message = [];
  started_at = 0;
  finished_at = 0;
  joinable = true;
  stop_requested = false;
}

-- `if (state_.load() != Failed) state_.store(Stopping);`, with the state that the load returned.
abbrev pub store_stopping : GeneratorState → Service → Service
store_stopping seen s = record s { state = if is_failed seen then s.state else stopping }

-- `stop_source_.request_stop()`.
unfoldable pub ask_stop : Service → Service
ask_stop s = record s { stop_requested = true }

-- `request_stop`, from the load on.
unfoldable pub request_stop : GeneratorState → Service → Service
unfolding ask_stop
request_stop seen s = if s.joinable then ask_stop (store_stopping seen s) else s

-- `supervisor = std::move(supervisor_)`.
unfoldable pub move_supervisor : Service → Service
move_supervisor s = record s { joinable = false }

-- `stop` where there is no supervisor.
unfoldable pub stop_idle : Service → Service
stop_idle s = record s { state = stopped }

-- `stop` up to the join.
unfoldable pub stop_begin : GeneratorState → Service → Service
unfolding ask_stop move_supervisor stop_idle
stop_begin seen s =
    if s.joinable then move_supervisor (ask_stop (store_stopping seen s)) else stop_idle s

-- `stop` after the join.
unfoldable pub stop_end : Service → Service
stop_end s = record s { state = stopped }

-- The block of `publish_error` under `error_mutex_`.
unfoldable pub tell_error : Bytes → Service → Service
tell_error message s = record s {
  last_error = if is_empty s.last_error then message else s.last_error;
}

-- `state_.store(Failed)`.
unfoldable pub store_failed : Service → Service
store_failed s = record s { state = failed }

unfoldable pub publish_error : Bytes → Service → Service
unfolding tell_error store_failed ask_stop
publish_error message s = ask_stop (store_failed (tell_error message s))

-- The block of `publish_completion` under `error_mutex_`.
unfoldable pub tell_status : Bytes → Service → Service
tell_status message s = record s { status_message = message }

-- `publish_completion`, with the state that its load returned.
unfoldable pub publish_completion : Bytes → GeneratorState → Service → Service
unfolding tell_status ask_stop
publish_completion message seen s = ask_stop (store_stopping seen (tell_status message s))

unfoldable pub completion_message : SendResult → Bytes
completion_message total_bytes_limit_reached = codes "FILE 총 생성량 제한에 도달하여 자동 중지했습니다."
completion_message file_count_limit_reached = codes "FILE 생성 파일 개수 제한에 도달하여 자동 중지했습니다."
completion_message duration_limit_reached = codes "FILE 실행 시간 제한에 도달하여 자동 중지했습니다."
completion_message sent = []

-- `connected_workers_.fetch_add(1) + 1`; the counter is 32 bits wide.
unfoldable pub connect_worker : Service → Service
connect_worker s = record s { connected_workers = (s.connected_workers + 1) % 2 ^ 32 }

-- The last worker to connect notes the time, and starts the run unless the state has changed.
unfoldable pub start_transmission : ℕ → Service → Service
start_transmission now s = record s {
  started_at = now;
  state = if is_connecting s.state then running else s.state;
}

-- `send_errors_.fetch_add(1)`.
unfoldable pub count_error : Service → Service
count_error s = record s { send_errors = (s.send_errors + 1) % u64_mod }

-- The catch clause of `run_worker`; its counts are flushed already.
unfoldable pub worker_failed : Bytes → Service → Service
unfolding publish_error count_error
worker_failed message s = publish_error message (count_error s)

-- `run_supervisor` when a stop was requested before the workers exist.
unfoldable pub supervisor_cancelled : Service → Service
supervisor_cancelled s = record s { state = stopped }

-- `run_supervisor` after the join of the workers.
unfoldable pub supervisor_finished : ℕ → GeneratorState → Service → Service
supervisor_finished now seen s = record s {
  finished_at = now;
  state = if is_failed seen then s.state else stopped;
}

-- What a worker adds to the statistics by `flush`.
unfoldable pub add_counts : ℕ → ℕ → ℕ → Service → Service
add_counts messages datagrams bytes s = record s {
  total_messages = (s.total_messages + messages) % u64_mod;
  total_datagrams = (s.total_datagrams + datagrams) % u64_mod;
  total_bytes = (s.total_bytes + bytes) % u64_mod;
}

-- The ticks that `snapshot` shows as elapsed.
unfoldable pub elapsed : ℕ → Service → ℕ
elapsed now s =
    if s.started_at == 0
    then 0
    else if s.finished_at == 0
    then now - s.started_at
    else s.finished_at - s.started_at
