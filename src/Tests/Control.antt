-- ===== src/Tests/Control.antt =====
-- The service on concrete inputs.
use log_generator.Domain.{
  TransportProtocol, GeneratorConfig, LogTemplate, parallel, udp, one_event_per_datagram, valid,
  stopped, connecting, running,
}
use log_generator.Prelude.Result.{ok}
use log_generator.Prelude.{ℕ, ◌≤◌, ◌≡◌, ◌⊎◌, refl, true, false, [], ◌∷◌, codes, is_empty, arith}
use log_generator.Service.Lifecycle.{
  System, Step, start, connect, launch, Reach, here, after, IsSound, Reach-IsSound, Step-running,
}
use log_generator.Service.Race.{lost_failure}
use log_generator.Service.Start.{IsAcceptable, AreShared, prepare_start-runs}
use log_generator.Service.{
  Service, normalized, worker_count, prepare_start, begin_run, connect_worker, start_transmission,
  worker_failed, request_stop, publish_completion, supervisor_finished,
}
use log_generator.Tests.Formats.{endpoint, ten_seconds}

abbrev pub one_template : LogTemplate
one_template = record {
  id = codes "0001";
  name = [];
  sample = codes "x";
  source = [];
  test_case = [];
}

abbrev config : GeneratorConfig
config = record {
  endpoint = record endpoint { protocol = udp; host = codes "h"; port = 514 };
  templates = one_template ∷ [];
  source_ip = codes "10.0.0.10";
  destination_ip = codes "10.0.0.20";
  timestamp_generation = ten_seconds;
  transmission_mode = parallel;
  target_eps = 2;
}

abbrev eight : TransportProtocol → ℕ
eight _ = 8

accepted : prepare_start eight config ≡ ok (normalized config, 2)
unfolding prepare_start worker_count valid
accepted = refl

prepare_start-runs_example :
    IsAcceptable config
    × (normalized config ≡ normalized config)
    × (1 ≤ 2)
    × (2 ≤ 64)
    × ((config.target_eps ≡ 0) ⊎ AreShared config.target_eps 2)
prepare_start-runs_example = prepare_start-runs eight config (normalized config) 2 accepted

abbrev fresh : Service
fresh = record {
  state = stopped;
  total_messages = 0;
  total_datagrams = 0;
  total_bytes = 0;
  send_errors = 0;
  connected_workers = 0;
  active_workers = 0;
  transmission_mode = parallel;
  udp_packetization = one_event_per_datagram;
  last_error = [];
  status_message = [];
  started_at = 0;
  finished_at = 0;
  joinable = false;
  stop_requested = false;
}

abbrev idle : System
idle = record {
  service = fresh;
  workers = 0;
  unconnected = 0;
  starter = false;
  telling = 0;
  failing = 0;
}

abbrev begun : System
begun = record {
  service = begin_run config 1 fresh;
  workers = 1;
  unconnected = 1;
  starter = false;
  telling = 0;
  failing = 0;
}

abbrev connected : System
connected = record {
  service = connect_worker begun.service;
  workers = 1;
  unconnected = 0;
  starter = true;
  telling = 0;
  failing = 0;
}

abbrev launched : System
launched = record {
  service = start_transmission 9 connected.service;
  workers = 1;
  unconnected = 0;
  starter = false;
  telling = 0;
  failing = 0;
}

launch_step : Step connected launched
launch_step = launch 9 refl

reached : Reach idle launched
unfolding begin_run connect_worker
reached =
    after
      (after (after here (start config 1 refl refl refl (omega arith) (omega arith)))
        (connect 0 refl))
      launch_step

idle-IsSound : IsSound idle
idle-IsSound = ground arith

Reach-IsSound_example : IsSound launched
Reach-IsSound_example = Reach-IsSound idle-IsSound reached

now_running : launched.service.state ≡ running
unfolding begin_run connect_worker start_transmission
now_running = refl

Step-running_example : (connected.service.state ≡ running) ⊎ (connected.service.state ≡ connecting)
Step-running_example = Step-running launch_step now_running

abbrev joinable : Service
joinable = record fresh { state = running; joinable = true }

lost_failure_example :
    let t = request_stop running (worker_failed (codes "reset") joinable) in
    let u = publish_completion [] running (worker_failed (codes "reset") joinable) in
    ((supervisor_finished 7 t.state t).state ≡ stopped)
    × ((supervisor_finished 7 u.state u).state ≡ stopped)
    × (is_empty t.last_error ≡ false)
    × (is_empty u.last_error ≡ false)
lost_failure_example = lost_failure joinable running (codes "reset") [] 7 refl refl refl
