-- ===== src/Service/Race.antt =====
-- Two threads at the state of the service: one fails while the other asks for a stop.
use log_generator.Domain.{GeneratorState, stopped}
use log_generator.Prelude.{ℕ, ◌≡◌, true, false, is_empty, Bytes, arith}
use log_generator.Service.{
  Service, is_failed, request_stop, worker_failed, publish_error, publish_completion,
  supervisor_finished, ask_stop, store_failed, tell_error, tell_status, count_error,
}

-- If the service is joinable, a worker fails with a message that is not empty, and a stop, or a
-- completion, loads a state other than `failed` before that and stores after it, then the supervisor
-- ends the run as `stopped`, although the error was published.
pub lost_failure :
    (s : Service) (seen : GeneratorState) (message note : Bytes) (now : ℕ)
    → s.joinable ≡ true
    → is_failed seen ≡ false
    → is_empty message ≡ false
    → let t = request_stop seen (worker_failed message s) in
      let u = publish_completion note seen (worker_failed message s) in
      ((supervisor_finished now t.state t).state ≡ stopped)
      × ((supervisor_finished now u.state u).state ≡ stopped)
      × (is_empty t.last_error ≡ false)
      × (is_empty u.last_error ≡ false)
unfolding request_stop worker_failed publish_error publish_completion supervisor_finished ask_stop
    store_failed tell_error tell_status count_error
lost_failure s seen message note now j n m = ground arith
