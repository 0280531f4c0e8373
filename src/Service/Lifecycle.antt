-- ===== src/Service/Lifecycle.antt =====
-- The service as a transition system. A system is the service with what its threads have still to
-- do; a step is one atomic operation, or one block under a mutex, of one thread, in any order. A state
-- that a thread has loaded before is arbitrary, and a stop may be asked for at any time, so the steps
-- include every interleaving.
use log_generator.Domain.{GeneratorConfig, GeneratorState, connecting, running, failed}
use log_generator.Prelude.{
  ℕ, suc, ◌+◌, ◌≤◌, ◌≡◌, ◌⊎◌, inl, Bool, true, false, ◌==◌, Bytes, is_empty, arith,
}
use log_generator.Service.{
  Service, begin_run, store_stopping, ask_stop, move_supervisor, stop_idle, stop_end, tell_error,
  store_failed, tell_status, count_error, connect_worker, start_transmission, supervisor_cancelled,
  supervisor_finished, add_counts,
}

-- `workers` is the `worker_count` of the run, `unconnected` how many of them have still to connect,
-- and `starter` whether the last one has still to start the transmission. Of the threads inside of
-- `publish_error`, `telling` have told their error and have still to store `failed`, and `failing`
-- have stored it and have still to ask for the stop.
pub record System : Type 0 where
  pub service : Service
  pub workers : ℕ
  pub unconnected : ℕ
  pub starter : Bool
  pub telling : ℕ
  pub failing : ℕ

pub data Step (x : System) : System → Type 0 where
  start :
      (c : GeneratorConfig) (w : ℕ)
      → x.service.joinable ≡ false
      → x.telling ≡ 0
      → x.failing ≡ 0
      → 1 ≤ w
      → w ≤ 64
      → Step x (record {
        service = begin_run c w x.service;
        workers = w;
        unconnected = w;
        starter = false;
        telling = 0;
        failing = 0;
      })
  connect :
      (left : ℕ)
      → x.unconnected ≡ suc left
      → Step x (record x {
        service = connect_worker x.service;
        unconnected = left;
        starter = (connect_worker x.service).connected_workers == x.workers;
      })
  launch :
      (now : ℕ)
      → x.starter ≡ true
      → Step x (record x { service = start_transmission now x.service; starter = false })
  flush :
      (messages datagrams bytes : ℕ)
      → Step x (record x { service = add_counts messages datagrams bytes x.service })
  counts_error : Step x (record x { service = count_error x.service })
  tells :
      (message : Bytes)
      → is_empty message ≡ false
      → Step x (record x { service = tell_error message x.service; telling = suc x.telling })
  fails :
      (left : ℕ)
      → x.telling ≡ suc left
      → Step x
          (record x { service = store_failed x.service; telling = left; failing = suc x.failing })
  fails_asking :
      (left : ℕ)
      → x.failing ≡ suc left
      → Step x (record x { service = ask_stop x.service; failing = left })
  completes : (message : Bytes) → Step x (record x { service = tell_status message x.service })
  stores_stopping :
      (seen : GeneratorState) → Step x (record x { service = store_stopping seen x.service })
  asks : Step x (record x { service = ask_stop x.service })
  moves : x.service.joinable ≡ true → Step x (record x { service = move_supervisor x.service })
  stops_idle : x.service.joinable ≡ false → Step x (record x { service = stop_idle x.service })
  stop_ends : Step x (record x { service = stop_end x.service })
  cancelled : Step x (record x { service = supervisor_cancelled x.service })
  finished :
      (now : ℕ) (seen : GeneratorState)
      → Step x (record x { service = supervisor_finished now seen x.service })

pub data Reach (x : System) : System → Type 0 where
  here : Reach x x
  after : {y z : System} → Reach x y → Step y z → Reach x z

pub record IsSound (x : System) : Type 0 where
  pub few : x.workers ≤ 64
  pub counted : x.service.connected_workers + x.unconnected ≡ x.workers
  pub all_ready : x.starter ≡ true → x.unconnected ≡ 0
  pub running_ready : x.service.state ≡ running → x.service.connected_workers ≡ x.workers
  pub failed_told : x.service.state ≡ failed → is_empty x.service.last_error ≡ false
  pub told : 1 ≤ x.telling → is_empty x.service.last_error ≡ false
  pub failed_stops : x.service.state ≡ failed → (x.service.stop_requested ≡ true) ⊎ (1 ≤ x.failing)

Step-IsSound : {x y : System} → Step x y → IsSound x → IsSound y
unfolding begin_run connect_worker start_transmission add_counts count_error tell_error store_failed
    tell_status ask_stop move_supervisor stop_idle stop_end supervisor_cancelled supervisor_finished
Step-IsSound (start c w j t f l h) v = ground arith
Step-IsSound (connect left e) v = ground arith
Step-IsSound (launch now e) v = ground arith
Step-IsSound (flush m d b) v = ground arith
Step-IsSound counts_error v = ground arith
Step-IsSound (tells m e) v = ground arith
Step-IsSound (fails left e) v = ground arith
Step-IsSound (fails_asking left e) v = ground arith
Step-IsSound (completes m) v = ground arith
Step-IsSound (stores_stopping seen) v = ground arith
Step-IsSound asks v = ground arith
Step-IsSound (moves j) v = ground arith
Step-IsSound (stops_idle j) v = ground arith
Step-IsSound stop_ends v = ground arith
Step-IsSound cancelled v = ground arith
Step-IsSound (finished now seen) v = ground arith

-- From a sound system only sound systems are reached: the service is running only when every worker
-- has connected, a failed service has an error to show, and it has asked its workers to stop or a
-- thread that has stored the failure is about to.
pub Reach-IsSound : {x y : System} → IsSound x → Reach x y → IsSound y
Reach-IsSound v here = v
Reach-IsSound v (after r st) = Step-IsSound st (Reach-IsSound v r)

-- If a step leaves the service running, the service was running or connecting before it.
pub Step-running :
    {x y : System}
    → Step x y
    → y.service.state ≡ running
    → (x.service.state ≡ running) ⊎ (x.service.state ≡ connecting)
unfolding begin_run connect_worker start_transmission add_counts count_error tell_error store_failed
    tell_status ask_stop move_supervisor stop_idle stop_end supervisor_cancelled supervisor_finished
Step-running (start c w j t f l h) e = cc
Step-running (connect left k) e = inl e
Step-running (launch now k) e = ground arith
Step-running (flush m d b) e = inl e
Step-running counts_error e = inl e
Step-running (tells m k) e = inl e
Step-running (fails left k) e = cc
Step-running (fails_asking left k) e = inl e
Step-running (completes m) e = inl e
Step-running (stores_stopping seen) e = ground arith
Step-running asks e = inl e
Step-running (moves j) e = inl e
Step-running (stops_idle j) e = cc
Step-running stop_ends e = cc
Step-running cancelled e = cc
Step-running (finished now seen) e = ground arith
