-- ===== src/Lib.antt =====
-- LogGenerator: a generator of log traffic for stress tests, modelled from the sources of its core.
--
-- A run takes log templates in turn, renders each with a timestamp, frames and packs the texts, and
-- sends them by UDP, TCP, TLS or into files, at a target rate shared by up to 64 workers.
--
-- Parts, files and sources:
-- - Prelude: numbers, byte strings, results; a C++ exception is the `throws` of a `Result`.
-- - Domain: src/domain, the configuration and the enumerations.
-- - RoundRobin: src/application/round_robin_cursor.hpp, and WorkerRoundRobinCursor.
-- - Timestamps: CachedSystemClock and TimestampCursor.
-- - Framing, Quota, Packing, Worker: the free functions and the loops of `run_worker`.
-- - Service: `start`, `stop`, `request_stop`, the supervisor and the publications of
--   StressTestService; Service/Lifecycle makes their atomic parts the
--   steps of a transition system, in which the state that a thread has loaded is arbitrary.
--   All of these stand in src/application/stress_test_service.cpp.
-- - FileTransport: src/infrastructure/file_transport.cpp, over an abstract operating system.
-- - Privacy: the kinds, markers and control characters of src/application/privacy_anonymizer.cpp.
-- - Catalog (Ids, Growth, Files): src/application/log_catalog_service.cpp and
--   src/domain/sample_id.hpp.
-- - Cache: src/application/log_preparation_cache.cpp; what another caller does
--   during a compilation is an argument.
-- - Cli (Values, State, Options): `parse_arguments` and `run_generator` of
--   src/presentation/cli_app.cpp.
-- - CsvSource, SampleImport: src/infrastructure/csv_sample_log_source.cpp and
--   src/application/sample_log_import_service.cpp.
-- - Renderer: src/application/log_renderer.cpp, from a sample to the text of an instant, with the
--   caches of `PreparedLog` (Prepared) and the rendering without them (Fresh).
-- - FileLogger: src/infrastructure/async_file_logger.cpp, its lines and its steps.
-- - Sockets: the sending loops of src/infrastructure/socket_support.cpp and udp_transport.cpp.
-- - Pacing: `RatePacer` of src/application/stress_test_service.cpp.
-- - Runtime: `optimal_worker_count` of src/infrastructure/posix_execution_runtime.cpp, and
--   src/infrastructure/runtime_paths.cpp.
-- - Anonymizer: `replace_sensitive_fields` and `sanitize` of
--   src/application/privacy_anonymizer.cpp; what its regular expressions match is an argument.
-- - Tests: runs of the model and the theorems on concrete inputs.
--
-- How they interact: `Service.prepare_start` fixes the number of workers; each worker gets a share
-- from Quota, draws templates by RoundRobin and instants by Timestamps, makes batches by Framing and
-- Packing, hands them to a transport (FileTransport is one), and adds its counts to the service.
--
-- Bounds: `size_t`, `uint64_t` and the statistics wrap around at 2 ^ 64. A batch of UDP packets has
-- as much fuel as its target size has bytes, since every packet holds a byte; `write_all` has as much
-- as its content has bytes. The loop over file names that are taken has the fuel that it is given.
--
-- Not modelled: the graphical interface, TLS, sockets and thread control, which are calls of
-- libraries; the floating-point meter of the service and its messages to the log. The worker takes the
-- rendering of a log as an argument; Renderer models it on its own. `std::regex`, `std::localtime` and
-- the file system are arguments.
mod Prelude
pub mod CsvSource
pub mod SampleImport
pub mod FileLogger
pub mod Anonymizer
pub mod Sockets
pub mod Runtime
pub mod Pacing
pub mod Renderer
pub mod Domain
pub mod Quota
pub mod Framing
pub mod RoundRobin
pub mod Timestamps
pub mod Packing
pub mod Cli
pub mod Cache
pub mod Catalog
pub mod Privacy
pub mod Worker
pub mod Service
pub mod FileTransport
pub mod Tests
