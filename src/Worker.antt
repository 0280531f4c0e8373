-- ===== src/Worker.antt =====
-- src/application/stress_test_service.cpp: the loops of `run_worker`, from the moment when the
-- worker is running. The transport is the interface `ILogTransport`; a log renders itself by
-- `render`. What the worker meets from outside is given as data: at each round whether a stop was
-- requested at the loop's test and after the pacer's wait, what the system clock reads, and by how
-- much the other workers have moved the shared cursor before each turn. A list of rounds that ends
-- leaves the worker running.
pub mod Counting
pub mod Loads
mod Loop
mod Branches
unfoldable pub use Loop.*
unfoldable pub use Branches.*
