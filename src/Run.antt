-- ===== src/Run.antt =====
-- src/run.rs: the scan engine. Workers take probes from the counter of src/sched.rs and send their
-- results over a bounded channel to the collector, which counts and records them.
pub mod Reported
pub mod Probing
pub mod Worker
pub mod Collector
pub mod Engine
pub mod Terminal
mod Tests
