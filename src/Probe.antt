-- ===== src/Probe.antt =====
-- src/probe.rs: outcomes of probes and their classification. What the TLS probe observed is the
-- type `T`: an outcome carries it and never looks into it. A duration is a number of nanoseconds.
pub mod Outcome
pub mod Attempts
pub mod Classify
mod Tests
