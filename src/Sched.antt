-- ===== src/Sched.antt =====
-- src/sched.rs: the counter that hands out probes to the workers. Its `fetch_add` is one atomic step,
-- so a run of the workers is the order of their steps, whichever that is.
pub mod WorkCounter
mod Tests
