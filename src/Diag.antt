-- ===== src/Diag.antt =====
-- src/diag.rs: pressure conditions and the local port budget. Files under /proc and the call of
-- getrlimit are read by the operating system, so `HostFacts` is an argument.
pub mod Pressure
pub mod Host
mod Tests
