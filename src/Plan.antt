-- ===== src/Plan.antt =====
-- src/plan: how a scan is ordered and laid out before any traffic is sent.
pub mod Permute
pub mod Types
pub mod Probes
