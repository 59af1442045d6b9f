-- ===== src/Output.antt =====
-- src/output: how results are recorded.
pub mod Span
pub mod Record
pub mod Jsonl
