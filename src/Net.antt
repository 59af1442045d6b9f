-- ===== src/Net.antt =====
-- src/net: the parsers of port and target specifications.
pub mod Addr
pub mod Ports
pub mod Target
