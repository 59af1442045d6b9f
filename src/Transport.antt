-- ===== src/Transport.antt =====
-- src/transport: how a probe reaches its destination through proxies, and the stream that it speaks on.
pub mod Wire
pub mod Destination
pub mod Socks5
pub mod Http
pub mod Path
pub mod Pool
mod Tests
