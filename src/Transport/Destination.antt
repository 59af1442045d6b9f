-- ===== src/Transport/Destination.antt =====
-- `Destination` and `Reply` of src/transport/mod.rs.
use scanr.Common.{ℕ, Option, none, some}
use scanr.Common.Text.{Text}
use scanr.Net.Addr.{IpAddr, SocketAddr}

pub data Destination : Type 0 where
  addr : SocketAddr → Destination
  resolved : SocketAddr → Text → Destination
  host : Text → ℕ → Destination

unfoldable pub dest_port : Destination → ℕ
dest_port (addr a) = a.port
dest_port (resolved a name) = a.port
dest_port (host h p) = p

unfoldable pub sni : Destination → Option Text
sni (addr a) = none
sni (resolved a name) = some name
sni (host h p) = some h

unfoldable pub dest_ip : Destination → Option IpAddr
dest_ip (addr a) = some a.ip
dest_ip (resolved a name) = some a.ip
dest_ip (host h p) = none

-- the raw answer to the CONNECT that named the destination
pub data Reply : Type 0 where
  socks5_reply : ℕ → Reply
  http_reply : ℕ → Reply
