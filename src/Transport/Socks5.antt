-- ===== src/Transport/Socks5.antt =====
-- The SOCKS5 messages of src/transport/socks5.rs: the CONNECT request, the reply and what a reply
-- code says of the destination.
pub mod Reply
pub mod Request
pub mod Handshake
pub mod Negotiation
use scanr.Common.{
  ℕ, ◌+◌, ◌/◌, ◌%◌, Bool, Option, none, some, List, [], ◌∷◌, ◌++◌, length, get_or, ltb, ◌==◌,
  if◌then◌else◌,
}
use scanr.Common.Text.{Text, codes}
use scanr.Common.Text.Utf8.{as_bytes}
use scanr.Diag.Pressure.{invalid_data, IoError}
use scanr.Net.Addr.{IpAddr, v4, v6, be_bytes, octets}
use scanr.Probe.Outcome.{
  closed, filtered, error, proxy_reply, Phases, ProbeOutcome, outcome_open, outcome_new,
}
use scanr.Transport.Wire.{Bytes, Io, pure, fail, ◌>>=◌, read_exact}
use scanr.Transport.Destination.{Destination, addr, resolved, host, dest_port}

abbrev pub version : ℕ
version = 0x05

abbrev pub cmd_connect : ℕ
cmd_connect = 0x01

abbrev pub atyp_ipv4 : ℕ
atyp_ipv4 = 0x01

abbrev pub atyp_domain : ℕ
atyp_domain = 0x03

abbrev pub atyp_ipv6 : ℕ
atyp_ipv6 = 0x04

abbrev pub rep_succeeded : ℕ
rep_succeeded = 0x00

abbrev pub rep_general_failure : ℕ
rep_general_failure = 0x01

abbrev pub rep_not_allowed : ℕ
rep_not_allowed = 0x02

abbrev pub rep_network_unreachable : ℕ
rep_network_unreachable = 0x03

abbrev pub rep_host_unreachable : ℕ
rep_host_unreachable = 0x04

abbrev pub rep_connection_refused : ℕ
rep_connection_refused = 0x05

abbrev pub rep_ttl_expired : ℕ
rep_ttl_expired = 0x06

abbrev pub rep_cmd_not_supported : ℕ
rep_cmd_not_supported = 0x07

abbrev pub rep_atyp_not_supported : ℕ
rep_atyp_not_supported = 0x08

unfoldable pub reply_name : ℕ → Text
reply_name code =
    if code == rep_succeeded
    then codes "succeeded"
    else if code == rep_general_failure
    then codes "general SOCKS server failure"
    else if code == rep_not_allowed
    then codes "connection not allowed by ruleset"
    else if code == rep_network_unreachable
    then codes "network unreachable"
    else if code == rep_host_unreachable
    then codes "host unreachable"
    else if code == rep_connection_refused
    then codes "connection refused"
    else if code == rep_ttl_expired
    then codes "TTL expired"
    else if code == rep_cmd_not_supported
    then codes "command not supported"
    else if code == rep_atyp_not_supported
    then codes "address type not supported"
    else codes "unknown reply code"

-- one digit of `{:02x}`
unfoldable hex_digit : ℕ → ℕ
hex_digit n = if ltb n 10 then b'0' + n else 87 + n

-- `0x{:02x}` of a byte
unfoldable pub hex : ℕ → Text
unfolding hex_digit
hex b = codes "0x" ++ hex_digit (b / 16 % 16) ∷ hex_digit (b % 16) ∷ []

-- `std::io::Error::new(InvalidData, ..)`
abbrev pub invalid : Text → IoError
invalid message = record { raw_os_error = none; kind = invalid_data; message = message }

abbrev pub address_request : IpAddr → Bytes
address_request (v4 n) = atyp_ipv4 ∷ octets (v4 n)
address_request (v6 n) = atyp_ipv6 ∷ octets (v6 n)

unfoldable pub name_request : Destination → Bytes
name_request (addr a) = address_request a.ip
name_request (resolved a name) = address_request a.ip
name_request (host h p) = atyp_domain ∷ length (as_bytes h) % 256 ∷ as_bytes h

unfoldable pub build_connect_request : Destination → Bytes
unfolding name_request dest_port
build_connect_request dest =
    (version ∷ cmd_connect ∷ 0x00 ∷ []) ++ (name_request dest ++ be_bytes 2 (dest_port dest))

-- the length of the bound address, which a domain names in a byte of its own
unfoldable pub read_addr_len : Option ℕ → ℕ → Io IoError ℕ
read_addr_len deadline atyp =
    if atyp == atyp_ipv4
    then pure 4
    else if atyp == atyp_ipv6
    then pure 16
    else if atyp == atyp_domain
    then read_exact 1 deadline >>= (λ l. pure (get_or l 0 0))
    else fail (invalid (codes "reply had unknown address type " ++ hex atyp))

-- what follows the four bytes of the head
unfoldable pub read_bound : Option ℕ → Bytes → Io IoError ℕ
unfolding read_addr_len
read_bound deadline head =
    if get_or head 0 0 == version
    then read_addr_len deadline (get_or head 3 0)
      >>= (λ addr_len. read_exact (addr_len + 2) deadline >>= (λ rest. pure (get_or head 1 0)))
    else fail
        (invalid (codes "reply had version " ++ (hex (get_or head 0 0) ++ codes ", expected 0x05")))

unfoldable pub read_reply : Option ℕ → Io IoError ℕ
unfolding read_bound
read_reply deadline = read_exact 4 deadline >>= (λ head. read_bound deadline head)

-- the reason of a reply that is told by its name
abbrev pub named_reason : ℕ → Text
named_reason code = reply_name code ++ (codes " (proxy reply " ++ (hex code ++ codes ")"))

unfoldable pub classify_reply : (T : Type 0) → ℕ → Phases → ProbeOutcome T
unfolding reply_name hex
classify_reply T code phases =
    if code == rep_succeeded
    then outcome_open T phases proxy_reply
    else if code == rep_connection_refused
    then outcome_new T closed proxy_reply (codes "connection refused (proxy reply 0x05)") phases
    else if code == rep_network_unreachable
    then outcome_new T filtered proxy_reply (named_reason code) phases
    else if code == rep_host_unreachable
    then outcome_new T filtered proxy_reply (named_reason code) phases
    else if code == rep_ttl_expired
    then outcome_new T filtered proxy_reply (named_reason code) phases
    else if code == rep_general_failure
    then outcome_new T error proxy_reply
        (codes
          "general SOCKS server failure (proxy reply 0x01) — this proxy does not distinguish closed from filtered")
        phases
    else if code == rep_not_allowed
    then outcome_new T error proxy_reply (codes "denied by proxy policy (proxy reply 0x02)") phases
    else outcome_new T error proxy_reply (named_reason code) phases
