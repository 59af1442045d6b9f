-- ===== src/Transport/Socks5/Request.antt =====
-- The CONNECT request of src/transport/socks5.rs, as a server of RFC 1928 reads it.
use scanr.Common.{
  ℕ, ◌+◌, ◌%◌, ◌^◌, ◌≤◌, ◌<◌, ◌≡◌, refl, ap, ◌∙◌, true, ◌&&◌, Option, none, some, [], ◌∷◌, ◌++◌,
  length, length-append, take, drop, cut_inside, take-all, drop-all, ◌==◌, ==_iff, if◌then◌else◌,
  arith,
}
use scanr.Common.Text.Utf8.{as_bytes}
use scanr.Net.Addr.{IsAddress, IpAddr, v4, v6, be_bytes, length-be_bytes, of_be, of_be-be_bytes}
use scanr.Transport.Wire.{Bytes}
use scanr.Transport.Destination.{Destination, addr, resolved, host, dest_port}
use scanr.Transport.Socks5.{address_request, name_request, build_connect_request}
use native.Mathlib.Nat.{mod-eq_of_lt}

-- What a request names: an address, or the bytes of a host name.
pub data Named : Type 0 where
  ipv4 : ℕ → Named
  ipv6 : ℕ → Named
  domain : Bytes → Named

-- `count` bytes of address and then two of port, and nothing else
abbrev pub sized : ℕ → (Bytes → Named) → Bytes → Option (Named × ℕ)
sized count name body =
    if length body == count + 2
    then some (name (take count body), of_be (drop count body))
    else none

abbrev pub domain_sized : Bytes → Option (Named × ℕ)
domain_sized [] = none
domain_sized (count ∷ body) = sized count domain body

-- A CONNECT request of RFC 1928, section 4.
abbrev pub understood : Bytes → Option (Named × ℕ)
understood (ver ∷ cmd ∷ rsv ∷ atyp ∷ body) =
    if ver == 5 && (cmd == 1 && rsv == 0)
    then (if atyp == 1
        then sized 4 (λ a. ipv4 (of_be a)) body
        else if atyp == 4
        then sized 16 (λ a. ipv6 (of_be a)) body
        else if atyp == 3
        then domain_sized body
        else none)
    else none
understood _ = none

abbrev pub named_address : IpAddr → Named
named_address (v4 n) = ipv4 n
named_address (v6 n) = ipv6 n

-- The address or the name that a destination stands for; a name that was resolved is not sent.
abbrev pub names : Destination → Named
names (addr a) = named_address a.ip
names (resolved a name) = named_address a.ip
names (host h p) = domain (as_bytes h)

-- In the bounds of its machine integers, and with a host name of at most 255 bytes.
abbrev pub IsDestination : Destination → Type 0
IsDestination (addr a) = IsAddress a.ip × (a.port < 65536)
IsDestination (resolved a name) = IsAddress a.ip × (a.port < 65536)
IsDestination (host h p) = (length (as_bytes h) ≤ 255) × (p < 65536)

-- What is named and the port are told apart by their sizes.
sized-append :
    (name : Bytes → Named) (front : Bytes) (port : ℕ)
    → port < 65536
    → sized (length front) name (front ++ be_bytes 2 port) ≡ some (name front, port)
sized-append name front port h =
    let fits : (length (front ++ be_bytes 2 port) == length front + 2) ≡ true =
      (==_iff _ _).1
        (omega (arith, length-append front (be_bytes 2 port), length-be_bytes 2 port)) in
    let (t, d) = cut_inside (length front) front (be_bytes 2 port) (omega arith) in
    let front_is : take (length front) (front ++ be_bytes 2 port) ≡ front = t ∙ take-all front in
    let port_is : drop (length front) (front ++ be_bytes 2 port) ≡ be_bytes 2 port =
      d ∙ ap (λ (s : Bytes). s ++ be_bytes 2 port) (drop-all (length front) front (omega arith)) in
    rw (fits, front_is, port_is, of_be-be_bytes 2 port, mod-eq_of_lt {n = port} {m = 65536} h) refl

-- An address of `count` bytes.
sized-address :
    (count : ℕ) (name : ℕ → Named) (n port : ℕ)
    → n < 256 ^ count
    → port < 65536
    → sized count (λ a. name (of_be a)) (be_bytes count n ++ be_bytes 2 port) ≡ some (name n, port)
sized-address count name n port l h =
    let s = sized-append (λ a. name (of_be a)) (be_bytes count n) port h in
    rw (length-be_bytes count n, of_be-be_bytes count n, mod-eq_of_lt {n = n} {m = 256 ^ count} l)
      at s

address_request-understood :
    (a : IpAddr) (port : ℕ)
    → IsAddress a
    → port < 65536
    → understood (5 ∷ 1 ∷ 0 ∷ (address_request a ++ be_bytes 2 port)) ≡ some (named_address a, port)
address_request-understood (v4 n) port l h = sized-address 4 ipv4 n port l h
address_request-understood (v6 n) port l h = sized-address 16 ipv6 n port l h

-- A server reads back the address or the host name of the destination, byte for byte, and its port,
-- when the host name has at most 255 bytes.
pub understood-build_connect_request :
    (dest : Destination)
    → IsDestination dest
    → understood (build_connect_request dest) ≡ some (names dest, dest_port dest)
unfolding build_connect_request name_request dest_port
understood-build_connect_request (addr a) (l, h) = address_request-understood a.ip a.port l h
understood-build_connect_request (resolved a name) (l, h) =
    address_request-understood a.ip a.port l h
understood-build_connect_request (host n p) (l, h) =
    let size : length (as_bytes n) % 256 ≡ length (as_bytes n) = omega arith in
    rw size (sized-append domain (as_bytes n) p h)
