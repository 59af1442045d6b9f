-- ===== src/Transport/Path.antt =====
-- `ProxyTransport` of src/transport/socks5.rs: a path of hops is built one tunnel at a time, the last
-- CONNECT names the destination, and its reply alone gives the verdict.
pub mod Walk
pub mod Greeting
pub mod Probe
pub mod Verdict
pub mod Grounded
use scanr.Common.{
  ℕ, zero, suc, ◌+◌, ◌-◌, Bool, true, false, ◌&&◌, Option, none, some, List, [], ◌∷◌, ◌++◌, length,
  take, drop, ltb, leb, ◌==◌, if◌then◌else◌,
}
use scanr.Common.Result.{Result, ok, err}
use scanr.Common.Text.{Text, codes, is_empty, decimal}
use scanr.Diag.Pressure.{IoError}
use scanr.Net.Addr.{IpAddr, SocketAddr}
use scanr.Plan.Types.{HopKind, socks5, http, Fidelity, Banner, wait_for, Timing}
use scanr.Probe.Outcome.{
  State, open_state, error, proxy_reply, internal, Phases, ProbeOutcome, outcome_new, is_open,
  with_banner, with_tls,
}
use scanr.Transport.Wire.{
  Bytes, Read, arrives, fails, World, Io, then_run, relabel, pure, fail, map_err, now, ◌>>=◌, ◌>>◌,
  read_exact, write_all, leftover,
}
use scanr.Transport.Destination.{Destination, addr, sni, Reply, socks5_reply, http_reply}
use scanr.Transport.Http.{Response}
use scanr.Transport.Http as Http
use scanr.Transport.Socks5.{hex, rep_succeeded, read_reply, classify_reply}
use scanr.Transport.Socks5 as Socks5
use scanr.Transport.Socks5.Handshake.{Hop, wants_auth, io_failure, proxy_unreachable, negotiate}

-- What the operating system and the text output of addresses do for a transport.
pub record Os : Type 0 where
  pub show_ip : IpAddr → Text
  pub show_addr : SocketAddr → Text
  pub connect_timeout : SocketAddr → ℕ → Io IoError (Unit {0})
  pub set_read_timeout : ℕ → Io IoError (Unit {0})
  pub set_write_timeout : ℕ → Io IoError (Unit {0})

-- a path has at least one hop: `chained` panics without
pub record ProxyTransport : Type 0 where
  pub name : Text
  pub first : Hop
  pub others : List Hop
  pub fidelity : Fidelity

unfoldable pub chained : Text → List Hop → Fidelity → Option ProxyTransport
chained name [] fidelity = none
chained name (h ∷ hs) fidelity =
    some (record { name = name; first = h; others = hs; fidelity = fidelity })

pub record DetailedOutcome (T : Type 0) : Type 0 where
  pub outcome : ProbeOutcome T
  pub reply : Option Reply

pub record Established (T : Type 0) : Type 0 where
  pub outcome : ProbeOutcome T
  pub reply : Reply
  pub connect_elapsed : ℕ

pub data Answer : Type 0 where
  socks5_answer : ℕ → Answer
  http_answer : Response → Answer

abbrev pub no_phases : Phases
no_phases = record { proxy_connect = none; handshake = none; connect = none; total = 0 }

abbrev said_or : Option Text → Text
said_or none = codes "the proxy handshake failed"
said_or (some what) = what

-- whether the hop opened the tunnel, and its own words
unfoldable pub tunnel_answer : HopKind → Option ℕ → Io IoError (Bool × Text)
unfolding read_reply Http.read_response
tunnel_answer socks5 deadline =
    read_reply deadline >>= (λ c. pure (c == rep_succeeded, codes "reply " ++ hex c))
tunnel_answer http deadline =
    Http.read_response deadline
    >>= (λ r. pure (leb 200 r.status && leb r.status 299, r.status_line))

module _ (os : Os) (T : Type 0) where
  unfoldable pub set_timeouts : ℕ → Io (ProbeOutcome T) (Unit {0})
  set_timeouts d =
      let d' = if d == 0 then 1_000_000 else d in
      map_err
        (λ e.
          outcome_new T error internal (codes "cannot set socket timeout: " ++ e.message) no_phases)
        (os.set_read_timeout d' >> os.set_write_timeout d')

  unfoldable pub connect_request : Hop → Destination → Bytes
  unfolding Http.build_connect_request Socks5.build_connect_request
  connect_request hop dest = elim hop.kind [
    | socks5 ↦ Socks5.build_connect_request dest
    | http ↦ Http.build_connect_request os.show_ip dest hop.username hop.password
  ]

  -- `count` is the number of hops, `index` and `hop` the one to blame
  unfoldable pub blame_hop : ℕ → ℕ → Hop → ProbeOutcome T → ProbeOutcome T
  blame_hop count index hop o =
      let place =
        if count == 1
        then codes "with proxy " ++ os.show_addr hop.address
        else codes "at hop "
          ++ (decimal (index + 1)
              ++ (codes " of " ++ (decimal count ++ (codes ", " ++ os.show_addr hop.address)))) in
      outcome_new T error proxy_reply (said_or o.reason ++ (codes " (" ++ (place ++ codes ")")))
        o.phases

  abbrev refused_to_reach : ℕ → Hop → Hop → Text → Text
  refused_to_reach from hop next said =
      codes "hop "
      ++ (decimal (from + 1)
          ++ (codes " ("
              ++ (os.show_addr hop.address
                  ++ (codes ") refused to reach hop "
                      ++ (decimal (from + 2)
                          ++ (codes " ("
                              ++ (os.show_addr next.address ++ (codes "): " ++ said))))))))

  -- `phases.total = started.elapsed()` and then the failure of the stream, blamed on the hop
  unfoldable pub blame_stream :
      ℕ → ℕ → Hop → Text → Phases → ℕ → IoError → Io (ProbeOutcome T) (Unit {0})
  unfolding now blame_hop io_failure
  blame_stream count from hop what phases started e = now >>= (λ t.
      fail (blame_hop count from hop (io_failure T e what (record phases { total = t - started }))))
