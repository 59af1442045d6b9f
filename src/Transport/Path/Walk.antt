-- ===== src/Transport/Path/Walk.antt =====
-- `open_tunnel`, `establish`, `probe_detailed` and `connect_again` of src/transport/socks5.rs, and
-- `read_banner` of src/transport/mod.rs.
use scanr.Common.{ℕ, suc, ◌+◌, ◌-◌, Bool, true, false, Option, none, some, List, [], ◌∷◌, length}
use scanr.Common.Result.{Result, ok, err}
use scanr.Common.Text.{Text, codes}
use scanr.Diag.Pressure.{IoError}
use scanr.Plan.Types.{HopKind, socks5, http, Timing}
use scanr.Probe.Outcome.{proxy_reply, Phases, ProbeOutcome}
use scanr.Transport.Wire.{Io, pure, fail, map_err, attempt, now, ◌>>=◌, ◌>>◌, write_all}
use scanr.Transport.Destination.{Destination, addr, socks5_reply, http_reply}
use scanr.Transport.Http as Http
use scanr.Transport.Socks5.{read_reply, classify_reply}
use scanr.Transport.Socks5.Handshake.{
  Hop, wants_auth, io_failure, proxy_unreachable, refuse, negotiate,
}
use scanr.Transport.Path.{
  Os, ProxyTransport, DetailedOutcome, Established, Answer, socks5_answer, http_answer,
  set_timeouts, connect_request, blame_hop, tunnel_answer, refused_to_reach, blame_stream,
}

unfoldable pub exit_answer : HopKind → Option ℕ → Io IoError Answer
unfolding read_reply Http.read_response
exit_answer socks5 deadline = read_reply deadline >>= (λ c. pure (socks5_answer c))
exit_answer http deadline = Http.read_response deadline >>= (λ r. pure (http_answer r))

module _ (os : Os) (T P : Type 0) (timing : Timing P) where
  -- what the hop said to the request for a tunnel
  unfoldable pub tunnel_said :
      ℕ → ℕ → Hop → Hop → Phases → ℕ → Result IoError (Bool × Text) → Io (ProbeOutcome T) (Unit {0})
  unfolding refuse blame_stream
  tunnel_said count from hop next phases started (ok (true, said)) = pure tt
  tunnel_said count from hop next phases started (ok (false, said)) =
      refuse T proxy_reply (refused_to_reach os T from hop next said) phases started
  tunnel_said count from hop next phases started (err e) =
      blame_stream os T count from hop (codes "reading the chain's CONNECT reply") phases started e

  unfoldable pub tunnel_asked :
      ℕ → ℕ → Hop → Hop → Phases → ℕ → Result IoError (Unit {0}) → Io (ProbeOutcome T) (Unit {0})
  unfolding now tunnel_answer tunnel_said blame_stream
  tunnel_asked count from hop next phases started (ok _) = now >>= (λ t.
      attempt (tunnel_answer hop.kind (some (t + timing.connect_timeout)))
      >>= (λ answer. tunnel_said count from hop next phases started answer))
  tunnel_asked count from hop next phases started (err e) =
      blame_stream os T count from hop (codes "extending the chain") phases started e

  -- CONNECT from one hop to the next
  unfoldable pub open_tunnel : ℕ → ℕ → Hop → Hop → Phases → ℕ → Io (ProbeOutcome T) (Unit {0})
  unfolding connect_request tunnel_asked
  open_tunnel count from hop next phases started =
      attempt (write_all (connect_request os T hop (addr next.address)))
      >>= (λ r. tunnel_asked count from hop next phases started r)

  -- HTTP has no greeting
  unfoldable pub greet : ℕ → ℕ → Hop → HopKind → Phases → ℕ → Io (ProbeOutcome T) (Unit {0})
  unfolding now blame_hop negotiate
  greet count i hop socks5 phases started = now >>= (λ t.
      map_err (blame_hop os T count i hop)
        (negotiate T hop phases started (some (t + timing.handshake_timeout))))
  greet count i hop http phases started = pure tt

  -- the `for` loop over the hops, from the `i`-th on; the result is the last hop
  unfoldable pub walk_hops : ℕ → ℕ → Hop → List Hop → Phases → ℕ → Io (ProbeOutcome T) Hop
  unfolding set_timeouts greet open_tunnel
  walk_hops count i hop [] phases started =
      set_timeouts os T timing.handshake_timeout
      >> (greet count i hop hop.kind phases started >> pure hop)
  walk_hops count i hop (next ∷ more) phases started =
      set_timeouts os T timing.handshake_timeout
      >> (greet count i hop hop.kind phases started
          >> (set_timeouts os T timing.connect_timeout
              >> (open_tunnel count i hop next phases started
                  >> walk_hops count (suc i) next more phases started)))

  unfoldable pub judge :
      Hop → Phases → ℕ → Result IoError Answer → Io (ProbeOutcome T) (Established T)
  unfolding classify_reply Http.classify io_failure
  judge exit phases elapsed (ok (socks5_answer code)) = pure (record {
    outcome = classify_reply T code phases;
    reply = socks5_reply code;
    connect_elapsed = elapsed;
  })
  judge exit phases elapsed (ok (http_answer r)) = pure (record {
    outcome = Http.classify T r (wants_auth exit) phases;
    reply = http_reply r.status;
    connect_elapsed = elapsed;
  })
  judge exit phases elapsed (err e) = fail (io_failure T e (codes "reading CONNECT reply") phases)

  -- behind the CONNECT that names the destination, sent at `begun`
  unfoldable pub final_asked :
      Hop → Phases → ℕ → ℕ → Result IoError (Unit {0}) → Io (ProbeOutcome T) (Established T)
  unfolding now exit_answer judge io_failure
  final_asked exit phases started begun (ok _) =
      attempt (exit_answer exit.kind (some (begun + timing.connect_timeout))) >>= (λ answer.
        now >>= (λ t. now >>= (λ u.
          judge exit (record phases { connect = some (t - begun); total = u - started }) (t - begun)
            answer)))
  final_asked exit phases started begun (err e) = now >>= (λ t.
      fail
        (io_failure T e (codes "sending CONNECT request") (record phases { total = t - started })))

  -- the CONNECT that names the destination, over the path that is built
  unfoldable pub final_connect :
      Destination → Hop → Phases → ℕ → Io (ProbeOutcome T) (Established T)
  unfolding set_timeouts now connect_request final_asked
  final_connect dest exit phases started =
      set_timeouts os T timing.connect_timeout
      >> (now >>= (λ begun.
          attempt (write_all (connect_request os T exit dest))
          >>= (λ r. final_asked exit phases started begun r)))

  -- the walk, begun at `begun`, and the CONNECT over the path that it built
  unfoldable pub over_path :
      ProxyTransport → Destination → Phases → ℕ → ℕ → Io (ProbeOutcome T) (Established T)
  unfolding now walk_hops final_connect
  over_path p dest phases started begun =
      walk_hops (suc (length p.others)) 0 p.first p.others phases started >>= (λ exit.
        now >>= (λ built.
          final_connect dest exit (record phases { handshake = some (built - begun) }) started))

  unfoldable pub first_reached :
      ProxyTransport
      → Destination
      → ℕ
      → Result IoError (Unit {0})
      → Io (ProbeOutcome T) (Established T)
  unfolding now over_path proxy_unreachable
  first_reached p dest started (ok _) = now >>= (λ reached. now >>= (λ t. now >>= (λ begun.
      over_path p dest
        (record {
          proxy_connect = some (reached - started);
          handshake = none;
          connect = none;
          total = t - started;
        })
        started begun)))
  first_reached p dest started (err e) = now >>= (λ t. now >>= (λ u. fail (
      proxy_unreachable T (os.show_addr p.first.address) e (record {
        proxy_connect = some (t - started);
        handshake = none;
        connect = none;
        total = u - started;
      }))))

  unfoldable pub from_start : ProxyTransport → Destination → Io (ProbeOutcome T) (Established T)
  unfolding now first_reached
  from_start p dest = now >>= (λ started.
      attempt (os.connect_timeout p.first.address timing.proxy_connect_timeout)
      >>= (λ r. first_reached p dest started r))

  unfoldable pub establish : ProxyTransport → Destination → Io (DetailedOutcome T) (Established T)
  unfolding from_start
  establish p dest = map_err (λ o. record { outcome = o; reply = none }) (from_start p dest)
