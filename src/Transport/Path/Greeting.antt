-- ===== src/Transport/Path/Greeting.antt =====
-- The handshake with a hop of the path in src/transport/socks5.rs: what it sends, and that its failure is no
-- verdict.
use scanr.Common.{ℕ, ◌+◌, ◌≡◌, refl, ◌∙◌, some}
use scanr.Common.Result.{Result, ok, err}
use scanr.Plan.Types.{socks5, Timing}
use scanr.Probe.Outcome.{error, proxy_reply, Phases, ProbeOutcome, outcome_new}
use scanr.Transport.Wire.{World, now, relabel}
use scanr.Transport.Socks5.Handshake.{Hop, negotiate}
use scanr.Transport.Socks5.Negotiation.{Judged, Conduct, negotiate-Conduct}
use scanr.Transport.Path.{Os, blame_hop}
use scanr.Transport.Path.Walk.{greet}

-- A failure of the path: it says nothing of the destination.
abbrev pub IsBlamed : {T : Type 0} → ProbeOutcome T → Type 0
IsBlamed o = (o.state ≡ error) × (o.source ≡ proxy_reply)

module _ (os : Os) (T P : Type 0) (timing : Timing P) (count i : ℕ) (hop : Hop) (phases : Phases)
    (started : ℕ) where
  relabelled-Judged :
      (r : Result (ProbeOutcome T) (Unit {0}) × World)
      → Judged IsBlamed (relabel (blame_hop os T count i hop) r).0
  unfolding blame_hop outcome_new
  relabelled-Judged (ok a, w) = tt
  relabelled-Judged (err o, w) = (refl, refl)

  relabelled_sent :
      (r : Result (ProbeOutcome T) (Unit {0}) × World)
      → (relabel (blame_hop os T count i hop) r).1.sent ≡ r.1.sent
  relabelled_sent (ok a, w) = refl
  relabelled_sent (err o, w) = refl

  -- Whatever a SOCKS5 hop answers and however the stream fails, the handshake sends the greeting and
  -- nothing else, or the greeting and the credentials, the last of these cut short where a write
  -- fails; any of the credentials only when a user is configured, when neither text is longer than
  -- 255 bytes and when the hop has answered the greeting with a request for them, within the time
  -- given to the handshake. Every failure is an error of the proxy, never a verdict on the port.
  pub greet-Conduct :
      (w : World)
      → Conduct T hop
          (some (w.clock w.looks + timing.handshake_timeout))
          (record w { looks = w.looks + 1 })
          IsBlamed
          (greet os T P timing count i hop socks5 phases started w)
  unfolding greet now
  greet-Conduct w =
      let deadline = some (w.clock w.looks + timing.handshake_timeout) in
      let w' = record w { looks = w.looks + 1 } in
      let c = negotiate-Conduct T hop phases started deadline w' in
      let r = negotiate T hop phases started deadline w' in
      record {
        messages = c.messages;
        spoke = c.spoke;
        in_order = relabelled_sent r ∙ c.in_order;
        judged = relabelled-Judged r;
      }
