-- ===== src/Transport/Path/Grounded.antt =====
-- What `probe_detailed` of src/transport/socks5.rs reports is grounded in a reply of the exit hop.
use scanr.Common.{ℕ, Option, none, List}
use scanr.Common.Result.{Result, ok, err}
use scanr.Plan.Types.{Timing}
use scanr.Probe.Outcome.{ProbeOutcome, with_banner, with_tls}
use scanr.Transport.Wire.{World, now}
use scanr.Transport.Wire.Yields.{Holds, Yields, map_err-map}
use scanr.Transport.Destination.{Destination, Reply, socks5_reply, http_reply}
use scanr.Transport.Path.{Os, ProxyTransport, DetailedOutcome, Established}
use scanr.Transport.Path.Walk.{from_start, establish}
use scanr.Transport.Path.Probe.{Survey, finish_probe, probe_detailed}
use scanr.Transport.Path.Verdict.{IsFault, IsGrounded, IsReplied, AnswersFor, first_reached-Yields}

abbrev pub Grounded : {T : Type 0} → DetailedOutcome T → Type 0
Grounded d = IsGrounded d.reply d.outcome

-- What is read off an open port leaves the verdict as it is.
IsReplied-extras :
    (T : Type 0) (r : Reply) (o : ProbeOutcome T) (banner : Option (List ℕ)) (tls : Option T)
    → IsReplied r o
    → IsReplied r (with_tls (with_banner o banner) tls)
unfolding with_tls with_banner
IsReplied-extras T (socks5_reply code) o banner tls v = record {
  opens = v.opens;
  closes = v.closes;
  filters = v.filters;
  by_proxy = v.by_proxy;
  unpressed = v.unpressed;
}
IsReplied-extras T (http_reply status) o banner tls v = record {
  opens = v.opens;
  else_error = v.else_error;
  by_proxy = v.by_proxy;
}

module _ (os : Os) (T P : Type 0) (timing : Timing P) (p : ProxyTransport)
    (dest : Destination) where
  from_start-Yields : Yields IsFault AnswersFor (from_start os T P timing p dest)
  unfolding from_start now
  from_start-Yields w = first_reached-Yields os T P timing p dest _ _ _

  establish-Yields : Yields Grounded AnswersFor (establish os T P timing p dest)
  unfolding establish
  establish-Yields =
      map_err-map Grounded IsFault AnswersFor (λ o. record { outcome = o; reply = none })
        (from_start os T P timing p dest) from_start-Yields (λ o f. f)

  finish_probe-Grounded :
      (survey : Survey os T P) (r : Result (DetailedOutcome T) (Established T)) (w : World)
      → Holds Grounded AnswersFor r
      → Grounded (finish_probe os T P survey timing p dest r w).0
  unfolding finish_probe
  finish_probe-Grounded survey (err d) w h = h
  finish_probe-Grounded survey (ok e) w h = IsReplied-extras T e.reply e.outcome _ _ h

  -- Whatever the hops, the operating system and the clock do: a probe that carries a reply has the
  -- verdict of that reply code or status; one that carries none is an error, or is filtered by a
  -- timeout behind a path that had been built.
  pub probe_detailed-Grounded :
      (survey : Survey os T P) (w : World)
      → Grounded (probe_detailed os T P survey timing p dest w).0
  unfolding probe_detailed
  probe_detailed-Grounded survey w =
      finish_probe-Grounded survey (establish os T P timing p dest w).0
        (establish os T P timing p dest w).1 (establish-Yields w)
