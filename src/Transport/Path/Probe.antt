-- ===== src/Transport/Path/Probe.antt =====
-- `read_banner` of src/transport/mod.rs, and `probe_detailed` and `connect_again` of
-- src/transport/socks5.rs.
use scanr.Common.{ℕ, Bool, true, false, Option, none, some, if◌then◌else◌}
use scanr.Common.Result.{Result, ok, err}
use scanr.Common.Text.{Text, is_empty}
use scanr.Diag.Pressure.{IoError}
use scanr.Plan.Types.{Banner, wait_for, Timing}
use scanr.Probe.Outcome.{is_open, with_banner, with_tls}
use scanr.Transport.Wire.{Bytes, World, ◌>>◌, read_once}
use scanr.Transport.Destination.{Destination, sni}
use scanr.Transport.Path.{Os, ProxyTransport, DetailedOutcome, Established}
use scanr.Transport.Path.Walk.{establish}

-- What is done on the stream with no error to tell.
abbrev pub Task : Type 0 → Type 0
Task A = World → A × World

abbrev volunteered : Result IoError Bytes → Option Bytes
volunteered (err e) = none
volunteered (ok bs) = if is_empty bs then none else some bs

unfoldable pub read_banner : Os → Banner → ℕ → Task (Option Bytes)
unfolding wait_for
read_banner os opts connect w =
    let (r, w') = (os.set_read_timeout (wait_for opts connect) >> read_once opts.bytes) w in
    (volunteered r, w')

module _ (os : Os) (T P : Type 0) where
  -- the grab of a banner, on an open port when asked for
  unfoldable pub banner_of : Bool → Option Banner → ℕ → Task (Option Bytes)
  unfolding read_banner
  banner_of true (some opts) connect w = read_banner os opts connect w
  banner_of true none connect w = (none, w)
  banner_of false opts connect w = (none, w)

  unfoldable pub connect_again : Timing P → ProxyTransport → Destination → Task Bool
  unfolding establish is_open
  connect_again timing p dest w =
      let (r, w') = establish os T P timing p dest w in
      (elim r [ ok e ↦ is_open e.outcome | err d ↦ false ], w')

  -- the TLS probe of src/tls.rs: what it is told, the time the connect took, the name to send, and
  -- how to connect again
  abbrev pub Survey : Type 0
  Survey = P → ℕ → Option Text → Task Bool → Task T

  -- on an open port that volunteered nothing, when asked for
  unfoldable pub tls_of :
      Survey → Bool → Option Bytes → Option P → ℕ → Option Text → Task Bool → Task (Option T)
  tls_of survey true none (some o) connect name again w =
      let (t, w') = survey o connect name again w in (some t, w')
  tls_of survey opened banner asked connect name again w = (none, w)

  unfoldable pub finish_probe :
      Survey
      → Timing P
      → ProxyTransport
      → Destination
      → Result (DetailedOutcome T) (Established T)
      → Task (DetailedOutcome T)
  unfolding banner_of tls_of connect_again sni is_open with_banner with_tls
  finish_probe survey timing p dest (err d) w = (d, w)
  finish_probe survey timing p dest (ok e) w =
      let (banner, w1) = banner_of (is_open e.outcome) timing.banner e.connect_elapsed w in
      let (tls, w2) =
        tls_of survey (is_open e.outcome) banner timing.tls e.connect_elapsed (sni dest)
          (connect_again timing p dest) w1 in
      (record { outcome = with_tls (with_banner e.outcome banner) tls; reply = some e.reply }, w2)

  unfoldable pub probe_detailed :
      Survey → Timing P → ProxyTransport → Destination → Task (DetailedOutcome T)
  unfolding establish finish_probe
  probe_detailed survey timing p dest w =
      let (r, w') = establish os T P timing p dest w in finish_probe survey timing p dest r w'
