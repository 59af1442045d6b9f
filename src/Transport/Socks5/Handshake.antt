-- ===== src/Transport/Socks5/Handshake.antt =====
-- The handshake of src/transport/socks5.rs with one hop: greeting, method selection and
-- authentication, and what a failure of the stream says. An outcome goes through the error channel.
use scanr.Common.{
  ℕ, ◌-◌, ◌%◌, Bool, true, false, Option, none, some, [], ◌∷◌, ◌++◌, length, get_or, ltb, ◌==◌,
  ◌||◌, if◌then◌else◌,
}
use scanr.Common.Text.{Text, codes}
use scanr.Common.Text.Utf8.{as_bytes}
use scanr.Diag.Pressure.{
  Errno, econnrefused, etimedout, ehostunreach, enetunreach, ErrorKind, timed_out, would_block,
  unexpected_eof, IoError, proxy_saturation, from_os_error,
}
use scanr.Net.Addr.{SocketAddr}
use scanr.Plan.Types.{HopKind}
use scanr.Probe.Outcome.{
  filtered, error, local_stack, proxy_reply, timeout, internal, Source, Phases, ProbeOutcome,
  outcome_new, under_pressure,
}
use scanr.Transport.Wire.{Bytes, Io, pure, fail, map_err, now, ◌>>=◌, ◌>>◌, read_exact, write_all}
use scanr.Transport.Socks5.{version, hex}

abbrev pub method_none : ℕ
method_none = 0x00

abbrev pub method_userpass : ℕ
method_userpass = 0x02

abbrev pub method_unacceptable : ℕ
method_unacceptable = 0xFF

abbrev pub auth_version : ℕ
auth_version = 0x01

pub record Hop : Type 0 where
  pub kind : HopKind
  pub address : SocketAddr
  pub username : Option Text
  pub password : Option Text

-- an `Instant` and a `Duration` are counts of nanoseconds
unfoldable pub is_timeout_kind : ErrorKind → Bool
is_timeout_kind timed_out = true
is_timeout_kind would_block = true
is_timeout_kind _ = false

unfoldable pub is_timed_out : ErrorKind → Bool
is_timed_out timed_out = true
is_timed_out _ = false

unfoldable pub is_eof : ErrorKind → Bool
is_eof unexpected_eof = true
is_eof _ = false

unfoldable pub io_failure : (T : Type 0) → IoError → Text → Phases → ProbeOutcome T
unfolding is_timeout_kind is_eof
io_failure T e what phases =
    if is_timeout_kind e.kind
    then outcome_new T filtered timeout (codes "timed out " ++ what) phases
    else if is_eof e.kind
    then outcome_new T error proxy_reply (codes "proxy closed the connection while " ++ what) phases
    else outcome_new T error proxy_reply (what ++ (codes ": " ++ e.message)) phases

-- `matches!(raw, Some(ECONNREFUSED) | Some(ETIMEDOUT))`
unfoldable pub is_refusal : Option Errno → Bool
is_refusal (some econnrefused) = true
is_refusal (some etimedout) = true
is_refusal _ = false

-- `shown` is the text of the proxy's address, `other` the reason when no number tells more.
unfoldable pub reason_of : Option Errno → Text → Text → Text
reason_of (some econnrefused) shown other =
    codes "proxy " ++ (shown ++ codes " refused the connection (not listening?)")
reason_of (some ehostunreach) shown other = codes "proxy " ++ (shown ++ codes " is unreachable")
reason_of (some enetunreach) shown other = codes "proxy " ++ (shown ++ codes " is unreachable")
reason_of _ shown other = other

unfoldable pub unreachable_reason : Text → IoError → Text
unfolding is_timed_out reason_of
unreachable_reason shown e = reason_of e.raw_os_error shown (
    if is_timed_out e.kind
    then codes "timed out connecting to proxy " ++ shown
    else codes "cannot reach proxy " ++ (shown ++ (codes ": " ++ e.message)))

unfoldable pub proxy_unreachable : (T : Type 0) → Text → IoError → Phases → ProbeOutcome T
unfolding unreachable_reason is_timed_out is_refusal from_os_error under_pressure
proxy_unreachable T shown e phases =
    let source = if is_timed_out e.kind then timeout else local_stack in
    let outcome = outcome_new T error source (unreachable_reason shown e) phases in
    elim (from_os_error e) [
      | some p ↦ under_pressure outcome p
      | none ↦
          if is_refusal e.raw_os_error || is_timed_out e.kind
          then under_pressure outcome proxy_saturation
          else outcome
    ]

-- `phases.total = started.elapsed()` and then an outcome in the error channel
unfoldable pub refuse : (T : Type 0) → Source → Text → Phases → ℕ → Io (ProbeOutcome T) (Unit {0})
unfolding now
refuse T source reason phases started =
    now >>= (λ t. fail (outcome_new T error source reason (record phases { total = t - started })))

-- What the server's answer to the credentials says.
unfoldable pub check_status :
    (T : Type 0) → Text → Phases → ℕ → Bytes → Io (ProbeOutcome T) (Unit {0})
unfolding refuse
check_status T user phases started resp =
    if get_or resp 0 0 == auth_version
    then (if get_or resp 1 0 == 0
        then pure tt
        else refuse T proxy_reply
            (codes "proxy rejected credentials for user `"
              ++ (user ++ (codes "` (status " ++ (hex (get_or resp 1 0) ++ codes ")"))))
            phases started)
    else refuse T proxy_reply
        (codes "authentication reply had version "
          ++ (hex (get_or resp 0 0) ++ codes ", expected 0x01 (RFC 1929)"))
        phases started

abbrev pub credentials : Text → Text → Bytes
credentials user pass =
    auth_version
    ∷ length (as_bytes user) % 256
    ∷ (as_bytes user ++ length (as_bytes pass) % 256 ∷ as_bytes pass)

unfoldable pub authenticate :
    (T : Type 0) → Text → Text → Phases → ℕ → Option ℕ → Io (ProbeOutcome T) (Unit {0})
unfolding io_failure refuse check_status
authenticate T user pass phases started deadline =
    if ltb 255 (length (as_bytes user)) || ltb 255 (length (as_bytes pass))
    then refuse T internal (codes "SOCKS5 username and password must each be at most 255 bytes")
        phases started
    else map_err (λ e. io_failure T e (codes "sending SOCKS5 credentials") phases)
        (write_all (credentials user pass))
      >> (map_err (λ e. io_failure T e (codes "reading authentication reply") phases)
            (read_exact 2 deadline)
          >>= (λ resp. check_status T user phases started resp))

abbrev pub greeting : Hop → Bytes
greeting hop = elim hop.username [
  | some _ ↦ version ∷ 2 ∷ method_none ∷ method_userpass ∷ []
  | none ↦ version ∷ 1 ∷ method_none ∷ []
]

abbrev pub wants_auth : Hop → Bool
wants_auth hop = elim hop.username [ some _ ↦ true | none ↦ false ]

abbrev pub pass_of : Hop → Text
pass_of hop = elim hop.password [ some p ↦ p | none ↦ [] ]

-- What follows the server's choice of a method.
unfoldable pub select_method :
    (T : Type 0) → Hop → Phases → ℕ → Option ℕ → Bytes → Io (ProbeOutcome T) (Unit {0})
unfolding refuse authenticate
select_method T hop phases started deadline resp =
    if get_or resp 0 0 == version
    then (if get_or resp 1 0 == method_none
        then pure tt
        else if get_or resp 1 0 == method_userpass
        then elim hop.username [
          | some user ↦ authenticate T user (pass_of hop) phases started deadline
          | none ↦
              refuse T proxy_reply
                (codes "proxy requires username/password authentication but none is configured")
                phases started
        ]
        else if get_or resp 1 0 == method_unacceptable
        then refuse T proxy_reply
            (if wants_auth hop
              then codes "proxy rejected both no-auth and username/password methods"
              else codes "proxy requires authentication but no credentials are configured")
            phases started
        else refuse T proxy_reply
            (codes "proxy selected unsupported auth method " ++ hex (get_or resp 1 0)) phases
            started)
    else refuse T proxy_reply
        (codes "not a SOCKS5 proxy: method selection returned version " ++ hex (get_or resp 0 0))
        phases started

unfoldable pub negotiate :
    (T : Type 0) → Hop → Phases → ℕ → Option ℕ → Io (ProbeOutcome T) (Unit {0})
unfolding io_failure select_method
negotiate T hop phases started deadline =
    map_err (λ e. io_failure T e (codes "sending SOCKS5 greeting") phases)
      (write_all (greeting hop))
    >> (map_err (λ e. io_failure T e (codes "reading method selection") phases)
          (read_exact 2 deadline)
        >>= (λ resp. select_method T hop phases started deadline resp))
