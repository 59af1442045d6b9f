-- ===== src/Plan/Types.antt =====
-- The types of src/plan/types.rs that the transports use. A `Duration` is a count of nanoseconds.
use scanr.Common.{ℕ, ◌*◌, min, max, ltb, ◌==◌, ◌||◌, ◌++◌, Option, if◌then◌else◌}
use scanr.Common.Result.{Result, ok, err}
use scanr.Common.Text.{Text, codes, decimal}

pub data HopKind : Type 0 where
  socks5 http : HopKind

pub data Fidelity : Type 0 where
  full open_only unknown : Fidelity

unfoldable pub weakest : Fidelity → Fidelity → Fidelity
weakest unknown b = unknown
weakest full unknown = unknown
weakest open_only unknown = unknown
weakest open_only full = open_only
weakest open_only open_only = open_only
weakest full open_only = open_only
weakest full full = full

pub record Banner : Type 0 where
  pub bytes : ℕ
  pub timeout : ℕ

abbrev pub max_banner_bytes : ℕ
max_banner_bytes = 4096

-- 50 milliseconds
abbrev pub min_banner_wait : ℕ
min_banner_wait = 50_000_000

unfoldable pub banner_new : ℕ → ℕ → Result Text Banner
banner_new bytes timeout =
    if bytes == 0 || ltb max_banner_bytes bytes
    then err (codes "banner_bytes must be between 1 and 4096, got " ++ decimal bytes)
    else if timeout == 0
    then err (codes "banner_timeout must be greater than zero")
    else ok (record { bytes = bytes; timeout = timeout })

unfoldable pub wait_for : Banner → ℕ → ℕ
wait_for b connect = min (max (connect * 3) min_banner_wait) b.timeout

-- `P` is what the TLS probe of src/tls.rs is told.
pub record Timing (P : Type 0) : Type 0 where
  pub concurrency : ℕ
  pub rate : ℕ
  pub proxy_connect_timeout : ℕ
  pub handshake_timeout : ℕ
  pub connect_timeout : ℕ
  pub retries : ℕ
  pub retry_delay : ℕ
  pub banner : Option Banner
  pub tls : Option P
