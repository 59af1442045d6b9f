-- ===== src/Cancel.antt =====
-- src/cancel.rs: the flag by which a scan is asked to stop, and in src/cli.rs the signals that raise it.
pub mod Signals
pub mod Interrupts
mod Tests
use scanr.Common.{ℕ, Bool, not, ◌==◌, if◌then◌else◌}

abbrev pub running : ℕ
running = 0

abbrev pub graceful : ℕ
graceful = 1

abbrev pub forced : ℕ
forced = 2

pub record Cancel : Type 0 where
  pub flag : ℕ

unfoldable pub cancel_new : Cancel
cancel_new = record { flag = running }

-- one `compare_exchange`
unfoldable pub request_graceful : Cancel → Cancel
request_graceful c = if c.flag == running then record { flag = graceful } else c

unfoldable pub request_forced : Cancel → Cancel
request_forced c = record { flag = forced }

unfoldable pub is_cancelled : Cancel → Bool
is_cancelled c = not (c.flag == running)

unfoldable pub is_forced : Cancel → Bool
is_forced c = c.flag == forced
