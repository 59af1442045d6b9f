-- ===== src/Transport/Pool.antt =====
-- `PoolTransport` of src/transport/pool.rs, over members behind the interface of a transport.
pub mod Delegation
mod Tests
use scanr.Common.{
  ℕ, zero, suc, ◌*◌, ◌%◌, ◌^◌, ◌≤◌, ◌<◌, ◌≡◌, refl, ap, ◌↔◌, ◌⊎◌, inl, inr, Bool, true, false, ◌&&◌,
  Option, none, some, List, [], ◌∷◌, ◌++◌, All, In, get_or, length, arith,
}
use scanr.Common.Bits.{bit_xor}
use scanr.Common.Text.{Text}
use scanr.Common.Text.Utf8.{as_bytes}
use scanr.Net.Addr.{octets, be_bytes}
use scanr.Plan.Types.{Fidelity, full, open_only, unknown, weakest, Timing}
use scanr.Probe.Outcome.{ProbeOutcome, outcome_via}
use scanr.Transport.Wire.{Bytes, World}
use scanr.Transport.Destination.{Destination, addr, resolved, host}
use scanr.Transport.Path.Probe.{Task}
use native.Mathlib.Nat.{mod-lt}

-- the trait `Transport`
pub record Transport (T P : Type 0) : Type 0 where
  pub name : Text
  pub fidelity : Fidelity
  pub supports_remote_dns : Bool
  pub probe : Destination → Timing P → Task (ProbeOutcome T)
  pub connect_again : Destination → Timing P → Task Bool

-- one byte of FNV-1a, in 64 bits
unfoldable pub eat : ℕ → ℕ → ℕ
eat h b = bit_xor h b * 0x0000_0100_0000_01b3 % 2 ^ 64

abbrev pub eat_all : ℕ → Bytes → ℕ
eat_all h [] = h
eat_all h (b ∷ bs) = eat_all (eat h b) bs

abbrev pub endpoint_bytes : Destination → Bytes
endpoint_bytes (addr a) = octets a.ip ++ be_bytes 2 a.port
endpoint_bytes (resolved a name) = octets a.ip ++ be_bytes 2 a.port
endpoint_bytes (host h p) = as_bytes h ++ be_bytes 2 p

unfoldable pub endpoint_hash : Destination → ℕ
unfolding eat
endpoint_hash dest = eat_all 0xcbf2_9ce4_8422_2325 (endpoint_bytes dest)

-- `o.via` as it was, and the label for an outcome that names no member yet
abbrev pub name_member : {T : Type 0} → Option Text → Text → ProbeOutcome T → ProbeOutcome T
name_member none label o = record o { via = some label }
name_member (some inner) label o = o

module _ (T P : Type 0) where
  -- a pool has at least one member: `new` panics without
  pub record PoolTransport : Type 0 where
    pub pool_name : Text
    pub first : Transport T P
    pub others : List (Transport T P)
    pub weakest_fidelity : Fidelity

  unfoldable pub weakest_of : Fidelity → List (Transport T P) → Fidelity
  unfolding weakest
  weakest_of f [] = f
  weakest_of f (m ∷ ms) = weakest_of (weakest f m.fidelity) ms

  abbrev pub members : PoolTransport → List (Transport T P)
  members pool = pool.first ∷ pool.others

  unfoldable pub pool_new : Text → List (Transport T P) → Option PoolTransport
  unfolding weakest_of
  pool_new name [] = none
  pool_new name (m ∷ ms) = some (record {
    pool_name = name;
    first = m;
    others = ms;
    weakest_fidelity = weakest_of full (m ∷ ms);
  })

  unfoldable pub pick : PoolTransport → Destination → ℕ
  unfolding endpoint_hash
  pick pool dest = endpoint_hash dest % length (members pool)

  abbrev pub picked : PoolTransport → Destination → Transport T P
  picked pool dest = get_or (members pool) (pick pool dest) pool.first

  unfoldable pub pool_probe : PoolTransport → Destination → Timing P → Task (ProbeOutcome T)
  unfolding pick
  pool_probe pool dest timing w =
      let m = picked pool dest in
      let (o, w') = m.probe dest timing w in (name_member o.via m.name o, w')

  unfoldable pub pool_connect_again : PoolTransport → Destination → Timing P → Task Bool
  unfolding pick
  pool_connect_again pool dest timing = (picked pool dest).connect_again dest timing

  abbrev pub all_remote_dns : List (Transport T P) → Bool
  all_remote_dns [] = true
  all_remote_dns (m ∷ ms) = m.supports_remote_dns && all_remote_dns ms

  -- the pool as a transport
  unfoldable pub as_transport : PoolTransport → Transport T P
  unfolding pool_probe pool_connect_again
  as_transport pool = record {
    name = pool.pool_name;
    fidelity = pool.weakest_fidelity;
    supports_remote_dns = all_remote_dns (members pool);
    probe = pool_probe pool;
    connect_again = pool_connect_again pool;
  }
