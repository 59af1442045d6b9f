-- ===== src/Run/Reported.antt =====
-- `Reported` of src/run.rs: one bit for each planned probe, set once the probe has reported.
pub mod Tracked
pub mod Abandoned
use scanr.Common.{
  ℕ, zero, suc, ◌+◌, ◌/◌, ◌%◌, ◌^◌, min, max, Bool, not, ◌&&◌, Option, none, some, List, [], ◌∷◌,
  get_or, ltb, ◌==◌, if◌then◌else◌,
}
use scanr.Common.Bits.{bit_and, bit_or}

pub record Reported : Type 0 where
  pub bits : List ℕ
  pub planned : ℕ

abbrev pub max_tracked_probes : ℕ
max_tracked_probes = 256_000_000

abbrev pub words : ℕ → List ℕ
words zero = []
words (suc n) = 0 ∷ words n

-- `(planned).div_ceil(64).max(1)`
abbrev pub word_count : ℕ → ℕ
word_count planned = max ((planned + 63) / 64) 1

unfoldable pub reported_new : ℕ → Option Reported
reported_new planned =
    if ltb max_tracked_probes planned
    then none
    else some (record { bits = words (word_count planned); planned = planned })

-- `bits[i] |= m`; an index beyond the vector would panic, and is shown not to occur
unfoldable pub set_bits : ℕ → ℕ → List ℕ → List ℕ
set_bits i m [] = []
set_bits zero m (w ∷ ws) = bit_or w m ∷ ws
set_bits (suc i) m (w ∷ ws) = w ∷ set_bits i m ws

unfoldable pub mark : ℕ → Reported → Reported
unfolding set_bits
mark index r =
    if ltb index r.planned
    then record r { bits = set_bits (index / 64) (2 ^ (index % 64)) r.bits }
    else r

unfoldable pub saw : Reported → ℕ → Bool
saw r index =
    ltb index r.planned && not (bit_and (get_or r.bits (index / 64) 0) (2 ^ (index % 64)) == 0)

-- the numbers of `next`, and as many behind it as `count` says, that have not reported
unfoldable pub unseen : Reported → ℕ → ℕ → List ℕ
unfolding saw
unseen r next zero = []
unseen r next (suc count) =
    let rest = unseen r (next + 1) count in if not (saw r next) then next ∷ rest else rest

unfoldable pub abandoned : Reported → ℕ → List ℕ
unfolding unseen
abandoned r issued = unseen r 0 (min issued r.planned)

-- the indices that the collector marks, one after the other
unfoldable pub mark_all : List ℕ → Reported → Reported
mark_all [] r = r
mark_all (i ∷ is) r = mark_all is (mark i r)
