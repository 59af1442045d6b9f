-- ===== src/Diag/Tests.antt =====
-- The port budget of src/diag.rs on a stock Linux host.
use scanr.Common.{◌+◌, ◌-◌, ◌%◌, ◌^◌, ℕ, ◌≡◌, ◌⊎◌, true, none, some}
use scanr.Diag.Host.{
  HostFacts, PortRange, IsCeiling, IsExempt, sustained_rate_ceiling,
  sustained_rate_ceiling-IsCeiling,
}

abbrev stock : HostFacts
stock = record {
  ephemeral_range = some (record { lo = 32768; hi = 60999 });
  tcp_tw_reuse = some 2;
  rlimit_nofile = some 1024;
}

sustained_rate_ceiling-IsCeiling_example :
    ((sustained_rate_ceiling stock true ≡ none)
      × (IsExempt stock true ⊎ (stock.ephemeral_range ≡ none)))
    ⊎ ((rate : ℕ) × (range : PortRange) × (sustained_rate_ceiling stock true ≡ some rate)
        × (stock.ephemeral_range ≡ some range)
        × (¬ IsExempt stock true)
        × IsCeiling ((range.hi - range.lo + 1) % 2 ^ 32) rate)
sustained_rate_ceiling-IsCeiling_example = sustained_rate_ceiling-IsCeiling stock true
