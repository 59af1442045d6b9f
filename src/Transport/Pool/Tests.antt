-- ===== src/Transport/Pool/Tests.antt =====
-- A pool of src/transport/pool.rs with two members.
use scanr.Common.{refl, Bool, true, none, List, [], ◌∷◌}
use scanr.Common.Text.{Text, codes}
use scanr.Plan.Types.{Fidelity, full, open_only, weakest}
use scanr.Probe.Outcome.{Phases, proxy_reply, outcome_open}
use scanr.Transport.Pool.{Transport, PoolTransport, pool_new, weakest_of}
use scanr.Transport.Pool.Delegation.{IsPool, pool_new-IsPool}

abbrev no_phases : Phases
no_phases = record { proxy_connect = none; handshake = none; connect = none; total = 0 }

abbrev member : Text → Fidelity → Transport Bool Bool
member name f = record {
  name = name;
  fidelity = f;
  supports_remote_dns = true;
  probe = λ dest timing w. (outcome_open Bool no_phases proxy_reply, w);
  connect_again = λ dest timing w. (true, w);
}

abbrev two : List (Transport Bool Bool)
two = member (codes "a") full ∷ member (codes "b") open_only ∷ []

abbrev pair : PoolTransport Bool Bool
pair = record {
  pool_name = codes "pair";
  first = member (codes "a") full;
  others = member (codes "b") open_only ∷ [];
  weakest_fidelity = open_only;
}

pool_new-IsPool_example : IsPool Bool Bool two pair
unfolding pool_new weakest_of weakest
pool_new-IsPool_example = pool_new-IsPool Bool Bool (codes "pair") two pair refl
