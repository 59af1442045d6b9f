-- ===== src/Transport/Pool/Delegation.antt =====
-- A pool of src/transport/pool.rs answers by one of its members, and promises what all of them can do.
use scanr.Common.{
  ◌⊎◌, ℕ, zero, suc, ◌<◌, ◌≡◌, refl, inl, inr, true, Option, none, some, List, [], ◌∷◌, All, In,
  get_or, length, arith,
}
use scanr.Common.Text.{Text}
use scanr.Plan.Types.{Fidelity, full, open_only, unknown, weakest, Timing}
use scanr.Probe.Outcome.{ProbeOutcome}
use scanr.Transport.Wire.{World}
use scanr.Transport.Destination.{Destination}
use scanr.Transport.Pool.{
  Transport, PoolTransport, pool_new, members, pick, picked, name_member, pool_probe, weakest_of,
  all_remote_dns, as_transport,
}
use native.Mathlib.Nat.{mod-lt}

In-get_or : {A : Type 0} (xs : List A) (i : ℕ) (d : A) → i < length xs → In (get_or xs i d) xs
In-get_or [] i d h = absurd (omega arith)
In-get_or (x ∷ xs) zero d h = inl refl
In-get_or (x ∷ xs) (suc i) d h = inr (In-get_or xs i d (omega arith))

-- What a fidelity promises at least: `weakest` is the greatest that promises no more than both.
abbrev pub AtMost : Fidelity → Fidelity → Type 0
AtMost unknown g = Unit
AtMost open_only g = ¬ (g ≡ unknown)
AtMost full g = g ≡ full

AtMost-weakest : (f g : Fidelity) → AtMost (weakest f g) f × AtMost (weakest f g) g
unfolding weakest
AtMost-weakest unknown g = (tt, tt)
AtMost-weakest full unknown = (tt, tt)
AtMost-weakest open_only unknown = (tt, tt)
AtMost-weakest open_only full = (λ e. cc, λ e. cc)
AtMost-weakest open_only open_only = (λ e. cc, λ e. cc)
AtMost-weakest full open_only = (λ e. cc, λ e. cc)
AtMost-weakest full full = (refl, refl)

AtMost-trans : (f g h : Fidelity) → AtMost f g → AtMost g h → AtMost f h
AtMost-trans unknown g h a b = tt
AtMost-trans open_only unknown h a b = absurd (a refl)
AtMost-trans open_only open_only h a b = b
AtMost-trans open_only full h a b = λ e. cc
AtMost-trans full unknown h a b = absurd cc
AtMost-trans full open_only h a b = absurd cc
AtMost-trans full full h a b = b

module _ (T P : Type 0) where
  weakest_of-AtMost :
      (f : Fidelity) (ms : List (Transport T P))
      → AtMost (weakest_of T P f ms) f
        × All (λ (m : Transport T P). AtMost (weakest_of T P f ms) m.fidelity) ms
  unfolding weakest_of
  weakest_of-AtMost f [] = (itself f, tt)
    where
      itself : (g : Fidelity) → AtMost g g
      itself unknown = tt
      itself open_only = λ e. cc
      itself full = refl
  weakest_of-AtMost f (m ∷ ms) =
      let (a, b) = weakest_of-AtMost (weakest f m.fidelity) ms in
      let (c, d) = AtMost-weakest f m.fidelity in
      (
        AtMost-trans _ (weakest f m.fidelity) f a c,
        (AtMost-trans _ (weakest f m.fidelity) m.fidelity a d, b),
      )

  remote_dns-All :
      (ms : List (Transport T P))
      → all_remote_dns T P ms ≡ true
      → All (λ (m : Transport T P). m.supports_remote_dns ≡ true) ms
  remote_dns-All [] h = tt
  remote_dns-All (m ∷ ms) h = (ground arith, remote_dns-All ms (ground arith))

  -- The outcome of a member as it is, if it names a deeper one, and else with the member's name in it.
  abbrev pub Named : Text → ProbeOutcome T → ProbeOutcome T → Type 0
  Named label o o' =
      ((inner : Text) × (o.via ≡ some inner) × (o' ≡ o))
      ⊎ ((o.via ≡ none) × (o' ≡ record o { via = some label }))

  pub record Delegates (ms : List (Transport T P)) (dest : Destination) (timing : Timing P)
      (w : World) (r : ProbeOutcome T × World) : Type 0 where
    pub member : Transport T P
    pub among : In member ms
    pub outcome : Named member.name (member.probe dest timing w).0 r.0
    pub world : r.1 ≡ (member.probe dest timing w).1

  name_member-Named :
      (via : Option Text) (label : Text) (o : ProbeOutcome T)
      → o.via ≡ via
      → Named label o (name_member via label o)
  name_member-Named none label o h = inr (h, refl)
  name_member-Named (some inner) label o h = inl (inner, h, refl)

  -- What a pool of these members promises as a transport.
  pub record IsPool (ms : List (Transport T P)) (pool : PoolTransport T P) : Type 0 where
    pub delegates :
        (dest : Destination) (timing : Timing P) (w : World)
        → Delegates ms dest timing w ((as_transport T P pool).probe dest timing w)
    pub no_more : All (λ (m : Transport T P). AtMost (as_transport T P pool).fidelity m.fidelity) ms
    pub all_remote :
        (as_transport T P pool).supports_remote_dns ≡ true
        → All (λ (m : Transport T P). m.supports_remote_dns ≡ true) ms

  pool_probe-Delegates :
      (pool : PoolTransport T P) (dest : Destination) (timing : Timing P) (w : World)
      → Delegates (members T P pool) dest timing w (pool_probe T P pool dest timing w)
  unfolding pool_probe pick
  pool_probe-Delegates pool dest timing w = record {
    member = picked T P pool dest;
    among = In-get_or (members T P pool) (pick T P pool dest) pool.first (mod-lt _ (omega arith));
    outcome =
        name_member-Named ((picked T P pool dest).probe dest timing w).0.via
          (picked T P pool dest).name ((picked T P pool dest).probe dest timing w).0 refl;
    world = refl;
  }

  -- A pool of any members, as a transport: a probe is the probe of one of its members, whose outcome it
  -- returns as it is when that names a deeper member, and else with the name of the member set; its fidelity is at
  -- most each member's; and it resolves names remotely only if all of its members do.
  pub pool_new-IsPool :
      (name : Text) (ms : List (Transport T P)) (pool : PoolTransport T P)
      → pool_new T P name ms ≡ some pool
      → IsPool ms pool
  unfolding pool_new as_transport
  pool_new-IsPool name [] pool h = absurd cc
  pool_new-IsPool name (m ∷ ms) pool h =
      let built : PoolTransport T P = record {
        pool_name = name;
        first = m;
        others = ms;
        weakest_fidelity = weakest_of T P full (m ∷ ms);
      } in
      let promised : IsPool (m ∷ ms) built = record {
        delegates = pool_probe-Delegates built;
        no_more = (weakest_of-AtMost full (m ∷ ms)).1;
        all_remote = remote_dns-All (m ∷ ms);
      } in
      let same : built ≡ pool = cc in rw same at promised
