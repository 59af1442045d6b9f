-- ===== src/Transport/Path/Verdict.antt =====
-- What a probe through a path of proxies may say: the exit hop's reply alone gives a verdict, and a
-- path that was not built is an error about the path.
use scanr.Common.{
  ℕ, suc, ◌≡◌, refl, ◌⊎◌, inl, inr, Bool, true, false, Option, none, some, List, [], ◌∷◌, length,
  Bool-cases, arith,
}
use scanr.Common.Result.{Result, ok, err}
use scanr.Common.Text.{Text}
use scanr.Diag.Pressure.{IoError}
use scanr.Plan.Types.{HopKind, socks5, http, Timing}
use scanr.Probe.Outcome.{
  Source, error, filtered, timeout, Phases, ProbeOutcome, outcome_new, under_pressure,
}
use scanr.Transport.Wire.{Io, now}
use scanr.Transport.Wire.Yields.{Holds, Yields, Yields-bind, Anything, map_err-Yields}
use scanr.Transport.Destination.{Destination, Reply, socks5_reply, http_reply}
use scanr.Transport.Http.Block as Http
use scanr.Transport.Socks5.Reply as Socks5
use scanr.Transport.Socks5.Handshake.{
  Hop, is_timeout_kind, is_eof, io_failure, proxy_unreachable, refuse, negotiate,
}
use scanr.Transport.Path.{
  Os, ProxyTransport, Established, Answer, socks5_answer, http_answer, set_timeouts, blame_hop,
  blame_stream,
}
use scanr.Transport.Path.Walk.{
  tunnel_said, tunnel_asked, open_tunnel, greet, walk_hops, judge, final_asked, final_connect,
  over_path, first_reached,
}

module _ {T : Type 0} where
  abbrev pub IsError : ProbeOutcome T → Type 0
  IsError o = o.state ≡ error

  -- An error, or a wait that was in vain behind a path that had been built.
  abbrev pub IsFault : ProbeOutcome T → Type 0
  IsFault o =
      (o.state ≡ error)
      ⊎ ((o.state ≡ filtered)
          × (o.source ≡ timeout)
          × ((built : ℕ) × (o.phases.handshake ≡ some built)))

  -- The verdict that a reply carries.
  abbrev pub IsReplied : Reply → ProbeOutcome T → Type 0
  IsReplied (socks5_reply code) o = Socks5.IsVerdict T code o
  IsReplied (http_reply status) o = Http.IsVerdict T status o

  abbrev pub IsGrounded : Option Reply → ProbeOutcome T → Type 0
  IsGrounded none o = IsFault o
  IsGrounded (some r) o = IsReplied r o

-- An answer of the exit hop, with its verdict.
abbrev pub AnswersFor : {T : Type 0} → Established T → Type 0
AnswersFor e = IsReplied e.reply e.outcome

io_failure-IsFault :
    (T : Type 0) (e : IoError) (what : Text) (phases : Phases) (built : ℕ)
    → phases.handshake ≡ some built
    → IsFault (io_failure T e what phases)
unfolding io_failure outcome_new
io_failure-IsFault T e what phases built h = elim (Bool-cases (is_timeout_kind e.kind)) [
  | inl i ↦ rw i (inr (refl, refl, (built, h)))
  | inr i ↦
      rw i (elim (Bool-cases (is_eof e.kind)) [ inl j ↦ rw j (inl refl) | inr j ↦ rw j (inl refl) ])
]

proxy_unreachable-IsError :
    (T : Type 0) (shown : Text) (e : IoError) (phases : Phases)
    → IsError (proxy_unreachable T shown e phases)
unfolding proxy_unreachable outcome_new under_pressure
proxy_unreachable-IsError T shown e phases = ground arith

module _ (os : Os) (T P : Type 0) (timing : Timing P) where
  refuse-IsError :
      (source : Source) (reason : Text) (phases : Phases) (started : ℕ)
      → Yields IsError Anything (refuse T source reason phases started)
  unfolding refuse now outcome_new
  refuse-IsError source reason phases started w = refl

  blame_stream-IsError :
      (count from : ℕ) (hop : Hop) (what : Text) (phases : Phases) (started : ℕ) (e : IoError)
      → Yields IsError Anything (blame_stream os T count from hop what phases started e)
  unfolding blame_stream blame_hop now outcome_new
  blame_stream-IsError count from hop what phases started e w = refl

  set_timeouts-IsError : (d : ℕ) → Yields IsError Anything (set_timeouts os T d)
  unfolding set_timeouts outcome_new
  set_timeouts-IsError d = map_err-Yields IsError _ _ (λ e. refl)

  tunnel_said-IsError :
      (count from : ℕ) (hop next : Hop) (phases : Phases) (started : ℕ)
      (answer : Result IoError (Bool × Text))
      → Yields IsError Anything
          (tunnel_said os T P timing count from hop next phases started answer)
  unfolding tunnel_said
  tunnel_said-IsError count from hop next phases started (ok (true, said)) w = tt
  tunnel_said-IsError count from hop next phases started (ok (false, said)) w =
      refuse-IsError _ _ phases started w
  tunnel_said-IsError count from hop next phases started (err e) w =
      blame_stream-IsError count from hop _ phases started e w

  tunnel_asked-IsError :
      (count from : ℕ) (hop next : Hop) (phases : Phases) (started : ℕ)
      (r : Result IoError (Unit {0}))
      → Yields IsError Anything (tunnel_asked os T P timing count from hop next phases started r)
  unfolding tunnel_asked now
  tunnel_asked-IsError count from hop next phases started (ok _) w =
      tunnel_said-IsError count from hop next phases started _ _
  tunnel_asked-IsError count from hop next phases started (err e) w =
      blame_stream-IsError count from hop _ phases started e w

  greet-IsError :
      (count i : ℕ) (hop : Hop) (kind : HopKind) (phases : Phases) (started : ℕ)
      → Yields IsError Anything (greet os T P timing count i hop kind phases started)
  unfolding greet now blame_hop outcome_new
  greet-IsError count i hop socks5 phases started w =
      map_err-Yields IsError (blame_hop os T count i hop) (negotiate T hop phases started _)
        (λ o. refl) _
  greet-IsError count i hop http phases started w = tt

  open_tunnel-IsError :
      (count from : ℕ) (hop next : Hop) (phases : Phases) (started : ℕ)
      → Yields IsError Anything (open_tunnel os T P timing count from hop next phases started)
  unfolding open_tunnel
  open_tunnel-IsError count from hop next phases started w =
      tunnel_asked-IsError count from hop next phases started _ _

  -- A path that is not built is an error about the path.
  walk_hops-IsError :
      (count i : ℕ) (hop : Hop) (others : List Hop) (phases : Phases) (started : ℕ)
      → Yields IsError Anything (walk_hops os T P timing count i hop others phases started)
  unfolding walk_hops
  walk_hops-IsError count i hop [] phases started =
      Yields-bind IsError Anything Anything _ _ (set_timeouts-IsError timing.handshake_timeout)
        (λ _ _.
          Yields-bind IsError Anything Anything _ _
            (greet-IsError count i hop hop.kind phases started) (λ _ _ w. tt))
  walk_hops-IsError count i hop (next ∷ more) phases started =
      Yields-bind IsError Anything Anything _ _ (set_timeouts-IsError timing.handshake_timeout)
        (λ _ _.
          Yields-bind IsError Anything Anything _ _
            (greet-IsError count i hop hop.kind phases started)
            (λ _ _.
              Yields-bind IsError Anything Anything _ _
                (set_timeouts-IsError timing.connect_timeout)
                (λ _ _.
                  Yields-bind IsError Anything Anything _ _
                    (open_tunnel-IsError count i hop next phases started)
                    (λ _ _. walk_hops-IsError count (suc i) next more phases started))))

  judge-Yields :
      (exit : Hop) (phases : Phases) (elapsed built : ℕ) (answer : Result IoError Answer)
      → phases.handshake ≡ some built
      → Yields IsFault AnswersFor (judge os T P timing exit phases elapsed answer)
  unfolding judge
  judge-Yields exit phases elapsed built (ok (socks5_answer code)) h w =
      Socks5.classify_reply-IsVerdict T code phases
  judge-Yields exit phases elapsed built (ok (http_answer r)) h w =
      Http.classify-IsVerdict T r _ phases
  judge-Yields exit phases elapsed built (err e) h w = io_failure-IsFault T e _ phases built h

  final_asked-Yields :
      (exit : Hop) (phases : Phases) (started begun built : ℕ) (r : Result IoError (Unit {0}))
      → phases.handshake ≡ some built
      → Yields IsFault AnswersFor (final_asked os T P timing exit phases started begun r)
  unfolding final_asked now
  final_asked-Yields exit phases started begun built (ok _) h w =
      judge-Yields exit (record phases { connect = some _; total = _ }) _ built _ h _
  final_asked-Yields exit phases started begun built (err e) h w =
      io_failure-IsFault T e _ _ built h

  error-Fault :
      {A : Type 0} (Q : A → Type 0) (m : Io (ProbeOutcome T) A)
      → Yields IsError Q m
      → Yields IsFault Q m
  error-Fault Q m y w = weaken Q (m w).0 (y w)
    where
      weaken :
          {A : Type 0} (Q : A → Type 0) (r : Result (ProbeOutcome T) A)
          → Holds IsError Q r
          → Holds IsFault Q r
      weaken Q (ok a) h = h
      weaken Q (err o) h = inl h

  final_connect-Yields :
      (dest : Destination) (exit : Hop) (phases : Phases) (started built : ℕ)
      → phases.handshake ≡ some built
      → Yields IsFault AnswersFor (final_connect os T P timing dest exit phases started)
  unfolding final_connect now
  final_connect-Yields dest exit phases started built h =
      Yields-bind IsFault Anything AnswersFor _ _
        (error-Fault Anything (set_timeouts os T timing.connect_timeout)
          (set_timeouts-IsError timing.connect_timeout))
        (λ _ _ w. final_asked-Yields exit phases started _ built _ h _)

  over_path-Yields :
      (p : ProxyTransport) (dest : Destination) (phases : Phases) (started begun : ℕ)
      → Yields IsFault AnswersFor (over_path os T P timing p dest phases started begun)
  unfolding over_path now
  over_path-Yields p dest phases started begun =
      Yields-bind IsFault Anything AnswersFor _ _
        (error-Fault Anything
          (walk_hops os T P timing (suc (length p.others)) 0 p.first p.others phases started)
          (walk_hops-IsError (suc (length p.others)) 0 p.first p.others phases started))
        (λ exit _ w.
          final_connect-Yields dest exit (record phases { handshake = some _ }) started _ refl _)

  pub first_reached-Yields :
      (p : ProxyTransport) (dest : Destination) (started : ℕ) (r : Result IoError (Unit {0}))
      → Yields IsFault AnswersFor (first_reached os T P timing p dest started r)
  unfolding first_reached now
  first_reached-Yields p dest started (ok _) w = over_path-Yields p dest _ started _ _
  first_reached-Yields p dest started (err e) w = inl (proxy_unreachable-IsError T _ e _)
