-- ===== src/Transport/Socks5/Negotiation.antt =====
-- What `negotiate` of src/transport/socks5.rs sends to a hop, and what its failures may say.
use scanr.Common.{
  take, ℕ, ◌≤◌, ◌≡◌, refl, ap, ◌∙◌, ◌⊎◌, inl, inr, true, false, ◌||◌, Option, none, some, List, [],
  ◌∷◌, ◌++◌, append_assoc, length, get_or, ltb, ◌==◌, Bool-cases, arith,
}
use scanr.Common.Result.{Result, ok, err}
use scanr.Common.Text.{Text, codes}
use scanr.Common.Text.Utf8.{as_bytes}
use scanr.Diag.Pressure.{IoError}
use scanr.Probe.Outcome.{
  error, filtered, Source, timeout, proxy_reply, internal, Phases, ProbeOutcome, outcome_new,
}
use scanr.Transport.Wire.{Bytes, World, Io, now, read_exact, write_all}
use scanr.Transport.Wire.Effects.{read_exact-OnlyRead, write_all-ok, write_all-err, by_parts}
use scanr.Transport.Socks5.{version}
use scanr.Transport.Socks5.Handshake.{
  Hop, method_none, method_userpass, method_unacceptable, auth_version, greeting, credentials,
  pass_of, io_failure, refuse, check_status, authenticate, select_method, negotiate,
}

-- A failure that says nothing of the destination but, perhaps, that a wait was in vain.
abbrev pub IsFailure : {T : Type 0} → ProbeOutcome T → Type 0
IsFailure o = (o.state ≡ error) ⊎ ((o.state ≡ filtered) × (o.source ≡ timeout))

io_failure-IsFailure :
    (T : Type 0) (e : IoError) (what : Text) (phases : Phases)
    → IsFailure (io_failure T e what phases)
unfolding io_failure outcome_new
io_failure-IsFailure T e what phases = ground arith

-- The server's choice of a method, read behind the greeting.
abbrev pub Chose : Hop → Option ℕ → World → Bytes → Type 0
Chose hop deadline w resp =
    ((read_exact 2 deadline (write_all (greeting hop) w).1).0 ≡ ok resp)
    × (get_or resp 0 0 ≡ version)
    × (get_or resp 1 0 ≡ method_userpass)

-- What a handshake may send: the greeting, and behind it the credentials; the last message is cut short
-- where its write fails.
pub data Spoke (hop : Hop) (deadline : Option ℕ) (w : World) : List Bytes → Type 0 where
  cut_off : (n : ℕ) → Spoke hop deadline w (take n (greeting hop) ∷ [])
  greeted : Spoke hop deadline w (greeting hop ∷ [])
  presented :
      (user : Text) (resp given : Bytes)
      → hop.username ≡ some user
      → length (as_bytes user) ≤ 255
      → length (as_bytes (pass_of hop)) ≤ 255
      → Chose hop deadline w resp
      → ((given ≡ credentials user (pass_of hop))
          ⊎ ((n : ℕ) × (given ≡ take n (credentials user (pass_of hop)))))
      → Spoke hop deadline w (greeting hop ∷ given ∷ [])

abbrev pub Judged :
    {T : Type 0} → (ProbeOutcome T → Type 0) → Result (ProbeOutcome T) (Unit {0}) → Type 0
Judged J (ok _) = Unit
Judged J (err o) = J o

-- The messages are sent behind those of before, and a failure is judged so.
pub record Conduct (T : Type 0) (hop : Hop) (deadline : Option ℕ) (w : World)
    (J : ProbeOutcome T → Type 0) (r : Result (ProbeOutcome T) (Unit {0}) × World) : Type 0 where
  pub messages : List Bytes
  pub spoke : Spoke hop deadline w messages
  pub in_order : r.1.sent ≡ w.sent ++ messages
  pub judged : Judged J r.0

module _ (T : Type 0) (hop : Hop) (phases : Phases) (started : ℕ) (deadline : Option ℕ)
    (w : World) where
  -- What ends here, with these messages sent.
  ended :
      {messages : List Bytes} (w' : World) (r : Result (ProbeOutcome T) (Unit {0}))
      → Spoke hop deadline w messages
      → w'.sent ≡ w.sent ++ messages
      → Judged IsFailure r
      → Conduct T hop deadline w IsFailure (r, w')
  ended {messages} w' r s o j = record { messages = messages; spoke = s; in_order = o; judged = j }

  refuse-Conduct :
      {messages : List Bytes} (w' : World) (source : Source) (reason : Text)
      → Spoke hop deadline w messages
      → w'.sent ≡ w.sent ++ messages
      → Conduct T hop deadline w IsFailure (refuse T source reason phases started w')
  unfolding refuse now outcome_new
  refuse-Conduct w' source reason s o = ended _ _ s o (inl refl)

  check_status-Conduct :
      {messages : List Bytes} (user : Text) (resp : Bytes) (w' : World)
      → Spoke hop deadline w messages
      → w'.sent ≡ w.sent ++ messages
      → Conduct T hop deadline w IsFailure (check_status T user phases started resp w')
  unfolding check_status
  check_status-Conduct user resp w' s o = elim (Bool-cases (get_or resp 0 0 == auth_version)) [
    | inl h ↦ rw h (elim (Bool-cases (get_or resp 1 0 == 0)) [
      | inl i ↦ rw i (ended w' (ok tt) s o tt)
      | inr i ↦ rw i (refuse-Conduct w' proxy_reply _ s o)
    ])
    | inr h ↦ rw h (refuse-Conduct w' proxy_reply _ s o)
  ]

  authenticate-Conduct :
      (user : Text) (resp : Bytes) (w' : World)
      → hop.username ≡ some user
      → Chose hop deadline w resp
      → w'.sent ≡ w.sent ++ greeting hop ∷ []
      → Conduct T hop deadline w IsFailure
          (authenticate T user (pass_of hop) phases started deadline w')
  unfolding authenticate
  authenticate-Conduct user resp w' u c o =
      elim (Bool-cases
        (ltb 255 (length (as_bytes user)) || ltb 255 (length (as_bytes (pass_of hop))))) [
          | inl h ↦ rw h (refuse-Conduct w' internal _ greeted o)
          | inr h ↦ rw h (
              by_parts (Conduct T hop deadline w IsFailure) _ _ (write_all message w')
                (λ e f.
                  (let (n, cut) = write_all-err message w' f in
                    ended _ _ (spoken h (take n message) (inr (n, refl)))
                      (behind_greeting (take n message) cut) (io_failure-IsFailure T e _ phases)))
                (λ _ s.
                  by_parts (Conduct T hop deadline w IsFailure) _ _
                    (read_exact 2 deadline (write_all message w').1)
                    (λ e f.
                      ended _ _ (spoken h message (inl refl)) (both s)
                        (io_failure-IsFailure T e _ phases))
                    (λ status f.
                      check_status-Conduct user status _ (spoken h message (inl refl)) (both s))))
        ]
    where
      message : Bytes
      message = credentials user (pass_of hop)

      spoken :
          (ltb 255 (length (as_bytes user)) || ltb 255 (length (as_bytes (pass_of hop)))) ≡ false
          → (given : Bytes) → ((given ≡ message) ⊎ ((n : ℕ) × (given ≡ take n message)))
          → Spoke hop deadline w (greeting hop ∷ given ∷ [])
      spoken h given g = presented user resp given u (ground arith) (ground arith) c g

      behind_greeting :
          (given : Bytes) {sent : List Bytes}
          → sent ≡ w'.sent ++ given ∷ []
          → sent ≡ w.sent ++ greeting hop ∷ given ∷ []
      behind_greeting given s =
          s
          ∙ (ap (λ (ss : List Bytes). ss ++ given ∷ []) o
              ∙ append_assoc w.sent (greeting hop ∷ []) (given ∷ []))

      both :
          {u : Unit {0}}
          → (write_all message w').0 ≡ ok u
          → (read_exact 2 deadline (write_all message w').1).1.sent
            ≡ w.sent ++ greeting hop ∷ message ∷ []
      both s =
          (read_exact-OnlyRead 2 deadline (write_all message w').1).sent
          ∙ behind_greeting message (write_all-ok message w' s)

  select_method-Conduct :
      (resp : Bytes) (w' : World)
      → (read_exact 2 deadline (write_all (greeting hop) w).1).0 ≡ ok resp
      → w'.sent ≡ w.sent ++ greeting hop ∷ []
      → Conduct T hop deadline w IsFailure (select_method T hop phases started deadline resp w')
  unfolding select_method
  select_method-Conduct resp w' r o = elim (Bool-cases (get_or resp 0 0 == version)) [
    | inr h ↦ rw h (refuse-Conduct w' proxy_reply _ greeted o)
    | inl h ↦ rw h (elim (Bool-cases (get_or resp 1 0 == method_none)) [
      | inl i ↦ rw i (ended w' (ok tt) greeted o tt)
      | inr i ↦ rw i (elim (Bool-cases (get_or resp 1 0 == method_userpass)) [
        | inl j ↦ rw j (asked h j hop.username refl)
        | inr j ↦ rw j (elim (Bool-cases (get_or resp 1 0 == method_unacceptable)) [
          | inl k ↦ rw k (refuse-Conduct w' proxy_reply _ greeted o)
          | inr k ↦ rw k (refuse-Conduct w' proxy_reply _ greeted o)
        ])
      ])
    ])
  ]
    where
      asked :
          (get_or resp 0 0 == version) ≡ true
          → (get_or resp 1 0 == method_userpass) ≡ true
          → (u : Option Text) → hop.username ≡ u
          → Conduct T hop deadline w IsFailure (
              elim u as (λ _. Io (ProbeOutcome T) (Unit {0})) [
                | some user ↦ authenticate T user (pass_of hop) phases started deadline
                | none ↦
                    refuse T proxy_reply
                      (codes
                        "proxy requires username/password authentication but none is configured")
                      phases
                      started
              ]
                w')
      asked h j none u = refuse-Conduct w' proxy_reply _ greeted o
      asked h j (some user) u =
          authenticate-Conduct user resp w' u (r, ground arith, ground arith) o

  -- Whatever the hop answers and however the stream fails, a handshake sends what it may; its failures never say
  -- open or closed, and filtered only of a timeout.
  pub negotiate-Conduct :
      Conduct T hop deadline w IsFailure (negotiate T hop phases started deadline w)
  unfolding negotiate
  negotiate-Conduct =
      by_parts (Conduct T hop deadline w IsFailure) _ _ (write_all (greeting hop) w)
        (λ e f.
          (let (n, cut) = write_all-err (greeting hop) w f in
            ended _ _ (cut_off n) cut (io_failure-IsFailure T e _ phases)))
        (λ _ s.
          by_parts (Conduct T hop deadline w IsFailure) _ _
            (read_exact 2 deadline (write_all (greeting hop) w).1)
            (λ e f. ended _ _ greeted (behind s) (io_failure-IsFailure T e _ phases))
            (λ resp f. select_method-Conduct resp _ f (behind s)))
    where
      behind :
          {u : Unit {0}}
          → (write_all (greeting hop) w).0 ≡ ok u
          → (read_exact 2 deadline (write_all (greeting hop) w).1).1.sent
            ≡ w.sent ++ greeting hop ∷ []
      behind s =
          (read_exact-OnlyRead 2 deadline (write_all (greeting hop) w).1).sent
          ∙ write_all-ok (greeting hop) w s
