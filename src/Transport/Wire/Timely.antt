-- ===== src/Transport/Wire/Timely.antt =====
-- The deadline of `read_exact` of src/transport/mod.rs: a peer that trickles cannot hold a read beyond it.
use scanr.Common.{
  In, true, ℕ, zero, suc, ◌+◌, ◌-◌, ◌≤◌, ◌<◌, ◌≡◌, refl, ap, ◌⊎◌, inl, inr, false, some, List, [],
  ◌∷◌, ◌++◌, arith, take, length, length-append, length-take, ltb, leb, Bool-cases,
}
use scanr.Common.Result.{Result, ok, err}
use scanr.Common.Text.{is_empty}
use scanr.Diag.Pressure.{IoError}
use scanr.Transport.Wire.{
  Bytes, Read, arrives, fails, World, is_late, incomplete, closed_early, is_interrupted, leftover,
  read_loop, read_exact,
}

-- Why a read failed: the deadline had passed at its last look, the peer had closed, or the stream
-- failed with this error.
abbrev pub HasCause : List Read → ℕ → World → IoError → World → Type 0
HasCause script d w e w' =
    (d ≤ w.clock (w'.looks - 1))
    ⊎ (((e ≡ closed_early) × ((w'.reads ≡ []) ⊎ In (arrives []) script)) ⊎ In (fails e) script)

-- What a read of `count` bytes did, of which `missing` were not there yet, with at most `rounds` looks at the
-- clock before the deadline `d` passes.
pub record IsTimely (script : List Read) (missing count rounds d : ℕ) (w : World)
    (r : Result IoError Bytes × World) : Type 0 where
  pub reads : length script ≤ length r.1.reads + rounds
  pub looks : r.1.looks ≤ w.looks + suc rounds
  pub at_last : r.1.looks ≡ w.looks + suc rounds → r.0 ≡ err incomplete
  pub whole : (bs : Bytes) → r.0 ≡ ok bs → length bs ≡ count
  pub begun : (bs : Bytes) → r.0 ≡ ok bs → 0 < missing → w.clock (r.1.looks - 1) < d
  pub cause : (e : IoError) → r.0 ≡ err e → HasCause script d w e r.1

-- The deadline has passed by the look that follows this many others.
abbrev pub PassesBy : ℕ → ℕ → World → Type 0
PassesBy d rounds w = (look : ℕ) → w.looks + rounds ≤ look → d ≤ w.clock look

-- An error after one look, which is the last only when it tells of the deadline.
failed-IsTimely :
    (script rest : List Read) (missing count rounds d : ℕ) (w : World) (e : IoError)
    → length script ≤ length rest + rounds
    → ((e ≡ incomplete) ⊎ (1 ≤ rounds))
    → HasCause script d w e (record w { looks = w.looks + 1; reads = rest })
    → IsTimely script missing count rounds d w
        (err e, record w { looks = w.looks + 1; reads = rest })
failed-IsTimely script rest missing count rounds d w e l o c = record {
  reads = l;
  looks = omega arith;
  at_last = λ h. elim o [ inl same ↦ ap err same | inr more ↦ absurd (omega (arith, more, h)) ];
  whole = λ bs h. absurd cc;
  begun = λ bs h. absurd cc;
  cause = λ e' h. (let same : e ≡ e' = cc in rw (← same) c);
}

-- The deadline has passed at this look.
passed : (d : ℕ) (w : World) → leb d (w.clock w.looks) ≡ true → d ≤ w.clock (w.looks + 1 - 1)
passed d w h = let here : w.looks + 1 - 1 ≡ w.looks = omega arith in rw here (ground (arith, h))

is_empty_nil : (bs : Bytes) → is_empty bs ≡ true → arrives [] ≡ arrives bs
is_empty_nil [] h = refl
is_empty_nil (b ∷ bs) h = absurd cc

-- A round in time, and those behind it.
later-IsTimely :
    (r0 : Read) (script : List Read) (missing missing' count rounds d : ℕ) (w : World)
    (r : Result IoError Bytes × World)
    → 0 < missing'
    → IsTimely script missing' count rounds d (record w { looks = w.looks + 1 }) r
    → IsTimely (r0 ∷ script) missing count (suc rounds) d w r
later-IsTimely r0 script missing missing' count rounds d w r l h = record {
  reads = omega (arith, h.reads);
  looks = omega (arith, h.looks);
  at_last = λ e. h.at_last (omega (arith, e));
  whole = h.whole;
  begun = λ bs e m. h.begun bs e l;
  cause = λ e q. elim (h.cause e q) [
    | inl late ↦ inl late
    | inr rest ↦ elim rest [
      | inl closed ↦ elim closed.1 [
        | inl ended ↦ inr (inl (closed.0, inl ended))
        | inr m ↦ inr (inl (closed.0, inr (inr m)))
      ]
      | inr m ↦ inr (inr (inr m))
    ]
  ];
}

leftover-length :
    (room : ℕ) (bs : Bytes) (rest : List Read) → length rest ≤ length (leftover room bs rest)
unfolding leftover
leftover-length room bs rest = elim (Bool-cases (ltb room (length bs))) [
  | inl h ↦ rw h (omega arith)
  | inr h ↦ rw h (omega arith)
]

-- The deadline has not passed at this look, so there was a round left.
round_left :
    (d rounds : ℕ) (w : World)
    → leb d (w.clock w.looks) ≡ false
    → PassesBy d rounds w
    → (rounds' : ℕ) × (rounds ≡ suc rounds')
round_left d zero w h p = let passed = p w.looks (omega arith) in absurd (ground (arith, h, passed))
round_left d (suc rounds) w h p = (rounds, refl)

filled-IsTimely :
    (script : List Read) (bs filled : Bytes) (room rounds d : ℕ) (w : World)
    → leb d (w.clock w.looks) ≡ false
    → suc room ≤ length bs
    → IsTimely (arrives bs ∷ script) (suc room) (length filled + suc room) (suc rounds) d w (
      ok (filled ++ take (suc room) bs),
      record w { looks = w.looks + 1; reads = leftover (suc room) bs script },
    )
filled-IsTimely script bs filled room rounds d w h l = record {
  reads = omega (arith, leftover-length (suc room) bs script);
  looks = omega arith;
  at_last = λ e. absurd (omega (arith, e));
  whole = λ cs e.
      (let same : filled ++ take (suc room) bs ≡ cs = cc in
        rw (← same)
          (omega (arith, length-append filled (take (suc room) bs), length-take (suc room) bs, l)));
  begun =
      λ cs e m. (let here : w.looks + 1 - 1 ≡ w.looks = omega arith in rw here (ground (arith, h)));
  cause = λ e h. absurd cc;
}

read_loop-IsTimely :
    (script : List Read) (room : ℕ) (filled : Bytes) (rounds d : ℕ) (w : World)
    → PassesBy d rounds w
    → IsTimely script room
        (length filled + room)
        rounds
        d
        w
        (read_loop script (some d) room filled w)
unfolding read_loop is_late
read_loop-IsTimely script zero filled rounds d w p = record {
  reads = omega arith;
  looks = omega arith;
  at_last = λ e. absurd (omega (arith, e));
  whole = λ bs e. (let same : filled ≡ bs = cc in rw same (omega arith));
  begun = λ bs e m. absurd (omega (arith, m));
  cause = λ e h. absurd cc;
}
read_loop-IsTimely [] (suc room) filled rounds d w p = elim (Bool-cases (leb d (w.clock w.looks))) [
  | inl h ↦ rw h (
      failed-IsTimely [] [] _ _ rounds d w incomplete (omega arith) (inl refl) (inl (passed d w h)))
  | inr h ↦
      (let (_, more) = round_left d rounds w h p in
        rw h (
          failed-IsTimely [] [] _ _ rounds d w closed_early (omega arith)
            (inr (omega (arith, more))) (inr (inl (refl, inl refl)))))
]
read_loop-IsTimely (arrives bs ∷ rest) (suc room) filled rounds d w p =
    elim (Bool-cases (leb d (w.clock w.looks))) [
      | inl h ↦ rw h (
          failed-IsTimely (arrives bs ∷ rest) (arrives bs ∷ rest) _ _ rounds d w incomplete
            (omega arith) (inl refl) (inl (passed d w h)))
      | inr h ↦
          (let (others, more) = round_left d rounds w h p in
            rw h (elim (Bool-cases (is_empty bs)) [
              | inl i ↦ rw i (
                  failed-IsTimely (arrives bs ∷ rest) rest _ _ rounds d w closed_early
                    (omega (arith, more)) (inr (omega (arith, more)))
                    (inr (inl (refl, inr (inl (is_empty_nil bs i))))))
              | inr i ↦ rw i (elim (Bool-cases (leb (suc room) (length bs))) [
                | inl j ↦
                    rw (j, more)
                      (filled-IsTimely rest bs filled room others d w h (ground (arith, j)))
                | inr j ↦
                    (let missing = suc room - length bs in
                      let short : length bs < suc room = ground (arith, j) in
                      let all : length (filled ++ bs) + missing ≡ length filled + suc room =
                        omega (arith, length-append filled bs, short) in
                      let next =
                        read_loop-IsTimely rest missing (filled ++ bs) others d
                          (record w { looks = w.looks + 1 })
                          (λ look l. p look (omega (arith, more, l))) in
                      let counted = rw all at next in
                      rw (j, more)
                        (later-IsTimely (arrives bs) rest (suc room) missing _ others d w _
                          (omega (arith, short)) counted))
              ])
            ]))
    ]
read_loop-IsTimely (fails e ∷ rest) (suc room) filled rounds d w p =
    elim (Bool-cases (leb d (w.clock w.looks))) [
      | inl h ↦ rw h (
          failed-IsTimely (fails e ∷ rest) (fails e ∷ rest) _ _ rounds d w incomplete (omega arith)
            (inl refl) (inl (passed d w h)))
      | inr h ↦
          (let (others, more) = round_left d rounds w h p in
            rw h (elim (Bool-cases (is_interrupted e.kind)) [
              | inl i ↦
                  (let next =
                      read_loop-IsTimely rest (suc room) filled others d
                        (record w { looks = w.looks + 1 })
                        (λ look l. p look (omega (arith, more, l))) in
                    rw (i, more)
                      (later-IsTimely (fails e) rest (suc room) (suc room) _ others d w _
                        (omega arith) next))
              | inr i ↦ rw i (
                  failed-IsTimely (fails e ∷ rest) rest _ _ rounds d w e (omega (arith, more))
                    (inr (omega (arith, more))) (inr (inr (inl refl))))
            ]))
    ]

-- Whatever the stream does, when the deadline passes by the look at the clock that follows `rounds` others: a
-- read makes at most `rounds` reads and one look more, and fails for the time if it takes all of these looks;
-- when it succeeds it has all of the bytes it was asked for, and its last read, if it made one, began before
-- the deadline; and when it fails, the deadline had passed at its last look, the peer had closed, or the
-- stream failed with just this error.
pub read_exact-IsTimely :
    (count rounds d : ℕ) (w : World)
    → PassesBy d rounds w
    → IsTimely w.reads count count rounds d w (read_exact count (some d) w)
unfolding read_exact
read_exact-IsTimely count rounds d w p =
    let none_yet : 0 + count ≡ count = omega arith in
    let h = read_loop-IsTimely w.reads count [] rounds d w p in (rw none_yet at h)
