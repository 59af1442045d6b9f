-- ===== src/Transport/Wire/Chunks.antt =====
-- What `read_exact` of src/transport/mod.rs returns does not depend on how the peer's bytes are cut
-- into reads.
use scanr.Common.{
  ℕ, zero, suc, ◌-◌, ◌≤◌, ◌<◌, ◌≡◌, refl, ap, sym, ◌∙◌, inl, inr, true, false, Option, none, some,
  List, [], ◌∷◌, ◌++◌, append-nil, append_assoc, arith, take, drop, length, length-append, ltb, leb,
  Bool-cases, not-ltb, length-drop, drop-all, cut_inside, cut_behind, take-all,
}
use scanr.Common.Result.{Result, ok}
use scanr.Diag.Pressure.{IoError}
use scanr.Transport.Wire.{
  Bytes, Read, arrives, fails, World, is_late, is_interrupted, leftover, read_loop, read_exact,
}

-- Reads that bring these bytes and then go on as `after`: in pieces of any size, with interruptions
-- anywhere.
pub data Brings (after : List Read) : List Read → Bytes → Type 0 where
  done : Brings after after []
  piece :
      (b : ℕ) (bs rest : Bytes) {script : List Read}
      → Brings after script rest
      → Brings after (arrives (b ∷ bs) ∷ script) (b ∷ (bs ++ rest))
  again :
      {e : IoError} {script : List Read} {all : Bytes}
      → is_interrupted e.kind ≡ true
      → Brings after script all
      → Brings after (fails e ∷ script) all

-- With no deadline, or before it.
abbrev pub InTime : Option ℕ → World → Type 0
InTime none w = Unit
InTime (some d) w = (k : ℕ) → w.clock k < d

-- What a read gave and what it left: the value, and a stream that brings the `rest`.
pub record Took {A : Type 0} (after : List Read) (w : World) (a : A) (rest : Bytes)
    (r : Result IoError A × World) : Type 0 where
  pub value : r.0 ≡ ok a
  pub left : Brings after r.1.reads rest
  pub clock : r.1.clock ≡ w.clock
  pub writes : r.1.writes ≡ w.writes
  pub sent : r.1.sent ≡ w.sent

-- Looking at the clock in time changes nothing but the count of looks.
in_time : (d : Option ℕ) (w : World) → InTime d w → (is_late d w).0 ≡ false
unfolding is_late
in_time none w t = refl
in_time (some d) w t = ground (arith, t w.looks)

-- A look at the clock leaves the rest of the world alone.
Took-look :
    (d : Option ℕ) {after : List Read} {w : World} {front rest : Bytes}
    {r : Result IoError Bytes × World}
    → Took after (is_late d w).1 front rest r
    → Took after w front rest r
unfolding is_late
Took-look none k = k
Took-look (some d) k = record {
  value = k.value;
  left = k.left;
  clock = k.clock;
  writes = k.writes;
  sent = k.sent;
}

InTime-look : (d : Option ℕ) (w : World) → InTime d w → InTime d (is_late d w).1
unfolding is_late
InTime-look none w t = t
InTime-look (some d) w t = t

-- The bytes that did not fit are brought by the next read.
leftover-Brings :
    (after rest : List Read) (room : ℕ) (bs all : Bytes)
    → Brings after rest all
    → Brings after (leftover room bs rest) (drop room bs ++ all)
unfolding leftover
leftover-Brings after rest room bs all b = elim (Bool-cases (ltb room (length bs))) [
  | inl h ↦ rw h (behind (drop room bs) (ground (arith, length-drop room bs)))
  | inr h ↦ rw (h, drop-all room bs (not-ltb _ _ h)) b
]
  where
    behind : (front : Bytes) → 0 < length front → Brings after (arrives front ∷ rest) (front ++ all)
    behind [] l = absurd (omega arith)
    behind (c ∷ front) l = piece c front all b

module _ (after : List Read) (d : Option ℕ) where
  Took-full :
      (script : List Read) (all filled : Bytes) (w : World)
      → Brings after script all
      → Took after w (filled ++ []) all (ok filled, record w { reads = script })
  Took-full script all filled w b = record {
    value = ap ok (sym (append-nil filled));
    left = b;
    clock = refl;
    writes = refl;
    sent = refl;
  }

  -- All of the missing bytes are in the piece.
  piece_enough :
      (b : ℕ) (bs rest : Bytes) (script : List Read) (room : ℕ) (filled : Bytes) (w : World)
      → Brings after script rest
      → room ≤ length bs
      → Took after w
          (filled ++ take (suc room) (b ∷ (bs ++ rest)))
          (drop (suc room) (b ∷ (bs ++ rest)))
          (
            ok (filled ++ take (suc room) (b ∷ bs)),
            record w { reads = leftover (suc room) (b ∷ bs) script },
          )
  piece_enough b bs rest script room filled w s l =
      let (t, dr) = cut_inside room bs rest l in
      record {
        value = rw t;
        left = rw dr (leftover-Brings after script (suc room) (b ∷ bs) rest s);
        clock = refl;
        writes = refl;
        sent = refl;
      }

  -- Some of the missing bytes are behind the piece.
  piece_short :
      (b : ℕ) (bs rest : Bytes) (room : ℕ) (filled : Bytes) {w : World}
      {r : Result IoError Bytes × World}
      → length bs < room
      → Took after w
          ((filled ++ b ∷ bs) ++ take (suc room - suc (length bs)) rest)
          (drop (suc room - suc (length bs)) rest)
          r
      → Took after w
          (filled ++ take (suc room) (b ∷ (bs ++ rest)))
          (drop (suc room) (b ∷ (bs ++ rest)))
          r
  piece_short b bs rest room filled l k =
      let (t, dr) = cut_behind (suc room) (b ∷ bs) rest (omega arith) in
      rw (t, dr, ← append_assoc filled (b ∷ bs) (take (suc room - suc (length bs)) rest)) k

  read_loop-Took :
      {script : List Read} {all : Bytes} (s : Brings after script all) (room : ℕ) (filled : Bytes)
      (w : World)
      → InTime d w
      → room ≤ length all
      → Took after w (filled ++ take room all) (drop room all) (read_loop script d room filled w)
  unfolding read_loop
  read_loop-Took done zero filled w t l = Took-full after [] filled w done
  read_loop-Took done (suc room) filled w t l = absurd (omega arith)
  read_loop-Took (piece b bs rest s) zero filled w t l =
      Took-full _ (b ∷ (bs ++ rest)) filled w (piece b bs rest s)
  read_loop-Took (piece b bs rest {script} s) (suc room) filled w t l = rw (in_time d w t) (
      Took-look d (elim (Bool-cases (leb (suc room) (suc (length bs)))) [
        | inl h ↦ rw h (piece_enough b bs rest script room filled _ s (ground arith))
        | inr h ↦ rw h (
            piece_short b bs rest room filled (ground arith) (
              read_loop-Took s (suc room - suc (length bs)) (filled ++ b ∷ bs) (is_late d w).1
                (InTime-look d w t) (ground (arith, length-append bs rest))))
      ]))
  read_loop-Took (again {all} i s) zero filled w t l = Took-full _ all filled w (again i s)
  read_loop-Took (again i s) (suc room) filled w t l =
      rw (in_time d w t, i)
        (Took-look d (read_loop-Took s (suc room) filled (is_late d w).1 (InTime-look d w t) l))

-- However the peer's bytes are cut into reads, and wherever a read is interrupted: a read of as many
-- bytes as `front` has, in time, returns `front`, and the reads that are left bring the `rest`.
pub read_exact-Took :
    (after : List Read) (deadline : Option ℕ) (w : World) (front rest : Bytes)
    → Brings after w.reads (front ++ rest)
    → InTime deadline w
    → Took after w front rest (read_exact (length front) deadline w)
unfolding read_exact
read_exact-Took after deadline w front rest b t =
    let (whole, behind) = cut_inside (length front) front rest (omega arith) in
    let k =
      read_loop-Took after deadline b (length front) [] w t
        (omega (arith, length-append front rest)) in
    let front_is : take (length front) (front ++ rest) ≡ front = whole ∙ take-all front in
    let rest_is : drop (length front) (front ++ rest) ≡ rest =
      behind ∙ ap (λ (t : Bytes). t ++ rest) (drop-all (length front) front (omega arith)) in
    rw (front_is, rest_is) at k
