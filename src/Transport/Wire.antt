-- ===== src/Transport/Wire.antt =====
-- The stream to a peer and the clock, as src/transport/mod.rs uses them. What the peer and the
-- operating system do is a script: the results of the coming `read` calls and `write_all` calls,
-- and the reading of the clock at each look at it. A script that has run out reads as a closed
-- connection and takes every write.
pub mod Chunks
pub mod Timely
pub mod Sequence
pub mod Effects
pub mod Yields
use scanr.Common.{
  ℕ, zero, suc, ◌+◌, ◌-◌, Bool, true, false, Option, none, some, List, [], ◌∷◌, ◌++◌, take, drop,
  length, ltb, leb, if◌then◌else◌,
}
use scanr.Common.Result.{Result, ok, err}
use scanr.Common.Text.{Text, codes, is_empty}
use scanr.Diag.Pressure.{ErrorKind, timed_out, unexpected_eof, interrupted, IoError}

abbrev pub Bytes : Type 0
Bytes = List ℕ

-- one `read` call: bytes that are there, or an error
pub data Read : Type 0 where
  arrives : Bytes → Read
  fails : IoError → Read

pub record World : Type 0 where
  pub reads : List Read
  pub writes : List (Option (ℕ × IoError))
  pub sent : List Bytes
  pub clock : ℕ → ℕ
  pub looks : ℕ

-- A fallible action on the stream.
abbrev pub Io : Type 0 → Type 0 → Type 0
Io E A = World → Result E A × World

abbrev pub then_run : {E A B : Type 0} → (A → Io E B) → Result E A × World → Result E B × World
then_run f (ok a, w) = f a w
then_run f (err e, w) = (err e, w)

infixl 5 ◌>>=◌
infixl 5 ◌>>◌
abbrev pub ◌>>=◌ : {E A B : Type 0} → Io E A → (A → Io E B) → Io E B
◌>>=◌ m f w = then_run f (m w)

abbrev pub ◌>>◌ : {E B : Type 0} → Io E (Unit {0}) → Io E B → Io E B
m >> k = m >>= λ _. k

abbrev pub pure : {E A : Type 0} → A → Io E A
pure a w = (ok a, w)

abbrev pub fail : {E A : Type 0} → E → Io E A
fail e w = (err e, w)

-- `map_err`
abbrev pub relabel : {E F A : Type 0} → (E → F) → Result E A × World → Result F A × World
relabel f (ok a, w) = (ok a, w)
relabel f (err e, w) = (err (f e), w)

abbrev pub map_err : {E F A : Type 0} → (E → F) → Io E A → Io F A
map_err f m w = relabel f (m w)

-- the result of a fallible action, as a value
abbrev pub attempt : {E F A : Type 0} → Io F A → Io E (Result F A)
attempt m w = let (r, w') = m w in (ok r, w')

-- `Instant::now()`
unfoldable pub now : {E : Type 0} → Io E ℕ
now w = (ok (w.clock w.looks), record w { looks = w.looks + 1 })

-- `deadline.is_some_and(|d| Instant::now() >= d)`
unfoldable pub is_late : Option ℕ → World → Bool × World
is_late none w = (false, w)
is_late (some d) w = (leb d (w.clock w.looks), record w { looks = w.looks + 1 })

abbrev pub incomplete : IoError
incomplete = record {
  raw_os_error = none;
  kind = timed_out;
  message = codes "peer did not deliver a complete message within the budget";
}

abbrev pub closed_early : IoError
closed_early = record {
  raw_os_error = none;
  kind = unexpected_eof;
  message = codes "connection closed mid-message";
}

unfoldable pub is_interrupted : ErrorKind → Bool
is_interrupted interrupted = true
is_interrupted _ = false

-- What a read into a buffer with room for `room` bytes does with the bytes that are there: it takes
-- as many as fit, and the others wait for the next read.
unfoldable pub leftover : ℕ → Bytes → List Read → List Read
leftover room bs rest = if ltb room (length bs) then arrives (drop room bs) ∷ rest else rest

-- the `while filled < buf.len()` loop, over the coming reads: `room` bytes are missing
unfoldable pub read_loop : List Read → Option ℕ → ℕ → Bytes → Io IoError Bytes
unfolding is_late is_interrupted leftover
read_loop script deadline zero filled w = (ok filled, record w { reads = script })
read_loop [] deadline (suc room) filled w =
    let (late, w') = is_late deadline w in
    (if late then err incomplete else err closed_early, record w' { reads = [] })
read_loop (arrives bs ∷ rest) deadline (suc room) filled w =
    let (late, w') = is_late deadline w in
    let more = read_loop rest deadline (suc room - length bs) (filled ++ bs) w' in
    if late
    then (err incomplete, record w' { reads = arrives bs ∷ rest })
    else if is_empty bs
    then (err closed_early, record w' { reads = rest })
    else if leb (suc room) (length bs)
    then (ok (filled ++ take (suc room) bs), record w' { reads = leftover (suc room) bs rest })
    else more
read_loop (fails e ∷ rest) deadline (suc room) filled w =
    let (late, w') = is_late deadline w in
    let more = read_loop rest deadline (suc room) filled w' in
    if late
    then (err incomplete, record w' { reads = fails e ∷ rest })
    else if is_interrupted e.kind
    then more
    else (err e, record w' { reads = rest })

unfoldable pub read_exact : ℕ → Option ℕ → Io IoError Bytes
unfolding read_loop
read_exact count deadline w = read_loop w.reads deadline count [] w

-- one `read` into a buffer of `room` bytes
unfoldable pub read_script : List Read → ℕ → Io IoError Bytes
unfolding leftover
read_script [] room w = (ok [], w)
read_script (arrives bs ∷ rest) room w =
    (ok (take room bs), record w { reads = leftover room bs rest })
read_script (fails e ∷ rest) room w = (err e, record w { reads = rest })

unfoldable pub read_once : ℕ → Io IoError Bytes
unfolding read_script
read_once room w = read_script w.reads room w

-- `write_all`: one that fails has sent as many bytes of the message as the script says
unfoldable pub next_write : List (Option (ℕ × IoError)) → Option (ℕ × IoError)
next_write [] = none
next_write (r ∷ rest) = r

unfoldable pub write_with : Option (ℕ × IoError) → Bytes → Io IoError (Unit {0})
write_with none bs w = (ok tt, record w { writes = drop 1 w.writes; sent = w.sent ++ bs ∷ [] })
write_with (some (n, e)) bs w =
    (err e, record w { writes = drop 1 w.writes; sent = w.sent ++ take n bs ∷ [] })

unfoldable pub write_all : Bytes → Io IoError (Unit {0})
unfolding next_write write_with
write_all bs w = write_with (next_write w.writes) bs w
