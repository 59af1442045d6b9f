-- ===== src/Transport/Wire/Effects.antt =====
-- What reading leaves alone, and how a property of the world after an action is drawn from its parts.
use scanr.Common.{
  take, ℕ, zero, suc, ◌-◌, ◌≡◌, refl, inl, inr, Option, none, some, List, [], ◌∷◌, ◌++◌, length,
  leb, Bool-cases,
}
use scanr.Common.Result.{Result, ok, err}
use scanr.Common.Text.{is_empty}
use scanr.Diag.Pressure.{IoError}
use scanr.Transport.Wire.{
  Bytes, Read, arrives, fails, World, Io, then_run, relabel, is_late, is_interrupted, read_loop,
  read_exact, next_write, write_with, write_all,
}

-- Only the reads and the count of looks at the clock differ.
pub record OnlyRead (w w' : World) : Type 0 where
  pub clock : w'.clock ≡ w.clock
  pub writes : w'.writes ≡ w.writes
  pub sent : w'.sent ≡ w.sent

OnlyRead-look :
    (d : Option ℕ) (w : World) (rs : List Read) → OnlyRead w (record (is_late d w).1 { reads = rs })
unfolding is_late
OnlyRead-look none w rs = record { clock = refl; writes = refl; sent = refl }
OnlyRead-look (some d) w rs = record { clock = refl; writes = refl; sent = refl }

OnlyRead-trans : (d : Option ℕ) (w w' : World) → OnlyRead (is_late d w).1 w' → OnlyRead w w'
unfolding is_late
OnlyRead-trans none w w' k = k
OnlyRead-trans (some d) w w' k = record { clock = k.clock; writes = k.writes; sent = k.sent }

read_loop-OnlyRead :
    (script : List Read) (d : Option ℕ) (room : ℕ) (filled : Bytes) (w : World)
    → OnlyRead w (read_loop script d room filled w).1
unfolding read_loop
read_loop-OnlyRead script d zero filled w = record { clock = refl; writes = refl; sent = refl }
read_loop-OnlyRead [] d (suc room) filled w = OnlyRead-look d w []
read_loop-OnlyRead (arrives bs ∷ rest) d (suc room) filled w =
    let more =
      OnlyRead-trans d w _
        (read_loop-OnlyRead rest d (suc room - length bs) (filled ++ bs) (is_late d w).1) in
    elim (Bool-cases (is_late d w).0) [
      | inl h ↦ rw h (OnlyRead-look d w _)
      | inr h ↦ rw h (elim (Bool-cases (is_empty bs)) [
        | inl i ↦ rw i (OnlyRead-look d w _)
        | inr i ↦ rw i (elim (Bool-cases (leb (suc room) (length bs))) [
          | inl j ↦ rw j (OnlyRead-look d w _)
          | inr j ↦ rw j more
        ])
      ])
    ]
read_loop-OnlyRead (fails e ∷ rest) d (suc room) filled w =
    let more = OnlyRead-trans d w _ (read_loop-OnlyRead rest d (suc room) filled (is_late d w).1) in
    elim (Bool-cases (is_late d w).0) [
      | inl h ↦ rw h (OnlyRead-look d w _)
      | inr h ↦ rw h (elim (Bool-cases (is_interrupted e.kind)) [
        | inl i ↦ rw i more
        | inr i ↦ rw i (OnlyRead-look d w _)
      ])
    ]

-- A read, whatever becomes of it, sends nothing and leaves the coming writes and the clock alone.
pub read_exact-OnlyRead :
    (count : ℕ) (d : Option ℕ) (w : World) → OnlyRead w (read_exact count d w).1
unfolding read_exact
read_exact-OnlyRead count d w = read_loop-OnlyRead w.reads d count [] w

write_with-ok :
    (r : Option (ℕ × IoError)) (bs : Bytes) (w : World) {u : Unit {0}}
    → (write_with r bs w).0 ≡ ok u
    → (write_with r bs w).1.sent ≡ w.sent ++ bs ∷ []
unfolding write_with
write_with-ok none bs w h = refl
write_with-ok (some (n, e)) bs w h = absurd cc

write_with-err :
    (r : Option (ℕ × IoError)) (bs : Bytes) (w : World) {e : IoError}
    → (write_with r bs w).0 ≡ err e
    → (n : ℕ) × ((write_with r bs w).1.sent ≡ w.sent ++ take n bs ∷ [])
unfolding write_with
write_with-err none bs w h = absurd cc
write_with-err (some (n, e)) bs w h = (n, refl)

-- A write that succeeds sends its bytes behind the others; one that fails sends the first of them.
pub write_all-ok :
    (bs : Bytes) (w : World) {u : Unit {0}}
    → (write_all bs w).0 ≡ ok u
    → (write_all bs w).1.sent ≡ w.sent ++ bs ∷ []
unfolding write_all
write_all-ok bs w h = write_with-ok (next_write w.writes) bs w h

pub write_all-err :
    (bs : Bytes) (w : World) {e : IoError}
    → (write_all bs w).0 ≡ err e
    → (n : ℕ) × ((write_all bs w).1.sent ≡ w.sent ++ take n bs ∷ [])
unfolding write_all
write_all-err bs w h = write_with-err (next_write w.writes) bs w h

module _ {E A B : Type 0} (P : Result E B × World → Type 0) (h : IoError → E) (f : A → Io E B) where
  -- An action of the stream and what follows it when it succeeds.
  pub by_parts :
      (p : Result IoError A × World)
      → ((e : IoError) → p.0 ≡ err e → P (err (h e), p.1))
      → ((a : A) → p.0 ≡ ok a → P (f a p.1))
      → P (then_run f (relabel h p))
  by_parts (ok a, w) fails_so goes_on = goes_on a refl
  by_parts (err e, w) fails_so goes_on = fails_so e refl
