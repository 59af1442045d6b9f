-- ===== src/Transport/Wire/Sequence.antt =====
-- Actions on the stream of src/transport/mod.rs in sequence.
use scanr.Common.{ℕ, ◌≡◌, refl, ap, ◌∙◌, Option, none, some, List}
use scanr.Common.Result.{Result, ok, err}
use scanr.Diag.Pressure.{IoError}
use scanr.Transport.Wire.{Bytes, Read, World, Io, then_run, pure, ◌>>=◌}
use scanr.Transport.Wire.Chunks.{Brings, InTime, Took}

-- The clock decides alone whether an action is in time.
pub InTime-clock : (d : Option ℕ) (w w' : World) → w'.clock ≡ w.clock → InTime d w → InTime d w'
InTime-clock none w w' c t = t
InTime-clock (some d) w w' c t = λ k. rw (ap (λ (f : ℕ → ℕ). f k) c) (t k)

-- Reading in sequence: what the second action takes is behind what the first took.
pub then_run-ok :
    {A B : Type 0} (f : A → Io IoError B) (p : Result IoError A × World) {a : A}
    → p.0 ≡ ok a
    → then_run f p ≡ f a p.1
then_run-ok f (ok x, w) h = cc
then_run-ok f (err e, w) h = absurd cc

pub Took-bind :
    {A B : Type 0} {after : List Read} {w : World} (m : Io IoError A) (f : A → Io IoError B) {a : A}
    {b : B} {rest1 rest2 : Bytes}
    → Took after w a rest1 (m w)
    → ((w' : World)
        → Brings after w'.reads rest1
        → w'.clock ≡ w.clock
        → Took after w' b rest2 (f a w'))
    → Took after w b rest2 ((m >>= f) w)
Took-bind {w} m f h k =
    let r = k (m w).1 h.left h.clock in
    rw (then_run-ok f (m w) h.value) (record {
      value = r.value;
      left = r.left;
      clock = r.clock ∙ h.clock;
      writes = r.writes ∙ h.writes;
      sent = r.sent ∙ h.sent;
    })

pub Took-pure :
    {A : Type 0} {after : List Read} {w : World} (a : A) {rest : Bytes}
    → Brings after w.reads rest
    → Took after w a rest (pure a w)
Took-pure a b = record { value = refl; left = b; clock = refl; writes = refl; sent = refl }
