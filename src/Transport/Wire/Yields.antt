-- ===== src/Transport/Wire/Yields.antt =====
-- What an action gives in every world: a predicate of its errors and one of its values.
use scanr.Common.Result.{Result, ok, err}
use scanr.Transport.Wire.{World, Io, then_run, relabel, map_err, ◌>>=◌}

abbrev pub Holds : {E A : Type 0} → (E → Type 0) → (A → Type 0) → Result E A → Type 0
Holds F P (ok a) = P a
Holds F P (err e) = F e

abbrev pub Yields : {E A : Type 0} → (E → Type 0) → (A → Type 0) → Io E A → Type 0
Yields F P m = (w : World) → Holds F P (m w).0

module _ {E A B : Type 0} (F : E → Type 0) (Q : A → Type 0) (P : B → Type 0) where
  then_run-Holds :
      (f : A → Io E B) (p : Result E A × World)
      → Holds F Q p.0
      → ((a : A) → Q a → Yields F P (f a))
      → Holds F P (then_run f p).0
  then_run-Holds f (ok a, w) h k = k a h w
  then_run-Holds f (err e, w) h k = h

  pub Yields-bind :
      (m : Io E A) (f : A → Io E B)
      → Yields F Q m
      → ((a : A) → Q a → Yields F P (f a))
      → Yields F P (m >>= f)
  Yields-bind m f h k w = then_run-Holds f (m w) (h w) k

abbrev pub Anything : {A : Type 0} → A → Type 0
Anything a = Unit

relabel-Holds :
    {E D A : Type 0} (F : E → Type 0) (Q : A → Type 0) (h : D → E) (p : Result D A × World)
    → ((d : D) → F (h d))
    → ((a : A) → Q a)
    → Holds F Q (relabel h p).0
relabel-Holds F Q h (ok a, w) k q = q a
relabel-Holds F Q h (err d, w) k q = k d

-- Every error is named anew.
pub map_err-Yields :
    {E D A : Type 0} (F : E → Type 0) (h : D → E) (m : Io D A)
    → ((d : D) → F (h d))
    → Yields F Anything (map_err h m)
map_err-Yields F h m k w = relabel-Holds F Anything h (m w) k (λ _. tt)

relabel-map :
    {E D A : Type 0} (F : E → Type 0) (G : D → Type 0) (Q : A → Type 0) (h : D → E)
    (p : Result D A × World)
    → Holds G Q p.0
    → ((d : D) → G d → F (h d))
    → Holds F Q (relabel h p).0
relabel-map F G Q h (ok a, w) g k = g
relabel-map F G Q h (err d, w) g k = k d g

pub map_err-map :
    {E D A : Type 0} (F : E → Type 0) (G : D → Type 0) (Q : A → Type 0) (h : D → E) (m : Io D A)
    → Yields G Q m
    → ((d : D) → G d → F (h d))
    → Yields F Q (map_err h m)
map_err-map F G Q h m g k w = relabel-map F G Q h (m w) (g w) k
