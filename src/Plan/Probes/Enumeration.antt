-- ===== src/Plan/Probes/Enumeration.antt =====
-- `probe_at` of src/plan/types.rs goes through the endpoints of the plan, each at one index.
use scanr.Common.{
  ℕ, zero, suc, ◌*◌, ◌-◌, ◌/◌, ◌%◌, ◌^◌, ◌≤◌, ◌<◌, ◌≡◌, refl, sym, inl, inr, Option, none, some,
  List, [], ◌∷◌, ◌++◌, map, length, length-append, length-map, get_elem?, ltb, ◌==◌, if◌then◌else◌,
  Bool-cases, ltb→lt, not-ltb, arith,
}
use scanr.Common.Bits.{div-mod_unique}
use scanr.Net.Target.{Target}
use scanr.Plan.Probes.{ScanPlan, both, count_of, at_index, probe_count, probe_at}
use native.Mathlib.Nat.{div-add-mod', mod-lt}

abbrev pub with_port : Target → ℕ → Target × ℕ
with_port t p = (t, p)

-- the ports of one target
abbrev pub row : Target → List ℕ → List (Target × ℕ)
row t ports = map (with_port t) ports

-- the matrix, target by target
abbrev pub matrix : List Target → List ℕ → List (Target × ℕ)
matrix [] ports = []
matrix (t ∷ targets) ports = row t ports ++ matrix targets ports

abbrev pub listed : Option (List (Target × ℕ)) → List Target → List ℕ → List (Target × ℕ)
listed (some pairs) targets ports = pairs
listed none targets ports = matrix targets ports

-- What a plan is to probe, in the order of its indices.
abbrev pub endpoints : {P : Type 0} → ScanPlan P → List (Target × ℕ)
endpoints plan = listed plan.pairs plan.targets plan.ports

length-matrix :
    (targets : List Target) (ports : List ℕ)
    → length (matrix targets ports) ≡ length targets * length ports
length-matrix [] ports = omega arith
length-matrix (t ∷ targets) ports = omega (
  arith,
  length-append (row t ports) (matrix targets ports),
  length-map (with_port t) ports,
  length-matrix targets ports,
)

get_elem?-append {ℓ} :
    {A : Type ℓ} (xs ys : List A) (i : ℕ)
    → get_elem? (xs ++ ys) i
      ≡ (if ltb i (length xs) then get_elem? xs i else get_elem? ys (i - length xs))
get_elem?-append [] ys i = let e : i - 0 ≡ i = omega arith in rw e (ground arith)
get_elem?-append (x ∷ xs) ys zero = ground arith
get_elem?-append (x ∷ xs) ys (suc i) =
    let e : ltb (suc i) (suc (length xs)) ≡ ltb i (length xs) = ground arith in
    let f : suc i - suc (length xs) ≡ i - length xs = omega arith in
    rw (e, f) (get_elem?-append xs ys i)

get_elem?-row :
    (t : Target) (ports : List ℕ) (i : ℕ)
    → get_elem? (row t ports) i ≡ both (some t) (get_elem? ports i)
get_elem?-row t [] i = refl
get_elem?-row t (p ∷ ports) zero = refl
get_elem?-row t (p ∷ ports) (suc i) = get_elem?-row t ports i

-- one row further
next_row : (i n : ℕ) → 0 < n → n ≤ i → (i / n ≡ suc ((i - n) / n)) × (i % n ≡ (i - n) % n)
next_row i n pos l =
    div-mod_unique i (suc ((i - n) / n)) n ((i - n) % n) (omega (arith, div-add-mod' (i - n) n))
      (mod-lt (i - n) pos)

first_row : (i n : ℕ) → i < n → (i / n ≡ 0) × (i % n ≡ i)
first_row i n l = div-mod_unique i 0 n i (omega arith) l

get_elem?-matrix :
    (targets : List Target) (ports : List ℕ) (i : ℕ)
    → 0 < length ports
    → get_elem? (matrix targets ports) i
      ≡ both (get_elem? targets (i / length ports)) (get_elem? ports (i % length ports))
get_elem?-matrix [] ports i pos = refl
get_elem?-matrix (t ∷ targets) ports i pos =
    let same = length-map (with_port t) ports in
    elim (Bool-cases (ltb i (length ports))) [
      | inl h ↦
          (let (q, r) = first_row i (length ports) (ltb→lt i (length ports) h) in
            rw (get_elem?-append (row t ports) (matrix targets ports) i, same, h, q, r)
              (get_elem?-row t ports i))
      | inr h ↦
          (let (q, r) = next_row i (length ports) pos (not-ltb i (length ports) h) in
            rw (get_elem?-append (row t ports) (matrix targets ports) i, same, h, q, r)
              (get_elem?-matrix targets ports (i - length ports) pos))
    ]

-- no ports, no endpoints
nothing :
    (targets : List Target) (ports : List ℕ) (i : ℕ)
    → length ports ≡ 0
    → get_elem? (matrix targets ports) i ≡ none
nothing [] ports i e = refl
nothing (t ∷ targets) [] i e = nothing targets [] i e
nothing (t ∷ targets) (p ∷ ports) i e = absurd (omega arith)

-- An endpoint of the plan is numbered below the count, which does not wrap around.
pub enumerated :
    {P : Type 0} (plan : ScanPlan P)
    → length plan.targets * length plan.ports < 2 ^ 64
    → (probe_count plan ≡ length (endpoints plan))
      × ((i : ℕ) → probe_at plan i ≡ get_elem? (endpoints plan) i)
unfolding probe_count probe_at
enumerated plan small = by_kind plan.pairs
  where
    by_kind :
        (pairs : Option (List (Target × ℕ)))
        → (count_of pairs plan.targets plan.ports ≡ length (listed pairs plan.targets plan.ports))
          × ((i : ℕ)
              → at_index pairs plan.targets plan.ports i
                ≡ get_elem? (listed pairs plan.targets plan.ports) i)
    by_kind (some pairs) = (refl, λ i. refl)
    by_kind none = (
      omega (arith, length-matrix plan.targets plan.ports),
      λ i. elim (Bool-cases (length plan.ports == 0)) [
        | inl h ↦ rw h (sym (nothing plan.targets plan.ports i (ground arith)))
        | inr h ↦ rw h (sym (get_elem?-matrix plan.targets plan.ports i (ground arith)))
      ],
    )
