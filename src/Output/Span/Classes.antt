-- ===== src/Output/Span/Classes.antt =====
-- The classes that `add` of src/output/span.rs leaves, by their keys and indices.
use scanr.Common.{
  ℕ, suc, ◌+◌, ◌≡◌, refl, ap, sym, ◌∙◌, ◌↔◌, ◌⊎◌, inl, inr, true, List, [], ◌∷◌, ◌++◌, In,
  In-append, In-append_left, In-append_right, length, Bool-cases, if◌then◌else◌, arith,
}
use scanr.Output.Span.{GroupKey, Group, key_eq, contains_key, add}
use scanr.Output.Span.Keys.{key_eq→≡, key_eq_refl, Has}

-- the index stands in a class of this key
unfoldable pub Holds : GroupKey → ℕ → List Group → Type 0
Holds k j [] = ⊥
Holds k j (g ∷ gs) = ((g.key ≡ k) × In j g.indices) ⊎ Holds k j gs

-- No two classes have the same key.
unfoldable pub AreDistinct : List Group → Type 0
AreDistinct [] = Unit
AreDistinct (g ∷ gs) = (¬ Has g.key gs) × AreDistinct gs

joins :
    (k k' : GroupKey) (index j : ℕ) (g : Group) (gs : List Group)
    → g.key ≡ k
    → Holds k' j (record g { indices = g.indices ++ index ∷ [] } ∷ gs)
      ↔ (((k' ≡ k) × (j ≡ index)) ⊎ Holds k' j (g ∷ gs))
unfolding Holds
joins k k' index j g gs same = (
  λ m. elim m [
    | inl (e, l) ↦ elim (In-append j g.indices (index ∷ []) l) [
      | inl l ↦ inr (inl (e, l))
      | inr q ↦ elim q [ inl q ↦ inl (sym e ∙ same, q) | inr z ↦ absurd z ]
    ]
    | inr m ↦ inr (inr m)
  ],
  λ m. elim m [
    | inl (p, q) ↦ inl (same ∙ sym p, In-append_right j g.indices (index ∷ []) (inl q))
    | inr m ↦ elim m [
      | inl (e, l) ↦ inl (e, In-append_left j g.indices (index ∷ []) l)
      | inr m ↦ inr m
    ]
  ],
)

pub add-Holds :
    (k k' : GroupKey) (index j : ℕ) (gs : List Group)
    → Holds k' j (add k index gs) ↔ (((k' ≡ k) × (j ≡ index)) ⊎ Holds k' j gs)
unfolding add Holds
add-Holds k k' index j [] = (
  λ m. elim m [
    | inl (e, l) ↦ elim l [ inl q ↦ inl (sym e, q) | inr z ↦ absurd z ]
    | inr z ↦ absurd z
  ],
  λ m. elim m [ inl (p, q) ↦ inl (sym p, inl q) | inr z ↦ absurd z ],
)
add-Holds k k' index j (g ∷ gs) = elim (Bool-cases (key_eq g.key k)) [
  | inl h ↦ rw h (joins k k' index j g gs (key_eq→≡ g.key k h))
  | inr h ↦
      (let next = add-Holds k k' index j gs in
        rw h (
          λ m. elim m [
            | inl l ↦ inr (inl l)
            | inr m ↦ elim (next.0 m) [ inl q ↦ inl q | inr m ↦ inr (inr m) ]
          ],
          λ m. elim m [
            | inl q ↦ inr (next.1 (inl q))
            | inr m ↦ elim m [ inl l ↦ inl l | inr m ↦ inr (next.1 (inr m)) ]
          ],
        ))
]

Has-add :
    (k k' : GroupKey) (index : ℕ) (gs : List Group) → Has k' (add k index gs) → (k ≡ k') ⊎ Has k' gs
unfolding add Has
Has-add k k' index [] m = elim m [ inl e ↦ inl e | inr z ↦ absurd z ]
Has-add k k' index (g ∷ gs) m = elim (Bool-cases (key_eq g.key k)) [
  | inl h ↦ (let m' = rw h at m in inr m')
  | inr h ↦
      (let m' = rw h at m in
        elim m' [
          | inl e ↦ inr (inl e)
          | inr m ↦ elim (Has-add k k' index gs m) [ inl e ↦ inl e | inr m ↦ inr (inr m) ]
        ])
]

pub AreDistinct-add :
    (k : GroupKey) (index : ℕ) (gs : List Group) → AreDistinct gs → AreDistinct (add k index gs)
unfolding add AreDistinct Has
AreDistinct-add k index [] d = (λ h. absurd h, tt)
AreDistinct-add k index (g ∷ gs) d = elim (Bool-cases (key_eq g.key k)) [
  | inl h ↦ rw h d
  | inr h ↦ rw h (
    λ m. elim (Has-add k g.key index gs m) [
      | inl e ↦ (let same : key_eq g.key k ≡ true = rw e (key_eq_refl g.key) in absurd cc)
      | inr m ↦ d.0 m
    ],
    AreDistinct-add k index gs d.1,
  )
]

pub length-add :
    (k : GroupKey) (index : ℕ) (gs : List Group)
    → length (add k index gs) ≡ (if contains_key k gs then length gs else length gs + 1)
unfolding add contains_key
length-add k index [] = refl
length-add k index (g ∷ gs) = elim (Bool-cases (key_eq g.key k)) [
  | inl h ↦ rw h refl
  | inr h ↦ rw h (elim (Bool-cases (contains_key k gs)) [
    | inl c ↦ (let l = length-add k index gs in let m = rw c at l in rw c (ap suc m))
    | inr c ↦ (let l = length-add k index gs in let m = rw c at l in rw c (omega (arith, m)))
  ])
]
