-- ===== src/Net/Target/Expand.antt =====
-- What `TargetSet::expand` of src/net/target.rs returns.
use scanr.Common.{
  ℕ, zero, suc, ◌+◌, ◌-◌, ◌≤◌, ◌≡◌, refl, ap, ◌↔◌, ◌⊎◌, inl, inr, Bool, true, false, not, ◌&&◌,
  List, [], ◌∷◌, In, In-append, In-append_left, In-append_right, length, length-append, ltb,
  Bool-cases, arith,
}
use scanr.Common.Result.{ok, bind-eq-ok}
use scanr.Common.Text.{Text}
use scanr.Net.Addr.{IpAddr, is_ipv4}
use scanr.Net.Target.{
  Target, TargetSpec, addr, cidr, range, host, TargetSet, number, count, max_expandable,
  check_expandable, addresses, expand_into, target_in, keep_new, expand_specs, checked_total,
  expand,
}
use scanr.Net.Target.Equality.{target_decided, target_in_sound, target_in_complete}

-- No two places hold the same value.
abbrev pub Unique : List Target → Type 0
Unique [] = Unit
Unique (t ∷ ts) = ¬ (In t ts) × Unique ts

-- Covered by one of the specifications.
abbrev pub Covered : Target → List TargetSpec → Type 0
Covered t [] = ⊥
Covered t (s ∷ ss) = In t (expand_into s) ⊎ Covered t ss

In-expand_specs : (t : Target) (ss : List TargetSpec) → In t (expand_specs ss) ↔ Covered t ss
unfolding expand_specs
In-expand_specs t [] = (λ m. m, λ m. m)
In-expand_specs t (s ∷ ss) = (
  λ m. elim (In-append t (expand_into s) (expand_specs ss) m) [
    | inl l ↦ inl l
    | inr r ↦ inr ((In-expand_specs t ss).0 r)
  ],
  λ c. elim c [
    | inl l ↦ In-append_left t (expand_into s) (expand_specs ss) l
    | inr r ↦ In-append_right t (expand_into s) (expand_specs ss) ((In-expand_specs t ss).1 r)
  ],
)

abbrev is_new : List Target → List Target → Target → Bool
is_new excluded seen t = not (target_in t excluded) && not (target_in t seen)

is_new-true :
    (excluded seen : List Target) (t : Target)
    → is_new excluded seen t ≡ true
    → (¬ (In t excluded)) × (¬ (In t seen))
is_new-true excluded seen t h = (
  λ m. (let e = target_in_complete t excluded m in ground arith),
  λ m. (let e = target_in_complete t seen m in ground arith),
)

is_new-false :
    (excluded seen : List Target) (t : Target)
    → is_new excluded seen t ≡ false
    → In t excluded ⊎ In t seen
is_new-false excluded seen t h = elim (Bool-cases (target_in t excluded)) [
  | inl e ↦ inl (target_in_sound t excluded e)
  | inr e ↦ inr (target_in_sound t seen (ground arith))
]

-- What is kept, of the targets `ts`.
record IsKept (excluded seen ts out : List Target) : Type 0 where
  from_targets : (t : Target) → In t out → In t ts × ((¬ (In t excluded)) × (¬ (In t seen)))
  all_kept : (t : Target) → In t ts → ¬ (In t excluded) → ¬ (In t seen) → In t out
  unique : Unique out
  shorter : length out ≤ length ts

module _ (excluded seen ts out : List Target) (t : Target) where
  IsKept-front :
      (¬ (In t excluded)) × (¬ (In t seen))
      → IsKept excluded (t ∷ seen) ts out
      → IsKept excluded seen (t ∷ ts) (t ∷ out)
  IsKept-front n k = record {
    from_targets = λ u m. elim m [
      | inl e ↦ (inl e, (rw e n))
      | inr m ↦ (let (i, (x, s)) = k.from_targets u m in (inr i, (x, λ z. s (inr z))))
    ];
    all_kept = λ u m x s. elim m [
      | inl e ↦ inl e
      | inr m ↦ elim (target_decided u t) [
        | inl d ↦ inl d
        | inr d ↦ inr (k.all_kept u m x (λ z. elim z [ inl e ↦ d e | inr z ↦ s z ]))
      ]
    ];
    unique = (λ m. (k.from_targets t m).1.1 (inl refl), k.unique);
    shorter = omega (arith, k.shorter);
  }

  IsKept-passed :
      In t excluded ⊎ In t seen → IsKept excluded seen ts out → IsKept excluded seen (t ∷ ts) out
  IsKept-passed old k = record {
    from_targets = λ u m. (let (i, r) = k.from_targets u m in (inr i, r));
    all_kept = λ u m x s. elim m [
      | inl e ↦ elim old [ inl z ↦ absurd (x (rw e z)) | inr z ↦ absurd (s (rw e z)) ]
      | inr m ↦ k.all_kept u m x s
    ];
    unique = k.unique;
    shorter = omega (arith, k.shorter);
  }

keep_new-IsKept :
    (excluded seen ts : List Target) → IsKept excluded seen ts (keep_new excluded seen ts)
unfolding keep_new
keep_new-IsKept excluded seen [] = record {
  from_targets = λ t m. absurd m;
  all_kept = λ t m x s. m;
  unique = tt;
  shorter = omega arith;
}
keep_new-IsKept excluded seen (t ∷ ts) = elim (Bool-cases (is_new excluded seen t)) [
  | inl h ↦ rw h (
      IsKept-front excluded seen ts (keep_new excluded (t ∷ seen) ts) t
        (is_new-true excluded seen t h) (keep_new-IsKept excluded (t ∷ seen) ts))
  | inr h ↦ rw h (
      IsKept-passed excluded seen ts (keep_new excluded seen ts) t (is_new-false excluded seen t h)
        (keep_new-IsKept excluded seen ts))
]

length-addresses : (is_v4 : Bool) (start n : ℕ) → length (addresses is_v4 start n) ≡ n
unfolding addresses
length-addresses is_v4 start zero = refl
length-addresses is_v4 start (suc n) = ap suc (length-addresses is_v4 (start + 1) n)

-- A specification that passes the check expands to as many targets as it counts, or to fewer.
length-expand_into : (s : TargetSpec) → count s ≤ max_expandable → length (expand_into s) ≤ count s
unfolding expand_into count
length-expand_into (addr a) h = omega arith
length-expand_into (host name) h = omega arith
length-expand_into (cidr base prefix) h =
    omega (arith, length-addresses (is_ipv4 base) (number base) (count (cidr base prefix)))
length-expand_into (range start end) h =
    omega (arith, length-addresses (is_ipv4 start) (number start) (number end + 1 - number start))

check_expandable-ok :
    (show_ip : IpAddr → Text) (allow_large : Bool) (s : TargetSpec)
    → check_expandable show_ip allow_large s ≡ ok tt
    → count s ≤ max_expandable
unfolding check_expandable
check_expandable-ok show_ip allow_large s h = ground arith

checked_total-ok :
    (show_ip : IpAddr → Text) (allow_large : Bool) (ss : List TargetSpec) (total : ℕ)
    → checked_total show_ip allow_large ss ≡ ok total
    → length (expand_specs ss) ≤ total
unfolding checked_total expand_specs
checked_total-ok show_ip allow_large [] total h = omega arith
checked_total-ok show_ip allow_large (s ∷ ss) total h =
    let (u, c, k) = bind-eq-ok (check_expandable show_ip allow_large s) _ h in
    let (rest, r, e) = bind-eq-ok (checked_total show_ip allow_large ss) _ k in
    let sum : count s + rest ≡ total = cc in
    omega (
      arith,
      sum,
      length-append (expand_into s) (expand_specs ss),
      length-expand_into s (check_expandable-ok show_ip allow_large s c),
      checked_total-ok show_ip allow_large ss rest r,
    )

-- What an expansion promises.
pub record IsExpansion (set : TargetSet) (allow_large : Bool) (limit : ℕ) (out : List Target)
    : Type 0 where
  pub members : (t : Target) → In t out ↔ (Covered t set.include × ¬ (Covered t set.exclude))
  pub unique : Unique out
  pub bounded : allow_large ≡ false → length out ≤ limit

-- An expansion that is not refused holds exactly the targets that some specification includes and none
-- excludes, each of them once, and at most as many as the limit unless large ranges are allowed.
pub expand-IsExpansion :
    (show_ip : IpAddr → Text) (set : TargetSet) (allow_large : Bool) (limit : ℕ) (out : List Target)
    → expand show_ip set allow_large limit ≡ ok out
    → IsExpansion set allow_large limit out
unfolding expand
expand-IsExpansion show_ip set allow_large limit out h =
    let (total, c, k) = bind-eq-ok (checked_total show_ip allow_large set.include) _ h in
    elim (Bool-cases (not allow_large && ltb limit total)) [
      | inl b ↦ absurd (let r = rw b at k in cc)
      | inr b ↦
          let (unused, x, e) =
            bind-eq-ok (checked_total show_ip allow_large set.exclude) _ (rw b at k) in
          let kept = keep_new-IsKept (expand_specs set.exclude) [] (expand_specs set.include) in
          let o : keep_new (expand_specs set.exclude) [] (expand_specs set.include) ≡ out = cc in
          rw o at (
            expanded kept (λ a.
              (let l = checked_total-ok show_ip allow_large set.include total c in
                ground (arith, kept.shorter, l))))
    ]
  where
    expanded :
        {kept : List Target}
        → IsKept (expand_specs set.exclude) [] (expand_specs set.include) kept
        → (allow_large ≡ false → length kept ≤ limit)
        → IsExpansion set allow_large limit kept
    expanded k b = record {
      members = λ t. (
        λ m.
            (let (i, (x, s)) = k.from_targets t m in
              ((In-expand_specs t set.include).0 i, λ c. x ((In-expand_specs t set.exclude).1 c))),
        λ c.
            k.all_kept t ((In-expand_specs t set.include).1 c.0)
              (λ m. c.1 ((In-expand_specs t set.exclude).0 m)) (λ m. m),
      );
      unique = k.unique;
      bounded = b;
    }
