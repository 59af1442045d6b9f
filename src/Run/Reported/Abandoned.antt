-- ===== src/Run/Reported/Abandoned.antt =====
-- `Reported::abandoned` of src/run.rs: the probes that a resumed scan has to make again.
use scanr.Common.{
  ℕ, zero, suc, ◌+◌, ◌<◌, ◌≤◌, ◌≡◌, refl, sym, ◌∙◌, ◌↔◌, ◌⊎◌, inl, inr, min, Bool, true, false, not,
  some, List, [], ◌∷◌, All, In, length, ◌==◌, if◌then◌else◌, Bool-cases, ==_iff, arith,
}
use scanr.Run.Reported.{Reported, reported_new, mark, saw, unseen, abandoned, mark_all}
use scanr.Run.Reported.Tracked.{
  IsWide, IsDistinct, mark-IsWide, planned-mark, saw-mark, new-IsWide, saw-new, length-unseen-mark,
}

In-kept :
    (b : Bool) (j x : ℕ) (xs : List ℕ)
    → In j (if b then x ∷ xs else xs) ↔ (((b ≡ true) × (j ≡ x)) ⊎ In j xs)
In-kept true j x xs = (
  λ m. elim m [ inl e ↦ inl (refl, e) | inr k ↦ inr k ],
  λ h. elim h [ inl p ↦ inl p.1 | inr k ↦ inr k ],
)
In-kept false j x xs = (λ m. inr m, λ h. elim h [ inl p ↦ absurd (cc (p.0)) | inr k ↦ k ])

unseen_step :
    (r : Reported) (next count j : ℕ) {rest : Type 0}
    → rest ↔ ((next + 1 ≤ j) × (j < next + 1 + count) × (saw r j ≡ false))
    → (((not (saw r next) ≡ true) × (j ≡ next)) ⊎ rest)
      ↔ ((next ≤ j) × (j < next + suc count) × (saw r j ≡ false))
unseen_step r next count j ih = (
  λ h. elim h [
    | inl p ↦ ground (arith, p.0, p.1)
    | inr m ↦ (let (lo, hi, f) = ih.0 m in (omega arith, omega arith, f))
  ],
  λ h. elim (Bool-cases (j == next)) [
    | inl e ↦ inl (ground (arith, h.2), (==_iff j next).0 e)
    | inr e ↦ inr (ih.1 (ground (arith, h.0), omega (arith, h.1), h.2))
  ],
)

pub In-unseen :
    (r : Reported) (next count j : ℕ)
    → In j (unseen r next count) ↔ ((next ≤ j) × (j < next + count) × (saw r j ≡ false))
unfolding unseen
In-unseen r next zero j = (λ m. absurd m, λ h. absurd (omega (arith, h.0, h.1)))
In-unseen r next (suc count) j =
    let kept = In-kept (not (saw r next)) j next (unseen r (next + 1) count) in
    let step = unseen_step r next count j (In-unseen r (next + 1) count j) in
    (λ m. step.0 (kept.0 m), λ h. kept.1 (step.1 h))

-- What has been seen was marked, or seen before.
saw-mark_all :
    (ks : List ℕ) (r : Reported) (j : ℕ)
    → IsWide r
    → j < r.planned
    → (saw (mark_all ks r) j ≡ true) ↔ (In j ks ⊎ (saw r j ≡ true))
unfolding mark_all
saw-mark_all [] r j w l = (λ h. inr h, λ h. elim h [ inl m ↦ absurd m | inr e ↦ e ])
saw-mark_all (k ∷ ks) r j w l =
    let rest = saw-mark_all ks (mark k r) j (mark-IsWide k r w) (rw (planned-mark k r) l) in
    let one = saw-mark k j r w in
    let e : (k ≡ j) ⊎ ((k == j) ≡ false) = elim (Bool-cases (k == j)) [
      | inl e ↦ inl ((==_iff k j).0 e)
      | inr n ↦ inr n
    ] in
    (
      λ h. elim (rest.0 h) [
        | inl m ↦ inl (inr m)
        | inr s ↦ elim e [ inl q ↦ inl (inl (sym q)) | inr n ↦ inr (ground (arith, one)) ]
      ],
      λ h. elim h [
        | inl m ↦ elim m [ inl q ↦ rest.1 (inr (ground (arith, one))) | inr k ↦ rest.1 (inl k) ]
        | inr s ↦ rest.1 (inr (ground (arith, one)))
      ],
    )

-- Each index that is marked for the first time is one fewer to come.
length-unseen-mark_all :
    (ks : List ℕ) (r : Reported) (issued : ℕ)
    → IsWide r
    → issued ≤ r.planned
    → All (λ k. k < issued) ks
    → IsDistinct ks
    → All (λ k. saw r k ≡ false) ks
    → length (unseen (mark_all ks r) 0 issued) + length ks ≡ length (unseen r 0 issued)
unfolding mark_all
length-unseen-mark_all [] r issued w l a d f = omega arith
length-unseen-mark_all (k ∷ ks) r issued w l a d f =
    let rest =
      length-unseen-mark_all ks (mark k r) issued (mark-IsWide k r w) (rw (planned-mark k r) l) a.1
        d.1 (still ks d.0 f.1) in
    let one = length-unseen-mark k r 0 issued w (omega (arith, a.0)) f.0 in
    ground (arith, rest, one, a.0)
  where
    still :
        (is : List ℕ)
        → ¬ In k is
        → All (λ i. saw r i ≡ false) is
        → All (λ i. saw (mark k r) i ≡ false) is
    still [] n h = tt
    still (i ∷ is) n h = (
      elim (Bool-cases (k == i)) [
        | inl e ↦ absurd (n (inl ((==_iff k i).0 e)))
        | inr e ↦ ground (arith, saw-mark k i r w, h.0)
      ],
      still is (λ m. n (inr m)) h.1,
    )

planned-mark_all : (ks : List ℕ) (r : Reported) → (mark_all ks r).planned ≡ r.planned
unfolding mark_all
planned-mark_all [] r = refl
planned-mark_all (k ∷ ks) r = planned-mark_all ks (mark k r) ∙ planned-mark k r

all_unseen :
    (r : Reported) (next count : ℕ)
    → ((j : ℕ) → saw r j ≡ false)
    → length (unseen r next count) ≡ count
unfolding unseen
all_unseen r next zero f = refl
all_unseen r next (suc count) f = ground (arith, f next, all_unseen r (next + 1) count f)

-- Of the probes that the counter issued, `abandoned` lists exactly those that are not among the
-- reported ones, and as many as are missing: when no probe is reported twice, and only issued ones,
-- the abandoned and the reported ones add up to the issued.
pub abandoned-mark_all :
    (planned issued : ℕ) (ks : List ℕ) (r : Reported)
    → reported_new planned ≡ some r
    → issued ≤ planned
    → All (λ k. k < issued) ks
    → IsDistinct ks
    → ((j : ℕ) → In j (abandoned (mark_all ks r) issued) ↔ ((j < issued) × ¬ In j ks))
      × (length (abandoned (mark_all ks r) issued) + length ks ≡ issued)
unfolding abandoned
abandoned-mark_all planned issued ks r new l a d =
    let (wide, size) = new-IsWide planned new in
    let unseen_all = λ (j : ℕ). saw-new planned j new in
    let within : issued ≤ r.planned = omega arith in
    let few : min issued (mark_all ks r).planned ≡ issued = omega (arith, planned-mark_all ks r) in
    let counted = length-unseen-mark_all ks r issued wide within a d (fresh unseen_all ks) in
    rw few (
      λ j. members wide unseen_all within j,
      omega (arith, counted, all_unseen r 0 issued unseen_all),
    )
  where
    fresh : ((j : ℕ) → saw r j ≡ false) → (is : List ℕ) → All (λ i. saw r i ≡ false) is
    fresh f [] = tt
    fresh f (i ∷ is) = (f i, fresh f is)

    members :
        IsWide r
        → ((j : ℕ) → saw r j ≡ false)
        → issued ≤ r.planned
        → (j : ℕ) → In j (unseen (mark_all ks r) 0 issued) ↔ ((j < issued) × ¬ In j ks)
    members wide f within j = (
      λ m.
          let (lo, hi, s) = (In-unseen (mark_all ks r) 0 issued j).0 m in
          (omega arith, λ k. (let t = (saw-mark_all ks r j wide (omega arith)).1 (inl k) in cc)),
      λ h. (In-unseen (mark_all ks r) 0 issued j).1 (
        omega arith,
        omega (arith, h.0),
        elim (Bool-cases (saw (mark_all ks r) j)) [
          | inl t ↦ elim ((saw-mark_all ks r j wide (omega (arith, h.0))).0 t) [
            | inl k ↦ absurd (h.1 k)
            | inr u ↦ cc (f j)
          ]
          | inr t ↦ t
        ],
      ),
    )
