-- ===== src/Output/Span/Absorb.antt =====
-- `absorb` of src/output/span.rs puts an outcome into its class or leaves the classes as they are.
use scanr.Common.{
  ℕ, ◌≤◌, ◌<◌, ◌≡◌, refl, ◌↔◌, ◌⊎◌, inl, inr, true, false, not, ◌&&◌, ◌||◌, length, leb, Bool-cases,
  arith,
}
use scanr.Output.Record.{ProbeRecord}
use scanr.Output.Span.{GroupKey, Spans, max_groups, key_of, is_bulk, contains_key, add, absorb}
use scanr.Output.Span.Classes.{Holds, AreDistinct, add-Holds, AreDistinct-add, length-add}
use scanr.Output.Span.Keys.{
  IsBulk, is_bulk-IsBulk, IsBulk-is_bulk, Has, contains_key-Has, Has-contains_key,
}

-- The class of an outcome: its state, source and reason, how many attempts it took, and by which member of a
-- pool.
pub record IsClassOf (T : Type 0) (r : ProbeRecord T) (k : GroupKey) : Type 0 where
  pub state : k.state ≡ r.outcome.state
  pub source : k.source ≡ r.outcome.source
  pub reason : k.reason ≡ r.outcome.reason
  pub attempts : k.attempts ≡ r.attempts
  pub via : k.via ≡ r.outcome.via

class_of : (T : Type 0) (r : ProbeRecord T) (k : GroupKey) → (k ≡ key_of r) ↔ IsClassOf T r k
class_of T r k = (
  λ e. rw e (record { state = refl; source = refl; reason = refl; attempts = refl; via = refl }),
  λ c.
      (let state = c.state in
        let source = c.source in
        let reason = c.reason in let attempts = c.attempts in let via = c.via in cc),
)

-- The outcome belongs to a class that is held, or there is room for its class.
abbrev pub HasRoom : {T : Type 0} → ProbeRecord T → Spans → Type 0
HasRoom {T} r s =
    ((k : GroupKey) × IsClassOf T r k × Has k s.groups) ⊎ (length s.groups < max_groups)

-- What has to hold for an outcome to be taken.
pub record IsWelcome (T : Type 0) (index : ℕ) (r : ProbeRecord T) (s : Spans) : Type 0 where
  pub bulk : IsBulk T r
  pub spared : s.exhausted ≡ false
  pub within : index < s.planned
  pub room : HasRoom r s

-- An outcome that was taken: its index is added to its own class, and every other class is as it was.
pub record IsAbsorbed (T : Type 0) (index : ℕ) (r : ProbeRecord T) (s s' : Spans) : Type 0 where
  pub welcome : IsWelcome T index r s
  pub indices :
      (k : GroupKey) (j : ℕ)
      → Holds k j s'.groups ↔ ((IsClassOf T r k × (j ≡ index)) ⊎ Holds k j s.groups)
  pub distinct : AreDistinct s'.groups
  pub bounded : length s'.groups ≤ max_groups
  pub planned : s'.planned ≡ s.planned
  pub spared : s'.exhausted ≡ false

-- An outcome that was refused: the classes are as they were, and nothing more is taken once there was no room.
pub record IsRefused (T : Type 0) (index : ℕ) (r : ProbeRecord T) (s s' : Spans) : Type 0 where
  pub unwelcome : ¬ IsWelcome T index r s
  pub groups : s'.groups ≡ s.groups
  pub planned : s'.planned ≡ s.planned
  pub exhausted :
      (s'.exhausted ≡ true)
      ↔ ((s.exhausted ≡ true) ⊎ (IsBulk T r × (index < s.planned) × (¬ HasRoom r s)))

module _ (T : Type 0) (index : ℕ) (r : ProbeRecord T) (s : Spans) where
  roomy :
      (not (contains_key (key_of r) s.groups) && leb max_groups (length s.groups)) ≡ false
      → HasRoom r s
  roomy h = elim (Bool-cases (contains_key (key_of r) s.groups)) [
    | inl c ↦
        inl (key_of r, (class_of T r (key_of r)).0 refl, contains_key-Has (key_of r) s.groups c)
    | inr c ↦ (let m = rw c at h in inr (ground (arith, m)))
  ]

  full :
      (not (contains_key (key_of r) s.groups) && leb max_groups (length s.groups)) ≡ true
      → ¬ HasRoom r s
  full h (inl (k, c, m)) =
      let same : k ≡ key_of r = (class_of T r k).1 c in
      let there : Has (key_of r) s.groups = rw same at m in
      let held = Has-contains_key (key_of r) s.groups there in ground (arith, h, held)
  full h (inr l) = ground (arith, h, l)

  taken :
      length s.groups ≤ max_groups
      → AreDistinct s.groups
      → (s.exhausted || not (is_bulk r) || leb s.planned index) ≡ false
      → (not (contains_key (key_of r) s.groups) && leb max_groups (length s.groups)) ≡ false
      → IsAbsorbed T index r s (record s { groups = add (key_of r) index s.groups })
  taken l d h k = record {
    welcome = record {
      bulk = is_bulk-IsBulk T r (ground (arith, h));
      spared = ground (arith, h);
      within = ground (arith, h);
      room = roomy k;
    };
    indices = λ k' j.
        (let m = add-Holds (key_of r) k' index j s.groups in
          (
            λ x. elim (m.0 x) [ inl q ↦ inl ((class_of T r k').0 q.0, q.1) | inr y ↦ inr y ],
            λ x. elim x [ inl q ↦ m.1 (inl ((class_of T r k').1 q.0, q.1)) | inr y ↦ m.1 (inr y) ],
          ));
    distinct = AreDistinct-add (key_of r) index s.groups d;
    bounded = elim (Bool-cases (contains_key (key_of r) s.groups)) [
      | inl c ↦
          (let n = length-add (key_of r) index s.groups in let m = rw c at n in omega (arith, m))
      | inr c ↦
          (let n = length-add (key_of r) index s.groups in
            let m = rw c at n in
            let room : leb max_groups (length s.groups) ≡ false = rw c at k in ground (arith, m))
    ];
    planned = refl;
    spared = ground (arith, h);
  }

  turned_away :
      (s.exhausted || not (is_bulk r) || leb s.planned index) ≡ true → IsRefused T index r s s
  turned_away h = record {
    unwelcome =
        λ w. (let b = IsBulk-is_bulk T r w.bulk in ground (arith, h, b, w.spared, w.within));
    groups = refl;
    planned = refl;
    exhausted = (
      λ e. inl e,
      λ m. elim m [
        | inl e ↦ e
        | inr (b, l, n) ↦ (let bulk = IsBulk-is_bulk T r b in ground (arith, h, bulk, l))
      ],
    );
  }

  no_room :
      (s.exhausted || not (is_bulk r) || leb s.planned index) ≡ false
      → (not (contains_key (key_of r) s.groups) && leb max_groups (length s.groups)) ≡ true
      → IsRefused T index r s (record s { exhausted = true })
  no_room h k = record {
    unwelcome = λ w. full k w.room;
    groups = refl;
    planned = refl;
    exhausted =
        (λ e. inr (is_bulk-IsBulk T r (ground (arith, h)), ground (arith, h), full k), λ m. refl);
  }

  -- With at most 64 classes held, of different keys: an outcome is taken exactly when it is bulk (closed or
  -- filtered, without pressure, all of its attempts alike), when nothing was refused for want of room before,
  -- when its index is planned, and when its class is held or there is room for it. It is then added to the class
  -- of its state, source, reason, attempts and pool member and to no other, and the classes are still distinct
  -- and at most 64. Otherwise they stay as they are, and the spans are closed when only room was missing.
  pub absorb-IsAbsorbed :
      length s.groups ≤ max_groups
      → AreDistinct s.groups
      → (((absorb T index r s).0 ≡ true) × IsAbsorbed T index r s (absorb T index r s).1)
        ⊎ (((absorb T index r s).0 ≡ false) × IsRefused T index r s (absorb T index r s).1)
  unfolding absorb
  absorb-IsAbsorbed l d =
      elim (Bool-cases (s.exhausted || not (is_bulk r) || leb s.planned index)) [
        | inl h ↦ rw h (inr (refl, turned_away h))
        | inr h ↦
            rw h
              (elim (Bool-cases
                (not (contains_key (key_of r) s.groups) && leb max_groups (length s.groups))) [
                  | inl k ↦ rw k (inr (refl, no_room h k))
                  | inr k ↦ rw k (inl (refl, taken l d h k))
                ])
      ]
