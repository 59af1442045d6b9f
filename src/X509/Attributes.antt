-- ===== src/X509/Attributes.antt =====
-- A distinguished name that src/x509.rs reads is printable and bounded.
use scanr.Common.{
  refl, not, ◌||◌, Option, none, some, List, [], ◌∷◌, ◌++◌, All, leb, ◌==◌, if◌then◌else◌,
  Bool-cases, length, inl, inr,
}
use scanr.Common.Result.{Result, ok, err}
use scanr.Common.Text.{Text, codes, text_eq, is_empty}
use scanr.X509.{Bytes, Tlv, tlv, elements, printable, max_string}
use scanr.X509.Names.{
  max_dn, attribute_keys, arm_of, keyed, attribute_value, attribute_from, attribute, Dn, first_cn,
  add_attribute, add_attributes, add_sets, name,
}
use scanr.X509.Shown.{
  IsPrintable, IsShown, literal-IsPrintable, either, IsPrintable-append, take-IsShown,
  printable-IsShown,
}

abbrev pub ForSome : {A : Type 0} → (A → Type 0) → Option A → Type 0
ForSome P none = Unit
ForSome P (some a) = P a

-- an attribute's key and text
record IsAttribute (kt : Text × Text) : Type 0 where
  pub key : IsPrintable kt.0
  pub text : IsShown max_string kt.1

arm_of-printable :
    (oid : Bytes) (arms : List (Bytes × Text))
    → All (λ (arm : Bytes × Text). IsPrintable arm.1) arms
    → ForSome IsPrintable (arm_of oid arms)
arm_of-printable oid [] h = tt
arm_of-printable oid ((b, s) ∷ arms) h = elim (Bool-cases (text_eq oid b)) [
  | inl e ↦ rw e h.0
  | inr e ↦ rw e (arm_of-printable oid arms h.1)
]

keys-printable : All (λ (arm : Bytes × Text). IsPrintable arm.1) attribute_keys
keys-printable =
    let cn = literal-IsPrintable (codes "CN") refl in
    let o = literal-IsPrintable (codes "O") refl in
    let ou = literal-IsPrintable (codes "OU") refl in
    let c = literal-IsPrintable (codes "C") refl in
    let st = literal-IsPrintable (codes "ST") refl in
    let l = literal-IsPrintable (codes "L") refl in (cn, (o, (ou, (c, (st, (l, tt))))))

keyed-IsAttribute :
    (k : Option Text) (text : Text)
    → ForSome IsPrintable k
    → IsShown max_string text
    → ForSome IsAttribute (keyed k text)
keyed-IsAttribute none text h t = tt
keyed-IsAttribute (some k) text h t = record { key = h; text = t }

attribute_value-IsAttribute :
    (atv oid : Tlv) (m : Result Text (Tlv × Bytes))
    → ForSome IsAttribute (attribute_value atv oid m)
attribute_value-IsAttribute atv oid (err e) = tt
attribute_value-IsAttribute atv oid (ok (value, r)) =
    elim (Bool-cases (not (atv.tag == 0x30) || not (oid.tag == 0x06))) [
      | inl e ↦ rw e tt
      | inr e ↦ rw e (
          keyed-IsAttribute (arm_of oid.body attribute_keys) (printable value.body)
            (arm_of-printable oid.body attribute_keys keys-printable)
            (printable-IsShown value.body))
    ]

attribute_from-IsAttribute :
    (atv : Tlv) (m : Result Text (Tlv × Bytes)) → ForSome IsAttribute (attribute_from atv m)
attribute_from-IsAttribute atv (err e) = tt
attribute_from-IsAttribute atv (ok (oid, r)) = attribute_value-IsAttribute atv oid (tlv r)

pub record IsDn (d : Dn) : Type 0 where
  pub dn : IsPrintable d.dn
  pub cn : ForSome (IsShown max_string) d.cn

first_cn-IsShown :
    (cn : Option Text) (k text : Text)
    → ForSome (IsShown max_string) cn
    → IsShown max_string text
    → ForSome (IsShown max_string) (first_cn cn k text)
first_cn-IsShown (some cn) k text h t = h
first_cn-IsShown none k text h t = elim (Bool-cases (text_eq k (codes "CN"))) [
  | inl e ↦ rw e t
  | inr e ↦ rw e tt
]

-- the text with an attribute behind it
appended :
    (dn k text : Text)
    → IsPrintable dn
    → IsPrintable k
    → IsPrintable text
    → IsPrintable (dn ++ (if is_empty dn then [] else codes ", ") ++ k ++ b'=' ∷ text)
appended dn k text hd hk ht =
    let separator = if is_empty dn then [] else codes ", " in
    let s : IsPrintable separator =
      either IsPrintable (is_empty dn) [] (codes ", ") (literal-IsPrintable [] refl)
        (literal-IsPrintable (codes ", ") refl) in
    IsPrintable-append (dn ++ separator ++ k) (b'=' ∷ text)
      (IsPrintable-append (dn ++ separator) k (IsPrintable-append dn separator hd s) hk)
      (IsPrintable-append (codes "=") text (literal-IsPrintable (codes "=") refl) ht)

add_attribute-IsDn :
    (d : Dn) (kt : Option (Text × Text))
    → IsDn d
    → ForSome IsAttribute kt
    → IsDn (add_attribute d kt)
add_attribute-IsDn d none h a = h
add_attribute-IsDn d (some (k, text)) h a =
    let cn = first_cn-IsShown d.cn k text h.cn a.text in
    elim (Bool-cases (leb max_dn (length d.dn))) [
      | inl e ↦ rw e (record { dn = h.dn; cn = cn })
      | inr e ↦ rw e (record { dn = appended d.dn k text h.dn a.key a.text.clear; cn = cn })
    ]

add_attributes-IsDn : (d : Dn) (atvs : List Tlv) → IsDn d → IsDn (add_attributes d atvs)
unfolding add_attributes attribute
add_attributes-IsDn d [] h = h
add_attributes-IsDn d (atv ∷ atvs) h =
    add_attributes-IsDn (add_attribute d (attribute atv)) atvs
      (add_attribute-IsDn d (attribute atv) h (attribute_from-IsAttribute atv (tlv atv.body)))

add_sets-IsDn : (d : Dn) (sets : List Tlv) → IsDn d → IsDn (add_sets d sets)
unfolding add_sets
add_sets-IsDn d [] h = h
add_sets-IsDn d (set ∷ sets) h = elim (Bool-cases (set.tag == 0x31)) [
  | inl e ↦
      (let inner = add_attributes d (elements set.body) in
        rw e (add_sets-IsDn inner sets (add_attributes-IsDn d (elements set.body) h)))
  | inr e ↦ rw e (add_sets-IsDn d sets h)
]

pub name-IsShown :
    (body : Bytes) → IsShown max_dn (name body).0 × ForSome (IsShown max_string) (name body).1
unfolding name
name-IsShown body =
    let start : Dn = record { dn = []; cn = none } in
    let h =
      add_sets-IsDn start (elements body) (record { dn = literal-IsPrintable [] refl; cn = tt }) in
    (take-IsShown max_dn (add_sets start (elements body)).dn h.dn, h.cn)
