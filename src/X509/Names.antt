-- ===== src/X509/Names.antt =====
-- src/x509.rs: distinguished names, and the alternative names of the extensions.
use scanr.Common.{
  ℕ, ◌+◌, not, ◌&&◌, ◌||◌, Option, none, some, List, [], ◌∷◌, ◌++◌, leb, ◌==◌, if◌then◌else◌,
  length, take, min,
}
use scanr.Common.Result.{Result, ok, err}
use scanr.Common.Text.{Text, codes, text_eq, is_empty}
use scanr.Net.Addr.{IpAddr, v4, v6, of_be}
use scanr.X509.{Bytes, Tlv, tlv, elements, printable}

abbrev pub max_dn : ℕ
max_dn = 512

abbrev pub max_names : ℕ
max_names = 64

abbrev pub oid_cn : Bytes
oid_cn = 0x55 ∷ 0x04 ∷ 0x03 ∷ []

abbrev pub attribute_keys : List (Bytes × Text)
attribute_keys =
    (oid_cn, codes "CN")
    ∷ (0x55 ∷ 0x04 ∷ 0x0a ∷ [], codes "O")
    ∷ (0x55 ∷ 0x04 ∷ 0x0b ∷ [], codes "OU")
    ∷ (0x55 ∷ 0x04 ∷ 0x06 ∷ [], codes "C")
    ∷ (0x55 ∷ 0x04 ∷ 0x08 ∷ [], codes "ST")
    ∷ (0x55 ∷ 0x04 ∷ 0x07 ∷ [], codes "L")
    ∷ []

abbrev pub arm_of : Bytes → List (Bytes × Text) → Option Text
arm_of oid [] = none
arm_of oid ((b, s) ∷ arms) = if text_eq oid b then some s else arm_of oid arms

abbrev pub keyed : Option Text → Text → Option (Text × Text)
keyed none text = none
keyed (some k) text = some (k, text)

abbrev pub attribute_value : Tlv → Tlv → Result Text (Tlv × Bytes) → Option (Text × Text)
attribute_value atv oid (err _) = none
attribute_value atv oid (ok (value, _)) =
    if not (atv.tag == 0x30) || not (oid.tag == 0x06)
    then none
    else keyed (arm_of oid.body attribute_keys) (printable value.body)

abbrev pub attribute_from : Tlv → Result Text (Tlv × Bytes) → Option (Text × Text)
attribute_from atv (err _) = none
attribute_from atv (ok (oid, r)) = attribute_value atv oid (tlv r)

-- the key and the text of an attribute, where the loop does not go on without it
unfoldable pub attribute : Tlv → Option (Text × Text)
attribute atv = attribute_from atv (tlv atv.body)

-- the name so far, and the first common name
pub record Dn : Type 0 where
  pub dn : Text
  pub cn : Option Text

abbrev pub first_cn : Option Text → Text → Text → Option Text
first_cn (some cn) k text = some cn
first_cn none k text = if text_eq k (codes "CN") then some text else none

abbrev pub add_attribute : Dn → Option (Text × Text) → Dn
add_attribute d none = d
add_attribute d (some (k, text)) =
    let cn' = first_cn d.cn k text in
    let separator = if is_empty d.dn then [] else codes ", " in
    if leb max_dn (length d.dn)
    then record d { cn = cn' }
    else record { dn = d.dn ++ separator ++ k ++ b'=' ∷ text; cn = cn' }

unfoldable pub add_attributes : Dn → List Tlv → Dn
unfolding attribute
add_attributes d [] = d
add_attributes d (atv ∷ atvs) = add_attributes (add_attribute d (attribute atv)) atvs

unfoldable pub add_sets : Dn → List Tlv → Dn
add_sets d [] = d
add_sets d (set ∷ sets) =
    let inner = add_attributes d (elements set.body) in
    add_sets (if set.tag == 0x31 then inner else d) sets

-- The name is ASCII, so that its length in bytes is the number of its characters.
unfoldable pub name : Bytes → Text × Option Text
unfolding add_sets
name body =
    let d = add_sets (record { dn = []; cn = none }) (elements body) in (take max_dn d.dn, d.cn)

-- the alternative names kept, and the count of all
pub record Alternatives : Type 0 where
  pub san : List Text
  pub san_count : ℕ

abbrev pub saturating_add : ℕ → ℕ
saturating_add n = min (n + 1) 4_294_967_295

abbrev pub after_critical : Tlv → Result Text (Tlv × Bytes) → Option Tlv
after_critical value (err _) = if value.tag == 0x01 then none else some value
after_critical value (ok (v, _)) = if value.tag == 0x01 then some v else some value

abbrev pub value_from : Result Text (Tlv × Bytes) → Option Tlv
value_from (err _) = none
value_from (ok (value, r)) = after_critical value (tlv r)

abbrev pub san_from : Result Text (Tlv × Bytes) → Option Tlv
san_from (err _) = none
san_from (ok (oid, r)) =
    if not (oid.tag == 0x06) || not (text_eq oid.body (0x55 ∷ 0x1d ∷ 0x11 ∷ []))
    then none
    else value_from (tlv r)

-- the value of the extension, where the loop ends with it
unfoldable pub san_value : Tlv → Option Tlv
san_value ext = san_from (tlv ext.body)

-- `show` is `Display` of an address.
module _ (show : IpAddr → Text) where
  abbrev pub general_name : Tlv → List Text
  general_name gn =
      if gn.tag == 0x82
      then printable gn.body ∷ []
      else if gn.tag == 0x87 && length gn.body == 4
      then show (v4 (of_be gn.body)) ∷ []
      else if gn.tag == 0x87 && length gn.body == 16
      then show (v6 (of_be gn.body)) ∷ []
      else []

  abbrev pub add_name : Alternatives → Tlv → Alternatives
  add_name a gn = record {
    san = if leb max_names (length a.san) then a.san else a.san ++ general_name gn;
    san_count = saturating_add a.san_count;
  }

  abbrev pub add_names : Alternatives → List Tlv → Alternatives
  add_names a [] = a
  add_names a (gn ∷ gns) = add_names (add_name a gn) gns

  abbrev pub names_from : Result Text (Tlv × Bytes) → Alternatives → Alternatives
  names_from (err _) a = a
  names_from (ok (sequence, _)) a =
      if sequence.tag == 0x30 then add_names a (elements sequence.body) else a

  unfoldable pub alternative_names : Bytes → Alternatives → Alternatives
  alternative_names body a = names_from (tlv body) a

  -- the loop over the extensions, with the value of the first one and what the later ones give
  abbrev pub read_value : Option Tlv → Alternatives → Alternatives → Alternatives
  read_value none later a = later
  read_value (some value) later a = if value.tag == 0x04 then alternative_names value.body a else a

  unfoldable pub read_extensions : List Tlv → Alternatives → Alternatives
  unfolding san_value
  read_extensions [] a = a
  read_extensions (ext ∷ exts) a = read_value (san_value ext) (read_extensions exts a) a

  abbrev pub extensions_from : Result Text (Tlv × Bytes) → Alternatives → Alternatives
  extensions_from (err _) a = a
  extensions_from (ok (sequence, _)) a = read_extensions (elements sequence.body) a

  unfoldable pub extensions : Bytes → Alternatives → Alternatives
  extensions body a = extensions_from (tlv body) a
