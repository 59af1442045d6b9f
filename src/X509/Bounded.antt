-- ===== src/X509/Bounded.antt =====
-- What `parse` of src/x509.rs lets through of a peer's certificate.
use scanr.Common.{
  ◌≤◌, ◌<◌, ◌≡◌, ◌&&◌, Option, none, some, List, [], ◌∷◌, All, All-append, leb, ◌==◌, Bool-cases,
  length, length-append, arith, inl, inr,
}
use scanr.Common.Result.{Result, ok, err, bind-eq-ok, Ensures-ok}
use scanr.Common.Text.{Text}
use scanr.Net.Addr.{IpAddr, v4, v6, of_be}
use scanr.X509.{Bytes, Tlv, tlv, elements, max_string}
use scanr.X509.Names.{
  max_dn, max_names, Alternatives, general_name, add_name, add_names, names_from, alternative_names,
  read_value, read_extensions, extensions_from, extensions, san_value,
}
use scanr.X509.Leaf.{Leaf, read_rest, Parts, read_parts, leaf_of, parse}
use scanr.X509.Shown.{IsShown, printable-IsShown, serial_hex-IsShown}
use scanr.X509.Attributes.{ForSome, name-IsShown}
use scanr.X509.Algorithms.{sig_alg_name-IsShown, key-IsShown}

-- At most so many names are kept, each of them shown, and no more than are counted.
pub record AreKept (a : Alternatives) : Type 0 where
  pub few : length a.san ≤ max_names
  pub shown : All (IsShown max_string) a.san
  pub counted : length a.san ≤ a.san_count

-- What a leaf says is printable ASCII and bounded.
pub record IsBounded (leaf : Leaf) : Type 0 where
  pub subject : IsShown max_dn leaf.subject
  pub subject_cn : ForSome (IsShown max_string) leaf.subject_cn
  pub issuer : IsShown max_dn leaf.issuer
  pub alternatives : AreKept leaf.alternatives
  pub key : IsShown 24 leaf.key
  pub serial : IsShown 40 leaf.serial
  pub sig_alg : IsShown 36 leaf.sig_alg

module _ (show : IpAddr → Text) (show-IsShown : (ip : IpAddr) → IsShown max_string (show ip)) where
  one_name :
      (gn : Tlv)
      → (length (general_name show gn) ≤ 1) × All (IsShown max_string) (general_name show gn)
  one_name gn = elim (Bool-cases (gn.tag == 0x82)) [
    | inl e ↦ rw e (omega arith, (printable-IsShown gn.body, tt))
    | inr e ↦ elim (Bool-cases (gn.tag == 0x87 && length gn.body == 4)) [
      | inl k ↦ rw (e, k) (omega arith, (show-IsShown (v4 (of_be gn.body)), tt))
      | inr k ↦ elim (Bool-cases (gn.tag == 0x87 && length gn.body == 16)) [
        | inl j ↦ rw (e, k, j) (omega arith, (show-IsShown (v6 (of_be gn.body)), tt))
        | inr j ↦ rw (e, k, j) (omega arith, tt)
      ]
    ]
  ]

  add_name-AreKept : (a : Alternatives) (gn : Tlv) → AreKept a → AreKept (add_name show a gn)
  add_name-AreKept a gn h =
      let (one, shown) = one_name gn in
      elim (Bool-cases (leb max_names (length a.san))) [
        | inl e ↦
            rw e
              (record { few = h.few; shown = h.shown; counted = omega (arith, h.counted, h.few) })
        | inr e ↦
            (let sum = length-append a.san (general_name show gn) in
              let room : length a.san < max_names = ground (arith, e) in
              rw e (record {
                few = omega (arith, sum, one, room);
                shown = All-append (IsShown max_string) a.san (general_name show gn) h.shown shown;
                counted = omega (arith, sum, one, room, h.counted);
              }))
      ]

  add_names-AreKept :
      (a : Alternatives) (gns : List Tlv) → AreKept a → AreKept (add_names show a gns)
  add_names-AreKept a [] h = h
  add_names-AreKept a (gn ∷ gns) h =
      add_names-AreKept (add_name show a gn) gns (add_name-AreKept a gn h)

  names_from-AreKept :
      (m : Result Text (Tlv × Bytes)) (a : Alternatives) → AreKept a → AreKept (names_from show m a)
  names_from-AreKept (err e) a h = h
  names_from-AreKept (ok (sequence, r)) a h = elim (Bool-cases (sequence.tag == 0x30)) [
    | inl e ↦ rw e (add_names-AreKept a (elements sequence.body) h)
    | inr e ↦ rw e h
  ]

  read_value-AreKept :
      (v : Option Tlv) (later a : Alternatives)
      → AreKept later
      → AreKept a
      → AreKept (read_value show v later a)
  unfolding alternative_names
  read_value-AreKept none later a l h = l
  read_value-AreKept (some value) later a l h = elim (Bool-cases (value.tag == 0x04)) [
    | inl e ↦ rw e (names_from-AreKept (tlv value.body) a h)
    | inr e ↦ rw e h
  ]

  read_extensions-AreKept :
      (exts : List Tlv) (a : Alternatives) → AreKept a → AreKept (read_extensions show exts a)
  unfolding read_extensions
  read_extensions-AreKept [] a h = h
  read_extensions-AreKept (ext ∷ exts) a h =
      read_value-AreKept (san_value ext) (read_extensions show exts a) a
        (read_extensions-AreKept exts a h) h

  extensions_from-AreKept :
      (m : Result Text (Tlv × Bytes)) (a : Alternatives)
      → AreKept a
      → AreKept (extensions_from show m a)
  extensions_from-AreKept (err e) a h = h
  extensions_from-AreKept (ok (sequence, r)) a h =
      read_extensions-AreKept (elements sequence.body) a h

  read_rest-AreKept : (ts : List Tlv) (a : Alternatives) → AreKept a → AreKept (read_rest show ts a)
  unfolding read_rest extensions
  read_rest-AreKept [] a h = h
  read_rest-AreKept (t ∷ ts) a h = elim (Bool-cases (t.tag == 0xa3)) [
    | inl e ↦ rw e (extensions_from-AreKept (tlv t.body) a h)
    | inr e ↦ rw e (read_rest-AreKept ts a h)
  ]

  leaf_of-IsBounded : (p : Parts) → IsBounded (leaf_of show p)
  unfolding leaf_of
  leaf_of-IsBounded p =
      let start : Alternatives = record { san = []; san_count = 0 } in
      let (subject, cn) = name-IsShown p.subject.body in
      record {
        subject = subject;
        subject_cn = cn;
        issuer = (name-IsShown p.issuer.body).0;
        alternatives =
            read_rest-AreKept (elements p.rest) start
              (record { few = omega arith; shown = tt; counted = omega arith });
        key = key-IsShown p.spki.body;
        serial = serial_hex-IsShown p.serial.body;
        sig_alg = sig_alg_name-IsShown p.sig.body;
      }

  -- Whatever bytes a peer sends, in a leaf that `parse` reads from them every text is printable ASCII
  -- and bounded: the two names to 512 characters, the common name and each of at most 64 alternative
  -- names to 253, the serial number to 40, the key's name to 24 and the signature algorithm's to 36;
  -- and no more alternative names are kept than are counted. The text of an address, which is an
  -- argument, is taken to be printable and no longer than a name.
  pub parse-IsBounded : (der : Bytes) {leaf : Leaf} → parse show der ≡ ok leaf → IsBounded leaf
  unfolding parse
  parse-IsBounded der h =
      let (p, _, e) = bind-eq-ok (read_parts der) (λ p. ok (leaf_of show p)) h in
      Ensures-ok IsBounded (ok (leaf_of show p)) (leaf_of-IsBounded p) e
