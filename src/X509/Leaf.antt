-- ===== src/X509/Leaf.antt =====
-- src/x509.rs: `parse`.
use scanr.Common.{
  ℕ, ◌+◌, Bool, ◌&&◌, Option, none, List, [], ◌∷◌, leb, ◌==◌, if◌then◌else◌, length, get_or,
}
use scanr.Common.Int.{ℤ}
use scanr.Common.Result.{Result, ok, err, ◌>>=◌}
use scanr.Common.Text.{Text, codes, text_eq}
use scanr.Net.Addr.{IpAddr}
use scanr.X509.{Bytes, Tlv, tlv, expect, elements}
use scanr.X509.Fields.{time, serial_hex, sig_alg_name, key}
use scanr.X509.Names.{name, Alternatives, extensions}

pub data Validity : Type 0 where
  valid : Validity
  expired : Validity
  not_yet_valid : Validity

-- `alternatives` holds `san` and `san_count`
pub record Leaf : Type 0 where
  pub subject : Text
  pub subject_cn : Option Text
  pub issuer : Text
  pub self_signed : Bool
  pub not_before : ℤ
  pub not_after : ℤ
  pub alternatives : Alternatives
  pub key : Text
  pub version : ℕ
  pub serial : Text
  pub sig_alg : Text
  pub validity : Option Validity

-- the version in its element
unfoldable pub version_in : Bytes → ℕ
version_in body = elim (tlv body) [
  | err _ ↦ 1
  | ok (n, _) ↦
      let byte = get_or n.body 0 0 in
      if n.tag == 0x02 && length n.body == 1 && leb byte 2 then byte + 1 else 1
]

-- the version, and what stands behind it
unfoldable pub read_version : Bytes → ℕ × Bytes
unfolding version_in
read_version rest = elim (tlv rest) [
  | err _ ↦ (1, rest)
  | ok (v, r) ↦ if v.tag == 0xa0 then (version_in v.body, r) else (1, rest)
]

abbrev pub no_validity : {A : Type 0} → Result Text A → Result Text A
no_validity (ok a) = ok a
no_validity (err _) = err (codes "no validity")

-- what `parse` takes apart before it fills in the leaf
pub record Parts : Type 0 where
  pub version : ℕ
  pub serial : Tlv
  pub sig : Tlv
  pub issuer : Tlv
  pub subject : Tlv
  pub spki : Tlv
  pub rest : Bytes
  pub not_before : ℤ
  pub not_after : ℤ

unfoldable pub read_parts : Bytes → Result Text Parts
unfolding read_version
read_parts der = do
  (cert, _) ← expect der 0x30 (codes "not a certificate")
  (tbs, _) ← expect cert.body 0x30 (codes "no tbsCertificate")
  (serial, r) ← expect (read_version tbs.body).1 0x02 (codes "no serial number")
  (sig, r) ← expect r 0x30 (codes "no signature algorithm")
  (issuer, r) ← expect r 0x30 (codes "no issuer")
  (validity, r) ← expect r 0x30 (codes "no validity")
  (subject, r) ← expect r 0x30 (codes "no subject")
  (spki, rest) ← expect r 0x30 (codes "no public key")
  (before, r) ← no_validity (tlv validity.body)
  (after, _) ← no_validity (tlv r)
  not_before ← time before
  not_after ← time after
  ok (record {
    version = (read_version tbs.body).0;
    serial = serial;
    sig = sig;
    issuer = issuer;
    subject = subject;
    spki = spki;
    rest = rest;
    not_before = not_before;
    not_after = not_after;
  })

module _ (show : IpAddr → Text) where
  -- the first extensions among the last elements
  unfoldable pub read_rest : List Tlv → Alternatives → Alternatives
  read_rest [] a = a
  read_rest (t ∷ ts) a = if t.tag == 0xa3 then extensions show t.body a else read_rest ts a

  unfoldable pub leaf_of : Parts → Leaf
  unfolding read_rest
  leaf_of p = record {
    subject = (name p.subject.body).0;
    subject_cn = (name p.subject.body).1;
    issuer = (name p.issuer.body).0;
    self_signed = text_eq p.issuer.raw p.subject.raw;
    not_before = p.not_before;
    not_after = p.not_after;
    alternatives = read_rest (elements p.rest) (record { san = []; san_count = 0 });
    key = key p.spki.body;
    version = p.version;
    serial = serial_hex p.serial.body;
    sig_alg = sig_alg_name p.sig.body;
    validity = none;
  }

  unfoldable pub parse : Bytes → Result Text Leaf
  unfolding read_parts leaf_of
  parse der = do p ← read_parts der; ok (leaf_of p)
