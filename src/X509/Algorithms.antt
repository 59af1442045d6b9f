-- ===== src/X509/Algorithms.antt =====
-- The names of the algorithms in src/x509.rs are printable and bounded.
use scanr.Common.{
  ℕ, ◌*◌, ◌%◌, ◌^◌, ◌≡◌, refl, true, not, ◌||◌, Option, none, some, ◌++◌, All-map, ◌==◌, length,
  take, arith,
}
use scanr.Common.Result.{Result, ok, err}
use scanr.Common.Text.{Text, codes, decimal, is_ascii_digit, text_eq, strip_prefix}
use scanr.Common.Text.Laws.{decimal-IsDigits, length-decimal}
use scanr.X509.{Bytes, Tlv, tlv}
use scanr.X509.Fields.{
  hex_bytes, sig_alg_name, sig_alg_of, named_as, rsa_names, ecdsa_names, other_names, curve_names,
  edwards_names, name_after, only_byte, rsa_prefix, ecdsa_prefix, key, key_under, key_in, key_from,
  rsa_key, ec_key, modulus, skip_zeros, oid_rsa, oid_ec,
}
use scanr.X509.Shown.{
  IsPrintable, IsShown, literal-IsShown, either, named_as-IsShown, append-IsShown,
  hex_bytes-IsShown,
}

decimal-IsPrintable : (n : ℕ) → IsPrintable (decimal n)
unfolding IsPrintable is_ascii_digit
decimal-IsPrintable n =
    All-map (λ (c : ℕ) (h : is_ascii_digit c ≡ true). (ground (arith, h), ground (arith, h)))
      (decimal n) (decimal-IsDigits n)

name_after-IsShown : (rsa ecdsa : Option ℕ) (oid : Bytes) → IsShown 36 (name_after rsa ecdsa oid)
name_after-IsShown (some last) ecdsa oid =
    named_as-IsShown 36 ◌==◌ last rsa_names (codes "rsa") refl
      (literal-IsShown 36 (codes "rsa") refl)
name_after-IsShown none (some last) oid =
    named_as-IsShown 36 ◌==◌ last ecdsa_names (codes "ecdsa") refl
      (literal-IsShown 36 (codes "ecdsa") refl)
name_after-IsShown none none oid =
    named_as-IsShown 36 text_eq oid other_names (codes "oid:" ++ hex_bytes (take 16 oid)) refl (
      append-IsShown 4 32 (codes "oid:") (hex_bytes (take 16 oid))
        (literal-IsShown 4 (codes "oid:") refl) (hex_bytes-IsShown 16 oid))

unknown-IsShown : IsShown 36 (codes "unknown")
unknown-IsShown = literal-IsShown 36 (codes "unknown") refl

sig_alg_of-IsShown : (m : Result Text (Tlv × Bytes)) → IsShown 36 (sig_alg_of m)
sig_alg_of-IsShown (err e) = unknown-IsShown
sig_alg_of-IsShown (ok (oid, r)) =
    either (IsShown 36) (not (oid.tag == 0x06)) (codes "unknown") _ unknown-IsShown (
      name_after-IsShown (only_byte (strip_prefix rsa_prefix oid.body))
        (only_byte (strip_prefix ecdsa_prefix oid.body)) oid.body)

pub sig_alg_name-IsShown : (body : Bytes) → IsShown 36 (sig_alg_name body)
unfolding sig_alg_name
sig_alg_name-IsShown body = sig_alg_of-IsShown (tlv body)

none_known-IsShown : IsShown 24 (codes "unknown")
none_known-IsShown = literal-IsShown 24 (codes "unknown") refl

rsa_key-IsShown : (m : Option Bytes) → IsShown 24 (rsa_key m)
rsa_key-IsShown (some m) =
    let bits = length (skip_zeros m) * 8 % 2 ^ 64 in
    append-IsShown 4 20 (codes "rsa-") (decimal bits) (literal-IsShown 4 (codes "rsa-") refl)
      (record { short = length-decimal 19 bits (omega arith); clear = decimal-IsPrintable bits })
rsa_key-IsShown none = literal-IsShown 24 (codes "rsa") refl

ec_key-IsShown : (params : Result Text (Tlv × Bytes)) → IsShown 24 (ec_key params)
ec_key-IsShown (err e) = literal-IsShown 24 (codes "ec") refl
ec_key-IsShown (ok (p, r)) =
    named_as-IsShown 24 text_eq p.body curve_names (codes "ec") refl
      (literal-IsShown 24 (codes "ec") refl)

key_under-IsShown : (oid params bits : Bytes) → IsShown 24 (key_under oid params bits)
key_under-IsShown oid params bits =
    let named = named_as text_eq oid edwards_names (codes "unknown") in
    either (IsShown 24) (text_eq oid oid_rsa) (rsa_key (modulus bits)) _
      (rsa_key-IsShown (modulus bits))
      (either (IsShown 24) (text_eq oid oid_ec) (ec_key (tlv params)) named
        (ec_key-IsShown (tlv params))
        (named_as-IsShown 24 text_eq oid edwards_names (codes "unknown") refl none_known-IsShown))

key_in-IsShown :
    (alg : Tlv) (bits oid : Result Text (Tlv × Bytes)) → IsShown 24 (key_in alg bits oid)
key_in-IsShown alg (err e) oid = none_known-IsShown
key_in-IsShown alg (ok (bits, r)) (err e) = none_known-IsShown
key_in-IsShown alg (ok (bits, r)) (ok (oid, params)) =
    either (IsShown 24) (not (alg.tag == 0x30) || not (bits.tag == 0x03)) (codes "unknown") _
      none_known-IsShown (key_under-IsShown oid.body params bits.body)

key_from-IsShown : (m : Result Text (Tlv × Bytes)) → IsShown 24 (key_from m)
key_from-IsShown (err e) = none_known-IsShown
key_from-IsShown (ok (alg, r)) = key_in-IsShown alg (tlv r) (tlv alg.body)

pub key-IsShown : (spki : Bytes) → IsShown 24 (key spki)
unfolding key
key-IsShown spki = key_from-IsShown (tlv spki)
