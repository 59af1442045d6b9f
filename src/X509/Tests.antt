-- ===== src/X509/Tests.antt =====
-- Certificates and times that src/x509.rs reads.
use scanr.Common.{ℕ, ◌≡◌, refl, true, none, some, List, [], ◌∷◌, map, arith}
use scanr.Common.Int.{pos, ◌+ℤ◌, ◌-ℤ◌, times, div_euclid}
use scanr.Common.Result.{ok}
use scanr.Common.Text.{Text, codes, text_eq, is_ascii_digit, strip_prefix, all_digits}
use scanr.Net.Addr.{IpAddr, v4, v6, of_be}
use scanr.Timefmt.{days_from_civil}
use scanr.X509.{
  Bytes, length_of, tlv_with, tlv, expect, visited_elements, elements, printable, max_string,
}
use scanr.X509.Fields.{
  time_with, time, digits_value, hex_bytes, serial_hex, sig_alg_name, modulus, key,
}
use scanr.X509.Names.{
  attribute, add_attributes, add_sets, name, alternative_names, san_value, read_extensions,
  extensions,
}
use scanr.X509.Leaf.{Leaf, version_in, read_version, read_rest, read_parts, leaf_of, parse}
use scanr.Common.Text.{ends_with}
use scanr.Common.Text.Utf8.{as_bytes}
use scanr.X509.Summary.{validity_at, weak_hash, summary_parts, summary}
use scanr.X509.Plain.{IsPlain, summary-IsPlain}
use scanr.X509.Element.{IsVisit, elements-IsVisit}
use scanr.X509.Encoding.{encode_all, element_of, AllShort, elements-encode_all}
use scanr.X509.Shown.{IsShown, literal-IsPrintable}
use scanr.X509.Bounded.{IsBounded, parse-IsBounded}

-- a certificate of two names, one of which holds a bell, with an Ed25519 key
abbrev certificate : Bytes
certificate =
    48 ∷ 122 ∷ 48 ∷ 120 ∷ 160 ∷ 3 ∷ 2 ∷ 1 ∷ 2 ∷ 2 ∷ 2 ∷ 0 ∷ 156 ∷ 48 ∷ 5 ∷ 6 ∷ 3 ∷ 43 ∷ 101 ∷ 112
    ∷ 48 ∷ 14 ∷ 49 ∷ 12 ∷ 48 ∷ 10 ∷ 6 ∷ 3 ∷ 85 ∷ 4 ∷ 3 ∷ 12 ∷ 3 ∷ 110 ∷ 97 ∷ 115 ∷ 48 ∷ 32 ∷ 23 ∷ 13
    ∷ 50 ∷ 52 ∷ 48 ∷ 50 ∷ 50 ∷ 57 ∷ 49 ∷ 50 ∷ 48 ∷ 48 ∷ 48 ∷ 48 ∷ 90 ∷ 24 ∷ 15 ∷ 50 ∷ 48 ∷ 53 ∷ 48
    ∷ 48 ∷ 49 ∷ 48 ∷ 49 ∷ 48 ∷ 48 ∷ 48 ∷ 48 ∷ 48 ∷ 48 ∷ 90 ∷ 48 ∷ 14 ∷ 49 ∷ 12 ∷ 48 ∷ 10 ∷ 6 ∷ 3
    ∷ 85 ∷ 4 ∷ 3 ∷ 12 ∷ 3 ∷ 110 ∷ 97 ∷ 115 ∷ 48 ∷ 11 ∷ 48 ∷ 5 ∷ 6 ∷ 3 ∷ 43 ∷ 101 ∷ 112 ∷ 3 ∷ 2 ∷ 0
    ∷ 1 ∷ 163 ∷ 23 ∷ 48 ∷ 21 ∷ 48 ∷ 19 ∷ 6 ∷ 3 ∷ 85 ∷ 29 ∷ 17 ∷ 4 ∷ 12 ∷ 48 ∷ 10 ∷ 130 ∷ 2 ∷ 97 ∷ 7
    ∷ 135 ∷ 4 ∷ 192 ∷ 0 ∷ 2 ∷ 1 ∷ []

abbrev shown_as : IpAddr → Text
shown_as (v4 n) = codes "192.0.2.1"
shown_as (v6 n) = codes "2001:db8::1"

shown_as-IsShown : (ip : IpAddr) → IsShown max_string (shown_as ip)
shown_as-IsShown (v4 n) = record {
  short = omega arith;
  clear = literal-IsPrintable (codes "192.0.2.1") refl;
}
shown_as-IsShown (v6 n) = record {
  short = omega arith;
  clear = literal-IsPrintable (codes "2001:db8::1") refl;
}

abbrev leaf : Leaf
leaf = record {
  subject = codes "CN=nas";
  subject_cn = some (codes "nas");
  issuer = codes "CN=nas";
  self_signed = true;
  not_before = pos 1_709_208_000;
  not_after = pos 2_524_608_000;
  alternatives = record { san = codes "a." ∷ codes "192.0.2.1" ∷ []; san_count = 2 };
  key = codes "ed25519";
  version = 3;
  serial = codes "9c";
  sig_alg = codes "ed25519";
  validity = none;
}

certificate-read : parse shown_as certificate ≡ ok leaf
unfolding parse read_parts leaf_of read_rest read_version version_in extensions read_extensions
    san_value alternative_names name add_sets add_attributes attribute key modulus sig_alg_name
    serial_hex hex_bytes time time_with digits_value elements visited_elements expect tlv tlv_with
    length_of printable text_eq is_ascii_digit strip_prefix all_digits days_from_civil ◌+ℤ◌ ◌-ℤ◌
    times div_euclid of_be
certificate-read = refl

parse-IsBounded_example : IsBounded leaf
parse-IsBounded_example = parse-IsBounded shown_as shown_as-IsShown certificate certificate-read

elements-IsVisit_example : IsVisit certificate (elements certificate)
elements-IsVisit_example = elements-IsVisit certificate

abbrev two_elements : List (ℕ × Bytes)
two_elements = (0x02, 7 ∷ []) ∷ (0x0c, codes "nas") ∷ []

two_elements-AllShort : AllShort two_elements
unfolding AllShort
two_elements-AllShort = (omega arith, (omega arith, tt))

elements-encode_all_example : elements (encode_all two_elements) ≡ map element_of two_elements
elements-encode_all_example = elements-encode_all two_elements two_elements-AllShort

-- the leaf against a clock of the year 2060
abbrev late_leaf : Leaf
unfolding validity_at
late_leaf = record leaf {
  sig_alg = codes "rsa-sha1";
  validity = some (validity_at leaf (pos 2_840_140_800));
}

late_summary : summary late_leaf ≡ codes "cn=nas self-signed expired sha1-signed"
unfolding summary summary_parts weak_hash ends_with strip_prefix text_eq printable as_bytes ◌-ℤ◌
    late_leaf validity_at
late_summary = refl

-- a name that would clear the screen
abbrev hostile_leaf : Leaf
hostile_leaf = record leaf { subject_cn = some (27 ∷ codes "[2J") }

hostile_summary : summary hostile_leaf ≡ codes "cn=.[2J self-signed"
unfolding summary summary_parts weak_hash ends_with strip_prefix text_eq printable as_bytes
hostile_summary = refl

summary-IsPlain_example : IsPlain (summary hostile_leaf)
summary-IsPlain_example = summary-IsPlain hostile_leaf
