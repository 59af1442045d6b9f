-- ===== src/X509/Fields.antt =====
-- src/x509.rs: the times, the serial number, and the names of the algorithms.
use scanr.Common.{
  ℕ, zero, suc, ◌+◌, ◌-◌, ◌*◌, ◌/◌, ◌%◌, ◌^◌, Bool, not, ◌&&◌, ◌||◌, Option, none, some, List, [],
  ◌∷◌, ◌++◌, ltb, leb, ◌==◌, if◌then◌else◌, length, take, drop, get_or,
}
use scanr.Common.Bits.{bit_and}
use scanr.Common.Int.{ℤ, pos, ◌+ℤ◌, times}
use scanr.Common.Result.{Result, ok, err}
use scanr.Common.Text.{Text, codes, decimal, text_eq, strip_prefix, all_digits}
use scanr.Timefmt.{days_from_civil}
use scanr.X509.{Bytes, Tlv, tlv}

-- `fold(0, |acc, b| acc * 10 + (b - b'0'))`
unfoldable pub digits_value : ℕ → Bytes → ℕ
digits_value acc [] = acc
digits_value acc (b ∷ bs) = digits_value (acc * 10 + (b - b'0')) bs

abbrev pub number_at : Bytes → ℕ → ℕ → ℕ
unfolding digits_value
number_at s i n = digits_value 0 (take n (drop i s))

abbrev pub century_of : ℕ → ℕ
century_of yy = if leb 50 yy then 1900 + yy else 2000 + yy

abbrev pub is_out_of_range : ℕ → ℕ → ℕ → ℕ → ℕ → Bool
is_out_of_range month day hour minute second =
    not (leb 1 month && leb month 12)
    || not (leb 1 day && leb day 31)
    || ltb 23 hour
    || ltb 59 minute
    || ltb 60 second

-- the time whose year has so many digits
unfoldable pub time_with : ℕ → Bytes → Result Text ℤ
time_with year_digits s =
    let need = year_digits + 10 + 1 in
    let year = if year_digits == 4 then number_at s 0 4 else century_of (number_at s 0 2) in
    let month = number_at s year_digits 2 in
    let day = number_at s (year_digits + 2) 2 in
    let hour = number_at s (year_digits + 4) 2 in
    let minute = number_at s (year_digits + 6) 2 in
    let second = number_at s (year_digits + 8) 2 in
    if not (length s == need)
      || not (get_or s (need - 1) 0 == b'Z')
      || not (all_digits (take (need - 1) s))
    then err (codes "validity time is malformed")
    else if is_out_of_range month day hour minute second
    then err (codes "validity time is out of range")
    else ok (
        times (days_from_civil (pos year) month day) 86_400
        +ℤ pos (hour * 3_600 + minute * 60 + second))

unfoldable pub time : Tlv → Result Text ℤ
unfolding time_with
time t =
    if t.tag == 0x17
    then time_with 2 t.body
    else if t.tag == 0x18
    then time_with 4 t.body
    else err (codes "validity is not a time")

abbrev pub hex_char : ℕ → ℕ
hex_char d = if ltb d 10 then b'0' + d else b'a' + (d - 10)

-- `{b:02x}` of each byte
unfoldable pub hex_bytes : Bytes → Text
hex_bytes [] = []
hex_bytes (b ∷ bs) = hex_char (b / 16 % 16) ∷ hex_char (b % 16) ∷ hex_bytes bs

-- the bytes without the sign byte that DER adds
abbrev pub unsigned : Bytes → Bytes
unsigned [] = []
unsigned (zero ∷ []) = zero ∷ []
unsigned (zero ∷ b ∷ bs) = if not (bit_and b 0x80 == 0) then b ∷ bs else zero ∷ b ∷ bs
unsigned (suc a ∷ bs) = suc a ∷ bs

abbrev pub max_serial : ℕ
max_serial = 20

unfoldable pub serial_hex : Bytes → Text
unfolding hex_bytes
serial_hex body = hex_bytes (take max_serial (unsigned body))

abbrev pub oid_ed25519 : Bytes
oid_ed25519 = 0x2b ∷ 0x65 ∷ 0x70 ∷ []

abbrev pub oid_ed448 : Bytes
oid_ed448 = 0x2b ∷ 0x65 ∷ 0x71 ∷ []

-- the one byte behind this prefix
abbrev pub only_byte : Option Bytes → Option ℕ
only_byte (some (last ∷ [])) = some last
only_byte _ = none

-- the arms of a `match` on a constant
abbrev pub named_as : {A : Type 0} → (A → A → Bool) → A → List (A × Text) → Text → Text
named_as eq a [] other = other
named_as eq a ((b, s) ∷ arms) other = if eq a b then s else named_as eq a arms other

abbrev pub rsa_names : List (ℕ × Text)
rsa_names =
    (0x02, codes "rsa-md2")
    ∷ (0x04, codes "rsa-md5")
    ∷ (0x05, codes "rsa-sha1")
    ∷ (0x0a, codes "rsa-pss")
    ∷ (0x0b, codes "rsa-sha256")
    ∷ (0x0c, codes "rsa-sha384")
    ∷ (0x0d, codes "rsa-sha512")
    ∷ []

abbrev pub ecdsa_names : List (ℕ × Text)
ecdsa_names =
    (0x02, codes "ecdsa-sha256") ∷ (0x03, codes "ecdsa-sha384") ∷ (0x04, codes "ecdsa-sha512") ∷ []

abbrev pub rsa_prefix : Bytes
rsa_prefix = 0x2a ∷ 0x86 ∷ 0x48 ∷ 0x86 ∷ 0xf7 ∷ 0x0d ∷ 0x01 ∷ 0x01 ∷ []

abbrev pub ecdsa_prefix : Bytes
ecdsa_prefix = 0x2a ∷ 0x86 ∷ 0x48 ∷ 0xce ∷ 0x3d ∷ 0x04 ∷ 0x03 ∷ []

abbrev pub ecdsa_sha1 : Bytes
ecdsa_sha1 = 0x2a ∷ 0x86 ∷ 0x48 ∷ 0xce ∷ 0x3d ∷ 0x04 ∷ 0x01 ∷ []

abbrev pub other_names : List (Bytes × Text)
other_names =
    (ecdsa_sha1, codes "ecdsa-sha1")
    ∷ (oid_ed25519, codes "ed25519")
    ∷ (oid_ed448, codes "ed448")
    ∷ []

abbrev pub name_after : Option ℕ → Option ℕ → Bytes → Text
name_after (some last) _ oid = named_as ◌==◌ last rsa_names (codes "rsa")
name_after none (some last) oid = named_as ◌==◌ last ecdsa_names (codes "ecdsa")
name_after none none oid =
    named_as text_eq oid other_names (codes "oid:" ++ hex_bytes (take 16 oid))

abbrev pub sig_alg_of : Result Text (Tlv × Bytes) → Text
sig_alg_of (err _) = codes "unknown"
sig_alg_of (ok (oid, _)) =
    if not (oid.tag == 0x06)
    then codes "unknown"
    else name_after (only_byte (strip_prefix rsa_prefix oid.body))
        (only_byte (strip_prefix ecdsa_prefix oid.body)) oid.body

unfoldable pub sig_alg_name : Bytes → Text
sig_alg_name body = sig_alg_of (tlv body)

abbrev pub oid_rsa : Bytes
oid_rsa = 0x2a ∷ 0x86 ∷ 0x48 ∷ 0x86 ∷ 0xf7 ∷ 0x0d ∷ 0x01 ∷ 0x01 ∷ 0x01 ∷ []

abbrev pub oid_ec : Bytes
oid_ec = 0x2a ∷ 0x86 ∷ 0x48 ∷ 0xce ∷ 0x3d ∷ 0x02 ∷ 0x01 ∷ []

-- `skip_while(|b| b == 0)`
abbrev pub skip_zeros : Bytes → Bytes
skip_zeros [] = []
skip_zeros (b ∷ bs) = let rest = skip_zeros bs in if b == 0 then rest else b ∷ bs

-- what `get(1..)` leaves of the bit string, its sequence, and the modulus at its front
unfoldable pub modulus : Bytes → Option Bytes
modulus [] = none
modulus (unused ∷ b) = elim (tlv b) [
  | err _ ↦ none
  | ok (sequence, _) ↦ elim (tlv sequence.body) [ err _ ↦ none | ok (m, _) ↦ some m.body ]
]

-- the count of bits, in a `usize`
abbrev pub rsa_key : Option Bytes → Text
rsa_key (some m) = codes "rsa-" ++ decimal (length (skip_zeros m) * 8 % 2 ^ 64)
rsa_key none = codes "rsa"

abbrev pub oid_p256 : Bytes
oid_p256 = 0x2a ∷ 0x86 ∷ 0x48 ∷ 0xce ∷ 0x3d ∷ 0x03 ∷ 0x01 ∷ 0x07 ∷ []

abbrev pub oid_p384 : Bytes
oid_p384 = 0x2b ∷ 0x81 ∷ 0x04 ∷ 0x00 ∷ 0x22 ∷ []

abbrev pub oid_p521 : Bytes
oid_p521 = 0x2b ∷ 0x81 ∷ 0x04 ∷ 0x00 ∷ 0x23 ∷ []

abbrev pub curve_names : List (Bytes × Text)
curve_names =
    (oid_p256, codes "ec-p256") ∷ (oid_p384, codes "ec-p384") ∷ (oid_p521, codes "ec-p521") ∷ []

abbrev pub ec_key : Result Text (Tlv × Bytes) → Text
ec_key (err _) = codes "ec"
ec_key (ok (p, _)) = named_as text_eq p.body curve_names (codes "ec")

abbrev pub edwards_names : List (Bytes × Text)
edwards_names = (oid_ed25519, codes "ed25519") ∷ (oid_ed448, codes "ed448") ∷ []

abbrev pub key_under : Bytes → Bytes → Bytes → Text
key_under oid params bits =
    if text_eq oid oid_rsa
    then rsa_key (modulus bits)
    else if text_eq oid oid_ec
    then ec_key (tlv params)
    else named_as text_eq oid edwards_names (codes "unknown")

-- behind the algorithm: the bits, and the object identifier in the algorithm
abbrev pub key_in : Tlv → Result Text (Tlv × Bytes) → Result Text (Tlv × Bytes) → Text
key_in alg (err _) _ = codes "unknown"
key_in alg (ok (bits, _)) (err _) = codes "unknown"
key_in alg (ok (bits, _)) (ok (oid, params)) =
    if not (alg.tag == 0x30) || not (bits.tag == 0x03)
    then codes "unknown"
    else key_under oid.body params bits.body

abbrev pub key_from : Result Text (Tlv × Bytes) → Text
key_from (err _) = codes "unknown"
key_from (ok (alg, r)) = key_in alg (tlv r) (tlv alg.body)

unfoldable pub key : Bytes → Text
key spki = key_from (tlv spki)
