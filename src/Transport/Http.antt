-- ===== src/Transport/Http.antt =====
-- The HTTP CONNECT hop of src/transport/http.rs: the request, the bounded reader of the response, its
-- parser, and what a status says of the destination.
pub mod Base64
pub mod Block
use scanr.Common.{
  ℕ, zero, suc, ◌+◌, ◌≤◌, Bool, true, false, not, ◌&&◌, ◌||◌, Option, none, some, List, [], ◌∷◌,
  ◌++◌, map, length, take, drop, leb, ltb, ◌==◌, if◌then◌else◌,
}
use scanr.Common.Result.{Result, ok, err}
use scanr.Common.Text.{
  Text, codes, is_empty, between, trim, split_once, strip_prefix, ends_with, lines, text_eq,
  to_ascii_lowercase, parse_uint, decimal,
}
use scanr.Common.Text.Utf8.{as_bytes, from_utf8_lossy}
use scanr.Diag.Pressure.{IoError, invalid_data}
use scanr.Net.Addr.{IpAddr, v4, v6}
use scanr.Probe.Outcome.{error, proxy_reply, Phases, ProbeOutcome, outcome_open, outcome_new}
use scanr.Transport.Wire.{Bytes, World, Io, fail, ◌>>=◌, read_exact}
use scanr.Transport.Destination.{Destination, addr, resolved, host}
use scanr.Transport.Http.Base64.{base64}

abbrev pub max_response_bytes : ℕ
max_response_bytes = 8192

abbrev crlf : Text
crlf = 13 ∷ 10 ∷ []

abbrev pub shown_address : (IpAddr → Text) → IpAddr → ℕ → Text
shown_address show_ip (v4 n) port = show_ip (v4 n) ++ b':' ∷ decimal port
shown_address show_ip (v6 n) port = b'[' ∷ (show_ip (v6 n) ++ codes "]:" ++ decimal port)

-- `show_ip` is the text of an address
unfoldable pub authority : (IpAddr → Text) → Destination → Text
authority show_ip (addr a) = shown_address show_ip a.ip a.port
authority show_ip (resolved a name) = shown_address show_ip a.ip a.port
authority show_ip (host h p) = h ++ b':' ∷ decimal p

-- `password.unwrap_or("")`
abbrev or_empty : Option Text → Text
or_empty none = []
or_empty (some p) = p

abbrev pub authorization : Option Text → Option Text → Text
authorization none password = []
authorization (some u) password =
    codes "Proxy-Authorization: Basic "
    ++ (base64 (as_bytes (u ++ b':' ∷ or_empty password)) ++ crlf)

unfoldable pub build_connect_request :
    (IpAddr → Text) → Destination → Option Text → Option Text → Bytes
unfolding authority
build_connect_request show_ip dest username password =
    let target = authority show_ip dest in
    as_bytes (
      codes "CONNECT "
      ++ (target ++ (codes " HTTP/1.1" ++ (crlf ++ (codes "Host: " ++ (target ++ crlf))))))
    ++ (as_bytes (authorization username password) ++ crlf)

pub record Response : Type 0 where
  pub status : ℕ
  pub status_line : Text
  pub headers : List (Text × Text)

unfoldable pub find_header : List (Text × Text) → Text → Option Text
find_header [] name = none
find_header ((n, v) ∷ hs) name = if text_eq n name then some v else find_header hs name

abbrev pub header : Response → Text → Option Text
header r name = find_header r.headers name

unfoldable pub printable : Text → Text
printable [] = []
printable (c ∷ s) = (if between b' ' b'~' c then c else b'.') ∷ printable s

-- the characters from one on, and the first three, if the text is long enough
abbrev pub from_one : Text → Option Text
from_one [] = none
from_one (c ∷ s) = some s

abbrev pub first_three : Text → Option Text
first_three s = if leb 3 (length s) then some (take 3 s) else none

infixl 5 ◌and_then◌
abbrev ◌and_then◌ : {A B : Type 0} → Option A → (A → Option B) → Option B
none and_then f = none
some a and_then f = f a

abbrev pub in_status_range : ℕ → Option ℕ
in_status_range c = if leb 100 c && ltb c 1000 then some c else none

unfoldable pub status_of : Text → Option ℕ
unfolding strip_prefix parse_uint
status_of line =
    strip_prefix (codes "HTTP/1.") line
    and_then from_one
    and_then strip_prefix (codes " ")
    and_then first_three
    and_then parse_uint 65535
    and_then in_status_range

unfoldable pub lowercase : Text → Text
lowercase = map to_ascii_lowercase

-- the header lines up to the first empty line; a line without a colon is passed over
unfoldable pub headers_of : List Text → List (Text × Text)
unfolding lowercase printable
headers_of [] = []
headers_of (l ∷ ls) =
    let rest = headers_of ls in
    if is_empty l then [] else elim (split_once b':' l) [
      | none ↦ rest
      | some (n, v) ↦ (lowercase (trim n), printable (trim v)) ∷ rest
    ]

abbrev pub first_line : List Text → Text
first_line [] = []
first_line (l ∷ ls) = l

-- `std::io::Error::new(InvalidData, ..)`
abbrev pub malformed : Text → IoError
malformed message = record { raw_os_error = none; kind = invalid_data; message = message }

unfoldable pub parse : Bytes → Result IoError Response
unfolding printable status_of headers_of
parse buf =
    let ls = lines (from_utf8_lossy buf) in
    let line = printable (first_line ls) in
    elim (status_of line) [
      | none ↦ err (malformed (codes "malformed HTTP status line `" ++ (line ++ codes "`")))
      | some status ↦
          ok (record { status = status; status_line = line; headers = headers_of (drop 1 ls) })
    ]

-- a blank line ends the header block
unfoldable pub is_block_end : Bytes → Bool
is_block_end buf = ends_with buf (crlf ++ crlf) || ends_with buf (10 ∷ 10 ∷ [])

-- the first bytes spell `HTTP/`, as far as they are there
unfoldable pub is_http : Bytes → Bool
is_http buf = not (leb (length buf) 5) || text_eq buf (take (length buf) (codes "HTTP/"))

-- The `loop`, with `room` more bytes allowed behind `buf`.
unfoldable pub read_block : ℕ → Option ℕ → Bytes → Io IoError Response
unfolding is_block_end is_http parse
read_block zero deadline buf = fail (malformed (codes "response headers exceed 8192 bytes"))
read_block (suc room) deadline buf = read_exact 1 deadline >>= (λ byte.
    let more = read_block room deadline (buf ++ byte) in
    if is_http (buf ++ byte)
    then (if is_block_end (buf ++ byte) then (λ w. (parse (buf ++ byte), w)) else more)
    else fail (malformed (codes "not an HTTP proxy: response did not start with `HTTP/`")))

unfoldable pub read_response : Option ℕ → Io IoError Response
unfolding read_block
read_response deadline = read_block max_response_bytes deadline []

abbrev pub offered : Option Text → Text
offered none = []
offered (some v) = codes "; it offers `" ++ (v ++ codes "`")

unfoldable pub classify : (T : Type 0) → Response → Bool → Phases → ProbeOutcome T
classify T r authenticating phases =
    if leb 200 r.status && leb r.status 299
    then outcome_open T phases proxy_reply
    else if r.status == 407
    then outcome_new T error proxy_reply
        (if authenticating
          then codes "proxy rejected credentials (" ++ (r.status_line ++ codes ")")
          else codes "proxy requires authentication but no credentials are configured ("
            ++ (r.status_line ++ (codes ")" ++ offered (header r (codes "proxy-authenticate")))))
        phases
    else if r.status == 403
    then outcome_new T error proxy_reply
        (codes "denied by proxy policy (" ++ (r.status_line ++ codes ")")) phases
    else outcome_new T error proxy_reply
        (codes "HTTP proxy answered `"
          ++ (r.status_line
              ++ codes
                  "` — no standard status means refused, so closed and filtered are not distinguished"))
        phases
