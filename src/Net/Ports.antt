-- ===== src/Net/Ports.antt =====
-- src/net/ports.rs: port specifications, parsed into an ascending list and rendered back.
pub mod Sorted
pub mod Runs
pub mod Parse
pub mod RoundTrip
mod Tests
use scanr.Common.{
  ℕ, zero, suc, ◌+◌, ◌-◌, Bool, true, false, not, ◌&&◌, ◌||◌, Option, none, some, List, [], ◌∷◌,
  ◌++◌, length, ltb, leb, ◌==◌, if◌then◌else◌,
}
use scanr.Common.Result.{Result, ok, err, ◌>>=◌}
use scanr.Common.Text.{
  Text, codes, is_empty, trim, split, split_once, eq_ignore_ascii_case, all_digits, parse_uint,
  decimal,
}

pub data PortParseError : Type 0 where
  empty : PortParseError
  bad_port reversed_range malformed : Text → PortParseError

-- `1u16..=65535` and `start..=end`: the count of numbers from `start` on
unfoldable pub range_from : ℕ → ℕ → List ℕ
range_from start zero = []
range_from start (suc n) = start ∷ range_from (start + 1) n

unfoldable pub port_number : Text → Option ℕ → Result PortParseError ℕ
port_number s none = err (bad_port s)
port_number s (some n) = if n == 0 || ltb 65535 n then err (bad_port s) else ok n

-- `parse_one`; a `u32` is parsed first
unfoldable pub parse_one : Text → Result PortParseError ℕ
unfolding port_number
parse_one s = if is_empty s then err (bad_port s) else port_number s (parse_uint 4294967295 s)

-- the `match item.split_once('-')`
unfoldable pub parse_bounds : Text → Option (Text × Text) → Result PortParseError (List ℕ)
parse_bounds item (some (a, b)) = do
  start ← parse_one (trim a)
  end ← parse_one (trim b)
  if ltb end start then err (reversed_range item) else ok (range_from start (end + 1 - start))
parse_bounds item none =
    if not (all_digits item) then err (malformed item) else do n ← parse_one item; ok (n ∷ [])

-- one round of the loop over the items: what it appends to `out`
unfoldable pub parse_item : Text → Result PortParseError (List ℕ)
unfolding parse_bounds
parse_item item =
    if is_empty item
    then ok []
    else if eq_ignore_ascii_case item (codes "all")
    then ok (range_from 1 65535)
    else parse_bounds item (split_once b'-' item)

unfoldable pub parse_items : List Text → Result PortParseError (List ℕ)
parse_items [] = ok []
parse_items (raw ∷ rest) = do
  ports ← parse_item (trim raw)
  more ← parse_items rest
  ok (ports ++ more)

-- `sort_unstable`; equal ports are the same, so the order of equals is not seen
unfoldable pub insert_sorted : ℕ → List ℕ → List ℕ
insert_sorted p [] = p ∷ []
insert_sorted p (q ∷ qs) = if leb p q then p ∷ q ∷ qs else q ∷ insert_sorted p qs

unfoldable pub sort_unstable : List ℕ → List ℕ
unfolding insert_sorted
sort_unstable [] = []
sort_unstable (p ∷ ps) = insert_sorted p (sort_unstable ps)

-- `dedup`: of neighbours that are equal the first stays
unfoldable pub dedup : List ℕ → List ℕ
dedup [] = []
dedup (p ∷ []) = p ∷ []
dedup (p ∷ q ∷ qs) = let rest = dedup (q ∷ qs) in if p == q then rest else p ∷ rest

abbrev pub finish : List ℕ → Result PortParseError (List ℕ)
finish out = if is_empty out then err empty else ok (dedup (sort_unstable out))

unfoldable pub parse_ports : Text → Result PortParseError (List ℕ)
parse_ports input =
    if is_empty (trim input)
    then err empty
    else do out ← parse_items (split b',' (trim input)); finish out

-- the loop of `PortSummary::fmt`: a run of ports, taken as long as the next one follows
pub record Run : Type 0 where
  pub start : ℕ
  pub end : ℕ

-- the inner `while` loop: the end of the run that is open, and the ports behind it
unfoldable pub runs_from : ℕ → ℕ → List ℕ → List Run
runs_from start end [] = record { start = start; end = end } ∷ []
runs_from start end (p ∷ ps) =
    let longer = runs_from start p ps in
    let fresh = runs_from p p ps in
    if p == end + 1 then longer else record { start = start; end = end } ∷ fresh

unfoldable pub render_run : Run → Text
render_run r = if r.start == r.end then decimal r.start else decimal r.start ++ b'-' ∷ decimal r.end

unfoldable pub render_runs : List Run → Text
render_runs [] = []
render_runs (r ∷ []) = render_run r
render_runs (r ∷ s ∷ rest) = render_run r ++ b',' ∷ render_runs (s ∷ rest)

unfoldable pub port_summary : List ℕ → Text
unfolding runs_from render_run render_runs
port_summary [] = codes "(none)"
port_summary (p ∷ ps) =
    if length (p ∷ ps) == 65535 then codes "all" else render_runs (runs_from p p ps)
