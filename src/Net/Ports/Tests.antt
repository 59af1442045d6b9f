-- ===== src/Net/Ports/Tests.antt =====
-- Runs of the parser and the printer of src/net/ports.rs, and the theorems at concrete texts.
use scanr.Common.{ℕ, ◌≡◌, ◌↔◌, refl, List, [], ◌∷◌, In}
use scanr.Common.Result.{ok, err}
use scanr.Common.Text.{
  Text, codes, trim, split, split_once, parse_uint, decimal, all_digits, is_whitespace,
  eq_ignore_ascii_case, to_ascii_lowercase,
}
use scanr.Net.Ports.{
  empty, bad_port, reversed_range, malformed, parse_ports, parse_items, parse_item, parse_one,
  range_from, sort_unstable, dedup, port_summary,
}
use scanr.Net.Ports.Parse.{IsPortList, parse_ports-IsPortList, Names, In-parse_ports}
use scanr.Net.Ports.RoundTrip.{parse_ports-port_summary}

abbrev spec : Text
spec = codes " 443, 20-22 ,80,21 "

abbrev ports : List ℕ
ports = 20 ∷ 21 ∷ 22 ∷ 80 ∷ 443 ∷ []

parse_ports_runs : parse_ports spec ≡ ok ports
unfolding parse_ports parse_items parse_item parse_one range_from sort_unstable dedup trim split
    split_once parse_uint all_digits is_whitespace eq_ignore_ascii_case to_ascii_lowercase
parse_ports_runs = refl

-- A sign is taken inside a range, where `u32::from_str` reads it, and refused on a single port.
signs_in_ranges :
    (parse_ports (codes "+80-+81") ≡ ok (80 ∷ 81 ∷ []))
    × (parse_ports (codes "+80") ≡ err (malformed (codes "+80")))
unfolding parse_ports parse_items parse_item parse_one range_from sort_unstable dedup trim split
    split_once parse_uint all_digits is_whitespace eq_ignore_ascii_case to_ascii_lowercase
signs_in_ranges = (refl, refl)

parse_ports_errors :
    (parse_ports (codes " , ") ≡ err empty)
    × (parse_ports (codes "0") ≡ err (bad_port (codes "0")))
    × (parse_ports (codes "1-65536") ≡ err (bad_port (codes "65536")))
    × (parse_ports (codes "9-8") ≡ err (reversed_range (codes "9-8")))
unfolding parse_ports parse_items parse_item parse_one range_from sort_unstable dedup trim split
    split_once parse_uint all_digits is_whitespace eq_ignore_ascii_case to_ascii_lowercase
parse_ports_errors = (refl, refl, refl, refl)

port_summary_runs : port_summary ports ≡ codes "20-22,80,443"
unfolding port_summary decimal
port_summary_runs = refl

parse_ports-IsPortList_example : IsPortList ports
parse_ports-IsPortList_example = parse_ports-IsPortList spec ports parse_ports_runs

In-parse_ports_example : In 80 ports ↔ Names 80 (split b',' (trim spec))
In-parse_ports_example = In-parse_ports 80 spec ports parse_ports_runs

parse_ports-port_summary_example : parse_ports (port_summary ports) ≡ ok ports
parse_ports-port_summary_example = parse_ports-port_summary ports parse_ports-IsPortList_example
