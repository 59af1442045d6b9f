-- ===== src/Net/Ports/RoundTrip.antt =====
-- `parse_ports` and `PortSummary` of src/net/ports.rs: what is printed of a port list is read back.
use scanr.Common.{
  ℕ, ◌+◌, ◌-◌, ◌≤◌, ◌<◌, ◌≡◌, ◌≢◌, refl, ap, ◌∙◌, sym, inl, inr, false, List, [], ◌∷◌, ◌++◌,
  append-nil, arith, All, All-append, All-of-In, length, map, ◌==◌, ==_iff, Bool-cases,
}
use scanr.Common.Result.{ok}
use scanr.Common.Text.{
  Text, codes, is_empty, trim, split, is_whitespace, eq_ignore_ascii_case, to_ascii_lowercase,
}
use scanr.Common.Text.Laws.{IsSolid, trim-IsSolid, split-Lacks, split-append}
use scanr.Net.Ports.{
  Run, range_from, parse_item, parse_items, finish, parse_ports, runs_from, render_run, render_runs,
  port_summary,
}
use scanr.Net.Ports.Sorted.{Ascends, sorted_of-Ascends, full-range_from}
use scanr.Net.Ports.Runs.{
  all_covered, IsRun, runs_from-IsRun, runs_from-covers, parse_item-render_run, render_run-IsSolid,
  render_run-Lacks, render_run_filled,
}
use scanr.Net.Ports.Parse.{IsPortList}

split-render_runs :
    (r : Run) (rs : List Run) → split b',' (render_runs (r ∷ rs)) ≡ map render_run (r ∷ rs)
unfolding render_runs
split-render_runs r [] = split-Lacks b',' (render_run r) (render_run-Lacks r)
split-render_runs r (s ∷ rs) =
    split-append b',' (render_run r) (render_runs (s ∷ rs)) (render_run-Lacks r)
    ∙ ap (◌∷◌ (render_run r)) (split-render_runs s rs)

comma_solid : is_whitespace b',' ≡ false
unfolding is_whitespace
comma_solid = refl

render_runs-IsSolid : (rs : List Run) → IsSolid (render_runs rs)
unfolding render_runs
render_runs-IsSolid [] = tt
render_runs-IsSolid (r ∷ []) = render_run-IsSolid r
render_runs-IsSolid (r ∷ s ∷ rs) =
    All-append _ (render_run r) _ (render_run-IsSolid r) (comma_solid, render_runs-IsSolid (s ∷ rs))

parse_items-render_run :
    (rs : List Run) → All IsRun rs → parse_items (map render_run rs) ≡ ok (all_covered rs)
unfolding parse_items
parse_items-render_run [] h = refl
parse_items-render_run (r ∷ rs) h =
    rw
      (
        trim-IsSolid (render_run r) (render_run-IsSolid r),
        parse_item-render_run r h.0,
        parse_items-render_run rs h.1,
      )
      refl

is_empty-append : (s t : Text) → is_empty s ≡ false → is_empty (s ++ t) ≡ false
is_empty-append [] t h = cc
is_empty-append (c ∷ s) t h = refl

render_runs_filled : (r : Run) (rs : List Run) → is_empty (render_runs (r ∷ rs)) ≡ false
unfolding render_runs
render_runs_filled r [] = render_run_filled r
render_runs_filled r (s ∷ rs) = is_empty-append (render_run r) _ (render_run_filled r)

-- A text with no white space is parsed as it stands.
parse_ports-IsSolid :
    (s : Text) (out : List ℕ)
    → IsSolid s
    → is_empty s ≡ false
    → parse_items (split b',' s) ≡ ok out
    → parse_ports s ≡ finish out
unfolding parse_ports
parse_ports-IsSolid s out solid full items = rw (trim-IsSolid s solid, full, items) refl

finish-Ascends : (p : ℕ) (ps : List ℕ) → Ascends 1 (p ∷ ps) → finish (p ∷ ps) ≡ ok (p ∷ ps)
finish-Ascends p ps s = ap ok (sorted_of-Ascends (p ∷ ps) 1 s)

all_items : parse_items (split b',' (codes "all")) ≡ ok (range_from 1 65535 ++ [])
unfolding parse_items parse_item split trim is_whitespace eq_ignore_ascii_case to_ascii_lowercase
all_items = refl

all-IsSolid : IsSolid (codes "all")
unfolding is_whitespace
all-IsSolid = (refl, (refl, (refl, tt)))

round_trip_all :
    (p : ℕ) (ps : List ℕ)
    → IsPortList (p ∷ ps)
    → length (p ∷ ps) ≡ 65535
    → parse_ports (codes "all") ≡ ok (p ∷ ps)
round_trip_all p ps v e =
    let below =
      All-of-In (p ∷ ps)
        (λ q m. let b = v.in_range q m in (let l : q < 65536 = omega (arith, b.1) in l)) in
    let whole = full-range_from (p ∷ ps) 1 65536 (omega (arith, e)) v.ascends below in
    let same : range_from 1 65535 ++ [] ≡ p ∷ ps =
      append-nil (range_from 1 65535) ∙ rw (← e) (sym whole) in
    parse_ports-IsSolid (codes "all") (range_from 1 65535 ++ []) all-IsSolid refl all_items
    ∙ ap finish same
    ∙ finish-Ascends p ps v.ascends

runs_from-ne-nil : (ps : List ℕ) (start end : ℕ) → runs_from start end ps ≢ []
unfolding runs_from
runs_from-ne-nil [] start end e = cc
runs_from-ne-nil (p ∷ ps) start end e = elim (Bool-cases (p == end + 1)) [
  | inl h ↦ runs_from-ne-nil ps start p (rw h at e)
  | inr h ↦ cc (rw h at e)
]

range_one : (p : ℕ) (ps : List ℕ) {n : ℕ} → n ≡ 1 → range_from p n ++ ps ≡ p ∷ ps
unfolding range_from
range_one p ps e = rw e

parse_ports-render_runs :
    (rs : List Run)
    → rs ≢ []
    → All IsRun rs
    → parse_ports (render_runs rs) ≡ finish (all_covered rs)
parse_ports-render_runs [] ne h = absurd (ne refl)
parse_ports-render_runs (r ∷ rs) ne h =
    parse_ports-IsSolid (render_runs (r ∷ rs)) (all_covered (r ∷ rs)) (render_runs-IsSolid (r ∷ rs))
      (render_runs_filled r rs)
      (ap parse_items (split-render_runs r rs) ∙ parse_items-render_run (r ∷ rs) h)

round_trip_runs :
    (p : ℕ) (ps : List ℕ)
    → IsPortList (p ∷ ps)
    → parse_ports (render_runs (runs_from p p ps)) ≡ ok (p ∷ ps)
round_trip_runs p ps v =
    let top : All (λ q. q ≤ 65535) (p ∷ ps) = All-of-In (p ∷ ps) (λ q m. (v.in_range q m).1) in
    let one : p + 1 - p ≡ 1 = omega arith in
    parse_ports-render_runs (runs_from p p ps) (runs_from-ne-nil ps p p)
      (runs_from-IsRun ps p p (v.ascends.0, omega arith, top.0) v.ascends.1 top.1)
    ∙ ap finish (runs_from-covers ps p p (omega arith) ∙ range_one p ps one)
    ∙ finish-Ascends p ps v.ascends

-- What `PortSummary` prints of a list that is ascending, in range and not empty, `parse_ports` reads
-- back as the same list.
pub parse_ports-port_summary : (ps : List ℕ) → IsPortList ps → parse_ports (port_summary ps) ≡ ok ps
unfolding port_summary
parse_ports-port_summary [] v = absurd (v.nonempty refl)
parse_ports-port_summary (p ∷ ps) v = elim (Bool-cases (length (p ∷ ps) == 65535)) [
  | inl full ↦ rw full (round_trip_all p ps v ((==_iff _ _).0 full))
  | inr part ↦ rw part (round_trip_runs p ps v)
]
