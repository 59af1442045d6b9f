-- ===== src/Net/Ports/Runs.antt =====
-- `PortSummary` of src/net/ports.rs: the runs that it prints cover the ports again, and each of
-- them is read back by `parse_item`.
use scanr.Common.{
  ℕ, zero, suc, ◌+◌, ◌-◌, ◌≤◌, ◌≡◌, ◌≢◌, refl, ap, ◌∙◌, inl, inr, true, false, List, [], ◌∷◌, ◌++◌,
  append_assoc, append-nil, arith, All, All-append, none, some, ltb, ◌==◌, ==_iff, if◌then◌else◌,
  Bool-cases,
}
use scanr.Common.Result.{ok}
use scanr.Common.Text.{
  Text, codes, between, is_empty, trim, split_once, is_ascii_digit, is_whitespace,
  eq_ignore_ascii_case, to_ascii_lowercase, decimal,
}
use scanr.Common.Text.Laws.{
  IsDigits, IsSolid, Lacks, decimal-IsDigits, decimal-ne-nil, parse_uint-decimal, IsDigits-IsSolid,
  IsDigits-Lacks, trim-IsSolid, split_once-Lacks, split_once-append, IsDigits-all_digits,
}
use scanr.Net.Ports.{Run, range_from, parse_one, parse_bounds, parse_item, runs_from, render_run}
use scanr.Net.Ports.Sorted.{Ascends}

-- the ports of a run
abbrev pub covered : Run → List ℕ
covered r = range_from r.start (r.end + 1 - r.start)

abbrev pub all_covered : List Run → List ℕ
all_covered [] = []
all_covered (r ∷ rs) = covered r ++ all_covered rs

abbrev pub IsRun : Run → Type 0
IsRun r = (1 ≤ r.start) × (r.start ≤ r.end) × (r.end ≤ 65535)

range_from-append :
    (m n start : ℕ) → range_from start (m + n) ≡ range_from start m ++ range_from (start + m) n
unfolding range_from
range_from-append zero n start =
    let e : zero + n ≡ n = omega arith in let f : start + zero ≡ start = omega arith in rw (e, f)
range_from-append (suc m) n start =
    let e : suc m + n ≡ suc (m + n) = omega arith in
    let f : start + suc m ≡ start + 1 + m = omega arith in
    rw (e, f) (ap (◌∷◌ start) (range_from-append m n (start + 1)))

-- The runs that are read off an ascending list are runs of ports, and cover the list.
pub runs_from-IsRun :
    (ps : List ℕ) (start end : ℕ)
    → IsRun (record { start = start; end = end })
    → Ascends (end + 1) ps
    → All (λ p. p ≤ 65535) ps
    → All IsRun (runs_from start end ps)
unfolding runs_from
runs_from-IsRun [] start end r s b = (r, tt)
runs_from-IsRun (p ∷ ps) start end r s b = elim (Bool-cases (p == end + 1)) [
  | inl h ↦ rw h (runs_from-IsRun ps start p (r.0, omega (arith, s.0, r.1), b.0) s.1 b.1)
  | inr h ↦ rw h (r, runs_from-IsRun ps p p (omega (arith, s.0), omega arith, b.0) s.1 b.1)
]

pub runs_from-covers :
    (ps : List ℕ) (start end : ℕ)
    → start ≤ end
    → all_covered (runs_from start end ps) ≡ range_from start (end + 1 - start) ++ ps
unfolding runs_from range_from
runs_from-covers [] start end l = rw append-nil
runs_from-covers (p ∷ ps) start end l = elim (Bool-cases (p == end + 1)) [
  | inl h ↦
      let next : p ≡ end + 1 = (==_iff p (end + 1)).0 h in
      let longer : p + 1 - start ≡ end + 1 - start + 1 = omega (arith, next) in
      let at_end : start + (end + 1 - start) ≡ p = omega (arith, next) in
      rw
        (
          h,
          runs_from-covers ps start p (omega (arith, next)),
          longer,
          range_from-append (end + 1 - start) 1 start,
          at_end,
        )
        (append_assoc (range_from start (end + 1 - start)) (p ∷ []) ps)
  | inr h ↦
      let one : p + 1 - p ≡ 1 = omega arith in
      rw (h, runs_from-covers ps p p (omega arith), one) refl
]

digit-ne : (c d : ℕ) → is_ascii_digit c ≡ true → is_ascii_digit d ≡ false → (c == d) ≡ false
unfolding is_ascii_digit
digit-ne c d h k = ground arith

-- A text that starts with a digit is not `all`.
not_all :
    (s : Text)
    → IsDigits s
    → s ≢ []
    → (t : Text) → eq_ignore_ascii_case (s ++ t) (codes "all") ≡ false
unfolding eq_ignore_ascii_case to_ascii_lowercase is_ascii_digit
not_all [] d ne t = absurd (ne refl)
not_all (c ∷ s) d ne t =
    let lower : (if between b'A' b'Z' c then c + 32 else c) == b'a' ≡ false = ground (arith, d.0) in
    rw lower

not_empty : (s t : Text) → s ≢ [] → is_empty (s ++ t) ≡ false
not_empty [] t ne = absurd (ne refl)
not_empty (c ∷ s) t ne = refl

-- `parse_one` reads a printed port back, with white space around it or not.
parse_one-decimal : (p : ℕ) → 1 ≤ p → p ≤ 65535 → parse_one (decimal p) ≡ ok p
unfolding parse_one
parse_one-decimal p l h =
    let full = not_empty (decimal p) [] (decimal-ne-nil p) in
    rw (rw append-nil at full, parse_uint-decimal 4294967295 p (omega arith)) (ground arith)

decimal-IsSolid : (p : ℕ) → IsSolid (decimal p)
decimal-IsSolid p = IsDigits-IsSolid (decimal p) (decimal-IsDigits p)

trim-decimal : (p : ℕ) → trim (decimal p) ≡ decimal p
trim-decimal p = trim-IsSolid (decimal p) (decimal-IsSolid p)

decimal-Lacks : (sep : ℕ) → is_ascii_digit sep ≡ false → (p : ℕ) → Lacks sep (decimal p)
decimal-Lacks sep n p = IsDigits-Lacks sep n (decimal p) (decimal-IsDigits p)

dash_not_digit : is_ascii_digit b'-' ≡ false
unfolding is_ascii_digit
dash_not_digit = refl

comma_not_digit : is_ascii_digit b',' ≡ false
unfolding is_ascii_digit
comma_not_digit = refl

parse_bounds-run :
    (item : Text) (a b : ℕ)
    → IsRun (record { start = a; end = b })
    → parse_bounds item (some (decimal a, decimal b)) ≡ ok (range_from a (b + 1 - a))
unfolding parse_bounds
parse_bounds-run item a b r =
    let ordered : ltb b a ≡ false = ground (arith, r) in
    rw
      (
        trim-decimal a,
        trim-decimal b,
        parse_one-decimal a r.0 (omega (arith, r)),
        parse_one-decimal b (omega (arith, r)) r.2,
        ordered,
      )
      refl

parse_bounds_single : (p : ℕ) → 1 ≤ p → p ≤ 65535 → parse_bounds (decimal p) none ≡ ok (p ∷ [])
unfolding parse_bounds
parse_bounds_single p l h =
    rw (IsDigits-all_digits (decimal p) (decimal-IsDigits p), parse_one-decimal p l h) refl

parse_item-IsDigits :
    (s t : Text)
    → IsDigits s
    → s ≢ []
    → parse_item (s ++ t) ≡ parse_bounds (s ++ t) (split_once b'-' (s ++ t))
unfolding parse_item
parse_item-IsDigits s t d ne = rw (not_empty s t ne, not_all s d ne t)

parse_item-decimal : (p : ℕ) → 1 ≤ p → p ≤ 65535 → parse_item (decimal p) ≡ ok (p ∷ [])
parse_item-decimal p l h =
    let read = parse_item-IsDigits (decimal p) [] (decimal-IsDigits p) (decimal-ne-nil p) in
    (rw append-nil at read)
    ∙ ap (parse_bounds (decimal p))
        (split_once-Lacks b'-' (decimal p) (decimal-Lacks b'-' dash_not_digit p))
    ∙ parse_bounds_single p l h

parse_item-bounds :
    (a b : ℕ)
    → IsRun (record { start = a; end = b })
    → parse_item (decimal a ++ b'-' ∷ decimal b) ≡ ok (range_from a (b + 1 - a))
parse_item-bounds a b r =
    parse_item-IsDigits (decimal a) (b'-' ∷ decimal b) (decimal-IsDigits a) (decimal-ne-nil a)
    ∙ ap (parse_bounds (decimal a ++ b'-' ∷ decimal b))
        (split_once-append b'-' (decimal a) (decimal b) (decimal-Lacks b'-' dash_not_digit a))
    ∙ parse_bounds-run (decimal a ++ b'-' ∷ decimal b) a b r

-- A printed run is read back as the ports that it covers.
pub parse_item-render_run : (r : Run) → IsRun r → parse_item (render_run r) ≡ ok (covered r)
unfolding render_run range_from
parse_item-render_run r h = elim (Bool-cases (r.start == r.end)) [
  | inl same ↦
      let one : r.end + 1 - r.start ≡ 1 = ground arith in
      rw (same, one) (parse_item-decimal r.start h.0 (omega arith))
  | inr apart ↦ rw apart (parse_item-bounds r.start r.end h)
]

pub render_run-IsSolid : (r : Run) → IsSolid (render_run r)
unfolding render_run is_whitespace
render_run-IsSolid r = elim (Bool-cases (r.start == r.end)) [
  | inl same ↦ rw same (decimal-IsSolid r.start)
  | inr apart ↦
      rw apart
        (All-append _ (decimal r.start) _ (decimal-IsSolid r.start) (refl, decimal-IsSolid r.end))
]

pub render_run-Lacks : (r : Run) → Lacks b',' (render_run r)
unfolding render_run
render_run-Lacks r = elim (Bool-cases (r.start == r.end)) [
  | inl same ↦ rw same (decimal-Lacks b',' comma_not_digit r.start)
  | inr apart ↦ rw apart (
      All-append _ (decimal r.start) _ (decimal-Lacks b',' comma_not_digit r.start)
        (refl, decimal-Lacks b',' comma_not_digit r.end))
]

pub render_run_filled : (r : Run) → is_empty (render_run r) ≡ false
unfolding render_run
render_run_filled r = elim (Bool-cases (r.start == r.end)) [
  | inl same ↦ rw same (rw append-nil at (not_empty (decimal r.start) [] (decimal-ne-nil r.start)))
  | inr apart ↦ rw apart (not_empty (decimal r.start) _ (decimal-ne-nil r.start))
]
