-- ===== src/Net/Ports/Parse.antt =====
-- What `parse_ports` of src/net/ports.rs returns, whatever the text.
use scanr.Common.{
  ℕ, zero, suc, ◌+◌, ◌-◌, ◌≤◌, ◌≡◌, ◌≢◌, refl, ◌↔◌, ◌⊎◌, inl, inr, List, [], ◌∷◌, ◌++◌, arith, All,
  All-append, All-map, All-In, In, In-append, In-append_left, In-append_right, Option, none, some,
  not, ltb, Bool-cases,
}
use scanr.Common.Result.{ok, bind-eq-ok, Ensures, Ensures-bind, Ensures-if, Ensures-ok}
use scanr.Common.Text.{
  Text, is_empty, trim, split, split_once, all_digits, eq_ignore_ascii_case, codes,
}
use scanr.Net.Ports.{
  range_from, parse_one, parse_bounds, parse_item, parse_items, finish, parse_ports, dedup,
  sort_unstable,
}
use scanr.Net.Ports.Sorted.{Ascends, sorted-Ascends, In-sorted}

abbrev IsPort : ℕ → Type 0
IsPort p = (1 ≤ p) × (p ≤ 65535)

range_from-IsPort : (n start : ℕ) → 1 ≤ start → start + n ≤ 65536 → All IsPort (range_from start n)
unfolding range_from
range_from-IsPort zero start l h = tt
range_from-IsPort (suc n) start l h =
    ((l, omega arith), range_from-IsPort n (start + 1) (omega arith) (omega arith))

parse_one-IsPort : (s : Text) → Ensures IsPort (parse_one s)
unfolding parse_one
parse_one-IsPort s = ground arith

parse_bounds-IsPort :
    (item : Text) (halves : Option (Text × Text)) → Ensures (All IsPort) (parse_bounds item halves)
unfolding parse_bounds
parse_bounds-IsPort item none =
    Ensures-if (All IsPort) (not (all_digits item)) _ _ (λ _. tt)
      (λ _.
        Ensures-bind IsPort (All IsPort) (parse_one item) _ (parse_one-IsPort item)
          (λ n h. (h, tt)))
parse_bounds-IsPort item (some (a, b)) =
    Ensures-bind IsPort (All IsPort) (parse_one (trim a)) _ (parse_one-IsPort (trim a)) (λ start hs.
      Ensures-bind IsPort (All IsPort) (parse_one (trim b)) _ (parse_one-IsPort (trim b)) (λ end he.
        Ensures-if (All IsPort) (ltb end start) _ _ (λ _. tt)
          (λ h. range_from-IsPort (end + 1 - start) start hs.0 (ground arith))))

parse_item-IsPort : (item : Text) → Ensures (All IsPort) (parse_item item)
unfolding parse_item
parse_item-IsPort item =
    Ensures-if (All IsPort) (is_empty item) _ _ (λ _. tt)
      (λ _.
        Ensures-if (All IsPort) (eq_ignore_ascii_case item (codes "all")) _ _
          (λ _. range_from-IsPort 65535 1 (omega arith) (omega arith))
          (λ _. parse_bounds-IsPort item (split_once b'-' item)))

parse_items-IsPort : (raws : List Text) → Ensures (All IsPort) (parse_items raws)
unfolding parse_items
parse_items-IsPort [] = tt
parse_items-IsPort (raw ∷ rest) =
    Ensures-bind (All IsPort) (All IsPort) (parse_item (trim raw)) _ (parse_item-IsPort (trim raw))
      (λ ports hp.
        Ensures-bind (All IsPort) (All IsPort) (parse_items rest) _ (parse_items-IsPort rest)
          (λ more hm. All-append IsPort ports more hp hm))

-- What a port list promises: ports in range, each once, in ascending order, and at least one.
pub record IsPortList (ps : List ℕ) : Type 0 where
  pub ascends : Ascends 1 ps
  pub in_range : (p : ℕ) → In p ps → IsPort p
  pub nonempty : ps ≢ []

finish-IsPortList : (out : List ℕ) → All IsPort out → Ensures IsPortList (finish out)
finish-IsPortList [] h = tt
finish-IsPortList (p ∷ ps) h = record {
  ascends = sorted-Ascends (p ∷ ps) 1 (All-map (λ q b. b.0) (p ∷ ps) h);
  in_range = λ q m. All-In IsPort (p ∷ ps) h ((In-sorted q (p ∷ ps)).0 m);
  nonempty = λ e. rw e at ((In-sorted p (p ∷ ps)).1 (inl refl));
}

-- Every list that `parse_ports` returns has ports from 1 to 65535 only, each of them once, in
-- ascending order, and at least one of them.
pub parse_ports-IsPortList : (s : Text) (ps : List ℕ) → parse_ports s ≡ ok ps → IsPortList ps
unfolding parse_ports
parse_ports-IsPortList s ps = Ensures-ok IsPortList (parse_ports s) (
    Ensures-if IsPortList (is_empty (trim s)) _ _ (λ _. tt)
      (λ _.
        Ensures-bind (All IsPort) IsPortList (parse_items (split b',' (trim s))) finish
          (parse_items-IsPort (split b',' (trim s))) finish-IsPortList))

-- One of the items gives the port.
abbrev pub Names : ℕ → List Text → Type 0
Names p [] = ⊥
Names p (raw ∷ rest) = ((ps : List ℕ) × (parse_item (trim raw) ≡ ok ps) × In p ps) ⊎ Names p rest

parse_items-Names :
    (p : ℕ) (raws : List Text) (out : List ℕ) → parse_items raws ≡ ok out → In p out ↔ Names p raws
unfolding parse_items
parse_items-Names p [] out h = let e : out ≡ [] = cc in rw e (λ m. m, λ m. m)
parse_items-Names p (raw ∷ rest) out h =
    let (ports, hp, more) = bind-eq-ok (parse_item (trim raw)) _ h in
    let (later, hl, last) = bind-eq-ok (parse_items rest) _ more in
    let same = parse_items-Names p rest later hl in
    let whole : out ≡ ports ++ later = cc in
    rw whole (
      λ m. elim (In-append p ports later m) [ inl n ↦ inl (ports, hp, n) | inr n ↦ inr (same.0 n) ],
      λ m. elim m [
        | inl (qs, hq, n) ↦ let e : qs ≡ ports = cc in In-append_left p ports later (rw e at n)
        | inr n ↦ In-append_right p ports later (same.1 n)
      ],
    )

finish-eq-ok : (out ps : List ℕ) → finish out ≡ ok ps → ps ≡ dedup (sort_unstable out)
finish-eq-ok [] ps h = cc
finish-eq-ok (p ∷ out) ps h = cc

-- A port is in the list that `parse_ports` returns exactly when one of the comma-separated items
-- of the trimmed text, trimmed itself, gives it.
pub In-parse_ports :
    (p : ℕ) (s : Text) (ps : List ℕ)
    → parse_ports s ≡ ok ps
    → In p ps ↔ Names p (split b',' (trim s))
unfolding parse_ports
In-parse_ports p s ps h = elim (Bool-cases (is_empty (trim s))) [
  | inl none_left ↦ cc (rw none_left at h)
  | inr some_left ↦
      let (out, ho, last) =
        bind-eq-ok (parse_items (split b',' (trim s))) finish (rw some_left at h) in
      let names = parse_items-Names p (split b',' (trim s)) out ho in
      let sorted = In-sorted p out in
      rw (finish-eq-ok out ps last) (λ m. names.0 (sorted.0 m), λ m. sorted.1 (names.1 m))
]
