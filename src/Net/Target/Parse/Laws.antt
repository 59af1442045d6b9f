-- ===== src/Net/Target/Parse/Laws.antt =====
-- What `parse_target` of src/net/target.rs accepts is well formed.
use scanr.Common.{ℕ, ◌-◌, ◌≤◌, ◌≡◌, refl, not, Option, none, some, ltb, arith}
use scanr.Common.Result.{Result, ok, err, ◌>>◌, Ensures, Ensures-if, Ensures-ok}
use scanr.Common.Text.{Text, is_empty, trim, split_once, parse_uint}
use scanr.Net.Addr.{IpAddr, v4, v6, IsAddress}
use scanr.Net.Target.{TargetSpec, cidr, host, number, mask, width, same_family}
use scanr.Net.Target.Network.{prefix_and, aligned}
use scanr.Net.Target.Interval.{IsSpec}
use scanr.Net.Target.Parse.{
  TargetParseError, prefixed, cidr_of, parse_cidr, validate_hostname, range_of, both_of, ends_of,
  single_of, range_or_single, slashed, parse_target,
}

-- A masked address is in bounds and aligned to its prefix.
mask-IsSpec :
    (a : IpAddr) (prefix : ℕ)
    → IsAddress a
    → prefix ≤ width a
    → IsSpec (cidr (mask a prefix) prefix)
unfolding mask number
mask-IsSpec (v4 n) p l h =
    let (z, le) = aligned (32 - p) n in rw (prefix_and 32 p n h l) (omega (arith, le, l), h, z)
mask-IsSpec (v6 n) p l h =
    let (z, le) = aligned (128 - p) n in rw (prefix_and 128 p n h l) (omega (arith, le, l), h, z)

module _ (parse_ip : Text → Option IpAddr)
    (sound : (s : Text) (ip : IpAddr) → parse_ip s ≡ some ip → IsAddress ip) where
  prefixed-IsSpec :
      (spec : Text) (a : IpAddr) (prefix : Option ℕ)
      → IsAddress a
      → Ensures IsSpec (prefixed spec a prefix)
  prefixed-IsSpec spec a none l = tt
  prefixed-IsSpec spec a (some p) l =
      Ensures-if IsSpec (ltb (width a) p) _ _ (λ _. tt) (λ h. mask-IsSpec a p l (ground arith))

  cidr_of-IsSpec :
      (spec : Text) (a : Option IpAddr) (prefix : Text)
      → ((ip : IpAddr) → a ≡ some ip → IsAddress ip)
      → Ensures IsSpec (cidr_of spec a prefix)
  cidr_of-IsSpec spec none prefix l = tt
  cidr_of-IsSpec spec (some a) prefix l = prefixed-IsSpec spec a (parse_uint 255 prefix) (l a refl)

  range_of-IsSpec :
      (s : Text) (start end : IpAddr)
      → IsAddress start
      → IsAddress end
      → Ensures IsSpec (range_of s start end)
  unfolding range_of
  range_of-IsSpec s start end a b =
      Ensures-if IsSpec (not (same_family start end)) _ _ (λ _. tt)
        (λ f.
          Ensures-if IsSpec (ltb (number end) (number start)) _ _ (λ _. tt)
            (λ o. (a, b, ground arith, ground arith)))

  single_of-IsSpec :
      (s : Text) (a : Option IpAddr)
      → ((ip : IpAddr) → a ≡ some ip → IsAddress ip)
      → Ensures IsSpec (single_of s a)
  single_of-IsSpec s (some a) l = l a refl
  single_of-IsSpec s none l = checked (validate_hostname s)
    where
      checked : (r : Result TargetParseError (Unit {0})) → Ensures IsSpec (r >> ok (host s))
      checked (ok u) = tt
      checked (err e) = tt

  range_or_single-IsSpec :
      (s : Text) (a b : Option IpAddr)
      → ((ip : IpAddr) → a ≡ some ip → IsAddress ip)
      → ((ip : IpAddr) → b ≡ some ip → IsAddress ip)
      → Ensures IsSpec (range_or_single parse_ip s (both_of a b))
  range_or_single-IsSpec s (some a) (some b) l m = range_of-IsSpec s a b (l a refl) (m b refl)
  range_or_single-IsSpec s (some a) none l m = single_of-IsSpec s (parse_ip s) (sound s)
  range_or_single-IsSpec s none b l m = single_of-IsSpec s (parse_ip s) (sound s)

  slashed-IsSpec :
      (s : Text) (parts : Option (Text × Text)) → Ensures IsSpec (slashed parse_ip s parts)
  unfolding parse_cidr
  slashed-IsSpec s (some (base, prefix)) =
      cidr_of-IsSpec s (parse_ip (trim base)) (trim prefix) (sound (trim base))
  slashed-IsSpec s none = unslashed (split_once b'-' s)
    where
      unslashed :
          (halves : Option (Text × Text))
          → Ensures IsSpec (range_or_single parse_ip s (ends_of parse_ip halves))
      unslashed none = single_of-IsSpec s (parse_ip s) (sound s)
      unslashed (some (a, b)) =
          range_or_single-IsSpec s (parse_ip (trim a)) (parse_ip (trim b)) (sound (trim a))
            (sound (trim b))

  -- When the reader of addresses gives addresses in bounds, whatever text is accepted is a well-formed
  -- specification: its addresses are in bounds, a network's base has no host bits under its prefix, and
  -- a range is of one family and not reversed.
  pub parse_target-IsSpec :
      (input : Text) (spec : TargetSpec) → parse_target parse_ip input ≡ ok spec → IsSpec spec
  unfolding parse_target
  parse_target-IsSpec input spec h =
      Ensures-ok IsSpec (parse_target parse_ip input)
        (Ensures-if IsSpec (is_empty (trim input)) _ _ (λ _. tt)
          (λ _. slashed-IsSpec (trim input) (split_once b'/' (trim input))))
        h
