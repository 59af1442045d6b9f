-- ===== src/X509/Shown.antt =====
-- The texts that src/x509.rs reads from a certificate: what a peer can put on a terminal and into a record.
use scanr.Common.{
  ◌+◌, leb, length-append, ℕ, zero, suc, ◌*◌, ◌≤◌, ◌≡◌, refl, ap, Bool, true, false, ◌&&◌, List, [],
  ◌∷◌, ◌++◌, All, All-append, if◌then◌else◌, length, take, length-take, arith,
}
use scanr.Common.Text.{Text, between}
use scanr.X509.{Bytes, max_string, printed, printable}
use scanr.X509.Fields.{named_as, hex_bytes, max_serial, unsigned, serial_hex}

-- Each character is printable ASCII.
unfoldable pub IsPrintable : Text → Type 0
IsPrintable t = All (λ (c : ℕ). (0x20 ≤ c) × (c ≤ 0x7e)) t

-- ... and there are at most so many.
pub record IsShown (most : ℕ) (t : Text) : Type 0 where
  pub short : length t ≤ most
  pub clear : IsPrintable t

abbrev pub are_printable : Text → Bool
are_printable [] = true
are_printable (c ∷ t) = between 0x20 0x7e c && are_printable t

pub literal-IsPrintable : (t : Text) → are_printable t ≡ true → IsPrintable t
unfolding IsPrintable
literal-IsPrintable [] h = tt
literal-IsPrintable (c ∷ t) h =
    ((ground (arith, h), ground (arith, h)), literal-IsPrintable t (ground (arith, h)))

both_true : (a b : Bool) → (a && b) ≡ true → (a ≡ true) × (b ≡ true)
both_true true b h = (refl, h)
both_true false b h = absurd (ground arith)

pub either : (P : Text → Type 0) (b : Bool) (s t : Text) → P s → P t → P (if b then s else t)
either P true s t hs ht = hs
either P false s t hs ht = ht

pub IsPrintable-append : (s t : Text) → IsPrintable s → IsPrintable t → IsPrintable (s ++ t)
unfolding IsPrintable
IsPrintable-append s t hs ht = All-append _ s t hs ht

abbrev pub is_shown : ℕ → Text → Bool
is_shown most t = leb (length t) most && are_printable t

pub literal-IsShown : (most : ℕ) (t : Text) → is_shown most t ≡ true → IsShown most t
literal-IsShown most t h =
    let (short, clear) = both_true (leb (length t) most) (are_printable t) h in
    record { short = ground (arith, short); clear = literal-IsPrintable t clear }

-- the texts of the arms of a `match`
abbrev pub arms_shown : {A : Type 0} → ℕ → List (A × Text) → Bool
arms_shown most [] = true
arms_shown most ((a, s) ∷ arms) = is_shown most s && arms_shown most arms

pub named_as-IsShown :
    {A : Type 0} (most : ℕ) (eq : A → A → Bool) (a : A) (arms : List (A × Text)) (other : Text)
    → arms_shown most arms ≡ true
    → IsShown most other
    → IsShown most (named_as eq a arms other)
named_as-IsShown most eq a [] other h k = k
named_as-IsShown most eq a ((b, s) ∷ arms) other h k =
    let (first, later) = both_true (is_shown most s) (arms_shown most arms) h in
    either (IsShown most) (eq a b) s (named_as eq a arms other) (literal-IsShown most s first)
      (named_as-IsShown most eq a arms other later k)

pub append-IsShown : (a b : ℕ) (s t : Text) → IsShown a s → IsShown b t → IsShown (a + b) (s ++ t)
append-IsShown a b s t hs ht = record {
  short = omega (arith, length-append s t, hs.short, ht.short);
  clear = IsPrintable-append s t hs.clear ht.clear;
}

pub IsPrintable-take : (n : ℕ) (t : Text) → IsPrintable t → IsPrintable (take n t)
unfolding IsPrintable
IsPrintable-take zero t h = tt
IsPrintable-take (suc n) [] h = tt
IsPrintable-take (suc n) (c ∷ t) h = (h.0, IsPrintable-take n t h.1)

pub take-IsShown : (n : ℕ) (t : Text) → IsPrintable t → IsShown n (take n t)
take-IsShown n t h = record {
  short = omega (arith, length-take n t);
  clear = IsPrintable-take n t h;
}

printed-IsPrintable : (b : Bytes) → IsPrintable (printed b)
unfolding IsPrintable
printed-IsPrintable [] = tt
printed-IsPrintable (x ∷ b) = ((ground arith, ground arith), printed-IsPrintable b)

length-printed : (b : Bytes) → length (printed b) ≡ length b
length-printed [] = refl
length-printed (x ∷ b) = ap suc (length-printed b)

pub printable-IsShown : (b : Bytes) → IsShown max_string (printable b)
unfolding printable
printable-IsShown b = record {
  short = omega (arith, length-printed (take max_string b), length-take max_string b);
  clear = printed-IsPrintable (take max_string b);
}

pub hex_bytes-IsPrintable : (b : Bytes) → IsPrintable (hex_bytes b)
unfolding hex_bytes IsPrintable
hex_bytes-IsPrintable [] = tt
hex_bytes-IsPrintable (x ∷ b) =
    ((ground arith, ground arith), ((ground arith, ground arith), hex_bytes-IsPrintable b))

length-hex_bytes : (b : Bytes) → length (hex_bytes b) ≡ 2 * length b
unfolding hex_bytes
length-hex_bytes [] = refl
length-hex_bytes (x ∷ b) = omega (arith, length-hex_bytes b)

pub hex_bytes-IsShown : (most : ℕ) (b : Bytes) → IsShown (2 * most) (hex_bytes (take most b))
hex_bytes-IsShown most b = record {
  short = omega (arith, length-hex_bytes (take most b), length-take most b);
  clear = hex_bytes-IsPrintable (take most b);
}

pub serial_hex-IsShown : (b : Bytes) → IsShown 40 (serial_hex b)
unfolding serial_hex
serial_hex-IsShown b = hex_bytes-IsShown max_serial (unsigned b)
