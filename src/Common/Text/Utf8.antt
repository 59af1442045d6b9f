-- ===== src/Common/Text/Utf8.antt =====
-- UTF-8: the bytes of a text, and `String::from_utf8_lossy`.
use Prim.Native.Nat.{ℕ, ◌+◌, ◌-◌, ◌*◌, ◌/◌, ◌%◌}
use mathlib.Core.List.{List, [], ◌∷◌, ◌++◌}
use scanr.Common.Tests.{ltb, leb, ◌==◌, if◌then◌else◌}
use scanr.Common.Text.{Text, between}

unfoldable pub utf8 : ℕ → List ℕ
utf8 c =
    if ltb c 0x80
    then c ∷ []
    else if ltb c 0x800
    then (0xC0 + c / 64) ∷ (0x80 + c % 64) ∷ []
    else if ltb c 0x1_0000
    then (0xE0 + c / 4096) ∷ (0x80 + c / 64 % 64) ∷ (0x80 + c % 64) ∷ []
    else (0xF0 + c / 262144) ∷ (0x80 + c / 4096 % 64) ∷ (0x80 + c / 64 % 64) ∷ (0x80 + c % 64) ∷ []

-- `as_bytes`
unfoldable pub as_bytes : Text → List ℕ
unfolding utf8
as_bytes [] = []
as_bytes (c ∷ s) = utf8 c ++ as_bytes s

-- Between characters, or inside one: the bytes to come, the bounds of the next, and the bits read.
pub data Decoder : Type 0 where
  idle : Decoder
  pending : ℕ → ℕ → ℕ → ℕ → Decoder

abbrev replacement : ℕ
replacement = 0xFFFD

-- the first byte of a character
start : ℕ → Text × Decoder
start b =
    if ltb b 0x80
    then (b ∷ [], idle)
    else if between 0xC2 0xDF b
    then ([], pending 1 0x80 0xBF (b - 0xC0))
    else if b == 0xE0
    then ([], pending 2 0xA0 0xBF 0)
    else if b == 0xED
    then ([], pending 2 0x80 0x9F 0xD)
    else if between 0xE1 0xEF b
    then ([], pending 2 0x80 0xBF (b - 0xE0))
    else if b == 0xF0
    then ([], pending 3 0x90 0xBF 0)
    else if between 0xF1 0xF3 b
    then ([], pending 3 0x80 0xBF (b - 0xF0))
    else if b == 0xF4
    then ([], pending 3 0x80 0x8F 4)
    else (replacement ∷ [], idle)

decode_step : Decoder → ℕ → Text × Decoder
decode_step idle b = start b
decode_step (pending left lo hi bits) b =
    let (out, next) = start b in
    if between lo hi b
    then (if leb left 1
        then ((bits * 64 + (b - 0x80)) ∷ [], idle)
        else ([], pending (left - 1) 0x80 0xBF (bits * 64 + (b - 0x80))))
    else (replacement ∷ out, next)

decode_from : Decoder → List ℕ → Text
decode_from idle [] = []
decode_from (pending _ _ _ _) [] = replacement ∷ []
decode_from d (b ∷ bs) = let (out, next) = decode_step d b in out ++ decode_from next bs

-- each maximal piece that is no character becomes U+FFFD
unfoldable pub from_utf8_lossy : List ℕ → Text
unfolding decode_from decode_step start
from_utf8_lossy = decode_from idle
