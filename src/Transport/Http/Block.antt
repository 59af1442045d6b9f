-- ===== src/Transport/Http/Block.antt =====
-- `read_response` of src/transport/http.rs reads a header block to its end and no byte further, and
-- what `classify` says of a status.
use scanr.Common.{
  ℕ, zero, suc, ◌≤◌, ◌≡◌, refl, ap, ◌∙◌, ◌↔◌, ◌⊎◌, Bool, true, false, Option, List, [], ◌∷◌, ◌++◌,
  append_assoc, length, arith,
}
use scanr.Common.{◌<◌, inl, inr, leb, take, Bool-cases}
use scanr.Common.Text.{codes, ends_with}
use scanr.Common.Text.Equality.{text_eq_refl, EndsIn, ends_with-EndsIn, EndsIn-ends_with}
use scanr.Common.Result.{Result}
use scanr.Diag.Pressure.{IoError}
use scanr.Probe.Outcome.{
  open_state, error, proxy_reply, Phases, ProbeOutcome, outcome_open, outcome_new,
}
use scanr.Transport.Wire.{Bytes, Read, World, read_exact}
use scanr.Transport.Wire.Chunks.{Brings, InTime, read_exact-Took}
use scanr.Transport.Wire.Sequence.{InTime-clock, then_run-ok}
use scanr.Transport.Http.{
  Response, max_response_bytes, is_block_end, is_http, parse, read_block, read_response, classify,
}

-- The bytes end in a blank line: CR LF CR LF, or LF LF.
abbrev pub IsEnded : Bytes → Type 0
IsEnded buf = EndsIn (13 ∷ 10 ∷ 13 ∷ 10 ∷ []) buf ⊎ EndsIn (10 ∷ 10 ∷ []) buf

-- The first five bytes spell `HTTP/`, as far as they are there; behind them any byte may come.
abbrev pub IsHttp : Bytes → Type 0
IsHttp buf = (5 < length buf) ⊎ (buf ≡ take (length buf) (codes "HTTP/"))

-- A header block behind the bytes `front`: each of its bytes keeps it a response of HTTP, the last
-- ends it with a blank line, and no other does.
pub data IsBlock : Bytes → Bytes → Type 0 where
  last :
      {front : Bytes} (b : ℕ)
      → IsHttp (front ++ b ∷ [])
      → IsEnded (front ++ b ∷ [])
      → IsBlock front (b ∷ [])
  more :
      {front : Bytes} (b : ℕ) {tail : Bytes}
      → IsHttp (front ++ b ∷ [])
      → ¬ IsEnded (front ++ b ∷ [])
      → IsBlock (front ++ b ∷ []) tail
      → IsBlock front (b ∷ tail)

IsHttp-is_http : (buf : Bytes) → IsHttp buf → is_http buf ≡ true
unfolding is_http
IsHttp-is_http buf (inl l) = let long : leb (length buf) 5 ≡ false = ground arith in rw long refl
IsHttp-is_http buf (inr e) = elim (Bool-cases (leb (length buf) 5)) [
  | inl h ↦ rw (h, ← e) (text_eq_refl buf)
  | inr h ↦ rw h refl
]

IsEnded-is_block_end : (buf : Bytes) → IsEnded buf → is_block_end buf ≡ true
unfolding is_block_end
IsEnded-is_block_end buf (inl e) = rw (EndsIn-ends_with buf _ e) refl
IsEnded-is_block_end buf (inr e) =
    let shown = EndsIn-ends_with buf (10 ∷ 10 ∷ []) e in
    elim (Bool-cases (ends_with buf (13 ∷ 10 ∷ 13 ∷ 10 ∷ []))) [
      | inl h ↦ rw h refl
      | inr h ↦ rw (h, shown) refl
    ]

pub unended : (buf : Bytes) → is_block_end buf ≡ false → ¬ IsEnded buf
unended buf h e = let yes = IsEnded-is_block_end buf e in cc

open_is_block_end : (buf : Bytes) → ¬ IsEnded buf → is_block_end buf ≡ false
unfolding is_block_end
open_is_block_end buf n = elim (Bool-cases (ends_with buf (13 ∷ 10 ∷ 13 ∷ 10 ∷ []))) [
  | inl h ↦ absurd (n (inl (ends_with-EndsIn buf _ h)))
  | inr h ↦ elim (Bool-cases (ends_with buf (10 ∷ 10 ∷ []))) [
    | inl k ↦ absurd (n (inr (ends_with-EndsIn buf _ k)))
    | inr k ↦ rw (h, k) refl
  ]
]

-- The result of a read, and the stream behind it.
pub record Gave {A : Type 0} (after : List Read) (w : World) (a : Result IoError A) (rest : Bytes)
    (r : Result IoError A × World) : Type 0 where
  pub value : r.0 ≡ a
  pub left : Brings after r.1.reads rest
  pub sent : r.1.sent ≡ w.sent

module _ (after : List Read) (d : Option ℕ) (rest : Bytes) where
  read_block-Gave :
      (front tail : Bytes) (room : ℕ) (w : World)
      → IsBlock front tail
      → length tail ≤ room
      → Brings after w.reads (tail ++ rest)
      → InTime d w
      → Gave after w (parse (front ++ tail)) rest (read_block room d front w)
  unfolding read_block
  read_block-Gave front tail zero w (last b h e) l s t = absurd (omega arith)
  read_block-Gave front tail zero w (more b h e k) l s t = absurd (omega arith)
  read_block-Gave front tail (suc room) w (last b h e) l s t =
      let k = read_exact-Took after d w (b ∷ []) rest s t in
      rw (then_run-ok _ (read_exact 1 d w) k.value, IsHttp-is_http _ h, IsEnded-is_block_end _ e)
        (record { value = refl; left = k.left; sent = k.sent })
  read_block-Gave front tail (suc room) w (more b {tail = others} h e n) l s t =
      let k = read_exact-Took after d w (b ∷ []) (others ++ rest) s t in
      let g =
        read_block-Gave (front ++ b ∷ []) others room (read_exact 1 d w).1 n (omega arith) k.left
          (InTime-clock d w _ k.clock t) in
      rw (then_run-ok _ (read_exact 1 d w) k.value, IsHttp-is_http _ h, open_is_block_end _ e)
        (record {
          value = g.value ∙ ap parse (append_assoc front (b ∷ []) others);
          left = g.left;
          sent = g.sent ∙ k.sent;
        })

-- A header block spells `HTTP/` first and ends at its first blank line, CR LF CR LF or LF LF. However the
-- bytes of one of at most 8192 bytes are cut into reads, a response read in time is what the parser makes of the block, and the stream is left at the first byte behind the
-- blank line.
pub read_response-Gave :
    (after : List Read) (deadline : Option ℕ) (w : World) (block rest : Bytes)
    → IsBlock [] block
    → length block ≤ max_response_bytes
    → Brings after w.reads (block ++ rest)
    → InTime deadline w
    → Gave after w (parse block) rest (read_response deadline w)
unfolding read_response
read_response-Gave after d w block rest b l s t =
    read_block-Gave after d rest [] block max_response_bytes w b l s t

-- What an HTTP status may be taken for.
pub record IsVerdict (T : Type 0) (status : ℕ) (o : ProbeOutcome T) : Type 0 where
  pub opens : (o.state ≡ open_state) ↔ ((200 ≤ status) × (status ≤ 299))
  pub else_error : (o.state ≡ open_state) ⊎ (o.state ≡ error)
  pub by_proxy : o.source ≡ proxy_reply

-- For every response: the port is open exactly on a status of the 200s, and any other status is an
-- error, never closed or filtered. The source is the proxy's reply.
pub classify-IsVerdict :
    (T : Type 0) (r : Response) (authenticating : Bool) (phases : Phases)
    → IsVerdict T r.status (classify T r authenticating phases)
unfolding classify outcome_open outcome_new
classify-IsVerdict T r authenticating phases = record {
  opens = ground arith;
  else_error = ground arith;
  by_proxy = ground arith;
}
