-- ===== src/Transport/Socks5/Reply.antt =====
-- `read_reply` and `classify_reply` of src/transport/socks5.rs against RFC 1928.
use scanr.Common.{ℕ, ◌+◌, ◌≡◌, ◌↔◌, ◌⊎◌, Option, none, List, [], ◌∷◌, ◌++◌, length, get_or, arith}
use scanr.Probe.Outcome.{
  open_state, closed, filtered, proxy_reply, Phases, ProbeOutcome, outcome_open, outcome_new,
}
use scanr.Transport.Wire.{Bytes, Read, World, pure, ◌>>=◌, read_exact}
use scanr.Transport.Wire.Chunks.{Brings, InTime, Took, read_exact-Took}
use scanr.Transport.Wire.Sequence.{InTime-clock, Took-bind, Took-pure}
use scanr.Transport.Socks5.{
  version, atyp_ipv4, atyp_ipv6, atyp_domain, read_reply, read_addr_len, read_bound, classify_reply,
}

-- A reply of RFC 1928 with this code: version, code, a reserved byte, the type of the bound address,
-- the address and two bytes of port.
pub data IsReply (code : ℕ) : Bytes → Type 0 where
  bound_v4 :
      (rsv : ℕ) (rest : Bytes)
      → length rest ≡ 6
      → IsReply code (version ∷ code ∷ rsv ∷ atyp_ipv4 ∷ rest)
  bound_v6 :
      (rsv : ℕ) (rest : Bytes)
      → length rest ≡ 18
      → IsReply code (version ∷ code ∷ rsv ∷ atyp_ipv6 ∷ rest)
  bound_name :
      (rsv size : ℕ) (rest : Bytes)
      → length rest ≡ size + 2
      → IsReply code (version ∷ code ∷ rsv ∷ atyp_domain ∷ size ∷ rest)

module _ (after : List Read) (d : Option ℕ) (code : ℕ) where
  -- The bound address and port are read to their end.
  read_body-Took :
      (w : World) (body rest : Bytes)
      → Brings after w.reads (body ++ rest)
      → InTime d w
      → Took after w code rest ((read_exact (length body) d >>= (λ taken. pure code)) w)
  read_body-Took w body rest b t =
      Took-bind (read_exact (length body) d) (λ taken. pure code)
        (read_exact-Took after d w body rest b t) (λ w' b' c. Took-pure code b')

  -- The same behind the head of a reply, however many bytes `size` says.
  read_sized-Took :
      (w : World) (size : ℕ) (body rest : Bytes)
      → length body ≡ size + 2
      → Brings after w.reads (body ++ rest)
      → InTime d w
      → Took after w code rest ((read_exact (size + 2) d >>= (λ taken. pure code)) w)
  read_sized-Took w size body rest l b t = let k = read_body-Took w body rest b t in rw l at k

  -- A bound name says its size in a byte of its own.
  read_named-Took :
      (w : World) (size : ℕ) (body rest : Bytes)
      → length body ≡ size + 2
      → Brings after w.reads (size ∷ (body ++ rest))
      → InTime d w
      → Took after w code rest (
          ((read_exact 1 d >>= (λ l. pure (get_or l 0 0)))
              >>= (λ addr_len. read_exact (addr_len + 2) d >>= (λ taken. pure code)))
            w)
  read_named-Took w size body rest l b t =
      Took-bind (read_exact 1 d >>= (λ s. pure (get_or s 0 0)))
        (λ addr_len. read_exact (addr_len + 2) d >>= (λ taken. pure code))
        (Took-bind (read_exact 1 d) (λ s. pure (get_or s 0 0))
          (read_exact-Took after d w (size ∷ []) (body ++ rest) b t)
          (λ w1 b1 c1. Took-pure size b1))
        (λ w2 b2 c2. read_sized-Took w2 size body rest l b2 (InTime-clock d w w2 c2 t))

-- However the bytes of a well-formed reply are cut into reads, a reply read in time gives its code and
-- leaves the stream at the first byte behind the reply.
pub read_reply-Took :
    (after : List Read) (deadline : Option ℕ) (w : World) (code : ℕ) (reply rest : Bytes)
    → IsReply code reply
    → Brings after w.reads (reply ++ rest)
    → InTime deadline w
    → Took after w code rest (read_reply deadline w)
unfolding read_reply read_bound read_addr_len
read_reply-Took after d w code _ rest (bound_v4 rsv body l) b t =
    Took-bind (read_exact 4 d) (read_bound d)
      (read_exact-Took after d w (version ∷ code ∷ rsv ∷ atyp_ipv4 ∷ []) (body ++ rest) b t)
      (λ w1 b1 c1. read_sized-Took after d code w1 4 body rest l b1 (InTime-clock d w w1 c1 t))
read_reply-Took after d w code _ rest (bound_v6 rsv body l) b t =
    Took-bind (read_exact 4 d) (read_bound d)
      (read_exact-Took after d w (version ∷ code ∷ rsv ∷ atyp_ipv6 ∷ []) (body ++ rest) b t)
      (λ w1 b1 c1. read_sized-Took after d code w1 16 body rest l b1 (InTime-clock d w w1 c1 t))
read_reply-Took after d w code _ rest (bound_name rsv size body l) b t =
    Took-bind (read_exact 4 d) (read_bound d)
      (read_exact-Took after d w (version ∷ code ∷ rsv ∷ atyp_domain ∷ []) (size ∷ (body ++ rest)) b
        t)
      (λ w1 b1 c1. read_named-Took after d code w1 size body rest l b1 (InTime-clock d w w1 c1 t))

-- What a reply code may be taken for.
pub record IsVerdict (T : Type 0) (code : ℕ) (o : ProbeOutcome T) : Type 0 where
  pub opens : (o.state ≡ open_state) ↔ (code ≡ 0)
  pub closes : (o.state ≡ closed) ↔ (code ≡ 5)
  pub filters : (o.state ≡ filtered) ↔ ((code ≡ 3) ⊎ (code ≡ 4) ⊎ (code ≡ 6))
  pub by_proxy : o.source ≡ proxy_reply
  pub unpressed : o.pressure ≡ none

-- For every reply code: the port is open exactly on 0 (succeeded), closed exactly on 5 (refused) and
-- filtered exactly on 3, 4 and 6 (unreachable, expired); any other code is an error. The source is
-- the proxy's reply and no pressure is reported.
pub classify_reply-IsVerdict :
    (T : Type 0) (code : ℕ) (phases : Phases) → IsVerdict T code (classify_reply T code phases)
unfolding classify_reply outcome_open outcome_new
classify_reply-IsVerdict T code phases = record {
  opens = ground arith;
  closes = ground arith;
  filters = ground arith;
  by_proxy = ground arith;
  unpressed = ground arith;
}
