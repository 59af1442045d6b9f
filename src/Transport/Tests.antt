-- ===== src/Transport/Tests.antt =====
-- The transports of src/transport on concrete streams.
use scanr.Common.{◌≡◌, refl, Bool, true, false, none, some, List, [], ◌∷◌, ◌++◌, arith}
use scanr.Common.Result.{err}
use scanr.Common.Text.{codes, strip_prefix, ends_with}
use scanr.Common.{inl, inr}
use scanr.Common.Text.Equality.{EndsIn}
use scanr.Common.Text.Utf8.{as_bytes}
use scanr.Diag.Pressure.{interrupted, IoError}
use scanr.Net.Addr.{v4}
use scanr.Plan.Types.{socks5, full, Timing}
use scanr.Probe.Outcome.{Phases}
use scanr.Transport.Wire.{
  Bytes, Read, arrives, fails, World, incomplete, is_interrupted, read_exact, pure,
}
use scanr.Transport.Wire.Chunks.{Brings, done, piece, again, Took, read_exact-Took}
use scanr.Transport.Wire.{read_loop, is_late}
use scanr.Transport.Wire.Timely.{IsTimely, read_exact-IsTimely}
use scanr.Transport.Destination.{Destination, addr, host, dest_port}
use scanr.Transport.Socks5.{build_connect_request}
use scanr.Transport.Socks5.Request.{understood, names, understood-build_connect_request}
use scanr.Transport.Socks5.{read_reply, classify_reply}
use scanr.Transport.Socks5.Reply as Reply
use scanr.Transport.Socks5.Reply.{bound_v4, read_reply-Took, classify_reply-IsVerdict}
use scanr.Transport.Socks5.Handshake.{Hop}
use scanr.Transport.Socks5.Negotiation.{Conduct}
use scanr.Transport.Path.Walk.{greet}
use scanr.Transport.Path.Greeting.{IsBlamed, greet-Conduct}
use scanr.Transport.Http.{Response, parse, is_block_end, read_response, classify}
use scanr.Transport.Http.Base64.{base64, unbase64}
use scanr.Transport.Http.Base64.RoundTrip.{unbase64-base64}
use scanr.Transport.Http.Block.{
  IsBlock, last, more, unended, Gave, IsVerdict, read_response-Gave, classify-IsVerdict,
}
use scanr.Transport.Path.{Os, ProxyTransport}
use scanr.Transport.Path.Probe.{probe_detailed}
use scanr.Transport.Path.Grounded.{Grounded, probe_detailed-Grounded}

abbrev broken_off : IoError
broken_off = record { raw_os_error = none; kind = interrupted; message = [] }

abbrev stream : List Read → World
stream rs = record { reads = rs; writes = []; sent = []; clock = λ k. k; looks = 0 }

-- "ab" in two pieces with an interruption between them, and "c" behind
abbrev pieces : List Read
pieces = arrives (97 ∷ []) ∷ fails broken_off ∷ arrives (98 ∷ 99 ∷ []) ∷ []

pieces-Brings : Brings [] pieces (97 ∷ 98 ∷ 99 ∷ [])
unfolding is_interrupted
pieces-Brings = piece 97 [] _ (again refl (piece 98 (99 ∷ []) [] done))

read_exact-Took_example :
    Took [] (stream pieces) (97 ∷ 98 ∷ []) (99 ∷ []) (read_exact 2 none (stream pieces))
read_exact-Took_example =
    read_exact-Took [] none (stream pieces) (97 ∷ 98 ∷ []) (99 ∷ []) pieces-Brings tt

-- one byte at a time, and one too few before the deadline
abbrev trickle : World
trickle = stream (arrives (97 ∷ []) ∷ arrives (98 ∷ []) ∷ arrives (99 ∷ []) ∷ [])

trickle_late : (read_exact 3 (some 2) trickle).0 ≡ err incomplete
unfolding read_exact read_loop is_late
trickle_late = refl

read_exact-IsTimely_example : IsTimely trickle.reads 3 3 2 2 trickle (read_exact 3 (some 2) trickle)
read_exact-IsTimely_example = read_exact-IsTimely 3 2 2 trickle (λ look l. omega (arith, l))

abbrev refusal : Bytes
refusal = 5 ∷ 5 ∷ 0 ∷ 1 ∷ 0 ∷ 0 ∷ 0 ∷ 0 ∷ 0 ∷ 0 ∷ []

abbrev reply_in_two : World
reply_in_two = stream (arrives (5 ∷ 5 ∷ []) ∷ arrives (0 ∷ 1 ∷ 0 ∷ 0 ∷ 0 ∷ 0 ∷ 0 ∷ 0 ∷ 7 ∷ []) ∷ [])

read_reply-Took_example : Took [] reply_in_two 5 (7 ∷ []) (read_reply none reply_in_two)
read_reply-Took_example =
    read_reply-Took [] none reply_in_two 5 refusal (7 ∷ []) (bound_v4 0 _ refl)
      (piece 5 (5 ∷ []) _ (piece 0 _ [] done)) tt

abbrev no_phases : Phases
no_phases = record { proxy_connect = none; handshake = none; connect = none; total = 0 }

classify_reply-IsVerdict_example : Reply.IsVerdict Bool 5 (classify_reply Bool 5 no_phases)
classify_reply-IsVerdict_example = classify_reply-IsVerdict Bool 5 no_phases

abbrev proxy : Hop
proxy = record {
  kind = socks5;
  address = record { ip = v4 1; port = 1080 };
  username = some (codes "u");
  password = some (codes "p");
}

-- a hop that asks for the credentials and takes them
abbrev welcoming : World
welcoming = stream (arrives (5 ∷ 2 ∷ []) ∷ arrives (1 ∷ 0 ∷ []) ∷ arrives refusal ∷ [])

abbrev block : Bytes
block = codes "HTTP/1.1 200" ++ 10 ∷ 10 ∷ []

block-IsBlock : IsBlock [] block
unfolding is_block_end ends_with strip_prefix EndsIn
block-IsBlock = more _ (inr refl) (unended _ refl) (
    more _ (inr refl) (unended _ refl) (
      more _ (inr refl) (unended _ refl) (
        more _ (inr refl) (unended _ refl) (
          more _ (inr refl) (unended _ refl) (
            more _ (inl (omega arith)) (unended _ refl) (
              more _ (inl (omega arith)) (unended _ refl) (
                more _ (inl (omega arith)) (unended _ refl) (
                  more _ (inl (omega arith)) (unended _ refl) (
                    more _ (inl (omega arith)) (unended _ refl) (
                      more _ (inl (omega arith)) (unended _ refl) (
                        more _ (inl (omega arith)) (unended _ refl) (
                          more _ (inl (omega arith)) (unended _ refl) (
                            last _ (inl (omega arith))
                              (inr (codes "HTTP/1.1 200", refl)))))))))))))))

abbrev answered : World
answered = stream (arrives (block ++ 33 ∷ []) ∷ [])

read_response-Gave_example : Gave [] answered (parse block) (33 ∷ []) (read_response none answered)
read_response-Gave_example =
    read_response-Gave [] none answered block (33 ∷ []) block-IsBlock (omega arith)
      (piece 72 _ [] done) tt

abbrev forbidden : Response
forbidden = record { status = 403; status_line = codes "HTTP/1.1 403 Forbidden"; headers = [] }

classify-IsVerdict_example : IsVerdict Bool 403 (classify Bool forbidden false no_phases)
classify-IsVerdict_example = classify-IsVerdict Bool forbidden false no_phases

abbrev calm : Os
calm = record {
  show_ip = λ a. codes "ip";
  show_addr = λ a. codes "addr";
  connect_timeout = λ a d. pure tt;
  set_read_timeout = λ d. pure tt;
  set_write_timeout = λ d. pure tt;
}

abbrev timing : Timing Bool
timing = record {
  concurrency = 1;
  rate = 0;
  proxy_connect_timeout = 100;
  handshake_timeout = 100;
  connect_timeout = 100;
  retries = 0;
  retry_delay = 0;
  banner = none;
  tls = none;
}

greet-Conduct_example :
    Conduct Bool proxy
      (some 100)
      (record welcoming { looks = 1 })
      IsBlamed
      (greet calm Bool Bool timing 1 0 proxy socks5 no_phases 0 welcoming)
greet-Conduct_example = greet-Conduct calm Bool Bool timing 1 0 proxy no_phases 0 welcoming

abbrev path : ProxyTransport
path = record { name = codes "office"; first = proxy; others = []; fidelity = full }

abbrev target : Destination
target = addr (record { ip = v4 7; port = 80 })

probe_detailed-Grounded_example :
    Grounded (probe_detailed calm Bool Bool (λ a b c d w. (true, w)) timing path target welcoming).0
probe_detailed-Grounded_example =
    probe_detailed-Grounded calm Bool Bool timing path target (λ a b c d w. (true, w)) welcoming

abbrev named_host : Destination
named_host = host (codes "db.internal") 5432

understood-build_connect_request_example :
    understood (build_connect_request named_host) ≡ some (names named_host, dest_port named_host)
unfolding as_bytes
understood-build_connect_request_example =
    understood-build_connect_request named_host (omega arith, omega arith)

unbase64-base64_example : unbase64 (base64 (0 ∷ 255 ∷ 16 ∷ 62 ∷ [])) ≡ some (0 ∷ 255 ∷ 16 ∷ 62 ∷ [])
unbase64-base64_example =
    unbase64-base64 (0 ∷ 255 ∷ 16 ∷ 62 ∷ [])
      (omega arith, (omega arith, (omega arith, (omega arith, tt))))
