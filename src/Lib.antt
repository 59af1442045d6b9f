-- ===== src/Lib.antt =====
-- scanr is a TCP connect scanner that works through proxies. It reads targets and ports, visits their
-- pairs in a pseudorandom order, probes each one directly or through a path of SOCKS5 and HTTP CONNECT
-- proxies, and classifies what it sees. This library models that core and proves what it promises.
--
-- Common holds what the other modules share: tests on native numbers, lists, bit operations at every
-- width, Rust's `Result`, and texts as lists of Unicode scalar values with the operations of `str`.
-- The order of the probes is in Plan/Permute, after src/plan/permute.rs: a bijection by a Feistel network
-- and cycle walking. The cycle is bounded by fuel, one more than the size of the domain,
-- and Plan/Permute/Cycle shows that this is enough. The types of src/plan/types.rs that the transports
-- use are in Plan/Types.
-- Net/Ports models src/net/ports.rs: `parse_ports` and the text of a port list. Net/Target models
-- src/net/target.rs: parsing (Net/Target/Parse), `matches`, and `TargetSet::expand`; reading the text of
-- an address is an argument. Net/Addr has the addresses of `std::net`.
-- Diag models the pressure conditions and the port budget of src/diag.rs.
-- Probe models src/probe.rs: outcomes (Probe/Outcome), the states of the attempts (Probe/Attempts) and
-- `classify_os_error` (Probe/Classify).
-- Transport/Wire is the stream to a peer as src/transport/mod.rs uses it. A world holds a script of the
-- coming reads and writes, what has been sent, and the clock, and `read_exact` runs on it; its recursion
-- is on the script, so a peer that trickles for ever is a longer script. A write that fails has sent as much
-- of its message as the script says. Transport/Destination has
-- `Destination` and `Reply`. Transport/Socks5 and Transport/Http are the protocols of
-- src/transport/socks5.rs and src/transport/http.rs; the reader of an HTTP response recurs on the bytes
-- that its limit of 8192 leaves. Transport/Path is `ProxyTransport`: the walk over the hops, the CONNECT
-- that names the destination, and the probe. Transport/Pool is src/transport/pool.rs over members behind
-- the trait `Transport`, which is a record of operations. An outcome goes through the error channel, as in the source.
-- Output/Span models src/output/span.rs: the classes of interchangeable outcomes and the ranges of counter
-- indices that stand for them; its floating-point timing is left out.
-- Sched models the work counter of src/sched.rs: each take is one atomic step, and a run of the workers is
-- any order of steps.
-- The numbering of the probes of a `ScanPlan` in src/plan/types.rs is Plan/Probes, and Plan/Probes/Visits
-- joins it with the permutation.
-- Run models the engine of src/run.rs. Run/Probing is what a worker does with one index: the permuted
-- endpoint, the probe and its retries, whose loop recurs on as many rounds as there are retries, and the record; the transport, the cancel flag
-- and the pause act on a world that is a parameter. Run/Worker is the loop of a worker as steps over
-- the shared counter, flag and bounded channel, with its batch; Run/Collector counts and marks what it
-- receives; Run/Engine is any order of the steps of workers, collector and interrupts; Run/Reported is the
-- bit set behind the resume set, and Run/Terminal the end of a scan. Output/Record has the record of a
-- probe and the tallies of src/output.
-- Timefmt has the dates and stamps of src/timefmt.rs over the integers of Common/Int: an `i64` there is far
-- from its bounds, since a day count comes from a clock in milliseconds or from a year of four digits.
-- X509 is the reader of a leaf certificate in src/x509.rs: its DER elements, with a loop over them whose fuel
-- is the length of its input, the fields (X509/Fields), the names (X509/Names), `parse`
-- (X509/Leaf), and the words of a result line (X509/Summary).
-- X509/Encoding writes DER independently of the code. The text of an address is an argument.
-- Cancel models src/cancel.rs, and Cancel/Signals the signal handler and its watcher in src/cli.rs.
--
-- The operating system (connecting, socket timeouts) and the text of an address are the record `Os`, an
-- argument of the path, with no law assumed of them. The TLS probe of src/tls.rs is an argument too.
-- Durations and instants are numbers of nanoseconds; `elapsed` is a difference of two looks at the clock.
-- A machine integer is a number whose bounds are written where the source relies on them.
--
-- Not modelled: terminal and line output, the rate limiter (its tokens are floating-point), configuration
-- files and the command line, the TLS probe, and the fidelity measurement.
pub mod Cancel
pub mod Common
pub mod Diag
pub mod Net
pub mod Output
pub mod Plan
pub mod Probe
pub mod Run
pub mod Sched
pub mod Transport
pub mod Timefmt
pub mod X509
