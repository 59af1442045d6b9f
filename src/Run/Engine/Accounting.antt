-- ===== src/Run/Engine/Accounting.antt =====
-- What the last event of a scan of src/run.rs says of the planned probes is true: each is counted once,
-- as reported, abandoned or never started, and the set to resume with holds those not reported.
use scanr.Common.{
  ℕ, ◌+◌, ◌^◌, ◌≤◌, ◌<◌, ◌≡◌, refl, sym, ◌∙◌, ◌↔◌, ◌⊎◌, inl, inr, Bool, true, false, some, List, [],
  ◌∷◌, map, All, In, length, length-map, ltb, ◌==◌, if◌then◌else◌, Bool-cases, All-In, ltb→lt,
  not-ltb, arith,
}
use scanr.Output.Record.{Counts, count_state, record_outcome, abandoned_count, not_started}
use scanr.Probe.Outcome.{State, open_state, closed, filtered, error}
use scanr.Sched.WorkCounter.{WorkCounter, issued}
use scanr.Run.Reported.{
  Reported, max_tracked_probes, words, word_count, reported_new, abandoned, mark_all,
}
use scanr.Run.Reported.Tracked.{IsDistinct}
use scanr.Run.Reported.Abandoned.{abandoned-mark_all}
use scanr.Run.Worker.{Completed}
use scanr.Run.Collector.{Collected, collector_new, collect, collect_all}
use scanr.Run.Engine.{Event, scan_new, scan_run}
use scanr.Run.Engine.Live.{in_batch}
use scanr.Run.Engine.Invariant.{scan_new-IsAccounted}
use scanr.Run.Terminal.{Resume, conclude}

module _ (T : Type 0) where
  abbrev pub raw_indices : List (Completed T) → List ℕ
  raw_indices log = map (λ c. c.raw_index) log

  reported-collect_all :
      (log : List (Completed T)) (c : Collected T) (r : Reported)
      → c.reported ≡ some r
      → (collect_all T log c).reported ≡ some (mark_all (raw_indices log) r)
  unfolding collect_all collect mark_all
  reported-collect_all [] c r e = e
  reported-collect_all (x ∷ log) c r e = reported-collect_all log (collect T x c) _ (rw e refl)

  -- the tallies by state
  abbrev tallied : Counts → ℕ
  tallied c = c.open_ports + c.closed_ports + c.filtered_ports + c.errors

  record_outcome_lem :
      (s : State) (n : ℕ) (c : Counts)
      → c.completed + 1 < 2 ^ 64
      → tallied c ≡ c.completed
      → ((record_outcome s n c).completed ≡ c.completed + 1)
        × (tallied (record_outcome s n c) ≡ c.completed + 1)
        × ((record_outcome s n c).planned ≡ c.planned)
  unfolding record_outcome count_state
  record_outcome_lem open_state n c l e = (omega arith, omega (arith, e), refl)
  record_outcome_lem closed n c l e = (omega arith, omega (arith, e), refl)
  record_outcome_lem filtered n c l e = (omega arith, omega (arith, e), refl)
  record_outcome_lem error n c l e = (omega arith, omega (arith, e), refl)

  counts-collect_all :
      (log : List (Completed T)) (c : Collected T)
      → c.counts.completed + length log < 2 ^ 64
      → tallied c.counts ≡ c.counts.completed
      → ((collect_all T log c).counts.completed ≡ c.counts.completed + length log)
        × (tallied (collect_all T log c).counts ≡ c.counts.completed + length log)
        × ((collect_all T log c).counts.planned ≡ c.counts.planned)
  unfolding collect_all collect
  counts-collect_all [] c l e = (omega arith, omega (arith, e), refl)
  counts-collect_all (x ∷ log) c l e =
      let (done, all, plan) =
        record_outcome_lem x.record_of.outcome.state x.record_of.attempts c.counts (omega arith)
          e in
      let (done', all', plan') =
        counts-collect_all log (collect T x c) (omega (arith, done)) (all ∙ sym done) in
      (omega (arith, done', done), omega (arith, all', done), plan' ∙ plan)

  -- An index that was received once is issued, and stands once in the log.
  In-raw_indices :
      (k : ℕ) (log : List (Completed T)) → In k (raw_indices log) → 1 ≤ in_batch T k log
  In-raw_indices k [] m = absurd m
  In-raw_indices k (c ∷ log) (inl e) = ground arith
  In-raw_indices k (c ∷ log) (inr m) = omega (arith, In-raw_indices k log m)

  raw_indices-IsDistinct :
      (log : List (Completed T)) → ((k : ℕ) → in_batch T k log ≤ 1) → IsDistinct (raw_indices log)
  raw_indices-IsDistinct [] h = tt
  raw_indices-IsDistinct (c ∷ log) h = (
    λ m.
        (let one = In-raw_indices c.raw_index log m in
          let here : (c.raw_index == c.raw_index) ≡ true = ground arith in
          let most : (if c.raw_index == c.raw_index then 1 else 0) + in_batch T c.raw_index log
              ≤ 1 =
            h c.raw_index in
          absurd (omega (arith, one, (rw here at most)))),
    raw_indices-IsDistinct log (λ k. omega (arith, h k)),
  )

  raw_indices-below :
      (log : List (Completed T)) (n : ℕ)
      → ((k : ℕ) → in_batch T k log ≤ (if ltb k n then 1 else 0))
      → All (λ k. k < n) (raw_indices log)
  raw_indices-below [] n h = tt
  raw_indices-below (c ∷ log) n h = (
    (let here : (c.raw_index == c.raw_index) ≡ true = ground arith in
        let most : (if c.raw_index == c.raw_index then 1 else 0) + in_batch T c.raw_index log
            ≤ (if ltb c.raw_index n then 1 else 0) =
          h c.raw_index in
        ground (arith, (rw here at most))),
    raw_indices-below log n (λ k. omega (arith, h k)),
  )

  -- What the last event says when the collector has received the results of `log`.
  pub record IsConcluded (total : ℕ) (log : List (Completed T)) (c : Counts) (r : Resume)
      : Type 0 where
    pub partition : c.completed + abandoned_count c + not_started c ≡ total
    pub by_state : tallied c ≡ c.completed
    pub received : c.completed ≡ length log
    pub once : IsDistinct (raw_indices log)
    pub named : length r.abandoned_indices ≡ abandoned_count c
    pub from_started : r.not_started_from ≡ c.started
    pub handed_out : (k : ℕ) → In k r.abandoned_indices → k < r.not_started_from
    pub to_resume :
        (k : ℕ)
        → k < total
        → (In k r.abandoned_indices ⊎ (r.not_started_from ≤ k)) ↔ ¬ In k (raw_indices log)

  resume_set :
      (k total started : ℕ) (left : List ℕ) (ks : List ℕ)
      → (In k left ↔ ((k < started) × ¬ In k ks))
      → All (λ i. i < started) ks
      → (In k left ⊎ (started ≤ k)) ↔ ¬ In k ks
  resume_set k total started left ks members below = (
    λ h. elim h [
      | inl m ↦ (members.0 m).1
      | inr l ↦ (λ m. absurd (omega (arith, l, All-In (λ i. i < started) ks below m)))
    ],
    λ n. elim (Bool-cases (ltb k started)) [
      | inl h ↦ inl (members.1 (ltb→lt k started h, n))
      | inr h ↦ inr (not-ltb k started h)
    ],
  )

  reported_new-few :
      (total : ℕ)
      → total ≤ max_tracked_probes
      → reported_new total ≡ some (record { bits = words (word_count total); planned = total })
  unfolding reported_new
  reported_new-few total few = let h : ltb 256_000_000 total ≡ false = ground arith in rw h refl

  -- the tallies, once the results of `log` are in and the counter has issued so many
  tallies :
      (total : ℕ) (spans : Bool) (c : Collected T) (log : List (Completed T)) (started : ℕ)
      → c ≡ collect_all T log (collector_new T total spans)
      → length log ≤ started
      → started ≤ total
      → total ≤ max_tracked_probes
      → (c.counts.completed ≡ length log)
        × (tallied c.counts ≡ length log)
        × (c.counts.planned ≡ total)
  unfolding collector_new
  tallies total spans c log started known few within small =
      let (done, all, plan) =
        counts-collect_all log (collector_new T total spans) (omega arith) (omega arith) in
      rw known (omega (arith, done), omega (arith, all), plan)

  reported_of_log :
      (total : ℕ) (spans : Bool) (c : Collected T) (log : List (Completed T))
      → c ≡ collect_all T log (collector_new T total spans)
      → total ≤ max_tracked_probes
      → c.reported
        ≡ some (
            mark_all
              (raw_indices log)
              (record { bits = words (word_count total); planned = total }))
  unfolding collector_new
  reported_of_log total spans c log known few = rw known (
      reported-collect_all log (collector_new T total spans)
        (record { bits = words (word_count total); planned = total }) (reported_new-few total few))

  pub concluded :
      (total : ℕ) (spans : Bool) (c : Collected T) (counter : WorkCounter)
      (log : List (Completed T))
      → total ≤ max_tracked_probes
      → c ≡ collect_all T log (collector_new T total spans)
      → issued counter ≤ total
      → ((k : ℕ) → in_batch T k log ≤ (if ltb k (issued counter) then 1 else 0))
      → (r : Resume) × ((conclude T c counter).1 ≡ some r)
        × IsConcluded total log (conclude T c counter).0 r
  unfolding conclude abandoned_count not_started
  concluded total spans c counter log few known within single =
      let ks = raw_indices log in
      let once = raw_indices-IsDistinct log (λ k. ground (arith, single k)) in
      let below = raw_indices-below log (issued counter) single in
      let tracker : Reported = record { bits = words (word_count total); planned = total } in
      let (members, sizes) =
        abandoned-mark_all total (issued counter) ks tracker (reported_new-few total few) within
          below once in
      let same : length ks ≡ length log = length-map (λ (x : Completed T). x.raw_index) log in
      let (done, all, plan) =
        tallies total spans c log (issued counter) known (omega (arith, sizes, same)) within few in
      (
        record {
          not_started_from = issued counter;
          abandoned_indices = abandoned (mark_all ks tracker) (issued counter);
        },
        rw (reported_of_log total spans c log known few) refl,
        record {
          partition = omega (arith, done, plan, sizes, same);
          by_state = all ∙ sym done;
          received = done;
          once = once;
          named = omega (arith, done, sizes, same);
          from_started = refl;
          handed_out = λ k m. ((members k).0 m).0;
          to_resume = λ k l.
              resume_set k total (issued counter) (abandoned (mark_all ks tracker) (issued counter))
                ks (members k) below;
        },
      )

-- Whatever the order in which the workers, the collector and interrupts take their steps (fewer than
-- 2 ^ 64), at every point of a scan of at most 256 million probes: the collector has received at most
-- one result for each probe; the planned probes are the completed, the abandoned and the never started
-- ones; the completed ones divide into the four states; as many indices are named as abandoned as are
-- counted, all of them issued; and those named, together with those from `not_started_from` on, are
-- exactly the planned probes that no result was received for.
pub scan-IsConcluded :
    (T : Type 0) (n total : ℕ) (spans : Bool) (es : List (Event T))
    → total ≤ max_tracked_probes
    → length es < 2 ^ 64
    → (log : List (Completed T)) × ((scan_run T es (scan_new T n total spans)).collected
        ≡ collect_all T log (collector_new T total spans))
      × (r : Resume) × ((conclude T
            (scan_run T es (scan_new T n total spans)).collected
            (scan_run T es (scan_new T n total spans)).shared.counter).1
          ≡ some r)
      × IsConcluded T total log
          (conclude T
            (scan_run T es (scan_new T n total spans)).collected
            (scan_run T es (scan_new T n total spans)).shared.counter).0
          r
unfolding issued
scan-IsConcluded T n total spans es few l =
    let a = scan_new-IsAccounted T n total spans es l in
    let s = scan_run T es (scan_new T n total spans) in
    let (r, resumed, c) =
      concluded T total spans s.collected s.shared.counter a.log few a.known (omega (arith, a.size))
        (λ k. omega (arith, a.once k)) in
    (a.log, a.known, r, resumed, c)
