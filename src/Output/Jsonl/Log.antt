-- ===== src/Output/Jsonl/Log.antt =====
-- The record that the writer of src/output/jsonl.rs leaves: numbered lines, and one terminal event last.
use scanr.Common.{
  ℕ, suc, ◌+◌, ◌%◌, ◌^◌, ◌≤◌, ◌<◌, ◌≡◌, refl, sym, ap, ◌∙◌, Bool, true, false, ◌||◌, Option, none,
  some, List, [], ◌∷◌, ◌++◌, length, append-nil, append_assoc, arith,
}
use scanr.Common.Text.{Text}
use scanr.Transport.Wire.{Bytes}
use scanr.Output.Jsonl.{
  is_critical, Answers, Json, Writer, create, write_both, write_line, flush_after, settle, line_of,
  emit, terminated, emit_terminal, finalize, emit_unless_failed,
}

module _ (E : Type 0) (J : Json) where
  open J use {Value}

  -- An event that is handed to the writer, and what the file answers.
  pub record Event : Type 0 where
    pub kind : Text
    pub body : Value
    pub answers : Answers E

  -- `emit` of src/run.rs on one event after the other
  unfoldable pub emit_all : List Event → Option E × Writer E → Option E × Writer E
  unfolding emit_unless_failed
  emit_all [] w = w
  emit_all (e ∷ es) w = emit_all es (emit_unless_failed E J e.kind e.body e.answers w)

  abbrev pub ended : Bytes → Bytes
  ended line = line ++ b'\n' ∷ []

  -- the text of events that are numbered from `n` on
  abbrev pub numbered : Text → ℕ → List Event → Bytes
  numbered scan_id n [] = []
  numbered scan_id n (e ∷ es) =
      ended (line_of E J e.kind n e.answers.clock scan_id e.body) ++ numbered scan_id (n + 1) es

  -- A writer that is open and has no terminal event.
  pub record IsOpen (scan_id : Text) (w : Writer E) : Type 0 where
    pub is_open : w.is_open ≡ true
    pub unfinished : w.terminal_written ≡ false
    pub renames : w.renames ≡ true
    pub same_scan : w.scan_id ≡ scan_id

  -- What a call leaves: on success the line stands whole behind what was there.
  pub record IsWritten (scan_id : Text) (line : Bytes) (w : Writer E) (r : Option E × Writer E)
      : Type 0 where
    pub open_still : IsOpen scan_id r.1
    pub numbered_on : r.1.seq ≡ w.seq
    pub whole : r.0 ≡ none → r.1.out ≡ line

  flush_after-IsWritten :
      (scan_id : Text) (b : Bool) (f : Option E) (w : Writer E)
      → IsOpen scan_id w
      → IsWritten scan_id w.out w (flush_after E b f w)
  unfolding flush_after
  flush_after-IsWritten scan_id true (some e) w h = record {
    open_still = record {
      is_open = h.is_open;
      unfinished = h.unfinished;
      renames = h.renames;
      same_scan = h.same_scan;
    };
    numbered_on = refl;
    whole = λ q. refl;
  }
  flush_after-IsWritten scan_id true none w h = record {
    open_still = h;
    numbered_on = refl;
    whole = λ q. refl;
  }
  flush_after-IsWritten scan_id false f w h = record {
    open_still = h;
    numbered_on = refl;
    whole = λ q. refl;
  }

  settle-IsWritten :
      (scan_id : Text) (line : Bytes) (critical : Bool) (a : Answers E) (r : Option E × Bytes)
      (w : Writer E)
      → IsOpen scan_id w
      → (r.0 ≡ none → r.1 ≡ line)
      → IsWritten scan_id line w (settle E critical a r w)
  settle-IsWritten scan_id line critical a (some e, out) w h k = record {
    open_still = record {
      is_open = h.is_open;
      unfinished = h.unfinished;
      renames = h.renames;
      same_scan = h.same_scan;
    };
    numbered_on = refl;
    whole = λ q. cc;
  }
  settle-IsWritten scan_id line critical a (none, out) w h k =
      let s =
        flush_after-IsWritten scan_id (critical || a.is_due) a.flushed (record w { out = out })
          (record {
            is_open = h.is_open;
            unfinished = h.unfinished;
            renames = h.renames;
            same_scan = h.same_scan;
          }) in
      record {
        open_still = s.open_still;
        numbered_on = s.numbered_on;
        whole = λ q. s.whole q ∙ k refl;
      }

  write_both-whole :
      (first second : Option (E × ℕ)) (line out : Bytes)
      → (write_both E first second line out).0 ≡ none
      → (write_both E first second line out).1 ≡ out ++ ended line
  write_both-whole none none line out h = append_assoc out line (b'\n' ∷ [])
  write_both-whole none (some (e, n)) line out h = absurd cc
  write_both-whole (some (e, n)) second line out h = absurd cc

  emit-IsWritten :
      (scan_id : Text) (e : Event) (w : Writer E)
      → IsOpen scan_id w
      → w.seq + 1 < 2 ^ 64
      → IsWritten scan_id
          (w.out ++ ended (line_of E J e.kind w.seq e.answers.clock scan_id e.body))
          (record w { seq = w.seq + 1 })
          (emit E J e.kind e.body e.answers w)
  unfolding emit write_line
  emit-IsWritten scan_id e w h l =
      let wrap : (w.seq + 1) % 2 ^ 64 ≡ w.seq + 1 = omega arith in
      rw (h.unfinished, h.is_open, wrap, h.same_scan)
        (settle-IsWritten scan_id _ (is_critical e.kind) e.answers _ _
          (record { is_open = refl; unfinished = refl; renames = h.renames; same_scan = refl })
          (write_both-whole e.answers.line e.answers.line_end
            (line_of E J e.kind w.seq e.answers.clock scan_id e.body) w.out))

  emit_all-failed : (es : List Event) (e : E) (w : Writer E) → emit_all es (some e, w) ≡ (some e, w)
  unfolding emit_all
  emit_all-failed [] e w = refl
  emit_all-failed (x ∷ es) e w = emit_all-failed es e w

  -- what holds behind a run of events
  record IsLogged (scan_id : Text) (es : List Event) (w : Writer E) (r : Option E × Writer E)
      : Type 0 where
    open_still : IsOpen scan_id r.1
    counted : r.1.seq ≤ w.seq + length es
    whole : r.0 ≡ none → r.1.out ≡ w.out ++ numbered scan_id w.seq es
    numbered_on : r.0 ≡ none → r.1.seq ≡ w.seq + length es

  emit_all-IsLogged :
      (scan_id : Text) (es : List Event) (w : Writer E)
      → IsOpen scan_id w
      → w.seq + length es < 2 ^ 64
      → IsLogged scan_id es w (emit_all es (none, w))
  unfolding emit_all
  emit_all-IsLogged scan_id [] w h l = record {
    open_still = h;
    counted = omega arith;
    whole = λ q. sym (append-nil w.out);
    numbered_on = λ q. omega arith;
  }
  emit_all-IsLogged scan_id (e ∷ es) w h l =
      by_first (emit E J e.kind e.body e.answers w) (emit-IsWritten scan_id e w h (omega arith))
        (λ w' o q. emit_all-IsLogged scan_id es w' o q)
    where
      by_first :
          (r : Option E × Writer E)
          → IsWritten scan_id
              (w.out ++ ended (line_of E J e.kind w.seq e.answers.clock scan_id e.body))
              (record w { seq = w.seq + 1 })
              r
          → ((w' : Writer E)
              → IsOpen scan_id w'
              → w'.seq + length es < 2 ^ 64
              → IsLogged scan_id es w' (emit_all es (none, w')))
          → IsLogged scan_id (e ∷ es) w (emit_all es r)
      by_first (some x, w') f k = rw (emit_all-failed es x w') (record {
        open_still = f.open_still;
        counted = omega (arith, f.numbered_on);
        whole = λ q. cc;
        numbered_on = λ q. absurd (cc);
      })
      by_first (none, w') f k =
          let r = k w' f.open_still (omega (arith, f.numbered_on)) in
          let line = ended (line_of E J e.kind w.seq e.answers.clock scan_id e.body) in
          record {
            open_still = r.open_still;
            counted = omega (arith, r.counted, f.numbered_on);
            whole = λ q.
                r.whole q
                ∙ ap (λ b. b ++ numbered scan_id w'.seq es) (f.whole refl)
                ∙ ap (λ n. (w.out ++ line) ++ numbered scan_id n es) f.numbered_on
                ∙ append_assoc w.out line (numbered scan_id (w.seq + 1) es);
            numbered_on = λ q. omega (arith, r.numbered_on q, f.numbered_on);
          }

  -- A terminal event, and what the file answers to the flush behind it.
  pub record Terminal : Type 0 where
    pub event : Event
    pub flushed : Option E

  -- The source returns at once when one of the first two events fails; here the record goes on, without a
  -- further line.
  unfoldable pub write_record :
      Text → List Event → Terminal → (Option E × Writer E) × (Option E × Writer E)
  unfolding emit_all emit_terminal create
  write_record scan_id es t =
      let (err, w) = emit_all es (none, create E scan_id) in
      ((err, w), emit_terminal E J t.event.kind t.event.body t.event.answers t.flushed w)

  -- What `finalize` finds.
  pub record IsFinal (scan_id : Text) (es : List Event) (t : Terminal) (err : Option E)
      (w w' : Writer E) : Type 0 where
    -- the terminal line stands whole behind all else
    pub last :
        finalize E J w' ≡ true
        → w'.out
          ≡ w.out
            ++ ended (line_of E J t.event.kind w.seq t.event.answers.clock scan_id t.event.body)
    -- with no failure before it, the lines are those of the events, numbered from 0 on
    pub whole :
        finalize E J w' ≡ true → err ≡ none → w'.out ≡ numbered scan_id 0 (es ++ t.event ∷ [])
    -- and nothing is written behind it
    pub closed :
        finalize E J w' ≡ true → (e : Event) → emit E J e.kind e.body e.answers w' ≡ (none, w')

  terminated-IsFinal :
      (scan_id : Text) (line : Bytes) (w : Writer E) (f : Option E) (r : Option E × Writer E)
      → IsWritten scan_id line w r
      → finalize E J (terminated E J f r).1 ≡ true
      → ((terminated E J f r).1.out ≡ line) × ((terminated E J f r).1.terminal_written ≡ true)
  unfolding finalize
  terminated-IsFinal scan_id line w f (some e, w') h k =
      absurd (ground (arith, h.open_still.unfinished))
  terminated-IsFinal scan_id line w f (none, w') h k = (h.whole refl, refl)

  numbered-append :
      (scan_id : Text) (n : ℕ) (es : List Event) (e : Event)
      → numbered scan_id n (es ++ e ∷ [])
        ≡ numbered scan_id n es
          ++ ended (line_of E J e.kind (n + length es) e.answers.clock scan_id e.body)
  numbered-append scan_id n [] e = let z : n + 0 ≡ n = omega arith in rw z (append-nil _)
  numbered-append scan_id n (x ∷ es) e =
      let z : n + suc (length es) ≡ n + 1 + length es = omega arith in
      rw (z, numbered-append scan_id (n + 1) es e)
        (sym (
          append_assoc (ended (line_of E J x.kind n x.answers.clock scan_id x.body))
            (numbered scan_id (n + 1) es)
            (ended (line_of E J e.kind (n + 1 + length es) e.answers.clock scan_id e.body))))

  emit-closed :
      (e : Event) (w : Writer E)
      → w.terminal_written ≡ true
      → emit E J e.kind e.body e.answers w ≡ (none, w)
  unfolding emit
  emit-closed e w h = ground (arith, h)

-- Whatever the file answers, for a scan of fewer than 2 ^ 64 - 1 events: `finalize` gives the record its
-- last name only when the line of the terminal event stands whole behind everything else, and nothing is
-- written after it. When no failure was met before, the record is the lines of the events in order,
-- numbered from 0 on, the terminal one last.
pub write_record-IsFinal :
    (E : Type 0) (J : Json) (scan_id : Text) (es : List (Event E J)) (t : Terminal E J)
    → length es + 1 < 2 ^ 64
    → IsFinal E J scan_id es t
        (write_record E J scan_id es t).0.0
        (write_record E J scan_id es t).0.1
        (write_record E J scan_id es t).1.1
unfolding write_record emit_terminal create
write_record-IsFinal E J scan_id es t l =
    let start = create E scan_id in
    let logged =
      emit_all-IsLogged E J scan_id es start
        (record { is_open = refl; unfinished = refl; renames = refl; same_scan = refl })
        (omega arith) in
    let w = (emit_all E J es (none, start)).1 in
    let written =
      emit-IsWritten E J scan_id t.event w logged.open_still (omega (arith, logged.counted)) in
    let last_line = λ (n : ℕ).
      ended E J (line_of E J t.event.kind n t.event.answers.clock scan_id t.event.body) in
    let ends =
      terminated-IsFinal E J scan_id _ (record w { seq = w.seq + 1 }) t.flushed _ written in
    record {
      last = λ k. (ends k).0;
      whole = λ k q.
          (ends k).0
          ∙ ap (λ b. b ++ last_line w.seq) (logged.whole q)
          ∙ ap (λ n. numbered E J scan_id 0 es ++ last_line n) (logged.numbered_on q)
          ∙ sym (numbered-append E J scan_id 0 es t.event);
      closed = λ k e. emit-closed E J e _ (ends k).1;
    }
