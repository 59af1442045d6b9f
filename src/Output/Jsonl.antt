-- ===== src/Output/Jsonl.antt =====
-- `JsonlWriter` of src/output/jsonl.rs, and `emit` of src/run.rs. What the file answers to a write or a
-- flush is given with each call, and so is the text of the time. A JSON value and its print belong to
-- serde_json, and are parameters.
pub mod Log
pub mod Frames
mod Tests
use scanr.Common.{
  ℕ, ◌+◌, ◌%◌, ◌^◌, Bool, true, false, not, ◌&&◌, ◌||◌, Option, none, some, List, [], ◌∷◌, ◌++◌,
  take, if◌then◌else◌,
}
use scanr.Common.Text.{Text, codes, text_eq}
use scanr.Transport.Wire.{Bytes}

abbrev pub contained : Text → List Text → Bool
contained s [] = false
contained s (t ∷ ts) = text_eq t s || contained s ts

-- the kinds whose loss would make the record unreadable
unfoldable pub is_critical : Text → Bool
unfolding text_eq
is_critical kind = contained kind (
    codes "scan_started"
    ∷ codes "scan_config"
    ∷ codes "scan_completed"
    ∷ codes "scan_interrupted"
    ∷ codes "scan_failed"
    ∷ codes "scan_warning"
    ∷ codes "probe_span"
    ∷ [])

-- What the sink answers: to the write of the line and of the line's end, each with the number of bytes
-- that it took before it failed, and to a flush.
pub record Answers (E : Type 0) : Type 0 where
  pub line : Option (E × ℕ)
  pub line_end : Option (E × ℕ)
  pub flushed : Option E
  pub is_due : Bool
  pub clock : Text

-- `print` gives the text of the object that these insertions make, in their order; a later one replaces
-- an earlier one of its key. `fields` are those of an object, in order, and of nothing else.
pub record Json : Type 1 where
  pub Value : Type 0
  pub num : ℕ → Value
  pub str : Text → Value
  pub fields : Value → List (Text × Value)
  pub print : List (Text × Value) → Bytes

pub record Writer (E : Type 0) : Type 0 where
  pub is_open : Bool
  pub out : Bytes
  pub renames : Bool
  pub scan_id : Text
  pub seq : ℕ
  pub terminal_written : Bool
  pub error : Option E

module _ (E : Type 0) where
  unfoldable pub create : Text → Writer E
  create scan_id = record {
    is_open = true;
    out = [];
    renames = true;
    scan_id = scan_id;
    seq = 0;
    terminal_written = false;
    error = none;
  }

  -- one `write_all`
  abbrev pub write_all : Option (E × ℕ) → Bytes → Bytes → Option E × Bytes
  write_all none bytes out = (none, out ++ bytes)
  write_all (some (e, n)) bytes out = (some e, out ++ take n bytes)

  -- the line, and unless it failed its end
  abbrev pub write_both : Option (E × ℕ) → Option (E × ℕ) → Bytes → Bytes → Option E × Bytes
  write_both none second line out = write_all second (b'\n' ∷ []) (out ++ line)
  write_both (some (e, n)) second line out = (some e, out ++ take n line)

  unfoldable pub write_line : Answers E → Bytes → Bytes → Option E × Bytes
  write_line a line out = write_both a.line a.line_end line out

  abbrev pub failed_with : E → Writer E → Option E × Writer E
  failed_with e w = (some e, record w { error = some e })

  -- the flush behind a written line
  unfoldable pub flush_after : Bool → Option E → Writer E → Option E × Writer E
  flush_after true (some e) w = failed_with e w
  flush_after true none w = (none, w)
  flush_after false answer w = (none, w)

  abbrev pub settle : Bool → Answers E → Option E × Bytes → Writer E → Option E × Writer E
  settle critical a (some e, out) w = failed_with e (record w { out = out })
  settle critical a (none, out) w =
      flush_after (critical || a.is_due) a.flushed (record w { out = out })

module _ (E : Type 0) (J : Json) where
  open J use {Value, num, str, fields, print}

  abbrev pub envelope : Text → ℕ → Text → Text → List (Text × Value)
  envelope kind seq clock scan_id =
      (codes "type", str kind)
      ∷ (codes "seq", num seq)
      ∷ (codes "ts", str clock)
      ∷ (codes "scan_id", str scan_id)
      ∷ []

  -- the line of an event
  unfoldable pub line_of : Text → ℕ → Text → Text → Value → Bytes
  line_of kind seq clock scan_id body = print (envelope kind seq clock scan_id ++ fields body)

  -- `None` is success
  unfoldable pub emit : Text → Value → Answers E → Writer E → Option E × Writer E
  unfolding line_of write_line flush_after is_critical
  emit kind body a w =
      if w.terminal_written
      then (none, w)
      else (let counted = record w { seq = (w.seq + 1) % 2 ^ 64 } in
          if w.is_open
          then settle E (is_critical kind) a
              (write_line E a (line_of kind w.seq a.clock w.scan_id body) w.out) counted
          else (none, counted))

  -- `flushed` answers the second flush
  abbrev pub terminated : Option E → Option E × Writer E → Option E × Writer E
  terminated flushed (some e, w) = (some e, w)
  terminated flushed (none, w) =
      ((if w.is_open then flushed else none), record w { terminal_written = true })

  unfoldable pub emit_terminal :
      Text → Value → Answers E → Option E → Writer E → Option E × Writer E
  unfolding emit
  emit_terminal kind body a flushed w = terminated flushed (emit kind body a w)

  -- whether `finalize` names the file for good, when its flush and its rename succeed
  unfoldable pub finalize : Writer E → Bool
  finalize w = w.terminal_written && w.renames

  -- `emit` of src/run.rs, with the first failure that it remembers
  unfoldable pub emit_unless_failed :
      Text → Value → Answers E → Option E × Writer E → Option E × Writer E
  unfolding emit
  emit_unless_failed kind body a (some e, w) = (some e, w)
  emit_unless_failed kind body a (none, w) = emit kind body a w
