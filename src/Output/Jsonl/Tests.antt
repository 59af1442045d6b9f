-- ===== src/Output/Jsonl/Tests.antt =====
-- The writer of src/output/jsonl.rs on a short scan, and the frames with a toy codec.
use scanr.Common.{
  ℕ, zero, suc, ◌<◌, ◌≡◌, refl, ap, ◌∙◌, Bool, true, false, Option, none, some, List, [], ◌∷◌, ◌++◌,
  length, arith,
}
use scanr.Common.Text.{Text, codes, decimal}
use scanr.Transport.Wire.{Bytes}
use scanr.Output.Jsonl.{Answers, Json, finalize}
use scanr.Output.Jsonl.Log.{Event, Terminal, IsFinal, write_record, write_record-IsFinal}
use scanr.Output.Jsonl.Frames.{
  Gzip, behind, frame_bytes, frames_new, emit_frame, Call, writes, flushes, call_all, all_bytes,
  call_all-gunzip,
}

-- a value is a text, and an object is printed as its texts
abbrev texts : List (Text × Text) → Bytes
texts [] = []
texts ((k, v) ∷ rest) = k ++ b':' ∷ v ++ b',' ∷ texts rest

abbrev plain : Json
plain = record { Value = Text; num = decimal; str = λ t. t; fields = λ v. []; print = texts }

abbrev fine : Answers Bool
fine = record { line = none; line_end = none; flushed = none; is_due = false; clock = codes "now" }

-- the disk is full after three bytes
abbrev full : Answers Bool
full = record {
  line = some (true, 3);
  line_end = none;
  flushed = none;
  is_due = false;
  clock = codes "now";
}

abbrev event : Text → Answers Bool → Event Bool plain
event kind a = record { kind = kind; body = codes ""; answers = a }

abbrev last_event : Terminal Bool plain
last_event = record { event = event (codes "scan_completed") fine; flushed = none }

abbrev started : List (Event Bool plain)
started = event (codes "scan_started") fine ∷ event (codes "probe_result") fine ∷ []

write_record-IsFinal_example :
    IsFinal Bool plain
      (codes "id")
      started
      last_event
      (write_record Bool plain (codes "id") started last_event).0.0
      (write_record Bool plain (codes "id") started last_event).0.1
      (write_record Bool plain (codes "id") started last_event).1.1
write_record-IsFinal_example =
    write_record-IsFinal Bool plain (codes "id") started last_event (omega arith)

-- a failure on the way does not keep the last event from being written
failed_midway :
    finalize Bool plain
      (write_record Bool plain
        (codes "id")
        (event (codes "probe_result") full ∷ started)
        last_event).1.1
    ≡ true
unfolding write_record finalize
failed_midway = refl

-- a codec: every byte one up, and 0 at the end of a member
abbrev pack : Bytes → Bytes
pack [] = 0 ∷ []
pack (b ∷ bs) = suc b ∷ pack bs

abbrev consed : ℕ → Option Bytes → Option Bytes
consed b none = none
consed b (some bs) = some (b ∷ bs)

abbrev unpack : Bytes → Option Bytes
unpack [] = some []
unpack (zero ∷ bs) = unpack bs
unpack (suc b ∷ bs) = consed b (unpack bs)

consed-behind : (b : ℕ) (bs : Bytes) (o : Option Bytes) → consed b (behind bs o) ≡ behind (b ∷ bs) o
consed-behind b bs none = refl
consed-behind b bs (some rest) = refl

behind_nothing : (o : Option Bytes) → o ≡ behind [] o
behind_nothing none = refl
behind_nothing (some b) = refl

unpack-pack : (b rest : Bytes) → unpack (pack b ++ rest) ≡ behind b (unpack rest)
unpack-pack [] rest = behind_nothing (unpack rest)
unpack-pack (b ∷ bs) rest = ap (consed b) (unpack-pack bs rest) ∙ consed-behind b bs (unpack rest)

abbrev toy : Gzip
toy = record { gzip = pack; gunzip = unpack; gunzip_nil = refl; gunzip_member = unpack-pack }

abbrev calls : List (Call Bool toy)
calls = writes (1 ∷ 2 ∷ []) none ∷ flushes none none ∷ writes (3 ∷ []) none ∷ []

call_all-gunzip_example :
    ((done : Bytes) × (unpack (call_all Bool toy calls (frames_new Bool toy)).inner ≡ some done)
      × (done ++ (call_all Bool toy calls (frames_new Bool toy)).buf ≡ all_bytes Bool toy calls)
      × (length (call_all Bool toy calls (frames_new Bool toy)).buf < frame_bytes))
    × (unpack (emit_frame Bool toy none (call_all Bool toy calls (frames_new Bool toy))).1.inner
        ≡ some (all_bytes Bool toy calls))
call_all-gunzip_example = call_all-gunzip Bool toy calls (refl, (refl, (refl, tt)))
