-- ===== src/Output/Jsonl/Frames.antt =====
-- `GzFrames` of src/output/jsonl.rs: gzip members of what was written, one for each flush or 256 KiB. The
-- encoder and the decoder of concatenated members belong to flate2, and are parameters.
use scanr.Common.{
  ℕ, ◌<◌, ◌≡◌, refl, sym, ap, ◌∙◌, inl, inr, Option, none, some, List, [], ◌∷◌, ◌++◌, length, leb,
  Bool-cases, append-nil, append_assoc, All, if◌then◌else◌, arith,
}
use scanr.Common.Text.{is_empty}
use scanr.Transport.Wire.{Bytes}
use scanr.Output.Jsonl.{write_all}

abbrev pub frame_bytes : ℕ
frame_bytes = 262_144

pub record GzFrames : Type 0 where
  pub inner : Bytes
  pub buf : Bytes

abbrev pub behind : Bytes → Option Bytes → Option Bytes
behind b none = none
behind b (some rest) = some (b ++ rest)

-- A gzip encoder, and a decoder of members that stand one behind the other.
pub record Gzip : Type 0 where
  pub gzip : Bytes → Bytes
  pub gunzip : Bytes → Option Bytes
  pub gunzip_nil : gunzip [] ≡ some []
  pub gunzip_member : (b rest : Bytes) → gunzip (gzip b ++ rest) ≡ behind b (gunzip rest)

module _ (E : Type 0) (Z : Gzip) where
  open Z use {gzip, gunzip, gunzip_nil, gunzip_member}

  unfoldable pub frames_new : GzFrames
  frames_new = record { inner = []; buf = [] }

  abbrev pub emptied : Option E × Bytes → Option E × GzFrames
  emptied (e, inner) = (e, record { inner = inner; buf = [] })

  -- the buffer is cleared whether or not the write succeeds
  unfoldable pub emit_frame : Option (E × ℕ) → GzFrames → Option E × GzFrames
  emit_frame answer g =
      if is_empty g.buf then (none, g) else emptied (write_all E answer (gzip g.buf) g.inner)

  unfoldable pub write : Bytes → Option (E × ℕ) → GzFrames → Option E × GzFrames
  unfolding emit_frame
  write bytes answer g =
      let g' = record g { buf = g.buf ++ bytes } in
      if leb frame_bytes (length g'.buf) then emit_frame answer g' else (none, g')

  abbrev pub flushed : Option E → Option E × GzFrames → Option E × GzFrames
  flushed f (none, g) = (f, g)
  flushed f (some e, g) = (some e, g)

  -- `f` answers the flush of the inner writer
  unfoldable pub flush : Option (E × ℕ) → Option E → GzFrames → Option E × GzFrames
  unfolding emit_frame
  flush answer f g = flushed f (emit_frame answer g)

  -- What is asked of the frames.
  pub data Call : Type 0 where
    writes : Bytes → Option (E × ℕ) → Call
    flushes : Option (E × ℕ) → Option E → Call

  unfoldable pub called : Call → GzFrames → GzFrames
  unfolding write flush
  called (writes bytes answer) g = (write bytes answer g).1
  called (flushes answer f) g = (flush answer f g).1

  unfoldable pub call_all : List Call → GzFrames → GzFrames
  unfolding called
  call_all [] g = g
  call_all (c ∷ cs) g = call_all cs (called c g)

  abbrev pub bytes_of : Call → Bytes
  bytes_of (writes bytes answer) = bytes
  bytes_of (flushes answer f) = []

  abbrev pub all_bytes : List Call → Bytes
  all_bytes [] = []
  all_bytes (c ∷ cs) = bytes_of c ++ all_bytes cs

  -- The file takes every frame.
  abbrev pub IsTaken : Call → Type 0
  IsTaken (writes bytes answer) = answer ≡ none
  IsTaken (flushes answer f) = answer ≡ none

  -- The members decode to `done`, which with the buffer is all that was written.
  record IsFramed (g : GzFrames) (all : Bytes) : Type 0 where
    done : Bytes
    members : (rest : Bytes) → gunzip (g.inner ++ rest) ≡ behind done (gunzip rest)
    together : done ++ g.buf ≡ all
    small : length g.buf < frame_bytes

  behind-behind : (a b : Bytes) (o : Option Bytes) → behind a (behind b o) ≡ behind (a ++ b) o
  behind-behind a b none = refl
  behind-behind a b (some c) = ap some (sym (append_assoc a b c))

  -- a frame more, whatever the size of the buffer
  emit_frame-IsFramed :
      (inner buf all done : Bytes)
      → ((rest : Bytes) → gunzip (inner ++ rest) ≡ behind done (gunzip rest))
      → done ++ buf ≡ all
      → IsFramed (emit_frame none (record { inner = inner; buf = buf })).1 all
  unfolding emit_frame
  emit_frame-IsFramed inner [] all done m t = record {
    done = done;
    members = m;
    together = t;
    small = omega arith;
  }
  emit_frame-IsFramed inner (b ∷ buf) all done m t = record {
    done = done ++ b ∷ buf;
    members = λ rest.
        ap gunzip (append_assoc inner (gzip (b ∷ buf)) rest)
        ∙ m (gzip (b ∷ buf) ++ rest)
        ∙ ap (behind done) (gunzip_member (b ∷ buf) rest)
        ∙ behind-behind done (b ∷ buf) (gunzip rest);
    together = append-nil (done ++ b ∷ buf) ∙ t;
    small = omega arith;
  }

  flushed-frames : (f : Option E) (r : Option E × GzFrames) → (flushed f r).1 ≡ r.1
  flushed-frames f (none, g) = refl
  flushed-frames f (some e, g) = refl

  write-IsFramed :
      (bytes : Bytes) (g : GzFrames) (all : Bytes)
      → IsFramed g all
      → IsFramed (write bytes none g).1 (all ++ bytes)
  unfolding write
  write-IsFramed bytes g all h =
      let more : h.done ++ (g.buf ++ bytes) ≡ all ++ bytes =
        sym (append_assoc h.done g.buf bytes) ∙ ap (λ b. b ++ bytes) h.together in
      elim (Bool-cases (leb frame_bytes (length (g.buf ++ bytes)))) [
        | inl full ↦
            rw full
              (emit_frame-IsFramed g.inner (g.buf ++ bytes) (all ++ bytes) h.done h.members more)
        | inr room ↦ rw room (record {
          done = h.done;
          members = h.members;
          together = more;
          small = ground (arith, room);
        })
      ]

  called-IsFramed :
      (c : Call) (g : GzFrames) (all : Bytes)
      → IsTaken c
      → IsFramed g all
      → IsFramed (called c g) (all ++ bytes_of c)
  unfolding called flush
  called-IsFramed (writes bytes answer) g all a h = rw a (write-IsFramed bytes g all h)
  called-IsFramed (flushes answer f) g all a h =
      let framed = emit_frame-IsFramed g.inner g.buf all h.done h.members h.together in
      rw (append-nil all, a, flushed-frames f (emit_frame none g)) framed

  call_all-IsFramed :
      (cs : List Call) (g : GzFrames) (all : Bytes)
      → All IsTaken cs
      → IsFramed g all
      → IsFramed (call_all cs g) (all ++ all_bytes cs)
  unfolding call_all
  call_all-IsFramed [] g all a h = rw (append-nil all) h
  call_all-IsFramed (c ∷ cs) g all a h =
      rw (← append_assoc all (bytes_of c) (all_bytes cs))
        (call_all-IsFramed cs (called c g) (all ++ bytes_of c) a.1 (called-IsFramed c g all a.0 h))

  behind-nil : (o : Option Bytes) → o ≡ behind [] o
  behind-nil none = refl
  behind-nil (some b) = refl

  decoded : (g : GzFrames) (all : Bytes) (h : IsFramed g all) → gunzip g.inner ≡ some h.done
  decoded g all h =
      sym (ap gunzip (append-nil g.inner))
      ∙ h.members []
      ∙ ap (behind h.done) gunzip_nil
      ∙ ap some (append-nil h.done)

  emit_frame-buf :
      (inner buf : Bytes) → (emit_frame none (record { inner = inner; buf = buf })).1.buf ≡ []
  unfolding emit_frame
  emit_frame-buf inner [] = refl
  emit_frame-buf inner (b ∷ buf) = refl

-- When the file takes every frame: at every moment the members in it decode to a beginning of what was
-- written, and less than `frame_bytes` of it are missing; behind the frame that a drop emits, they
-- decode to all of it.
pub call_all-gunzip :
    (E : Type 0) (Z : Gzip) (cs : List (Call E Z))
    → All (IsTaken E Z) cs
    → ((done : Bytes) × (Z.gunzip (call_all E Z cs (frames_new E Z)).inner ≡ some done)
        × (done ++ (call_all E Z cs (frames_new E Z)).buf ≡ all_bytes E Z cs)
        × (length (call_all E Z cs (frames_new E Z)).buf < frame_bytes))
      × (Z.gunzip (emit_frame E Z none (call_all E Z cs (frames_new E Z))).1.inner
          ≡ some (all_bytes E Z cs))
unfolding frames_new
call_all-gunzip E Z cs a =
    let g = call_all E Z cs (frames_new E Z) in
    let h = call_all-IsFramed E Z cs (frames_new E Z) [] a (record {
      done = [];
      members = λ rest. behind-nil E Z (Z.gunzip rest);
      together = refl;
      small = omega arith;
    }) in
    let last =
      emit_frame-IsFramed E Z g.inner g.buf (all_bytes E Z cs) h.done h.members h.together in
    let empty = emit_frame-buf E Z g.inner g.buf in
    (
      (h.done, decoded E Z g (all_bytes E Z cs) h, h.together, h.small),
      decoded E Z (emit_frame E Z none g).1 (all_bytes E Z cs) last
          ∙ ap some
              (sym (append-nil last.done) ∙ ap (λ b. last.done ++ b) (sym empty) ∙ last.together),
    )
