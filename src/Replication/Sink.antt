-- ===== src/Replication/Sink.antt =====
-- What a sink writes into the replica, and what it refuses.
use xchannel_net.Base.{
  ℕ, ◌+◌, ◌<◌, ◌%◌, ◌^◌, ◌≡◌, ◌≢◌, refl, sym, ap, ◌∙◌, Bool, true, false, not, List, [], ◌∷◌, ◌++◌,
  length, arith, ◌==◌, ==_iff, All, if◌then◌else◌, Bool-cases, inl, inr,
}
use mathlib.Core.List.{append_assoc, append-nil}
use xchannel_net.Wire.{RecordFrame}
use xchannel_net.Replication.{
  Io, done, failed, blocked, ◌>>=◌, non_contiguous, Message, Entry, Item, roll, entry, Replicas,
  ReplicationSink, apply, apply_all, roll_if, write_frame, refuse_unless,
}
use xchannel_net.Replication.Source.{frames_from}

-- What the records of a log leave in a replica, from the segment `seg` on: each record, and a roll
-- before each one whose segment is not its predecessor's.
unfoldable pub items : ℕ → List Entry → List Item
items seg [] = []
items seg (e ∷ es) = (if e.0 == seg then [] else roll ∷ []) ++ (entry e.1 ∷ items e.0 es)

small_mod : (n : ℕ) → n < 2 ^ 32 → n % 2 ^ 32 ≡ n
small_mod n lt = omega arith

module _ (x : Replicas) where
  open x use {
    Writer, rolled, written, content, slot, roll_file, try_reserve, commit, IsHealthy,
    IsHealthy-rolled, IsHealthy-written, roll_file-healthy, try_reserve-healthy, commit-healthy,
    content-rolled, content-written,
  }

  -- A frame that is not the next one is refused.
  pub apply-non_contiguous :
      (frame : RecordFrame) (s : ReplicationSink x)
      → frame.index ≢ s.expected_index
      → apply x frame s ≡ failed non_contiguous
  unfolding apply refuse_unless
  apply-non_contiguous frame s h = ground arith

  unfoldable pub message_of : RecordFrame → Message
  message_of frame = record {
    message_type = frame.msg_type;
    user_meta = frame.user_meta;
    payload = frame.payload;
  }

  unfoldable pub after_roll : Bool → Writer → Writer
  after_roll true w = rolled w
  after_roll false w = w

  roll_if-healthy :
      (b : Bool) (w : Writer) (n : ℕ) → IsHealthy w n → roll_if x b w ≡ done (after_roll b w)
  unfolding roll_if after_roll
  roll_if-healthy true w n h = roll_file-healthy w n h
  roll_if-healthy false w n h = refl

  after_roll-IsHealthy :
      (b : Bool) (w : Writer) (n : ℕ) → IsHealthy w n → IsHealthy (after_roll b w) n
  unfolding after_roll
  after_roll-IsHealthy true w n h = IsHealthy-rolled w n h
  after_roll-IsHealthy false w n h = h

  -- A payload the length of which fits 32 bits is written whole.
  write_frame-healthy :
      (frame : RecordFrame) (w : Writer)
      → IsHealthy w (length frame.payload)
      → length frame.payload < 2 ^ 32
      → write_frame x frame w ≡ done (written w (message_of frame))
  unfolding write_frame message_of
  write_frame-healthy frame w h lt =
      rw (try_reserve-healthy w (length frame.payload) h, small_mod (length frame.payload) lt)
        (commit-healthy w (message_of frame) h)

  -- The next frame is written, behind a roll when it starts a segment.
  pub apply-healthy :
      (frame : RecordFrame) (s : ReplicationSink x)
      → frame.index ≡ s.expected_index
      → IsHealthy s.writer (length frame.payload)
      → length frame.payload < 2 ^ 32
      → apply x frame s
        ≡ done (record {
          writer = written (after_roll frame.starts_segment s.writer) (message_of frame);
          expected_index = s.expected_index + 1;
        })
  unfolding apply refuse_unless
  apply-healthy frame s same h lt = rw (
    (==_iff frame.index s.expected_index).1 same,
    roll_if-healthy frame.starts_segment s.writer _ h,
    write_frame-healthy frame _ (after_roll-IsHealthy frame.starts_segment s.writer _ h) lt,
  )

  -- The sink after it took the record `e`, and after it took the records `es`.
  unfoldable pub took : ℕ → Entry → ReplicationSink x → ReplicationSink x
  took seg e s = record {
    writer = written (after_roll (not (e.0 == seg)) s.writer) e.1;
    expected_index = s.expected_index + 1;
  }

  unfoldable pub fed : ℕ → List Entry → ReplicationSink x → ReplicationSink x
  fed seg [] s = s
  fed seg (e ∷ es) s = fed e.0 es (took seg e s)

  -- The disk takes the records `es`, and their lengths fit the 32 bits of a commit.
  abbrev pub Takes : Writer → List Entry → Type 0
  Takes w es = All (λ e. IsHealthy w (length e.1.payload) × (length e.1.payload < 2 ^ 32)) es

  Takes-next :
      (b : Bool) (w : Writer) (m : Message) (es : List Entry)
      → Takes w es
      → Takes (written (after_roll b w) m) es
  Takes-next b w m [] h = tt
  Takes-next b w m (e ∷ es) ((healthy, lt), h) =
      ((IsHealthy-written _ _ m (after_roll-IsHealthy b w _ healthy), lt), Takes-next b w m es h)

  apply_all-fed :
      (seg : ℕ) (es : List Entry) (s : ReplicationSink x)
      → Takes s.writer es
      → apply_all x (frames_from s.expected_index seg es) s ≡ done (fed seg es s)
  unfolding apply_all frames_from fed took message_of
  apply_all-fed seg [] s h = refl
  apply_all-fed seg (e ∷ es) s ((healthy, lt), h) =
      rw
        (apply-healthy
          (record {
            index = s.expected_index;
            msg_type = e.1.message_type;
            user_meta = e.1.user_meta;
            starts_segment = not (e.0 == seg);
            payload = e.1.payload;
          })
          s refl healthy lt)
        (apply_all-fed e.0 es (took seg e s) (Takes-next (not (e.0 == seg)) s.writer e.1 es h))

  content-took :
      (seg : ℕ) (e : Entry) (s : ReplicationSink x) (rest : List Item)
      → content (took seg e s).writer ++ rest
        ≡ content s.writer ++ ((if e.0 == seg then [] else roll ∷ []) ++ (entry e.1 ∷ rest))
  unfolding took after_roll
  content-took seg e s rest = elim (Bool-cases (e.0 == seg)) [
    | inl same ↦ rw (same, content-written) (append_assoc (content s.writer) (entry e.1 ∷ []) rest)
    | inr differs ↦
        rw (differs, content-written, content-rolled)
          (append_assoc (content s.writer ++ roll ∷ []) (entry e.1 ∷ []) rest
            ∙ append_assoc (content s.writer) (roll ∷ []) (entry e.1 ∷ rest))
  ]

  -- The records and the rolls are appended to what the replica held.
  fed-content :
      (seg : ℕ) (es : List Entry) (s : ReplicationSink x)
      → content (fed seg es s).writer ≡ content s.writer ++ items seg es
  unfolding fed items
  fed-content seg [] s = sym (append-nil (content s.writer))
  fed-content seg (e ∷ es) s =
      fed-content e.0 es (took seg e s) ∙ content-took seg e s (items e.0 es)

  fed-expected_index :
      (seg : ℕ) (es : List Entry) (s : ReplicationSink x)
      → (fed seg es s).expected_index ≡ s.expected_index + length es
  unfolding fed took
  fed-expected_index seg [] s = omega arith
  fed-expected_index seg (e ∷ es) s = omega (arith, fed-expected_index e.0 es (took seg e s))

  -- When the disk takes the records, whose lengths fit 32 bits, frames with consecutive indices
  -- from the one a sink expects leave exactly their records behind what the replica held, with a
  -- roll where a new segment starts, and the sink expects the index after the last.
  pub apply_all_lem :
      (seg : ℕ) (es : List Entry) (s : ReplicationSink x)
      → Takes s.writer es
      → (s' : ReplicationSink x) × (apply_all x (frames_from s.expected_index seg es) s ≡ done s')
        × (content s'.writer ≡ content s.writer ++ items seg es)
        × (s'.expected_index ≡ s.expected_index + length es)
  apply_all_lem seg es s h =
      (fed seg es s, apply_all-fed seg es s h, fed-content seg es s, fed-expected_index seg es s)

-- A chain that succeeds: its first part did, and the rest from there.
io_bind_done :
    {A B : Type 0} (m : Io A) (f : A → Io B) (b : B)
    → (m >>= f) ≡ done b
    → (a : A) × (m ≡ done a) × (f a ≡ done b)
io_bind_done (done a) f b e = (a, refl, e)
io_bind_done (failed q) f b e = absurd cc
io_bind_done blocked f b e = absurd cc

sink_or : {x : Replicas} → ReplicationSink x → Io (ReplicationSink x) → ReplicationSink x
sink_or s (done s') = s'
sink_or s (failed q) = s
sink_or s blocked = s

-- After a frame that is applied the expected index is one more.
pub apply-expected_index :
    (x : Replicas) (frame : RecordFrame) (s s' : ReplicationSink x)
    → apply x frame s ≡ done s'
    → s'.expected_index ≡ s.expected_index + 1
unfolding apply sink_or
apply-expected_index x frame s s' e =
    let finished : Replicas.Writer x → Io (ReplicationSink x) =
      λ w. done (record { writer = w; expected_index = s.expected_index + 1 }) in
    let (_, _, e1) =
      io_bind_done (refuse_unless x (frame.index == s.expected_index) non_contiguous)
        (λ _. roll_if x frame.starts_segment s.writer >>= λ w. write_frame x frame w >>= finished)
        s' e in
    let (w, _, e2) =
      io_bind_done (roll_if x frame.starts_segment s.writer)
        (λ w. write_frame x frame w >>= finished) s' e1 in
    let (w', _, e3) = io_bind_done (write_frame x frame w) finished s' e2 in
    ap (λ r. (sink_or s r).expected_index) (sym e3)
