-- ===== src/Replication.antt =====
-- xchannel-net-core/src/replication.rs: the source that reads a channel's log record by record, and
-- the sink that writes the records into a replica. The log itself is the xchannel crate's, which
-- enters as the interfaces `Logs` and `Replicas` below.
pub mod Source
pub mod Sink
pub mod Mirror
pub mod Concrete
mod Examples
use xchannel_net.Base.{
  ℕ, zero, suc, ◌+◌, ◌-◌, ◌%◌, ◌^◌, ◌≡◌, Bool, true, false, not, Option, none, some, List, [], ◌∷◌,
  ◌++◌, Bytes, length, bytes_eq, ◌==◌, ltb, if◌then◌else◌,
}
use xchannel_net.Identity.{RecordIndex, ChannelName}
use xchannel_net.Wire.{RecordFrame}

-- Why an operation failed. `io_error` is any failure that the xchannel crate reports.
pub data Failure : Type 0 where
  io_error non_contiguous wrong_generation wrong_name : Failure
  malformed unexpected_message unknown_channel replica_diverged behind_retention : Failure
  mid_stream_gap short_record truncated_table table_version slot_name retired refs_exhausted :
      Failure

-- `io::Result`, with `blocked` for a call that waits for a record that is not there.
pub data Io (A : Type 0) : Type 0 where
  done : A → Io A
  failed : Failure → Io A
  blocked : Io A

infixl 5 ◌>>=◌
abbrev pub ◌>>=◌ : {A B : Type 0} → Io A → (A → Io B) → Io B
done a >>= f = f a
failed q >>= f = failed q
blocked >>= f = blocked

-- One `User` record of a log.
pub record Message : Type 0 where
  pub message_type : ℕ
  pub user_meta : ℕ
  pub payload : Bytes

-- A record with the ordinal of the segment that holds it.
abbrev pub Entry : Type 0
Entry = ℕ × Message

-- The reader of the xchannel crate. `ahead` is what is committed and not yet read. A read takes the
-- first of it and stands then in that record's segment; one that finds nothing changes nothing. A
-- loop that reads until nothing is there goes on for as long as another process appends, so the
-- model follows it for `patience` rounds, of which no law says anything. The laws of `ahead` are those
-- of a log to which nothing is appended meanwhile.
pub record Logs : Type 1 where
  pub Reader : Type 0
  pub open_reader : Bytes → Io Reader
  pub base_record_index : Reader → ℕ
  pub generation : Reader → ℕ
  pub head_record_index : Reader → Io ℕ
  pub file_sequence : Reader → ℕ
  pub try_read : Reader → Io (Option Message × Reader)
  pub patience : Reader → ℕ
  pub ahead : Reader → List Entry
  pub advance : Reader → Reader
  pub try_read-cons :
      (r : Reader) (e : Entry) (es : List Entry)
      → ahead r ≡ e ∷ es
      → try_read r ≡ done (some e.1, advance r)
  pub try_read-nil : (r : Reader) → ahead r ≡ [] → try_read r ≡ done (none, r)
  pub ahead-advance :
      (r : Reader) (e : Entry) (es : List Entry) → ahead r ≡ e ∷ es → ahead (advance r) ≡ es
  pub file_sequence-advance :
      (r : Reader) (e : Entry) (es : List Entry)
      → ahead r ≡ e ∷ es
      → file_sequence (advance r) ≡ e.0
  -- A reader that was just opened stands at the earliest record, and the head is past the last one.
  pub head-opened :
      (path : Bytes) (r : Reader)
      → open_reader path ≡ done r
      → head_record_index r ≡ done (base_record_index r + length (ahead r))

module _ (l : Logs) where
  open l use {
    Reader, open_reader, base_record_index, generation, head_record_index, file_sequence, try_read,
  }

  pub record ReplicationSource : Type 0 where
    pub reader : Reader
    pub next_index : ℕ

  -- `ReplicationSource::open`: the source and the earliest index.
  unfoldable pub open_source : Bytes → Io (ReplicationSource × RecordIndex)
  open_source path = do
    reader ← open_reader path
    done (
      record { reader = reader; next_index = base_record_index reader },
      base_record_index reader,
    )

  pub position : ReplicationSource → RecordIndex
  position s = s.next_index

  unfoldable pub source_generation : ReplicationSource → ℕ
  source_generation s = generation s.reader

  unfoldable pub head : ReplicationSource → Io RecordIndex
  head s = head_record_index s.reader

  -- `file_sequence() != segment`
  unfoldable pub rolled_since : Reader → ℕ → Bool
  rolled_since r segment = not (file_sequence r == segment)

  unfoldable pub frame_of :
      ReplicationSource → Option Message × Reader → Option RecordFrame × ReplicationSource
  unfolding rolled_since
  frame_of s (none, r) = (none, record { reader = r; next_index = s.next_index })
  frame_of s (some m, r) = (
    some (record {
      index = s.next_index;
      msg_type = m.message_type;
      user_meta = m.user_meta;
      starts_segment = rolled_since r (file_sequence s.reader);
      payload = m.payload;
    }),
    record { reader = r; next_index = s.next_index + 1 },
  )

  unfoldable pub try_next_frame : ReplicationSource → Io (Option RecordFrame × ReplicationSource)
  unfolding frame_of
  try_next_frame s = do read ← try_read s.reader; done (frame_of s read)

  or_block : {A : Type 0} → Option A × ReplicationSource → Io (A × ReplicationSource)
  or_block (none, s) = blocked
  or_block (some a, s) = done (a, s)

  -- `next_frame` waits where `try_next_frame` has nothing.
  pub next_frame : ReplicationSource → Io (RecordFrame × ReplicationSource)
  unfolding or_block
  next_frame s = do read ← try_next_frame s; or_block read

  -- `read_blocking(None)` waits where `try_read` has nothing.
  passed : Option Message × Reader → Io (Message × Reader)
  passed (none, r) = blocked
  passed (some m, r) = done (m, r)

  -- The loop of `skip_to`, on the number of records still to pass.
  skip : ℕ → ReplicationSource → Io ReplicationSource
  unfolding passed
  skip zero s = done s
  skip (suc n) s = do
    read ← try_read s.reader
    (m, r) ← passed read
    skip n (record { reader = r; next_index = s.next_index + 1 })

  pub skip_to : RecordIndex → ReplicationSource → Io ReplicationSource
  unfolding skip passed
  skip_to from s = skip (from - s.next_index) s

  -- The rest after one read: nothing, or that frame and the frames after it.
  pull_rest :
      (ReplicationSource → Io (List RecordFrame × ReplicationSource))
      → Option RecordFrame × ReplicationSource
      → Io (List RecordFrame × ReplicationSource)
  pull_rest more (none, s) = done ([], s)
  pull_rest more (some f, s) = do (fs, s') ← more s; done (f ∷ fs, s')

  -- The frames of up to `calls` calls of `try_next_frame`, made as long as records are committed.
  pub pull : ℕ → ReplicationSource → Io (List RecordFrame × ReplicationSource)
  unfolding pull_rest
  pull zero s = done ([], s)
  pull (suc calls) s = do read ← try_next_frame s; pull_rest (pull calls) read

-- What a replica holds: its records, and where it starts a new segment.
pub data Item : Type 0 where
  roll : Item
  entry : Message → Item

-- The geometry that `WriterBuilder` is given. `retention` is there when `keep_files` was called.
pub record Geometry : Type 0 where
  pub region_size : ℕ
  pub mtu : ℕ
  pub file_roll_size : ℕ
  pub retention : Option ℕ

-- The writer of the xchannel crate, with what it was built from. `IsHealthy w n`: the disk takes
-- writes and a payload of `n` bytes is within the geometry, so reserving and committing succeed.
pub record Replicas : Type 1 where
  pub Writer : Type 0
  pub Slot : Type 0
  pub build : Bytes → ChannelName → Geometry → (start generation : ℕ) → Io Writer
  pub writer_generation : Writer → ℕ
  pub next_record_index : Writer → ℕ
  pub stamped_name : Bytes → Io ChannelName
  pub roll_file : Writer → Io Writer
  pub try_reserve : Writer → ℕ → Io Slot
  pub commit : Slot → Bytes → (msg_type len user_meta : ℕ) → Io Writer
  pub content : Writer → List Item
  pub IsHealthy : Writer → ℕ → Type 0
  pub rolled : Writer → Writer
  pub written : Writer → Message → Writer
  pub slot : Writer → ℕ → Slot
  pub roll_file-healthy : (w : Writer) (n : ℕ) → IsHealthy w n → roll_file w ≡ done (rolled w)
  pub try_reserve-healthy : (w : Writer) (n : ℕ) → IsHealthy w n → try_reserve w n ≡ done (slot w n)
  pub commit-healthy :
      (w : Writer) (m : Message)
      → IsHealthy w (length m.payload)
      → commit (slot w (length m.payload)) m.payload m.message_type (length m.payload) m.user_meta
        ≡ done (written w m)
  pub IsHealthy-rolled : (w : Writer) (n : ℕ) → IsHealthy w n → IsHealthy (rolled w) n
  pub IsHealthy-written :
      (w : Writer) (n : ℕ) (m : Message) → IsHealthy w n → IsHealthy (written w m) n
  pub content-rolled : (w : Writer) → content (rolled w) ≡ content w ++ roll ∷ []
  pub content-written :
      (w : Writer) (m : Message) → content (written w m) ≡ content w ++ entry m ∷ []

module _ (x : Replicas) where
  open x use {
    Writer, build, writer_generation, next_record_index, stamped_name, roll_file, try_reserve,
    commit,
  }

  pub record ReplicationSink : Type 0 where
    pub writer : Writer
    pub expected_index : ℕ

  refuse_unless : Bool → Failure → Io (Unit {0})
  refuse_unless true q = done tt
  refuse_unless false q = failed q

  -- The builder's chain of calls.
  geometry : (region_size mtu file_roll_size keep_files : ℕ) → Geometry
  geometry region_size mtu file_roll_size keep_files = record {
    region_size = region_size;
    mtu = mtu;
    file_roll_size = file_roll_size;
    retention = if ltb 0 keep_files then some keep_files else none;
  }

  -- `ReplicationSink::open`: build the writer, check what an existing replica says of itself.
  unfoldable pub open_sink :
      Bytes
      → ChannelName
      → (region_size mtu file_roll_size keep_files start generation : ℕ) → Io ReplicationSink
  unfolding refuse_unless geometry
  open_sink path name region_size mtu file_roll_size keep_files start generation = do
    writer ← build path name (geometry region_size mtu file_roll_size keep_files) start generation
    _ ← refuse_unless (writer_generation writer == generation) wrong_generation
    stamped ← stamped_name path
    _ ← refuse_unless (bytes_eq stamped name) wrong_name
    done (record { writer = writer; expected_index = next_record_index writer })

  roll_if : Bool → Writer → Io Writer
  roll_if true w = roll_file w
  roll_if false w = done w

  -- Reserve, copy the payload, commit.
  write_frame : RecordFrame → Writer → Io Writer
  write_frame frame w = do
    s ← try_reserve w (length frame.payload)
    commit s frame.payload frame.msg_type (length frame.payload % 2 ^ 32) frame.user_meta

  pub apply : RecordFrame → ReplicationSink → Io ReplicationSink
  unfolding roll_if write_frame refuse_unless
  apply frame s = do
    _ ← refuse_unless (frame.index == s.expected_index) non_contiguous
    rolled ← roll_if frame.starts_segment s.writer
    w ← write_frame frame rolled
    done (record { writer = w; expected_index = s.expected_index + 1 })

  -- The frames of a batch, one after the other, until one is refused.
  pub apply_all : List RecordFrame → ReplicationSink → Io ReplicationSink
  apply_all [] s = done s
  apply_all (f ∷ fs) s = do s' ← apply f s; apply_all fs s'
