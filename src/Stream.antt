-- ===== src/Stream.antt =====
-- xchannel-net-core/src/stream.rs: the handshake of a subscription, at the origin and at the
-- subscriber. A `Transport` is the connection: what its one read answers, and what each write does.
pub mod Handshake
pub mod Subscriber
pub mod Poll
mod Examples
use xchannel_net.Base.{
  ℕ, ◌+◌, ◌-◌, ◌≡◌, Bool, true, false, not, ◌&&◌, Option, none, some, List, [], ◌∷◌, ◌++◌, Bytes,
  ◌==◌, ltb, if◌then◌else◌,
}
use xchannel_net.Identity.{RecordIndex, ChannelName}
use xchannel_net.Wire.{
  StreamMsg, Subscription, Ack, RecordFrame, subscribe, subscribe_ack, record_msg, gap, diverged,
}
use xchannel_net.Codec.{Result, ok, err}
use xchannel_net.Codec.Stream.{encode_stream, decode_stream}
use xchannel_net.Replication.{
  Io, done, failed, blocked, Failure, malformed, unexpected_message, unknown_channel,
  replica_diverged, behind_retention, Logs, Replicas, ReplicationSource, ReplicationSink,
  open_source, position, source_generation, head, skip_to, next_frame, try_next_frame,
}

pub record Transport : Type 0 where
  pub recv_frame : Io Bytes
  pub send_frame : Bytes → Io (Unit {0})

-- What a handshake hands to its transport, in order, and how it ends.
pub record Run (A : Type 0) : Type 0 where
  pub sent : List Bytes
  pub result : Io A

-- What was sent first, and then a run.
prepend : {A : Type 0} → List Bytes → Run A → Run A
prepend [] r = r
prepend (b ∷ bs) r = record { sent = b ∷ (bs ++ r.sent); result = r.result }

-- The rest of a handshake after a part of it that succeeded, or the end of one that did not.
resume : {A B : Type 0} → List Bytes → Io A → (A → Run B) → Run B
unfolding prepend
resume bs (done a) f = prepend bs (f a)
resume bs (failed q) f = record { sent = bs; result = failed q }
resume bs blocked f = record { sent = bs; result = blocked }

infixl 5 ◌>>=◌
abbrev pub ◌>>=◌ : {A B : Type 0} → Run A → (A → Run B) → Run B
unfolding resume
r >>= f = resume r.sent r.result f

abbrev pub lift : {A : Type 0} → Io A → Run A
lift a = record { sent = []; result = a }

abbrev pub send : Transport → StreamMsg → Run (Unit {0})
send t m = record { sent = encode_stream m ∷ []; result = t.send_frame (encode_stream m) }

-- What a channel needs to be served.
pub record ChannelSource : Type 0 where
  pub path : Bytes
  pub region_size : ℕ
  pub mtu : ℕ
  pub file_roll_size : ℕ
  pub keep_files : ℕ

-- A codec error becomes the handshake's.
of_result : Result StreamMsg → Io StreamMsg
of_result (ok m) = done m
of_result (err e) = failed malformed

-- `decode_stream(..)?`
pub decoded : Bytes → Io StreamMsg
unfolding of_result
decoded bytes = of_result (decode_stream bytes)

-- The first message must be a `Subscribe`.
subscription_of : StreamMsg → Io Subscription
subscription_of (subscribe s) = done s
subscription_of (subscribe_ack a) = failed unexpected_message
subscription_of (record_msg i f) = failed unexpected_message
subscription_of (gap n e h) = failed unexpected_message
subscription_of (diverged n e h) = failed unexpected_message

known : Option ChannelSource → Io ChannelSource
known none = failed unknown_channel
known (some src) = done src

unfoldable pub larger : ℕ → ℕ → ℕ
larger a b = if ltb a b then b else a

-- Send the refusal, then fail.
refuse : {A : Type 0} → Transport → StreamMsg → Failure → Run A
refuse t m q = do _ ← send t m; lift (failed q)

module _ (l : Logs) where
  -- Skip to the start, then acknowledge.
  serve :
      Transport
      → Subscription
      → ChannelSource
      → (source : ReplicationSource l) → (earliest last : RecordIndex) → Run (ReplicationSource l)
  unfolding larger
  serve t s src source earliest last = do
    ready ← lift (skip_to l (larger s.from earliest) source)
    _ ← send t (
        subscribe_ack (record {
          name = s.name;
          stream_id = 0;
          start = larger s.from earliest;
          head = last;
          region_size = src.region_size;
          mtu = src.mtu;
          file_roll_size = src.file_roll_size;
          keep_files = src.keep_files;
          generation = source_generation l source;
        }))
    lift (done ready)

  -- The three refusals, in order, and the service.
  judge :
      Transport
      → Subscription
      → ChannelSource
      → (source : ReplicationSource l) → (earliest last : RecordIndex) → Run (ReplicationSource l)
  unfolding serve refuse
  judge t s src source earliest last =
      if ltb 0 s.from && not (s.generation == source_generation l source)
      then refuse t (diverged s.name earliest last) replica_diverged
      else if ltb 0 s.from && ltb s.from earliest
      then refuse t (gap s.name earliest earliest) behind_retention
      else if ltb last s.from
      then refuse t (diverged s.name earliest last) replica_diverged
      else serve t s src source earliest last

  pub accept_subscription :
      Transport → (ChannelName → Option ChannelSource) → Run (ReplicationSource l)
  unfolding judge decoded subscription_of known
  accept_subscription t resolve = do
    bytes ← lift t.recv_frame
    m ← lift (decoded bytes)
    s ← lift (subscription_of m)
    src ← lift (known (resolve s.name))
    (source, earliest) ← lift (open_source l src.path)
    last ← lift (head l source)
    judge t s src source earliest last

  -- Wait for the next record and send it.
  pub pump_one : Transport → ReplicationSource l → Run (ReplicationSource l)
  pump_one t source = do
    (frame, s) ← lift (next_frame l source)
    _ ← send t (record_msg 0 frame)
    lift (done s)

  pumped : Transport → Option RecordFrame × ReplicationSource l → Run (Bool × ReplicationSource l)
  pumped t (none, s) = lift (done (false, s))
  pumped t (some frame, s) = do _ ← send t (record_msg 0 frame); lift (done (true, s))

  -- Send the next record if there is one, and say whether there was.
  pub try_pump_one : Transport → ReplicationSource l → Run (Bool × ReplicationSource l)
  unfolding pumped
  try_pump_one t source = do next ← lift (try_next_frame l source); pumped t next
