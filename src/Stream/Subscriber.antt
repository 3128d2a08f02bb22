-- ===== src/Stream/Subscriber.antt =====
-- xchannel-net-core/src/stream.rs: the subscriber's half of the handshake, and the records after it.
pub mod Agreement
use xchannel_net.Base.{ℕ, Bool, true, false, List, Bytes}
use xchannel_net.Identity.{RecordIndex, ChannelName}
use xchannel_net.Wire.{StreamMsg, Ack}
use xchannel_net.Wire
use xchannel_net.Replication.{
  Io, done, failed, Failure, unexpected_message, behind_retention, Replicas, ReplicationSink,
  open_sink, apply,
}
use xchannel_net.Stream.{Transport, Run, ◌>>=◌, lift, send, decoded}

module _ (x : Replicas) where
  pub record StreamClient : Type 0 where
    pub sink : ReplicationSink x
    pub head : RecordIndex

  -- `Result<StreamClient, SubscribeError>`, save its `Io` case, which is a failed run.
  pub data Subscribed : Type 0 where
    connected : StreamClient → Subscribed
    rebuild : (diverged : Bool) (earliest head : RecordIndex) → Subscribed

  open_replica : Bytes → ChannelName → Ack → Io (ReplicationSink x)
  open_replica path name a =
      open_sink x path name a.region_size a.mtu a.file_roll_size a.keep_files a.start a.generation

  answered : Bytes → ChannelName → StreamMsg → Run Subscribed
  unfolding open_replica
  answered path name (Wire.subscribe s) = lift (failed unexpected_message)
  answered path name (Wire.subscribe_ack a) = do
    sink ← lift (open_replica path name a)
    lift (Io.done (connected (record { sink = sink; head = a.head })))
  answered path name (Wire.record_msg i f) = lift (failed unexpected_message)
  answered path name (Wire.gap n earliest head) = lift (Io.done (rebuild false earliest head))
  answered path name (Wire.diverged n earliest head) = lift (Io.done (rebuild true earliest head))

  pub subscribe : Transport → ChannelName → RecordIndex → (generation : ℕ) → Bytes → Run Subscribed
  unfolding answered
  subscribe t name from generation path = do
    _ ← send t (Wire.subscribe (record { name = name; from = from; generation = generation }))
    bytes ← lift t.recv_frame
    m ← lift (decoded bytes)
    answered path name m

  received : StreamMsg → ReplicationSink x → Io (ReplicationSink x)
  received (Wire.subscribe s) sink = failed unexpected_message
  received (Wire.subscribe_ack a) sink = failed unexpected_message
  received (Wire.record_msg i frame) sink = apply x frame sink
  received (Wire.gap n earliest head) sink = failed behind_retention
  received (Wire.diverged n earliest head) sink = failed unexpected_message

  -- Receive one record and apply it.
  pub recv_one : Transport → StreamClient → Run StreamClient
  unfolding received
  recv_one t client = do
    bytes ← lift t.recv_frame
    m ← lift (decoded bytes)
    sink ← lift (received m client.sink)
    lift (Io.done (record { sink = sink; head = client.head }))
