-- ===== src/Stream/Poll.antt =====
-- xchannel-net-core/src/stream.rs: the two ends of a stream after the handshake, one bounded batch per
-- poll. A socket is the list of the answers that it will give.
pub mod Pending
pub mod Applied
mod Examples
use xchannel_net.Base.{
  ℕ, zero, suc, ◌+◌, Bool, true, false, ◌||◌, Option, none, some, List, [], ◌++◌, Bytes, leb,
  if◌then◌else◌,
}
use xchannel_net.Identity.{RecordIndex}
use xchannel_net.Wire.{StreamMsg, RecordFrame}
use xchannel_net.Wire
use xchannel_net.Codec.Stream.{encode_stream}
use xchannel_net.Replication.{
  Io, done, failed, blocked, io_error, unexpected_message, mid_stream_gap, Logs, Replicas,
  ReplicationSource, ReplicationSink, try_next_frame, apply,
}
use xchannel_net.Stream.{decoded}
use xchannel_net.Transport.{
  Result, ok, err, WriteAnswer, ReadAnswer, FramedConn, Polled, Flushed, flush, queue_frame,
  pending_out, try_recv_frame, max_pending_out,
}

module _ (l : Logs) where
  pub record ServerPollItem : Type 0 where
    pub conn : FramedConn
    pub source : ReplicationSource l
    pub max_pending_out : ℕ

  -- `ServerPollItem::adopt`, on a connection that was made for the handshake's socket.
  pub adopt_server : FramedConn → ReplicationSource l → ServerPollItem
  adopt_server conn source = record {
    conn = conn;
    source = source;
    max_pending_out = max_pending_out;
  }

  pub set_max_pending_out : ℕ → ServerPollItem → ServerPollItem
  set_max_pending_out bytes item = record item { max_pending_out = bytes }

  -- What a poll hands to the socket, its answer, the item, and the socket's answers that are left.
  abbrev pub Forwarded : Type 0
  Forwarded = Bytes × Io ℕ × ServerPollItem × List WriteAnswer

  is_behind : ServerPollItem → Bool
  is_behind item = leb item.max_pending_out (pending_out item.conn)

  one_more : Io ℕ → Io ℕ
  one_more (done n) = done (suc n)
  one_more (failed q) = failed q
  one_more blocked = blocked

  counted : Bytes → Forwarded → Forwarded
  counted bytes (sent, n, item, later) = (bytes ++ sent, one_more n, item, later)

  -- A frame was queued: stop when the peer is behind, or go on.
  queued_then :
      ServerPollItem
      → Bytes × Result (Unit {0}) × FramedConn × List WriteAnswer
      → (ServerPollItem → List WriteAnswer → Forwarded)
      → Forwarded
  queued_then item (sent, err e, conn, later) more =
      (sent, failed io_error, record item { conn = conn }, later)
  queued_then item (sent, ok x, conn, later) more =
      let rest = more (record item { conn = conn }) later in
      if is_behind (record item { conn = conn })
      then (sent, done 1, record item { conn = conn }, later)
      else counted sent rest

  read_then :
      ServerPollItem
      → List WriteAnswer
      → Io (Option RecordFrame × ReplicationSource l)
      → (ServerPollItem → List WriteAnswer → Forwarded)
      → Forwarded
  read_then item later (failed q) more = ([], failed q, item, later)
  read_then item later blocked more = ([], blocked, item, later)
  read_then item later (done (none, source)) more =
      ([], done 0, record item { source = source }, later)
  read_then item later (done (some frame, source)) more =
      queued_then (record item { source = source })
        (queue_frame (encode_stream (Wire.record_msg 0 frame)) later item.conn) more

  -- The loop, on what is left of the batch.
  forward : ℕ → ServerPollItem → List WriteAnswer → Forwarded
  forward zero item later = ([], done 0, item, later)
  forward (suc n) item later = read_then item later (try_next_frame l item.source) (forward n)

  -- Nothing new is read before everything pending is out.
  flushed_then : ℕ → ServerPollItem → Flushed → Forwarded
  flushed_then max_batch item (sent, err e, conn, later) =
      (sent, failed io_error, record item { conn = conn }, later)
  flushed_then max_batch item (sent, ok false, conn, later) =
      (sent, done 0, record item { conn = conn }, later)
  flushed_then max_batch item (sent, ok true, conn, later) =
      if is_behind (record item { conn = conn })
      then (sent, done 0, record item { conn = conn }, later)
      else (let r = forward max_batch (record item { conn = conn }) later in
          (sent ++ r.0, r.1, r.2, r.3))

  pub poll_server : ℕ → ServerPollItem → List WriteAnswer → Forwarded
  poll_server max_batch item later = flushed_then max_batch item (flush later item.conn)

module _ (x : Replicas) where
  pub record ClientPollItem : Type 0 where
    pub conn : FramedConn
    pub sink : ReplicationSink x
    pub head : RecordIndex

  -- `ClientPollItem::adopt`, on a connection that was made for the handshake's socket.
  pub adopt_client : FramedConn → ReplicationSink x → RecordIndex → ClientPollItem
  adopt_client conn sink head = record { conn = conn; sink = sink; head = head }

  pub expected_index : ClientPollItem → RecordIndex
  expected_index item = item.sink.expected_index

  -- A poll's answer, the item, and the socket's answers that are left.
  abbrev pub Applied : Type 0
  Applied = Io ℕ × ClientPollItem × List ReadAnswer

  -- What a message does to the replica.
  apply_message : StreamMsg → ReplicationSink x → Io (ReplicationSink x)
  apply_message (Wire.subscribe s) sink = failed unexpected_message
  apply_message (Wire.subscribe_ack a) sink = failed unexpected_message
  apply_message (Wire.record_msg i frame) sink = apply x frame sink
  apply_message (Wire.gap n earliest head) sink = failed mid_stream_gap
  apply_message (Wire.diverged n earliest head) sink = failed unexpected_message

  apply_decoded : Io StreamMsg → ReplicationSink x → Io (ReplicationSink x)
  apply_decoded (done m) sink = apply_message m sink
  apply_decoded (failed q) sink = failed q
  apply_decoded blocked sink = blocked

  one_applied : Applied → Applied
  one_applied (done n, item, later) = (done (suc n), item, later)
  one_applied (failed q, item, later) = (failed q, item, later)
  one_applied (blocked, item, later) = (blocked, item, later)

  applied_then :
      ClientPollItem
      → List ReadAnswer
      → Io (ReplicationSink x)
      → (ClientPollItem → List ReadAnswer → Applied)
      → Applied
  applied_then item later (done sink) more = one_applied (more (record item { sink = sink }) later)
  applied_then item later (failed q) more = (failed q, item, later)
  applied_then item later blocked more = (blocked, item, later)

  received_then :
      ClientPollItem
      → Polled ReadAnswer (Option Bytes)
      → (ClientPollItem → List ReadAnswer → Applied)
      → Applied
  received_then item (err e, conn, later) more =
      (failed io_error, record item { conn = conn }, later)
  received_then item (ok none, conn, later) more = (done 0, record item { conn = conn }, later)
  received_then item (ok (some bytes), conn, later) more =
      applied_then (record item { conn = conn }) later (apply_decoded (decoded bytes) item.sink)
        more

  -- `ClientPollItem::poll`, on what is left of the batch.
  pub poll_client : ℕ → ClientPollItem → List ReadAnswer → Applied
  poll_client zero item later = (done 0, item, later)
  poll_client (suc n) item later =
      received_then item (try_recv_frame later item.conn) (poll_client n)
