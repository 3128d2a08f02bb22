-- ===== src/Stream/Poll/Applied.antt =====
-- What a client's poll does to the replica: it says how many records it applied, no more than its batch.
use xchannel_net.Base.{ℕ, zero, suc, ◌+◌, ◌≤◌, ◌≡◌, refl, Option, none, some, List, Bytes, arith}
use xchannel_net.Wire.{StreamMsg}
use xchannel_net.Wire
use xchannel_net.Replication.{Io, done, failed, blocked, Replicas, ReplicationSink}
use xchannel_net.Replication.Sink.{apply-expected_index}
use xchannel_net.Stream.{decoded}
use xchannel_net.Transport.{ok, err, ReadAnswer, Polled, try_recv_frame}
use xchannel_net.Stream.Poll.{
  ClientPollItem, Applied, expected_index, apply_message, apply_decoded, one_applied, applied_then,
  received_then, poll_client,
}

module _ (x : Replicas) where
  -- When the answer is a number, that many records were applied, at most `n`.
  unfoldable pub Counts : ClientPollItem x → ℕ → Applied x → Type 0
  Counts item n (done k, item', later) =
      (expected_index x item' ≡ expected_index x item + k) × (k ≤ n)
  Counts item n (failed q, item', later) = Unit {0}
  Counts item n (blocked, item', later) = Unit {0}

  apply_message-expected :
      (m : StreamMsg) (s s' : ReplicationSink x)
      → apply_message x m s ≡ done s'
      → s'.expected_index ≡ s.expected_index + 1
  unfolding apply_message
  apply_message-expected (Wire.subscribe r) s s' e = absurd cc
  apply_message-expected (Wire.subscribe_ack a) s s' e = absurd cc
  apply_message-expected (Wire.record_msg i frame) s s' e = apply-expected_index x frame s s' e
  apply_message-expected (Wire.gap n earliest head) s s' e = absurd cc
  apply_message-expected (Wire.diverged n earliest head) s s' e = absurd cc

  apply_decoded-expected :
      (m : Io StreamMsg) (s s' : ReplicationSink x)
      → apply_decoded x m s ≡ done s'
      → s'.expected_index ≡ s.expected_index + 1
  unfolding apply_decoded
  apply_decoded-expected (done m) s s' e = apply_message-expected m s s' e
  apply_decoded-expected (failed q) s s' e = absurd cc
  apply_decoded-expected blocked s s' e = absurd cc

  one_applied-Counts :
      (item item' : ClientPollItem x) (n : ℕ) (r : Applied x)
      → expected_index x item' ≡ expected_index x item + 1
      → Counts item' n r
      → Counts item (suc n) (one_applied x r)
  unfolding one_applied Counts
  one_applied-Counts item item' n (done k, item'', later) e (h, le) =
      (omega (arith, h, e), omega (arith, le))
  one_applied-Counts item item' n (failed q, item'', later) e h = tt
  one_applied-Counts item item' n (blocked, item'', later) e h = tt

  applied_then-Counts :
      (item : ClientPollItem x) (n : ℕ) (later : List ReadAnswer) (r : Io (ReplicationSink x))
      (more : ClientPollItem x → List ReadAnswer → Applied x)
      → ((s' : ReplicationSink x) → r ≡ done s' → s'.expected_index ≡ item.sink.expected_index + 1)
      → ((item' : ClientPollItem x) (later : List ReadAnswer) → Counts item' n (more item' later))
      → Counts item (suc n) (applied_then x item later r more)
  unfolding applied_then Counts expected_index
  applied_then-Counts item n later (done s) more e k =
      one_applied-Counts item (record item { sink = s }) n _ (e s refl)
        (k (record item { sink = s }) later)
  applied_then-Counts item n later (failed q) more e k = tt
  applied_then-Counts item n later blocked more e k = tt

  received_then-Counts :
      (item : ClientPollItem x) (n : ℕ) (r : Polled ReadAnswer (Option Bytes))
      (more : ClientPollItem x → List ReadAnswer → Applied x)
      → ((item' : ClientPollItem x) (later : List ReadAnswer) → Counts item' n (more item' later))
      → Counts item (suc n) (received_then x item r more)
  unfolding received_then Counts expected_index
  received_then-Counts item n (err e, conn, later) more k = tt
  received_then-Counts item n (ok none, conn, later) more k = (omega arith, omega arith)
  received_then-Counts item n (ok (some bytes), conn, later) more k =
      applied_then-Counts (record item { conn = conn }) n later
        (apply_decoded x (decoded bytes) item.sink) more
        (λ s' e. apply_decoded-expected (decoded bytes) item.sink s' e) k

  -- A poll of a stream's client that succeeds answers with at most its batch, and the replica
  -- expects an index that many further than before.
  pub poll_client-Counts :
      (max_batch : ℕ) (item : ClientPollItem x) (later : List ReadAnswer)
      → Counts item max_batch (poll_client x max_batch item later)
  unfolding poll_client Counts expected_index
  poll_client-Counts zero item later = (omega arith, omega arith)
  poll_client-Counts (suc n) item later =
      received_then-Counts item n (try_recv_frame later item.conn) (poll_client x n)
        (λ item' later'. poll_client-Counts n item' later')
