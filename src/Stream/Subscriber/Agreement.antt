-- ===== src/Stream/Subscriber/Agreement.antt =====
-- What a subscriber makes of the origin's answer.
use xchannel_net.Base.{
  ℕ, ◌<◌, ◌^◌, ◌≡◌, ◌⊎◌, sym, ap, ◌∙◌, subst, inl, inr, true, false, Option, some, List, [], ◌∷◌,
  Bytes, length, arith,
}
use xchannel_net.Identity.{RecordIndex, ChannelName}
use xchannel_net.Wire.{StreamMsg, Subscription, Ack}
use xchannel_net.Wire
use xchannel_net.Codec.Stream.{encode_stream, IsStream, decode-encode_stream}
use xchannel_net.Replication.{
  Io, done, failed, Logs, Replicas, ReplicationSink, ReplicationSource, open_sink,
}
use xchannel_net.Stream.{
  Transport, Run, ChannelSource, decoded, of_result, accept_subscription, larger, resume, prepend,
}
use xchannel_net.Stream.Subscriber.{connected, rebuild, subscribe, answered, open_replica}
use xchannel_net.Stream.Handshake.{Takes, Serviceable, ack_of, head_of, accept_lem, refuse_lem}

-- The first of a list of byte strings.
only : List Bytes → Bytes
only [] = []
only (b ∷ bs) = b

decoded_lem :
    (m : StreamMsg)
    → IsStream m
    → length (encode_stream m) < 2 ^ 64
    → decoded (encode_stream m) ≡ done m
unfolding decoded
decoded_lem m valid fits = ap of_result (decode-encode_stream m valid fits)

module _ (x : Replicas) where
  -- The answer that reaches a subscriber is the one it acts on.
  subscribe-answered :
      (t : Transport) (name : ChannelName) (from : RecordIndex) (generation : ℕ) (path : Bytes)
      (m : StreamMsg)
      → Takes t
      → t.recv_frame ≡ done (encode_stream m)
      → IsStream m
      → length (encode_stream m) < 2 ^ 64
      → (subscribe x t name from generation path).result ≡ (answered x path name m).result
  unfolding subscribe resume prepend
  subscribe-answered t name from generation path m takes received valid fits =
      rw (takes _, received, decoded_lem m valid fits)

module _ (l : Logs) (x : Replicas) where
  open l use {Reader, open_reader, base_record_index, generation}

  module _ (t u : Transport) (resolve : ChannelName → Option ChannelSource) (s : Subscription)
      (src : ChannelSource) (r : Reader) (path : Bytes) (valid : IsStream (Wire.subscribe s))
      (fits : length (encode_stream (Wire.subscribe s)) < 2 ^ 64)
      (received : t.recv_frame ≡ done (encode_stream (Wire.subscribe s))) (takes : Takes t)
      (known : resolve s.name ≡ some src) (opens : open_reader src.path ≡ done r) (sends : Takes u)
      (reply : Bytes) (sent : (accept_subscription l t resolve).sent ≡ reply ∷ [])
      (got : u.recv_frame ≡ done reply) (small : length reply < 2 ^ 64)
      (short : head_of l r < 2 ^ 64) where
    reply_of :
        (m : StreamMsg) (run : Io (ReplicationSource l))
        → accept_subscription l t resolve ≡ record { sent = encode_stream m ∷ []; result = run }
        → reply ≡ encode_stream m
    unfolding only
    reply_of m run e = ap only (sym sent ∙ ap (λ (q : Run (ReplicationSource l)). q.sent) e)

    acts_on :
        (m : StreamMsg)
        → reply ≡ encode_stream m
        → IsStream m
        → (subscribe x u s.name s.from s.generation path).result ≡ (answered x path s.name m).result
    acts_on m e h =
        subscribe-answered x u s.name s.from s.generation path m sends (got ∙ ap done e) h
          (subst (λ (b : Bytes). length b < 2 ^ 64) e small)

    earliest_short : base_record_index r < 2 ^ 64
    unfolding head_of
    earliest_short = omega arith

    -- Over connections that take every frame, for a known channel whose log opens and whose head
    -- is below 2^64, a subscriber that receives the origin's answer to a position the origin
    -- cannot continue from is told to rebuild its replica; no replica is opened, and the answer is
    -- no failure of the connection.
    pub rebuild_lem :
        ¬ Serviceable l s (generation r) (base_record_index r) (head_of l r)
        → ((subscribe x u s.name s.from s.generation path).result
            ≡ done (rebuild false (base_record_index r) (base_record_index r)))
          ⊎ ((subscribe x u s.name s.from s.generation path).result
              ≡ done (rebuild true (base_record_index r) (head_of l r)))
    unfolding answered
    rebuild_lem h =
        let (m, q, why, run) =
          refuse_lem l t resolve s src r valid fits received takes known opens h in
        let e = reply_of m (failed q) run in
        elim why [
          | inl (is_gap, same, behind) ↦ inl (
              acts_on (Wire.gap s.name (base_record_index r) (base_record_index r))
                (e ∙ ap encode_stream is_gap) (valid.0, earliest_short, earliest_short))
          | inr (is_diverged, cause) ↦ inr (
              acts_on (Wire.diverged s.name (base_record_index r) (head_of l r))
                (e ∙ ap encode_stream is_diverged) (valid.0, earliest_short, short))
        ]

    -- Over connections that take every frame, for a known channel whose log opens and whose head
    -- is below 2^64, a subscriber that receives the origin's acknowledgement, with fields in the
    -- ranges of their types, of a position it can continue from is connected, with the origin's
    -- head, to the replica that opens with the origin's start, geometry and generation.
    pub connect_lem :
        (k : ReplicationSink x)
        → Serviceable l s (generation r) (base_record_index r) (head_of l r)
        → IsStream (ack_of l s src (generation r) (base_record_index r) (head_of l r))
        → open_sink x path s.name src.region_size src.mtu src.file_roll_size src.keep_files
            (larger s.from (base_record_index r))
            (generation r)
          ≡ done k
        → (subscribe x u s.name s.from s.generation path).result
          ≡ done (connected (record { sink = k; head = head_of l r }))
    unfolding answered open_replica ack_of resume prepend
    connect_lem k ok ranges built =
        acts_on (ack_of l s src (generation r) (base_record_index r) (head_of l r))
          (reply_of _ _ (accept_lem l t resolve s src r valid fits received takes known opens ok))
          ranges
        ∙ rw built
