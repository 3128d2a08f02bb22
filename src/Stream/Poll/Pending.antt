-- ===== src/Stream/Poll/Pending.antt =====
-- How many bytes a server's poll leaves pending: less than its high-water mark and one frame.
use xchannel_net.Base.{
  ℕ, zero, suc, ◌+◌, ◌≤◌, ◌<◌, ◌≡◌, refl, sym, ap, subst, inl, inr, Bool, true, false, Option, none,
  some, List, ◌++◌, Bytes, length, length-append, ltb, Bool-cases, if◌then◌else◌, arith,
}
use xchannel_net.Wire.{RecordFrame}
use xchannel_net.Wire
use xchannel_net.Codec.Stream.{encode_stream}
use xchannel_net.Replication.{Io, done, failed, blocked, Logs, ReplicationSource, try_next_frame}
use xchannel_net.Transport.{
  Result, ok, err, WriteAnswer, FramedConn, Flushed, flush, queue_frame, pending_out, max_frame_len,
  frame_bytes, unsent,
}
use xchannel_net.Transport.Receive.{length-frame_bytes}
use xchannel_net.Transport.Send.{OutIsValid, flush_lem}
use xchannel_net.Transport.Queue.{queue_frame_lem, queue_frame-refused, pending_out-unsent}
use xchannel_net.Stream.Poll.{
  ServerPollItem, Forwarded, is_behind, counted, queued_then, read_then, forward, flushed_then,
  poll_server,
}

-- One frame as it stands on the wire.
abbrev pub one_frame : ℕ
one_frame = 4 + max_frame_len

-- The connection's outbound side is in order, and less than `n` bytes are pending.
unfoldable pub HoldsUnder : ℕ → FramedConn → Type 0
HoldsUnder n c = OutIsValid c × (pending_out c < n)

queue_frame-HoldsUnder :
    (bytes : Bytes) (later : List WriteAnswer) (c : FramedConn) (m : ℕ)
    → HoldsUnder m c
    → HoldsUnder (m + one_frame) (queue_frame bytes later c).2
unfolding HoldsUnder
queue_frame-HoldsUnder bytes later c m (v, h) =
    elim (Bool-cases (ltb max_frame_len (length bytes))) [
      | inl big ↦
          subst (λ (c' : FramedConn). OutIsValid c' × (pending_out c' < m + one_frame))
            (sym (queue_frame-refused bytes later c big)) (v, omega (arith, h))
      | inr small ↦
          let fits : length bytes ≤ max_frame_len = ground arith in
          let q = queue_frame_lem bytes later c v fits in
          let c' = (queue_frame bytes later c).2 in
          (
            q.1,
            omega (
              arith,
              h,
              pending_out-unsent c',
              pending_out-unsent c,
              ap length q.0,
              length-append (queue_frame bytes later c).0 (unsent c'),
              length-append (unsent c) (frame_bytes bytes),
              length-frame_bytes bytes,
              fits,
            ),
          )
    ]

flush-HoldsUnder :
    (later : List WriteAnswer) (c : FramedConn) (m : ℕ)
    → HoldsUnder m c
    → HoldsUnder m (flush later c).2
unfolding HoldsUnder
flush-HoldsUnder later c m (v, h) =
    let k = flush_lem later c v in
    let c' = (flush later c).2 in
    (
      k.still_valid,
      omega (
        arith,
        h,
        pending_out-unsent c',
        pending_out-unsent c,
        ap length k.conserved,
        length-append (flush later c).0 (unsent c'),
      ),
    )

wider : (m n : ℕ) (c : FramedConn) → m ≤ n → HoldsUnder m c → HoldsUnder n c
unfolding HoldsUnder
wider m n c le (v, h) = (v, omega (arith, h))

module _ (l : Logs) where
  -- The poll leaves the connection in order, with less than the mark and a frame pending.
  Within : ℕ → Forwarded l → Type 0
  Within m r = HoldsUnder (m + one_frame) r.2.conn

  -- A connection that is not behind is under the mark.
  not_behind :
      (item : ServerPollItem l)
      → is_behind l item ≡ false
      → pending_out item.conn < item.max_pending_out
  unfolding is_behind
  not_behind item e = ground arith

  queued_then-Within :
      (item : ServerPollItem l) (r : Bytes × Result (Unit {0}) × FramedConn × List WriteAnswer)
      (more : ServerPollItem l → List WriteAnswer → Forwarded l)
      → HoldsUnder (item.max_pending_out + one_frame) r.2
      → ((item' : ServerPollItem l) (later : List WriteAnswer)
          → item'.max_pending_out ≡ item.max_pending_out
          → HoldsUnder item.max_pending_out item'.conn
          → Within item.max_pending_out (more item' later))
      → Within item.max_pending_out (queued_then l item r more)
  unfolding queued_then counted Within HoldsUnder
  queued_then-Within item (sent, err e, conn, later) more h k = h
  queued_then-Within item (sent, ok x, conn, later) more h k =
      behind (is_behind l (record item { conn = conn })) refl
    where
      behind :
          (b : Bool)
          → is_behind l (record item { conn = conn }) ≡ b
          → Within item.max_pending_out (
              if b
              then (sent, done 1, record item { conn = conn }, later)
              else counted l sent (more (record item { conn = conn }) later))
      behind true e = h
      behind false e =
          k (record item { conn = conn }) later refl
            (h.0, not_behind (record item { conn = conn }) e)

  read_then-Within :
      (item : ServerPollItem l) (later : List WriteAnswer)
      (r : Io (Option RecordFrame × ReplicationSource l))
      (more : ServerPollItem l → List WriteAnswer → Forwarded l)
      → HoldsUnder item.max_pending_out item.conn
      → ((item' : ServerPollItem l) (later : List WriteAnswer)
          → item'.max_pending_out ≡ item.max_pending_out
          → HoldsUnder item.max_pending_out item'.conn
          → Within item.max_pending_out (more item' later))
      → Within item.max_pending_out (read_then l item later r more)
  unfolding read_then Within
  read_then-Within item later (failed q) more h k = wider _ _ item.conn (omega arith) h
  read_then-Within item later blocked more h k = wider _ _ item.conn (omega arith) h
  read_then-Within item later (done (none, source)) more h k = wider _ _ item.conn (omega arith) h
  read_then-Within item later (done (some frame, source)) more h k =
      queued_then-Within (record item { source = source })
        (queue_frame (encode_stream (Wire.record_msg 0 frame)) later item.conn) more
        (queue_frame-HoldsUnder (encode_stream (Wire.record_msg 0 frame)) later item.conn
          item.max_pending_out h)
        k

  forward-Within :
      (n : ℕ) (item : ServerPollItem l) (later : List WriteAnswer)
      → HoldsUnder item.max_pending_out item.conn
      → Within item.max_pending_out (forward l n item later)
  unfolding forward Within
  forward-Within zero item later h = wider _ _ item.conn (omega arith) h
  forward-Within (suc n) item later h =
      read_then-Within item later (try_next_frame l item.source) (forward l n) h
        (λ item' later' e h'.
          subst (λ m. Within m (forward l n item' later')) e
            (forward-Within n item' later' (subst (λ m. HoldsUnder m item'.conn) (sym e) h')))

  flushed_then-Within :
      (n : ℕ) (item : ServerPollItem l) (r : Flushed)
      → HoldsUnder (item.max_pending_out + one_frame) r.2
      → Within item.max_pending_out (flushed_then l n item r)
  unfolding flushed_then Within HoldsUnder
  flushed_then-Within n item (sent, err e, conn, later) h = h
  flushed_then-Within n item (sent, ok false, conn, later) h = h
  flushed_then-Within n item (sent, ok true, conn, later) h =
      behind (is_behind l (record item { conn = conn })) refl
    where
      rest : Forwarded l
      rest = forward l n (record item { conn = conn }) later

      behind :
          (b : Bool)
          → is_behind l (record item { conn = conn }) ≡ b
          → Within item.max_pending_out (
              if b
              then (sent, done 0, record item { conn = conn }, later)
              else (sent ++ rest.0, rest.1, rest.2, rest.3))
      behind true e = h
      behind false e =
          forward-Within n (record item { conn = conn }) later
            (h.0, not_behind (record item { conn = conn }) e)

  -- On a connection whose outbound offset is inside its buffer and that has less pending than the
  -- high-water mark of a stream's server and one frame of the largest size together, a poll of the
  -- server leaves it so, whatever the socket answers and the log holds.
  pub poll_server-HoldsUnder :
      (max_batch : ℕ) (item : ServerPollItem l) (later : List WriteAnswer)
      → HoldsUnder (item.max_pending_out + one_frame) item.conn
      → HoldsUnder (item.max_pending_out + one_frame) (poll_server l max_batch item later).2.conn
  unfolding poll_server Within
  poll_server-HoldsUnder max_batch item later h =
      flushed_then-Within max_batch item (flush later item.conn)
        (flush-HoldsUnder later item.conn (item.max_pending_out + one_frame) h)
