-- ===== src/Transport.antt =====
-- xchannel-net-core/src/transport.rs: frames on a byte stream, blocking and polled. The socket is
-- the operating system's: a call on it consumes the next of the answers that it will give, and a
-- socket with no answer left would block. `Read::read_exact` and `Write::write_all` are the standard
-- library's, on a stream of bytes.
pub mod Deadline
mod Examples
pub mod Link
pub mod Receive
pub mod Collect
pub mod Send
pub mod Queue
use xchannel_net.Base.{
  ℕ, zero, suc, ◌+◌, ◌-◌, ◌*◌, ◌%◌, ◌^◌, Bool, true, false, Option, none, some, List, [], ◌∷◌, ◌++◌,
  Bytes, length, take, drop, ◌==◌, ltb, leb, if◌then◌else◌, ◌&&◌, ◌||◌,
}
use xchannel_net.Codec.{le_bytes, from_le}

-- `io::ErrorKind`, as far as this code makes it or tells it apart.
pub data ErrorKind : Type 0 where
  timed_out write_zero invalid_input invalid_data unexpected_eof other : ErrorKind

-- `io::Result`.
pub data Result (A : Type 0) : Type 0 where
  ok : A → Result A
  err : ErrorKind → Result A

-- `MAX_FRAME_LEN`, `STALL_LIMIT` in milliseconds, `MAX_PENDING_OUT`, `COMPACT_AFTER`.
abbrev pub max_frame_len : ℕ
max_frame_len = 64 * 2 ^ 20

abbrev pub stall_limit : ℕ
stall_limit = 1000

abbrev pub max_pending_out : ℕ
max_pending_out = 2 ^ 20

abbrev pub compact_after : ℕ
compact_after = 256 * 2 ^ 10

-- The length prefix and the body of a frame.
unfoldable pub frame_bytes : Bytes → Bytes
frame_bytes bytes = le_bytes 4 (length bytes % 2 ^ 32) ++ bytes

-- What `send_framed` writes.
pub send_framed : Bytes → Result Bytes
send_framed bytes =
    if ltb max_frame_len (length bytes) then err invalid_input else ok (frame_bytes bytes)

-- `read_exact` on what a stream still has: the bytes and the rest, or the end came first.
read_exact : ℕ → Bytes → Result (Bytes × Bytes)
read_exact n stream =
    if ltb (length stream) n then err unexpected_eof else ok (take n stream, drop n stream)

frame_body : Result (Bytes × Bytes) → Result (Bytes × Bytes)
unfolding read_exact
frame_body (err e) = err e
frame_body (ok (prefix, rest)) =
    if ltb max_frame_len (from_le prefix)
    then err invalid_data
    else read_exact (from_le prefix) rest

-- The frame and what is left of the stream.
pub recv_framed : Bytes → Result (Bytes × Bytes)
unfolding frame_body read_exact
recv_framed stream = frame_body (read_exact 4 stream)

-- What the socket answers to a read: some bytes, its end, `WouldBlock`, `Interrupted`, or another
-- error.
pub data ReadAnswer : Type 0 where
  got : Bytes → ReadAnswer
  ended would_block interrupted : ReadAnswer
  broken : ErrorKind → ReadAnswer

-- And to a write: the number of bytes taken, at most what was offered, or an error.
pub data WriteAnswer : Type 0 where
  took : ℕ → WriteAnswer
  would_block interrupted : WriteAnswer
  broken : ErrorKind → WriteAnswer

pub record FramedConn : Type 0 where
  pub inbox : Bytes
  pub inbox_off : ℕ
  pub outbox : Bytes
  pub outbox_off : ℕ

pub new : FramedConn
new = record { inbox = []; inbox_off = 0; outbox = []; outbox_off = 0 }

-- Drop the consumed bytes when the buffer is spent, or when there are many.
compact : FramedConn → FramedConn
compact c =
    if c.inbox_off == length c.inbox
    then record c { inbox = []; inbox_off = 0 }
    else if leb compact_after c.inbox_off
    then record c { inbox = drop c.inbox_off c.inbox; inbox_off = 0 }
    else c

pub take_buffered_frame : FramedConn → Result (Option Bytes × FramedConn)
unfolding compact
take_buffered_frame c =
    let available = length c.inbox - c.inbox_off in
    let len = from_le (take 4 (drop c.inbox_off c.inbox)) in
    let body = c.inbox_off + 4 in
    if ltb available 4
    then ok (none, c)
    else if ltb max_frame_len len
    then err invalid_data
    else if ltb available (4 + len)
    then ok (none, c)
    else ok (some (take len (drop body c.inbox)), compact (record c { inbox_off = body + len }))

-- A poll of the connection: its answer, the connection, and the socket's answers that are left.
abbrev pub Polled : Type 0 → Type 0 → Type 0
Polled Answer A = Result A × FramedConn × List Answer

-- One round of the loop with the next answer, `more` being the rounds after it.
on_read :
    ReadAnswer
    → FramedConn
    → List ReadAnswer
    → (FramedConn → Polled ReadAnswer (Option Bytes))
    → Polled ReadAnswer (Option Bytes)
on_read (got []) c later more = (err unexpected_eof, c, later)
on_read (got (b ∷ bs)) c later more = more (record c { inbox = c.inbox ++ b ∷ bs })
on_read ended c later more = (err unexpected_eof, c, later)
on_read ReadAnswer.would_block c later more = (ok none, c, later)
on_read ReadAnswer.interrupted c later more = more c
on_read (ReadAnswer.broken e) c later more = (err e, c, later)

-- A whole frame ends the poll; without one the socket is read.
or_read :
    Result (Option Bytes × FramedConn)
    → FramedConn
    → List ReadAnswer
    → (FramedConn → Polled ReadAnswer (Option Bytes))
    → Polled ReadAnswer (Option Bytes)
or_read (err e) c later read = (err e, c, later)
or_read (ok (some frame, c')) c later read = (ok (some frame), c', later)
or_read (ok (none, c')) c later read = read c'

pub try_recv_frame : List ReadAnswer → FramedConn → Polled ReadAnswer (Option Bytes)
unfolding on_read or_read
try_recv_frame [] c = or_read (take_buffered_frame c) c [] (λ c'. (ok none, c', []))
try_recv_frame (a ∷ later) c =
    or_read (take_buffered_frame c) c (a ∷ later) (λ c'. on_read a c' later (try_recv_frame later))

-- What a flush hands to the socket, beside its answer.
abbrev pub Flushed : Type 0
Flushed = Bytes × Result Bool × FramedConn × List WriteAnswer

sent_first : Bytes → Flushed → Flushed
sent_first bytes (sent, drained, c, later) = (bytes ++ sent, drained, c, later)

pub unsent : FramedConn → Bytes
unsent c = drop c.outbox_off c.outbox

-- One round of the loop: the socket takes no more than it is offered.
on_write : WriteAnswer → FramedConn → List WriteAnswer → (FramedConn → Flushed) → Flushed
unfolding sent_first unsent
on_write (took zero) c later more = ([], err write_zero, c, later)
on_write (took (suc n)) c later more =
    sent_first (take (suc n) (unsent c))
      (more (record c { outbox_off = c.outbox_off + length (take (suc n) (unsent c)) }))
on_write WriteAnswer.would_block c later more = ([], ok false, c, later)
on_write WriteAnswer.interrupted c later more = more c
on_write (WriteAnswer.broken e) c later more = ([], err e, c, later)

-- The loop's test: the buffer is cleared once everything is out.
unless_drained : FramedConn → List WriteAnswer → Flushed → Flushed
unless_drained c later round =
    if ltb c.outbox_off (length c.outbox)
    then round
    else ([], ok true, record c { outbox = []; outbox_off = 0 }, later)

pub flush : List WriteAnswer → FramedConn → Flushed
unfolding on_write unless_drained
flush [] c = unless_drained c [] ([], ok false, c, [])
flush (a ∷ later) c = unless_drained c (a ∷ later) (on_write a c later (flush later))

flush_result : Flushed → Bytes × Result (Unit {0}) × FramedConn × List WriteAnswer
flush_result (sent, ok drained, c, later) = (sent, ok tt, c, later)
flush_result (sent, err e, c, later) = (sent, err e, c, later)

-- Queue a frame, then push what the socket will take.
pub queue_frame :
    Bytes
    → List WriteAnswer
    → FramedConn
    → Bytes × Result (Unit {0}) × FramedConn × List WriteAnswer
unfolding flush_result
queue_frame bytes answers c =
    if ltb max_frame_len (length bytes)
    then ([], err invalid_input, c, answers)
    else flush_result (flush answers (record c { outbox = c.outbox ++ frame_bytes bytes }))

unfoldable pub pending_out : FramedConn → ℕ
pending_out c = length c.outbox - c.outbox_off

-- An attempt of `write_all_by`: the clock before the write, the socket's answer, the clock after.
pub record Attempt : Type 0 where
  pub now : ℕ
  pub answer : WriteAnswer
  pub after : ℕ

-- How a write with a deadline ends; `stuck` when the socket never answers.
pub data Written : Type 0 where
  all_written : Written
  gave_up : ErrorKind → Written
  stuck : Written

-- What was written, and how it ended.
abbrev pub Progress : Type 0
Progress = Bytes × Written

written_first : Bytes → Progress → Progress
written_first bytes (sent, end) = (bytes ++ sent, end)

-- The socket's answer at one attempt, with the loop after it: on what is left and on the time of the
-- last progress.
on_attempt : WriteAnswer → (after : ℕ) → Bytes → ℕ → (Bytes → ℕ → Progress) → Progress
unfolding written_first
on_attempt (took zero) after bytes last_progress more = ([], gave_up write_zero)
on_attempt (took (suc n)) after bytes last_progress more =
    written_first (take (suc n) bytes) (more (drop (suc n) bytes) after)
on_attempt WriteAnswer.would_block after bytes last_progress more = more bytes last_progress
on_attempt WriteAnswer.interrupted after bytes last_progress more = more bytes last_progress
on_attempt (WriteAnswer.broken timed_out) after bytes last_progress more = more bytes last_progress
on_attempt (WriteAnswer.broken write_zero) after bytes last_progress more = ([], gave_up write_zero)
on_attempt (WriteAnswer.broken invalid_input) after bytes last_progress more =
    ([], gave_up invalid_input)
on_attempt (WriteAnswer.broken invalid_data) after bytes last_progress more =
    ([], gave_up invalid_data)
on_attempt (WriteAnswer.broken unexpected_eof) after bytes last_progress more =
    ([], gave_up unexpected_eof)
on_attempt (WriteAnswer.broken other) after bytes last_progress more = ([], gave_up other)

-- The two tests before an attempt that is not the first.
expired : Bool → (now deadline last_progress : ℕ) → Bool
expired attempted now deadline last_progress =
    attempted && (leb deadline now || leb stall_limit (now - last_progress))

write_loop : List Attempt → (deadline : ℕ) → Bool → Bytes → ℕ → Progress
unfolding on_attempt expired
write_loop ts deadline attempted [] last_progress = ([], all_written)
write_loop [] deadline attempted (b ∷ bs) last_progress = ([], stuck)
write_loop (t ∷ ts) deadline attempted (b ∷ bs) last_progress =
    let rest = on_attempt t.answer t.after (b ∷ bs) last_progress (write_loop ts deadline true) in
    if expired attempted t.now deadline last_progress then ([], gave_up timed_out) else rest

-- `write_all_by`, started at `start`.
pub write_all_by : List Attempt → (start deadline : ℕ) → Bytes → Progress
unfolding write_loop
write_all_by ts start deadline bytes = write_loop ts deadline false bytes start

-- `send_frame_by`: the prefix, then the body, each with the deadline; the second write starts at the
-- second of the two clocks, on its own attempts.
then_write : Progress → Progress → Progress
then_write (sent, all_written) (sent', end) = (sent ++ sent', end)
then_write (sent, gave_up e) r = (sent, gave_up e)
then_write (sent, stuck) r = (sent, stuck)

pub send_frame_by : List Attempt → List Attempt → (start start' deadline : ℕ) → Bytes → Progress
unfolding then_write write_all_by
send_frame_by ts ts' start start' deadline bytes =
    if ltb max_frame_len (length bytes)
    then ([], gave_up invalid_input)
    else then_write (write_all_by ts start deadline (le_bytes 4 (length bytes % 2 ^ 32)))
        (write_all_by ts' start' deadline bytes)
