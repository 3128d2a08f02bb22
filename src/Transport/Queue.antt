-- ===== src/Transport/Queue.antt =====
-- Frames queued on a polled connection: whole or refused, in order, and none of their bytes lost.
use mathlib.Core.List.{append_assoc, append-nil}
use xchannel_net.Base.{
  ◌≤◌, ◌≡◌, refl, sym, ap, ◌∙◌, Bool, true, List, [], ◌∷◌, ◌++◌, Bytes, All, length, length-append,
  ltb, arith, drop-append_le, length-drop,
}
use xchannel_net.Transport.{
  Result, ok, err, max_frame_len, frame_bytes, WriteAnswer, FramedConn, Flushed, pending_out,
  unsent, flush, flush_result, queue_frame,
}
use xchannel_net.Transport.Collect.{frames_bytes}
use xchannel_net.Transport.Send.{OutIsValid, Serves, Served, flush_lem, flush-Served}

abbrev with_frame : FramedConn → Bytes → FramedConn
with_frame c f = record c { outbox = c.outbox ++ frame_bytes f }

with_frame_lem :
    (c : FramedConn) (f : Bytes)
    → OutIsValid c
    → OutIsValid (with_frame c f) × (unsent (with_frame c f) ≡ unsent c ++ frame_bytes f)
unfolding OutIsValid unsent
with_frame_lem c f v = (
  omega (arith, length-append c.outbox (frame_bytes f), v),
  drop-append_le c.outbox_off c.outbox (frame_bytes f) v,
)

-- The answer of a flush as that of `queue_frame`; nothing else of it changes.
abbrev to_result : Result Bool → Result (Unit {0})
to_result (ok d) = ok tt
to_result (err e) = err e

flush_result_lem : (r : Flushed) → flush_result r ≡ (r.0, to_result r.1, r.2, r.3)
unfolding flush_result
flush_result_lem (sent, ok d, c, later) = refl
flush_result_lem (sent, err e, c, later) = refl

queued :
    (f : Bytes) (later : List WriteAnswer) (c : FramedConn)
    → length f ≤ max_frame_len
    → queue_frame f later c
      ≡ (let r = flush later (with_frame c f) in (r.0, to_result r.1, r.2, r.3))
unfolding queue_frame
queued f later c le = ground (arith, flush_result_lem (flush later (with_frame c f)))

-- On a connection whose outbound offset is inside its buffer, a frame within the limit leaves the
-- bytes that were sent and those that are pending together as what was pending and the frame, and
-- the offset inside the buffer, whatever the socket answers.
pub queue_frame_lem :
    (f : Bytes) (later : List WriteAnswer) (c : FramedConn)
    → OutIsValid c
    → length f ≤ max_frame_len
    → ((queue_frame f later c).0 ++ unsent (queue_frame f later c).2 ≡ unsent c ++ frame_bytes f)
      × OutIsValid (queue_frame f later c).2
queue_frame_lem f later c v le =
    let w = with_frame_lem c f v in
    let k = flush_lem later (with_frame c f) w.0 in
    rw (queued f later c le) (k.conserved ∙ w.1, k.still_valid)

queue_frame-Served :
    (f : Bytes) (later : List WriteAnswer) (c : FramedConn)
    → length f ≤ max_frame_len
    → All Serves later
    → ((queue_frame f later c).1 ≡ ok tt) × All Serves (queue_frame f later c).3
unfolding Served
queue_frame-Served f later c le h =
    let s = flush-Served later (with_frame c f) h in
    rw (queued f later c le) (ap to_result s.1, s.2)

-- A sender of frames, until one of them fails.
abbrev pub Sent : Type 0
Sent = Bytes × Result (Unit {0}) × FramedConn × List WriteAnswer

unfoldable pub then_send : Sent → (FramedConn → List WriteAnswer → Sent) → Sent
then_send (sent, ok x, c, later) more =
    (sent ++ (more c later).0, (more c later).1, (more c later).2, (more c later).3)
then_send (sent, err e, c, later) more = (sent, err e, c, later)

unfoldable pub send_all : List Bytes → FramedConn → List WriteAnswer → Sent
unfolding then_send
send_all [] c later = ([], ok tt, c, later)
send_all (f ∷ fs) c later = then_send (queue_frame f later c) (send_all fs)

then_send_ok :
    (r : Sent) (more : FramedConn → List WriteAnswer → Sent)
    → r.1 ≡ ok tt
    → then_send r more
      ≡ (r.0 ++ (more r.2 r.3).0, (more r.2 r.3).1, (more r.2 r.3).2, (more r.2 r.3).3)
unfolding then_send
then_send_ok (sent, ok x, c, later) more e = refl
then_send_ok (sent, err x, c, later) more e = absurd cc

-- What was sent and what is pending are the frames, in order.
pub send_all_lem :
    (fs : List Bytes) (c : FramedConn) (later : List WriteAnswer)
    → OutIsValid c
    → All (λ f. length f ≤ max_frame_len) fs
    → All Serves later
    → ((send_all fs c later).0 ++ unsent (send_all fs c later).2 ≡ unsent c ++ frames_bytes fs)
      × OutIsValid (send_all fs c later).2
unfolding send_all frames_bytes
send_all_lem [] c later v le h = (sym (append-nil (unsent c)), v)
send_all_lem (f ∷ fs) c later v le h =
    let q = queue_frame_lem f later c v le.0 in
    let s = queue_frame-Served f later c le.0 h in
    let r = send_all_lem fs (queue_frame f later c).2 (queue_frame f later c).3 q.1 le.1 s.1 in
    rw (then_send_ok (queue_frame f later c) (send_all fs) s.0) (
      append_assoc (queue_frame f later c).0 _ _
          ∙ ap (◌++◌ (queue_frame f later c).0) r.0
          ∙ sym (append_assoc (queue_frame f later c).0 _ _)
          ∙ ap (λ (xs : Bytes). xs ++ frames_bytes fs) q.0
          ∙ append_assoc (unsent c) (frame_bytes f) (frames_bytes fs),
      r.1,
    )

pub queue_frame-refused :
    (f : Bytes) (later : List WriteAnswer) (c : FramedConn)
    → ltb max_frame_len (length f) ≡ true
    → (queue_frame f later c).2 ≡ c
unfolding queue_frame
queue_frame-refused f later c big = rw big refl

pub pending_out-unsent : (c : FramedConn) → pending_out c ≡ length (unsent c)
unfolding pending_out unsent
pending_out-unsent c = sym (length-drop c.outbox_off c.outbox)
