-- ===== src/Transport/Examples.antt =====
-- Frames cut across reads and writes, a prefix that is too large, and a writer with a deadline.
use xchannel_net.Base.{
  ◌≤◌, ◌<◌, ◌≡◌, refl, inl, List, [], ◌∷◌, ◌++◌, Bytes, some, length, take, arith,
}
use xchannel_net.Codec.{le_bytes, from_le}
use xchannel_net.Transport.{
  ok, max_frame_len, frame_bytes, send_framed, recv_framed, ReadAnswer, got, WriteAnswer, took,
  FramedConn, new, unsent, flush, on_write, unless_drained, flush_result, queue_frame, sent_first,
  Attempt, all_written, stuck, write_all_by,
}
use xchannel_net.Transport.Collect.{frames_bytes, collect, collect_whole}
use xchannel_net.Transport.Receive.{data_of, recv_framed-send_framed, buffered}
use xchannel_net.Transport.Send.{OutIsValid}
use xchannel_net.Transport.Queue.{send_all, then_send, queue_frame_lem}
use xchannel_net.Transport.Link.{link_lem}
use xchannel_net.Transport.Deadline.{Honest, write_all_by_lem, tries_once, ends_by_deadline}

abbrev two_frames : List Bytes
two_frames = (65 ∷ 66 ∷ []) ∷ [] ∷ []

-- The two frames, cut inside a prefix and inside a body.
abbrev reads : List ReadAnswer
reads =
    got (2 ∷ 0 ∷ 0 ∷ [])
    ∷ ReadAnswer.would_block
    ∷ got (0 ∷ 65 ∷ [])
    ∷ ReadAnswer.interrupted
    ∷ got (66 ∷ 0 ∷ 0 ∷ 0 ∷ 0 ∷ [])
    ∷ []

all_read : data_of reads ≡ frames_bytes two_frames
unfolding data_of frames_bytes frame_bytes le_bytes
all_read = refl

collect_whole_example :
    (c : FramedConn) × (later : List ReadAnswer) × (collect 7 new reads
      ≡ some (two_frames, c, later))
collect_whole_example =
    collect_whole two_frames reads (omega arith, (omega arith, tt)) (tt, (tt, (tt, (tt, (tt, tt)))))
      all_read

abbrev writes : List WriteAnswer
writes = took 3 ∷ WriteAnswer.would_block ∷ took 1 ∷ []

abbrev drain_writes : List WriteAnswer
drain_writes = took 4 ∷ took 4 ∷ took 4 ∷ took 4 ∷ took 4 ∷ took 4 ∷ took 4 ∷ []

few_left : length (unsent (send_all two_frames new writes).2) ≤ 7
unfolding unsent send_all then_send queue_frame flush_result flush on_write unless_drained
    sent_first new frame_bytes le_bytes
few_left = omega arith

carried :
    data_of reads
    ≡ (send_all two_frames new writes).0
      ++ (flush drain_writes (send_all two_frames new writes).2).0
unfolding unsent send_all then_send queue_frame flush_result flush on_write unless_drained
    sent_first new frame_bytes le_bytes data_of
carried = refl

link_lem_example :
    (c : FramedConn) × (later : List ReadAnswer) × (collect 7 new reads
      ≡ some (two_frames, c, later))
link_lem_example =
    link_lem two_frames writes drain_writes reads (omega arith, (omega arith, tt))
      (tt, (tt, (tt, tt))) (tt, (tt, (tt, (tt, (tt, (tt, (tt, tt))))))) few_left
      (tt, (tt, (tt, (tt, (tt, tt))))) carried

abbrev hostile : FramedConn
hostile = record {
  inbox = 255 ∷ 255 ∷ 255 ∷ 255 ∷ 7 ∷ [];
  inbox_off = 0;
  outbox = [];
  outbox_off = 0;
}

hostile_prefix :
    (4 ≤ length (buffered hostile)) × (max_frame_len < from_le (take 4 (buffered hostile)))
unfolding buffered from_le
hostile_prefix = (omega arith, omega arith)

recv_framed-send_framed_example :
    (sent : Bytes) × (send_framed (9 ∷ 8 ∷ []) ≡ ok sent)
    × (recv_framed (sent ++ 1 ∷ []) ≡ ok (9 ∷ 8 ∷ [], 1 ∷ []))
recv_framed-send_framed_example = recv_framed-send_framed (9 ∷ 8 ∷ []) (1 ∷ []) (omega arith)

new_valid : OutIsValid new
unfolding OutIsValid new
new_valid = omega arith

queue_frame_lem_example :
    ((queue_frame (7 ∷ []) writes new).0 ++ unsent (queue_frame (7 ∷ []) writes new).2
      ≡ unsent new ++ frame_bytes (7 ∷ []))
    × OutIsValid (queue_frame (7 ∷ []) writes new).2
queue_frame_lem_example = queue_frame_lem (7 ∷ []) writes new new_valid (omega arith)

-- A first attempt long after the deadline, and one that finds the socket full.
abbrev late : Attempt
late = record { now = 900; answer = took 5; after = 901 }

abbrev full : Attempt
full = record { now = 10; answer = WriteAnswer.would_block; after = 10 }

write_all_by_lem_example :
    Honest 5 100
      (full ∷ late ∷ [])
      (1 ∷ 2 ∷ [])
      (write_all_by (full ∷ late ∷ []) 5 100 (1 ∷ 2 ∷ []))
write_all_by_lem_example = write_all_by_lem (full ∷ late ∷ []) 5 100 (1 ∷ 2 ∷ [])

tries_once_example : write_all_by (late ∷ []) 5 100 (1 ∷ 2 ∷ []) ≡ (1 ∷ 2 ∷ [], all_written)
tries_once_example = tries_once late [] 5 100 5 (1 ∷ 2 ∷ []) refl (omega arith) (omega arith)

ends_by_deadline_example : ¬ ((write_all_by (full ∷ late ∷ []) 5 100 (1 ∷ 2 ∷ [])).1 ≡ stuck)
ends_by_deadline_example =
    ends_by_deadline full (late ∷ []) 5 100 (1 ∷ 2 ∷ []) (late, inl refl, omega arith)
