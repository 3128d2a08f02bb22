-- ===== src/Replication/Mirror.antt =====
-- From the origin's log to the replica: the source's frames, applied by the sink.
use xchannel_net.Base.{
  ℕ, ◌+◌, ◌-◌, ◌≤◌, ◌≡◌, refl, sym, ap, ◌∙◌, List, ◌++◌, length, take, drop, arith,
}
use xchannel_net.Wire.{RecordFrame}
use xchannel_net.Replication.{
  done, Logs, Replicas, ReplicationSource, ReplicationSink, skip_to, pull, apply_all,
}
use xchannel_net.Replication.Source.{
  frames_from, after, pull_lem, skip_to_lem, after-next_index, after-ahead,
}
use xchannel_net.Replication.Sink.{items, Takes, apply_all_lem}

module _ (l : Logs) (x : Replicas) where
  open l use {file_sequence, ahead}
  open x use {content}

  -- When the disk takes the records, whose lengths fit 32 bits, a source that skips to the index a
  -- sink expects, which the log still holds or has just reached, and then gives up to so many
  -- frames, leaves in the replica exactly the log's records from that index on, as far as the
  -- calls and the log go, with a roll where a new segment starts; the source then stands at the
  -- index the sink expects.
  pub mirror_lem :
      (calls : ℕ) (s : ReplicationSource l) (k : ReplicationSink x)
      → s.next_index ≤ k.expected_index
      → k.expected_index ≤ s.next_index + length (ahead s.reader)
      → Takes x k.writer (take calls (drop (k.expected_index - s.next_index) (ahead s.reader)))
      → (s1 : ReplicationSource l) × (s2 : ReplicationSource l) × (frames : List RecordFrame)
        × (k' : ReplicationSink x) × (skip_to l k.expected_index s ≡ done s1)
        × (pull l calls s1 ≡ done (frames, s2))
        × (apply_all x frames k ≡ done k')
        × (s2.next_index ≡ k'.expected_index)
        × (content k'.writer
            ≡ content k.writer
              ++ items
                  (file_sequence s1.reader)
                  (take calls (drop (k.expected_index - s.next_index) (ahead s.reader))))
  mirror_lem calls s k kept reached takes =
      let n = k.expected_index - s.next_index in
      let es = take calls (drop n (ahead s.reader)) in
      let s1 = after l n s in
      let here : s1.next_index ≡ k.expected_index = omega (arith, after-next_index l n s) in
      let (k', applied, held, ahead_by) = apply_all_lem x (file_sequence s1.reader) es k takes in
      (
        s1,
        after l (length es) s1,
        frames_from k.expected_index (file_sequence s1.reader) es,
        k',
        skip_to_lem l k.expected_index s _ refl reached,
        pull_lem l calls s1 _ (after-ahead l n s _ refl (omega arith))
            ∙ ap (λ i. done (frames_from i (file_sequence s1.reader) es, after l (length es) s1))
                here,
        applied,
        after-next_index l (length es) s1 ∙ ap (λ i. i + length es) here ∙ sym ahead_by,
        held,
      )
