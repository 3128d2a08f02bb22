-- ===== src/Replication/Examples.antt =====
-- A log of three records in two segments, and a replica that resumes behind its first record.
use xchannel_net.Base.{ℕ, ◌-◌, ◌≡◌, refl, List, [], ◌∷◌, ◌++◌, take, drop, arith}
use xchannel_net.Wire.{RecordFrame}
use xchannel_net.Replication.{
  done, Message, Entry, Logs, roll, entry, ReplicationSource, ReplicationSink, skip_to, pull,
  apply_all,
}
use xchannel_net.Replication.Sink.{items, Takes}
use xchannel_net.Replication.Mirror.{mirror_lem}
use xchannel_net.Replication.Concrete.{Cursor, memory_log, memory_replica}

abbrev word : ℕ → Message
word b = record { message_type = 1; user_meta = 9; payload = b ∷ [] }

abbrev entries : List Entry
entries = (0, word 65) ∷ (0, word 66) ∷ (1, word 67) ∷ []

abbrev opened : Cursor
opened = record { base = 10; last = 13; segment = 0; unread = entries }

abbrev log : Logs
log = memory_log opened refl

abbrev source : ReplicationSource log
source = record { reader = opened; next_index = 10 }

abbrev sink : ReplicationSink memory_replica
sink = record { writer = record { stamp = 1; next = 11; held = [] }; expected_index = 11 }

all_taken : Takes memory_replica sink.writer (take 9 (drop 1 entries))
all_taken = ((refl, omega arith), ((refl, omega arith), tt))

-- The two records that the replica misses, the second one in a new segment.
two_items : items 0 (drop 1 entries) ≡ entry (word 66) ∷ roll ∷ entry (word 67) ∷ []
unfolding items
two_items = refl

mirror_lem_example :
    (s1 : ReplicationSource log) × (s2 : ReplicationSource log) × (frames : List RecordFrame)
    × (k' : ReplicationSink memory_replica) × (skip_to log 11 source ≡ done s1)
    × (pull log 9 s1 ≡ done (frames, s2))
    × (apply_all memory_replica frames sink ≡ done k')
    × (s2.next_index ≡ k'.expected_index)
    × (k'.writer.held ≡ [] ++ items s1.reader.segment (take 9 (drop (11 - 10) entries)))
mirror_lem_example =
    mirror_lem log memory_replica 9 source sink (omega arith) (omega arith) all_taken
