-- ===== src/Stream/Poll/Examples.antt =====
-- A poll at either end of a stream, on a log and a replica in memory.
use xchannel_net.Base.{ℕ, ◌+◌, refl, [], ◌∷◌, arith}
use xchannel_net.Replication.{Logs, Message}
use xchannel_net.Replication.Concrete.{Cursor, memory_log, memory_replica}
use xchannel_net.Transport.{WriteAnswer, took, ReadAnswer, got, FramedConn, pending_out}
use xchannel_net.Transport.Send.{OutIsValid}
use xchannel_net.Stream.Poll.{ServerPollItem, ClientPollItem, poll_server, poll_client}
use xchannel_net.Stream.Poll.Pending.{HoldsUnder, one_frame, poll_server-HoldsUnder}
use xchannel_net.Stream.Poll.Applied.{Counts, poll_client-Counts}

abbrev word : ℕ → Message
word b = record { message_type = 1; user_meta = 9; payload = b ∷ [] }

abbrev opened : Cursor
opened = record { base = 10; last = 12; segment = 0; unread = (0, word 65) ∷ (0, word 66) ∷ [] }

abbrev log : Logs
log = memory_log opened refl

abbrev fresh : FramedConn
fresh = record { inbox = []; inbox_off = 0; outbox = []; outbox_off = 0 }

abbrev server : ServerPollItem log
server = record {
  conn = fresh;
  source = record { reader = opened; next_index = 10 };
  max_pending_out = 40;
}

server_fresh : HoldsUnder (40 + one_frame) fresh
unfolding HoldsUnder OutIsValid pending_out
server_fresh = (omega arith, omega arith)

poll_server-HoldsUnder_example :
    HoldsUnder
      (40 + one_frame)
      (poll_server log 2 server (took 3 ∷ WriteAnswer.would_block ∷ [])).2.conn
poll_server-HoldsUnder_example =
    poll_server-HoldsUnder log 2 server (took 3 ∷ WriteAnswer.would_block ∷ []) server_fresh

abbrev client : ClientPollItem memory_replica
client = record {
  conn = fresh;
  sink = record { writer = record { stamp = 1; next = 10; held = [] }; expected_index = 10 };
  head = 12;
}

poll_client-Counts_example :
    Counts memory_replica client 3
      (poll_client memory_replica 3 client (got (1 ∷ 0 ∷ []) ∷ ReadAnswer.would_block ∷ []))
poll_client-Counts_example =
    poll_client-Counts memory_replica 3 client (got (1 ∷ 0 ∷ []) ∷ ReadAnswer.would_block ∷ [])
