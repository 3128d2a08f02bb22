-- ===== src/Lib.antt =====
-- xchannel-net: a mesh of node managers that replicates xchannel logs between machines.
--
-- Each node keeps a registry of channels, which converges by gossip, and a map of the nodes it has
-- heard from. A channel has one owner, whose log is the truth; a node that subscribes pulls the
-- records over a stream connection into a replica. The parts modelled here, and how they meet:
--
--   Identity, with Order and Equality (xchannel-net-core/src/identity.rs, and the newtypes of
--     xchannel-net-core/src/lib.rs): the record that is gossiped for a channel, and
--     `resolve_collision`, which decides which of two records keeps a name. Order describes it as a
--     maximum.
--   Registry, with Merge, Converge, Lifecycle, Claim and Prefix (xchannel-net/src/registry.rs): the map
--     from names to records. A method that takes `&mut self` returns the new registry beside its result.
--     `merge_tracked`, `deregister`, `reap`, `claim_epoch`, `with_prefix` and the lookups bear the
--     source's names. Converge speaks of whole sequences of merges.
--   Membership, with Laws, Stale and Contact (xchannel-net-core/src/membership.rs): which nodes are
--     known, where, and since when. `record` of the source is `record_direct`; `Instant::now()` is an
--     argument, in any unit. Contact is a step relation on the histories of the map.
--   Wire (xchannel-net-core/src/wire.rs): the messages, with the source's constructors.
--   Codec (xchannel-net-core/src/codec.rs): the bytes of the messages. Put is the writer, Get the
--     reader with its position, Control, Stream, Discovery and Client the messages. Laws has the
--     calculus of round trips, Local that of readers which look at nothing behind what they read.
--   Replication, with Source, Sink and Mirror (xchannel-net-core/src/replication.rs): the source that
--     tails a log and the sink that writes a replica. Concrete has a log and a replica in memory.
--   Stream, with Handshake and Subscriber (xchannel-net-core/src/stream.rs): the handshake of a
--     subscription at the origin (`accept_subscription`) and at the subscriber (`subscribe`), and the
--     single steps that follow it. Poll has the two poll items of a node's duty cycle.
--
--   Transport, with Receive, Collect, Send, Queue, Link and Deadline (xchannel-net-core/src/transport.rs): frames
--     with a length prefix, blocking (`send_framed`, `recv_framed`), on a polled connection
--     (`FramedConn`), and written with a deadline (`write_all_by`). The socket is the list of the
--     answers that it will give. Link joins a sender and a receiver.
--   Mux (xchannel-net-core/src/mux.rs): a topic, into which many channels are merged. Mux itself and
--     Payload have the marks of fixed length, Table the slot table, Recover the scan of a topic's
--     records after a restart, Engine the mux: Engine/Merge merges (`merge_one`, `poll`),
--     Engine/Members attaches, removes and retires, Engine/Open opens and reports. Engine/Merge/Exact
--     tells what one merge does as a relation, from the log and the topic; Engine/Writes has what each
--     write adds to the topic. Engine/Respects says what it takes for a relation between states to hold
--     across every operation, Engine/Sessions has whole sequences of operations.
--   Node (xchannel-net/src/node.rs): Gossip is what one tick of `run_maintenance` makes of the
--     identities that its links brought; Gossip/Exchange has two nodes that answer each other.
--
-- Base has what these share: tests on numbers, byte strings with their order, and the two maps
-- (`BTreeMap<String, _>` as a sorted list of pairs, `HashMap<NodeId, _>` as a list of pairs with
-- distinct keys). The modules called Examples run the definitions, and the theorems, at fixed inputs.
--
-- Numbers are natural numbers. An encoder writes an integer modulo its width, and the round trips
-- state the range of each field. `claim_epoch` and the length given to a commit wrap as in the source;
-- indices and positions are not bounded, but for `member_ref`, whose counter fails at its width. A clock that has not moved past a stamp has elapsed 0. `skip`
-- recurses on the number of records still to pass, and `pull` and `collect`, which stand for repeated
-- calls, on the number of calls. `try_recv_frame`, `flush` and `write_loop` recurse on the socket's
-- answers; without one left a poll waits. Two loops of the mux, the one of
-- `merge_one` and the drain of `remove_member`, read a member's log until nothing is there, and the code
-- sets them no bound: they go on while the member appends. The model follows them for a number of rounds
-- that `Logs.patience` gives, any number, and waits when it is used up. Engine/Merge/Ends and
-- Engine/Members/Ends show that on a log to which nothing is appended meanwhile more rounds than it has
-- records ahead are enough. The laws of `Logs` are of such a log; the definitions use none of them.
--
-- Not in the source, so parameters here: the text of a socket address (`AddrText`), the reader and the
-- writer of the xchannel crate (`Logs`, `Replicas` and `Topics`, with what their documentation promises), the
-- connection of a handshake (`Stream.Transport`) and the answers of a socket. An error's text is left out, its kind is kept.
--
-- Not modelled: the rest of xchannel-net/src/node.rs (threads, timers, sockets, the client plane),
-- broadcast.rs, the opening and closing of sockets, the file locks and paths, the client library and
-- the daemon's command line.
pub mod Base
pub mod Identity
pub mod Wire
pub mod Membership
pub mod Registry
pub mod Codec
pub mod Replication
pub mod Stream
pub mod Transport
pub mod Mux
pub mod Node
