-- ===== src/Node.antt =====
-- xchannel-net/src/node.rs: the parts of the node manager that decide something.
pub mod Gossip
