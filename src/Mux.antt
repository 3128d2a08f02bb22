-- ===== src/Mux.antt =====
-- xchannel-net-core/src/mux.rs: what a mux writes into a topic channel. This file has the constants
-- and the payloads of fixed length; the slot table, the recovery and the engine are modules below.
pub mod Payload
pub mod Table
pub mod Recover
pub mod Engine
mod Examples
use xchannel_net.Base.{
  ℕ, ◌+◌, Bool, List, [], ◌∷◌, ◌++◌, Bytes, length, take, drop, ltb, leb, if◌then◌else◌,
}
use xchannel_net.Codec.{le_bytes, from_le}
use xchannel_net.Replication.{Io, done, failed, short_record}

abbrev pub provenance_len : ℕ
provenance_len = 2 + 8 + 8

abbrev pub reserved_msg_type_min : ℕ
reserved_msg_type_min = 65520

abbrev pub slot_table_refresh : ℕ
slot_table_refresh = 4096

abbrev pub record_overhead : ℕ
record_overhead = 16

abbrev pub msg_type_slot_table : ℕ
msg_type_slot_table = 65535

abbrev pub msg_type_topic_gap : ℕ
msg_type_topic_gap = 65534

abbrev pub msg_type_member_closed : ℕ
msg_type_member_closed = 65533

abbrev pub msg_type_terminal : ℕ
msg_type_terminal = 65532

abbrev pub msg_type_member_regressed : ℕ
msg_type_member_regressed = 65531

unfoldable pub is_control : ℕ → Bool
is_control msg_type = leb reserved_msg_type_min msg_type

pub record Provenance : Type 0 where
  pub member_ref : ℕ
  pub member_index : ℕ
  pub orig_user_meta : ℕ

pub record TopicGap : Type 0 where
  pub member_ref : ℕ
  pub from : ℕ
  pub resumed_at : ℕ

pub record MemberRegressed : Type 0 where
  pub member_ref : ℕ
  pub expected : ℕ
  pub head : ℕ

pub record MemberClosed : Type 0 where
  pub member_ref : ℕ
  pub final_index : ℕ

pub record TopicGeometry : Type 0 where
  pub region_size : ℕ
  pub mtu : ℕ
  pub file_roll_size : ℕ
  pub keep_files : ℕ

-- `Provenance::to_prefix`
pub to_prefix : Provenance → Bytes
to_prefix p = le_bytes 2 p.member_ref ++ le_bytes 8 p.member_index ++ le_bytes 8 p.orig_user_meta

-- `Provenance::split`
unfoldable pub split : Bytes → Io (Provenance × Bytes)
split payload =
    if ltb (length payload) provenance_len
    then failed short_record
    else done (
      record {
        member_ref = from_le (take 2 payload);
        member_index = from_le (take 8 (drop 2 payload));
        orig_user_meta = from_le (take 8 (drop 10 payload));
      },
      drop provenance_len payload,
    )

pub frame_data : Provenance → Bytes → Bytes
unfolding to_prefix
frame_data prov body = to_prefix prov ++ body

pub topic_gap_payload : TopicGap → Bytes
topic_gap_payload g = le_bytes 2 g.member_ref ++ le_bytes 8 g.from ++ le_bytes 8 g.resumed_at

pub decode_topic_gap : Bytes → Io TopicGap
decode_topic_gap b =
    if ltb (length b) 18
    then failed short_record
    else done (record {
      member_ref = from_le (take 2 b);
      from = from_le (take 8 (drop 2 b));
      resumed_at = from_le (take 8 (drop 10 b));
    })

pub member_regressed_payload : MemberRegressed → Bytes
member_regressed_payload g = le_bytes 2 g.member_ref ++ le_bytes 8 g.expected ++ le_bytes 8 g.head

pub decode_member_regressed : Bytes → Io MemberRegressed
decode_member_regressed b =
    if ltb (length b) 18
    then failed short_record
    else done (record {
      member_ref = from_le (take 2 b);
      expected = from_le (take 8 (drop 2 b));
      head = from_le (take 8 (drop 10 b));
    })

pub member_closed_payload : MemberClosed → Bytes
member_closed_payload g = le_bytes 2 g.member_ref ++ le_bytes 8 g.final_index

pub decode_member_closed : Bytes → Io MemberClosed
decode_member_closed b =
    if ltb (length b) 10
    then failed short_record
    else done
        (record { member_ref = from_le (take 2 b); final_index = from_le (take 8 (drop 2 b)) })
