-- ===== src/Wire.antt =====
-- xchannel-net-core/src/wire.rs: the messages of the control plane, the stream plane and the local
-- client protocol. `SocketAddr` is the standard library's type, a parameter of the control messages.
use xchannel_net.Base.{ℕ, Bool, Option, List, Bytes}
use xchannel_net.Identity.{NodeId, RecordIndex, StreamId, ChannelName, ChannelIdentity}

pub record RecordFrame : Type 0 where
  pub index : RecordIndex
  pub msg_type : ℕ
  pub user_meta : ℕ
  pub starts_segment : Bool
  pub payload : Bytes

pub data ControlMsg (SocketAddr : Type 0) : Type 0 where
  register : ChannelIdentity → ControlMsg SocketAddr
  deregister : (name : ChannelName) (owner : NodeId) → ControlMsg SocketAddr
  registry_delta : List ChannelIdentity → ControlMsg SocketAddr
  registry_sync : List ChannelIdentity → ControlMsg SocketAddr
  heartbeat :
      (node : NodeId) (addr control_addr : SocketAddr) (name : Bytes) → ControlMsg SocketAddr
  peer_hint :
      (node : NodeId) (addr control_addr : SocketAddr) (name : Bytes) → ControlMsg SocketAddr
  leaving : (node : NodeId) → ControlMsg SocketAddr
  register_rejected : (name : ChannelName) (winner : NodeId) → ControlMsg SocketAddr

pub record Subscription : Type 0 where
  pub name : ChannelName
  pub from : RecordIndex
  pub generation : ℕ

pub record Ack : Type 0 where
  pub name : ChannelName
  pub stream_id : StreamId
  pub start : RecordIndex
  pub head : RecordIndex
  pub region_size : ℕ
  pub mtu : ℕ
  pub file_roll_size : ℕ
  pub keep_files : ℕ
  pub generation : ℕ

-- The fields of the two struct variants with many fields are records of their own.
pub data StreamMsg : Type 0 where
  subscribe : Subscription → StreamMsg
  subscribe_ack : Ack → StreamMsg
  record_msg : (stream_id : StreamId) (frame : RecordFrame) → StreamMsg
  gap : (name : ChannelName) (earliest head : RecordIndex) → StreamMsg
  diverged : (name : ChannelName) (earliest head : RecordIndex) → StreamMsg

pub record ChannelOptions : Type 0 where
  pub region_size : ℕ
  pub mtu : ℕ
  pub file_roll_size : ℕ
  pub keep_files : ℕ

-- `impl Default for ChannelOptions`
abbrev pub default_options : ChannelOptions
default_options = record { region_size = 1048576; mtu = 0; file_roll_size = 0; keep_files = 0 }

pub record TopicOptions : Type 0 where
  pub channel : ChannelOptions
  pub max_batch_per_member : ℕ
  pub member_reap_after_ms : ℕ

pub record ChannelInfo : Type 0 where
  pub name : ChannelName
  pub owner : NodeId
  pub epoch : ℕ
  pub owner_live : Bool
  pub member_of : Option ChannelName
  pub region_size : ℕ
  pub mtu : ℕ
  pub earliest_index : RecordIndex

pub data ChannelChange : Type 0 where
  upserted : ChannelInfo → ChannelChange
  removed : (name : ChannelName) (epoch : ℕ) → ChannelChange

pub record DiscoveryCursor : Type 0 where
  pub log_path : Bytes
  pub generation : ℕ
  pub from : RecordIndex

pub record SubscriptionStatus : Type 0 where
  pub local : Bool
  pub active : Bool
  pub synced : RecordIndex
  pub head_at_connect : RecordIndex
  pub owner : NodeId
  pub owner_live : Bool
  pub generation : ℕ
  pub last_record_at_ms : ℕ
  pub rebuilds_gap : ℕ
  pub rebuilds_diverged : ℕ
  pub last_rebuild_at_ms : ℕ

pub data ClientRequest : Type 0 where
  create : (name : ChannelName) (options : ChannelOptions) → ClientRequest
  subscribe : (name : ChannelName) (wait_ms : ℕ) → ClientRequest
  create_topic : (name : ChannelName) (options : TopicOptions) → ClientRequest
  publish_to_topic : (topic member : ChannelName) (options : ChannelOptions) → ClientRequest
  deregister : (name : ChannelName) → ClientRequest
  list_channels : (prefix : Bytes) → ClientRequest
  force_deregister : (name : ChannelName) → ClientRequest
  subscription_status : (name : ChannelName) → ClientRequest

pub data ClientReply : Type 0 where
  created : (path : Bytes) → ClientReply
  subscribed : (replica_path : Bytes) → ClientReply
  channels : (list : List ChannelInfo) (cursor : DiscoveryCursor) → ClientReply
  deregistered : (existed : Bool) → ClientReply
  status : SubscriptionStatus → ClientReply
  error : (message : Bytes) → ClientReply
