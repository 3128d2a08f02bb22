-- ===== src/Codec/Client.antt =====
-- The requests of a local client and the daemon's replies on the wire.
pub mod RoundTrip
use xchannel_net.Base.{ℕ, ◌^◌, ◌<◌, ◌≡◌, Bytes, length, ◌==◌, if◌then◌else◌, arith, []}
use xchannel_net.Wire.{
  ChannelOptions, TopicOptions, SubscriptionStatus, DiscoveryCursor, ClientRequest, ClientReply,
  create, create_topic, publish_to_topic, deregister, list_channels, force_deregister,
  subscription_status, created, subscribed, channels, deregistered, status, error,
}
use xchannel_net.Codec.{W, ◌⨾◌, Result, ok, unknown_tag, Reads, ◌>>=◌, pure, fail}
use xchannel_net.Codec.Put
use xchannel_net.Codec.Get
use xchannel_net.Codec.Discovery.{put_infos, get_infos, AreInfos, Carries-infos}
use xchannel_net.Codec.Laws.{
  IsText, Carries, Carries-bind, Carries-last, Carries-u8, Carries-u32, Carries-u64, Carries-str,
  Carries-flag, decode_all-Carries,
}

unfoldable pub put_options : ChannelOptions → W
put_options o =
    Put.u32 o.region_size ⨾ Put.u32 o.mtu ⨾ Put.u64 o.file_roll_size ⨾ Put.u32 o.keep_files

unfoldable pub get_options : Reads ChannelOptions
get_options = do
  region_size ← Get.u32
  mtu ← Get.u32
  file_roll_size ← Get.u64
  keep_files ← Get.u32
  pure (record {
    region_size = region_size;
    mtu = mtu;
    file_roll_size = file_roll_size;
    keep_files = keep_files;
  })

unfoldable pub put_topic_options : TopicOptions → W
put_topic_options o =
    put_options o.channel ⨾ Put.u32 o.max_batch_per_member ⨾ Put.u64 o.member_reap_after_ms

unfoldable pub get_topic_options : Reads TopicOptions
get_topic_options = do
  channel ← get_options
  max_batch_per_member ← Get.u32
  member_reap_after_ms ← Get.u64
  pure (record {
    channel = channel;
    max_batch_per_member = max_batch_per_member;
    member_reap_after_ms = member_reap_after_ms;
  })

unfoldable pub put_status : SubscriptionStatus → W
put_status s =
    Put.flag s.local
    ⨾ Put.flag s.active
    ⨾ Put.u64 s.synced
    ⨾ Put.u64 s.head_at_connect
    ⨾ Put.u64 s.owner
    ⨾ Put.flag s.owner_live
    ⨾ Put.u64 s.generation
    ⨾ Put.u64 s.last_record_at_ms
    ⨾ Put.u64 s.rebuilds_gap
    ⨾ Put.u64 s.rebuilds_diverged
    ⨾ Put.u64 s.last_rebuild_at_ms

unfoldable pub get_status : Reads SubscriptionStatus
get_status = do
  local ← Get.flag
  active ← Get.flag
  synced ← Get.u64
  head_at_connect ← Get.u64
  owner ← Get.u64
  owner_live ← Get.flag
  generation ← Get.u64
  last_record_at_ms ← Get.u64
  rebuilds_gap ← Get.u64
  rebuilds_diverged ← Get.u64
  last_rebuild_at_ms ← Get.u64
  pure (record {
    local = local;
    active = active;
    synced = synced;
    head_at_connect = head_at_connect;
    owner = owner;
    owner_live = owner_live;
    generation = generation;
    last_record_at_ms = last_record_at_ms;
    rebuilds_gap = rebuilds_gap;
    rebuilds_diverged = rebuilds_diverged;
    last_rebuild_at_ms = last_rebuild_at_ms;
  })

put_client_request : ClientRequest → W
put_client_request (create name options) = Put.u8 0 ⨾ Put.str name ⨾ put_options options
put_client_request (ClientRequest.subscribe name wait_ms) =
    Put.u8 1 ⨾ Put.str name ⨾ Put.u64 wait_ms
put_client_request (create_topic name options) = Put.u8 2 ⨾ Put.str name ⨾ put_topic_options options
put_client_request (publish_to_topic topic member options) =
    Put.u8 3 ⨾ Put.str topic ⨾ Put.str member ⨾ put_options options
put_client_request (subscription_status name) = Put.u8 4 ⨾ Put.str name
put_client_request (deregister name) = Put.u8 5 ⨾ Put.str name
put_client_request (force_deregister name) = Put.u8 6 ⨾ Put.str name
put_client_request (list_channels prefix) = Put.u8 7 ⨾ Put.str prefix

unfoldable pub encode_client_request : ClientRequest → Bytes
unfolding put_client_request
encode_client_request m = put_client_request m []

-- The request that a tag announces, `mod client_req_tag`.
pub get_request : ℕ → Reads ClientRequest
get_request tag =
    if tag == 0
    then (do name ← Get.str; options ← get_options; pure (create name options))
    else if tag == 1
    then (do name ← Get.str; wait_ms ← Get.u64; pure (ClientRequest.subscribe name wait_ms))
    else if tag == 2
    then (do name ← Get.str; options ← get_topic_options; pure (create_topic name options))
    else if tag == 3
    then (do
      topic ← Get.str
      member ← Get.str
      options ← get_options
      pure (publish_to_topic topic member options))
    else if tag == 4
    then (do name ← Get.str; pure (subscription_status name))
    else if tag == 5
    then (do name ← Get.str; pure (deregister name))
    else if tag == 6
    then (do name ← Get.str; pure (force_deregister name))
    else if tag == 7
    then (do prefix ← Get.str; pure (list_channels prefix))
    else fail unknown_tag

unfoldable pub decode_client_request : Bytes → Result ClientRequest
unfolding get_request
decode_client_request bytes = Get.decode_all (do tag ← Get.u8; get_request tag) bytes

put_client_reply : ClientReply → W
put_client_reply (created path) = Put.u8 0 ⨾ Put.str path
put_client_reply (subscribed replica_path) = Put.u8 1 ⨾ Put.str replica_path
put_client_reply (error message) = Put.u8 2 ⨾ Put.str message
put_client_reply (status s) = Put.u8 3 ⨾ put_status s
put_client_reply (deregistered existed) = Put.u8 4 ⨾ Put.flag existed
put_client_reply (channels list cursor) =
    Put.u8 5
    ⨾ put_infos list
    ⨾ Put.str cursor.log_path
    ⨾ Put.u64 cursor.generation
    ⨾ Put.u64 cursor.from

unfoldable pub encode_client_reply : ClientReply → Bytes
unfolding put_client_reply
encode_client_reply m = put_client_reply m []

get_channels : Reads ClientReply
get_channels = do
  list ← get_infos
  log_path ← Get.str
  generation ← Get.u64
  from ← Get.u64
  pure (channels list (record { log_path = log_path; generation = generation; from = from }))

-- The reply that a tag announces, `mod client_reply_tag`.
pub get_reply : ℕ → Reads ClientReply
unfolding get_channels
get_reply tag =
    if tag == 0
    then (do path ← Get.str; pure (created path))
    else if tag == 1
    then (do replica_path ← Get.str; pure (subscribed replica_path))
    else if tag == 2
    then (do message ← Get.str; pure (error message))
    else if tag == 3
    then (do s ← get_status; pure (status s))
    else if tag == 4
    then (do existed ← Get.flag; pure (deregistered existed))
    else if tag == 5
    then get_channels
    else fail unknown_tag

unfoldable pub decode_client_reply : Bytes → Result ClientReply
unfolding get_reply
decode_client_reply bytes = Get.decode_all (do tag ← Get.u8; get_reply tag) bytes
