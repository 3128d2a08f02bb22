-- ===== src/Codec/Client/RoundTrip.antt =====
-- The ranges of requests and replies, and their round trips.
use xchannel_net.Base.{◌^◌, ◌<◌, ◌≡◌, length, arith}
use xchannel_net.Wire.{
  ChannelOptions, TopicOptions, SubscriptionStatus, DiscoveryCursor, ClientRequest, ClientReply,
  create, create_topic, publish_to_topic, deregister, list_channels, force_deregister,
  subscription_status, created, subscribed, channels, deregistered, status, error,
}
use xchannel_net.Codec.{ok, ◌>>=◌}
use xchannel_net.Codec.Get
use xchannel_net.Codec.Discovery.{AreInfos, Carries-infos}
use xchannel_net.Codec.Laws.{
  IsText, Carries, Carries-bind, Carries-last, Carries-u8, Carries-u32, Carries-u64, Carries-str,
  Carries-flag, decode_all-Carries,
}
use xchannel_net.Codec.Client.{
  put_options, get_options, put_topic_options, get_topic_options, put_status, get_status,
  put_client_request, encode_client_request, get_request, decode_client_request, put_client_reply,
  encode_client_reply, get_reply, decode_client_reply,
}

pub record AreOptions (o : ChannelOptions) : Type 0 where
  pub region_size : o.region_size < 2 ^ 32
  pub mtu : o.mtu < 2 ^ 32
  pub file_roll_size : o.file_roll_size < 2 ^ 64
  pub keep_files : o.keep_files < 2 ^ 32

pub record AreTopicOptions (o : TopicOptions) : Type 0 where
  pub channel : AreOptions o.channel
  pub max_batch_per_member : o.max_batch_per_member < 2 ^ 32
  pub member_reap_after_ms : o.member_reap_after_ms < 2 ^ 64

pub record IsStatus (s : SubscriptionStatus) : Type 0 where
  pub synced : s.synced < 2 ^ 64
  pub head_at_connect : s.head_at_connect < 2 ^ 64
  pub owner : s.owner < 2 ^ 64
  pub generation : s.generation < 2 ^ 64
  pub last_record_at_ms : s.last_record_at_ms < 2 ^ 64
  pub rebuilds_gap : s.rebuilds_gap < 2 ^ 64
  pub rebuilds_diverged : s.rebuilds_diverged < 2 ^ 64
  pub last_rebuild_at_ms : s.last_rebuild_at_ms < 2 ^ 64

pub record IsCursor (c : DiscoveryCursor) : Type 0 where
  pub log_path : IsText c.log_path
  pub generation : c.generation < 2 ^ 64
  pub from : c.from < 2 ^ 64

Carries-options : (o : ChannelOptions) → AreOptions o → Carries (put_options o) get_options o
unfolding put_options get_options
Carries-options o h = Carries-bind _ (Carries-u32 o.region_size h.region_size) (
    Carries-bind _ (Carries-u32 o.mtu h.mtu) (
      Carries-bind _ (Carries-u64 o.file_roll_size h.file_roll_size)
        (Carries-last _ (Carries-u32 o.keep_files h.keep_files))))

Carries-topic_options :
    (o : TopicOptions) → AreTopicOptions o → Carries (put_topic_options o) get_topic_options o
unfolding put_topic_options get_topic_options
Carries-topic_options o h = Carries-bind _ (Carries-options o.channel h.channel) (
    Carries-bind _ (Carries-u32 o.max_batch_per_member h.max_batch_per_member)
      (Carries-last _ (Carries-u64 o.member_reap_after_ms h.member_reap_after_ms)))

Carries-status : (s : SubscriptionStatus) → IsStatus s → Carries (put_status s) get_status s
unfolding put_status get_status
Carries-status s h = Carries-bind _ (Carries-flag s.local) (
    Carries-bind _ (Carries-flag s.active) (
      Carries-bind _ (Carries-u64 s.synced h.synced) (
        Carries-bind _ (Carries-u64 s.head_at_connect h.head_at_connect) (
          Carries-bind _ (Carries-u64 s.owner h.owner) (
            Carries-bind _ (Carries-flag s.owner_live) (
              Carries-bind _ (Carries-u64 s.generation h.generation) (
                Carries-bind _ (Carries-u64 s.last_record_at_ms h.last_record_at_ms) (
                  Carries-bind _ (Carries-u64 s.rebuilds_gap h.rebuilds_gap) (
                    Carries-bind _ (Carries-u64 s.rebuilds_diverged h.rebuilds_diverged) (
                      Carries-last _
                        (Carries-u64 s.last_rebuild_at_ms h.last_rebuild_at_ms)))))))))))

-- The ranges of the fields of each request and reply, as the types of the source give them.
abbrev pub IsRequest : ClientRequest → Type 0
IsRequest (create name options) = IsText name × AreOptions options
IsRequest (ClientRequest.subscribe name wait_ms) = IsText name × (wait_ms < 2 ^ 64)
IsRequest (create_topic name options) = IsText name × AreTopicOptions options
IsRequest (publish_to_topic topic member options) =
    IsText topic × IsText member × AreOptions options
IsRequest (deregister name) = IsText name
IsRequest (list_channels prefix) = IsText prefix
IsRequest (force_deregister name) = IsText name
IsRequest (subscription_status name) = IsText name

abbrev pub IsReply : ClientReply → Type 0
IsReply (created path) = IsText path
IsReply (subscribed replica_path) = IsText replica_path
IsReply (channels list cursor) = AreInfos list × IsCursor cursor
IsReply (deregistered existed) = Unit {0}
IsReply (status s) = IsStatus s
IsReply (error message) = IsText message

Carries-request :
    (m : ClientRequest) → IsRequest m → Carries (put_client_request m) (Get.u8 >>= get_request) m
unfolding put_client_request get_request
Carries-request (create name options) h =
    Carries-bind _ (Carries-u8 0 (omega arith))
      (Carries-bind _ (Carries-str name h.0) (Carries-last _ (Carries-options options h.1)))
Carries-request (ClientRequest.subscribe name wait_ms) h =
    Carries-bind _ (Carries-u8 1 (omega arith))
      (Carries-bind _ (Carries-str name h.0) (Carries-last _ (Carries-u64 wait_ms h.1)))
Carries-request (create_topic name options) h =
    Carries-bind _ (Carries-u8 2 (omega arith))
      (Carries-bind _ (Carries-str name h.0) (Carries-last _ (Carries-topic_options options h.1)))
Carries-request (publish_to_topic topic member options) h =
    Carries-bind _ (Carries-u8 3 (omega arith)) (
      Carries-bind _ (Carries-str topic h.0)
        (Carries-bind _ (Carries-str member h.1) (Carries-last _ (Carries-options options h.2))))
Carries-request (deregister name) h =
    Carries-bind _ (Carries-u8 5 (omega arith)) (Carries-last _ (Carries-str name h))
Carries-request (list_channels prefix) h =
    Carries-bind _ (Carries-u8 7 (omega arith)) (Carries-last _ (Carries-str prefix h))
Carries-request (force_deregister name) h =
    Carries-bind _ (Carries-u8 6 (omega arith)) (Carries-last _ (Carries-str name h))
Carries-request (subscription_status name) h =
    Carries-bind _ (Carries-u8 4 (omega arith)) (Carries-last _ (Carries-str name h))

Carries-reply :
    (m : ClientReply) → IsReply m → Carries (put_client_reply m) (Get.u8 >>= get_reply) m
unfolding put_client_reply get_reply
Carries-reply (created path) h =
    Carries-bind _ (Carries-u8 0 (omega arith)) (Carries-last _ (Carries-str path h))
Carries-reply (subscribed replica_path) h =
    Carries-bind _ (Carries-u8 1 (omega arith)) (Carries-last _ (Carries-str replica_path h))
Carries-reply (channels list cursor) h = Carries-bind _ (Carries-u8 5 (omega arith)) (
    Carries-bind _ (Carries-infos list h.0) (
      Carries-bind _ (Carries-str cursor.log_path h.1.log_path) (
        Carries-bind _ (Carries-u64 cursor.generation h.1.generation)
          (Carries-last _ (Carries-u64 cursor.from h.1.from)))))
Carries-reply (deregistered existed) h =
    Carries-bind _ (Carries-u8 4 (omega arith)) (Carries-last _ (Carries-flag existed))
Carries-reply (status s) h =
    Carries-bind _ (Carries-u8 3 (omega arith)) (Carries-last _ (Carries-status s h))
Carries-reply (error message) h =
    Carries-bind _ (Carries-u8 2 (omega arith)) (Carries-last _ (Carries-str message h))

-- Every client request whose fields are in the ranges of their types and whose encoding is below
-- 2^64 bytes decodes from its encoding.
pub decode-encode_client_request :
    (m : ClientRequest)
    → IsRequest m
    → length (encode_client_request m) < 2 ^ 64
    → decode_client_request (encode_client_request m) ≡ ok m
unfolding encode_client_request decode_client_request
decode-encode_client_request m h fits = decode_all-Carries (Carries-request m h) fits

-- Every client reply whose fields are in the ranges of their types and whose encoding is below
-- 2^64 bytes decodes from its encoding.
pub decode-encode_client_reply :
    (m : ClientReply)
    → IsReply m
    → length (encode_client_reply m) < 2 ^ 64
    → decode_client_reply (encode_client_reply m) ≡ ok m
unfolding encode_client_reply decode_client_reply
decode-encode_client_reply m h fits = decode_all-Carries (Carries-reply m h) fits
