-- ===== src/Codec/Stream.antt =====
-- The messages of the stream plane on the wire.
use xchannel_net.Base.{ℕ, ◌^◌, ◌<◌, ◌≡◌, Bytes, length, ◌==◌, if◌then◌else◌, arith, []}
use xchannel_net.Wire.{
  RecordFrame, Ack, StreamMsg, subscribe, subscribe_ack, record_msg, gap, diverged,
}
use xchannel_net.Codec.{W, ◌⨾◌, Result, ok, unknown_tag, Reads, ◌>>=◌, pure, fail}
use xchannel_net.Codec.Put
use xchannel_net.Codec.Get
use xchannel_net.Codec.Laws.{
  IsText, Carries, Carries-bind, Carries-last, Carries-u8, Carries-u16, Carries-u32, Carries-u64,
  Carries-str, Carries-bytes, Carries-flag, decode_all-Carries,
}

-- `mod stream_tag`
abbrev subscribe_tag : ℕ
subscribe_tag = 0

abbrev subscribe_ack_tag : ℕ
subscribe_ack_tag = 1

abbrev record_tag : ℕ
record_tag = 2

abbrev gap_tag : ℕ
gap_tag = 3

abbrev diverged_tag : ℕ
diverged_tag = 4

unfoldable pub encode_stream_into : StreamMsg → W
encode_stream_into (subscribe s) =
    Put.u8 subscribe_tag ⨾ Put.str s.name ⨾ Put.u64 s.from ⨾ Put.u64 s.generation
encode_stream_into (subscribe_ack a) =
    Put.u8 subscribe_ack_tag
    ⨾ Put.str a.name
    ⨾ Put.u32 a.stream_id
    ⨾ Put.u64 a.start
    ⨾ Put.u64 a.head
    ⨾ Put.u32 a.region_size
    ⨾ Put.u32 a.mtu
    ⨾ Put.u64 a.file_roll_size
    ⨾ Put.u32 a.keep_files
    ⨾ Put.u64 a.generation
encode_stream_into (record_msg stream_id frame) =
    Put.u8 record_tag
    ⨾ Put.u32 stream_id
    ⨾ Put.u64 frame.index
    ⨾ Put.u16 frame.msg_type
    ⨾ Put.u64 frame.user_meta
    ⨾ Put.flag frame.starts_segment
    ⨾ Put.bytes frame.payload
encode_stream_into (gap name earliest head) =
    Put.u8 gap_tag ⨾ Put.str name ⨾ Put.u64 earliest ⨾ Put.u64 head
encode_stream_into (diverged name earliest head) =
    Put.u8 diverged_tag ⨾ Put.str name ⨾ Put.u64 earliest ⨾ Put.u64 head

unfoldable pub encode_stream : StreamMsg → Bytes
encode_stream m = encode_stream_into m []

unfoldable pub get_subscribe : Reads StreamMsg
get_subscribe = do
  name ← Get.str
  from ← Get.u64
  generation ← Get.u64
  pure (subscribe (record { name = name; from = from; generation = generation }))

unfoldable pub get_ack : Reads StreamMsg
get_ack = do
  name ← Get.str
  stream_id ← Get.u32
  start ← Get.u64
  head ← Get.u64
  region_size ← Get.u32
  mtu ← Get.u32
  file_roll_size ← Get.u64
  keep_files ← Get.u32
  generation ← Get.u64
  pure (
      subscribe_ack (record {
        name = name;
        stream_id = stream_id;
        start = start;
        head = head;
        region_size = region_size;
        mtu = mtu;
        file_roll_size = file_roll_size;
        keep_files = keep_files;
        generation = generation;
      }))

unfoldable pub get_record : Reads StreamMsg
get_record = do
  stream_id ← Get.u32
  index ← Get.u64
  msg_type ← Get.u16
  user_meta ← Get.u64
  starts_segment ← Get.flag
  payload ← Get.bytes
  pure (
      record_msg stream_id (record {
        index = index;
        msg_type = msg_type;
        user_meta = user_meta;
        starts_segment = starts_segment;
        payload = payload;
      }))

-- The message that a tag announces.
unfoldable pub get_stream : ℕ → Reads StreamMsg
unfolding get_subscribe get_ack get_record
get_stream tag =
    if tag == subscribe_tag
    then get_subscribe
    else if tag == subscribe_ack_tag
    then get_ack
    else if tag == record_tag
    then get_record
    else if tag == gap_tag
    then (do name ← Get.str; earliest ← Get.u64; head ← Get.u64; pure (gap name earliest head))
    else if tag == diverged_tag
    then (do name ← Get.str; earliest ← Get.u64; head ← Get.u64; pure (diverged name earliest head))
    else fail unknown_tag

unfoldable pub decode_stream : Bytes → Result StreamMsg
unfolding get_stream
decode_stream bytes = Get.decode_all (do tag ← Get.u8; get_stream tag) bytes

pub record IsAck (a : Ack) : Type 0 where
  pub name : IsText a.name
  pub stream_id : a.stream_id < 2 ^ 32
  pub start : a.start < 2 ^ 64
  pub head : a.head < 2 ^ 64
  pub region_size : a.region_size < 2 ^ 32
  pub mtu : a.mtu < 2 ^ 32
  pub file_roll_size : a.file_roll_size < 2 ^ 64
  pub keep_files : a.keep_files < 2 ^ 32
  pub generation : a.generation < 2 ^ 64

pub record IsFrame (f : RecordFrame) : Type 0 where
  pub index : f.index < 2 ^ 64
  pub msg_type : f.msg_type < 2 ^ 16
  pub user_meta : f.user_meta < 2 ^ 64
  pub payload : length f.payload < 2 ^ 32

-- The ranges of the fields of each message, as the types of the source give them.
abbrev pub IsStream : StreamMsg → Type 0
IsStream (subscribe s) = IsText s.name × (s.from < 2 ^ 64) × (s.generation < 2 ^ 64)
IsStream (subscribe_ack a) = IsAck a
IsStream (record_msg stream_id frame) = (stream_id < 2 ^ 32) × IsFrame frame
IsStream (gap name earliest head) = IsText name × (earliest < 2 ^ 64) × (head < 2 ^ 64)
IsStream (diverged name earliest head) = IsText name × (earliest < 2 ^ 64) × (head < 2 ^ 64)

pub Carries-stream :
    (m : StreamMsg) → IsStream m → Carries (encode_stream_into m) (Get.u8 >>= get_stream) m
unfolding encode_stream_into get_stream
Carries-stream (subscribe s) h = Carries-bind _ (Carries-u8 0 (omega arith)) (
    Carries-bind _ (Carries-str s.name h.0)
      (Carries-bind _ (Carries-u64 s.from h.1) (Carries-last _ (Carries-u64 s.generation h.2))))
Carries-stream (subscribe_ack a) h = Carries-bind _ (Carries-u8 1 (omega arith)) (
    Carries-bind _ (Carries-str a.name h.name) (
      Carries-bind _ (Carries-u32 a.stream_id h.stream_id) (
        Carries-bind _ (Carries-u64 a.start h.start) (
          Carries-bind _ (Carries-u64 a.head h.head) (
            Carries-bind _ (Carries-u32 a.region_size h.region_size) (
              Carries-bind _ (Carries-u32 a.mtu h.mtu) (
                Carries-bind _ (Carries-u64 a.file_roll_size h.file_roll_size) (
                  Carries-bind _ (Carries-u32 a.keep_files h.keep_files)
                    (Carries-last _ (Carries-u64 a.generation h.generation))))))))))
Carries-stream (record_msg stream_id f) (h, k) = Carries-bind _ (Carries-u8 2 (omega arith)) (
    Carries-bind _ (Carries-u32 stream_id h) (
      Carries-bind _ (Carries-u64 f.index k.index) (
        Carries-bind _ (Carries-u16 f.msg_type k.msg_type) (
          Carries-bind _ (Carries-u64 f.user_meta k.user_meta) (
            Carries-bind _ (Carries-flag f.starts_segment)
              (Carries-last _ (Carries-bytes f.payload k.payload)))))))
Carries-stream (gap name earliest head) h = Carries-bind _ (Carries-u8 3 (omega arith)) (
    Carries-bind _ (Carries-str name h.0)
      (Carries-bind _ (Carries-u64 earliest h.1) (Carries-last _ (Carries-u64 head h.2))))
Carries-stream (diverged name earliest head) h = Carries-bind _ (Carries-u8 4 (omega arith)) (
    Carries-bind _ (Carries-str name h.0)
      (Carries-bind _ (Carries-u64 earliest h.1) (Carries-last _ (Carries-u64 head h.2))))

-- Every stream message whose fields are in the ranges of their types and whose encoding is below
-- 2^64 bytes decodes from its encoding with no byte left over.
pub decode-encode_stream :
    (m : StreamMsg)
    → IsStream m
    → length (encode_stream m) < 2 ^ 64
    → decode_stream (encode_stream m) ≡ ok m
unfolding encode_stream decode_stream
decode-encode_stream m h fits = decode_all-Carries (Carries-stream m h) fits
