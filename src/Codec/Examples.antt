-- ===== src/Codec/Examples.antt =====
-- Messages, their bytes, and the round trips at them. The addresses are two of the loopback's.
use xchannel_net.Base.{
  ◌^◌, ◌<◌, ◌≡◌, refl, false, Option, none, some, Bytes, [], ◌∷◌, length, arith, bytes_eq,
  if◌then◌else◌, take, drop,
}
use xchannel_net.Identity.{ChannelIdentity}
use xchannel_net.Wire.{
  ControlMsg, StreamMsg, ChannelChange, ClientRequest, ClientReply, default_options,
}
use xchannel_net.Codec.{Error, ok, err, le_bytes, ◌⨾◌}
use xchannel_net.Codec.Put
use xchannel_net.Codec.Utf8.{utf8_valid}
use xchannel_net.Codec.Laws.{IsText}
use xchannel_net.Codec.Addr.{AddrText, put_addr}
use xchannel_net.Codec.Control.{
  IsControl, encode_control, encode_control_into, decode_control, decode-encode_control,
}
use xchannel_net.Codec.Stream.{
  IsStream, encode_stream, encode_stream_into, decode_stream, decode-encode_stream,
}
use xchannel_net.Codec.Discovery.{encode_change}
use xchannel_net.Codec.Client.{
  encode_client_request, decode_client_request, encode_client_reply, put_options,
}
use xchannel_net.Codec.Client.RoundTrip.{AreOptions, decode-encode_client_request}
use xchannel_net.Codec.Truncated.{control_truncated}

data Host : Type 0 where
  here there : Host

-- "[::1]:1" and "[::1]:2"
text_of : Host → Bytes
text_of here = 91 ∷ 58 ∷ 58 ∷ 49 ∷ 93 ∷ 58 ∷ 49 ∷ []
text_of there = 91 ∷ 58 ∷ 58 ∷ 49 ∷ 93 ∷ 58 ∷ 50 ∷ []

host_of : Bytes → Option Host
unfolding text_of
host_of s =
    if bytes_eq s (text_of here)
    then some here
    else if bytes_eq s (text_of there)
    then some there
    else none

text_of-IsText : (a : Host) → IsText (text_of a)
unfolding text_of utf8_valid
text_of-IsText here = record { short = omega arith; utf8 = refl }
text_of-IsText there = record { short = omega arith; utf8 = refl }

host_of-text_of : (a : Host) → host_of (text_of a) ≡ some a
unfolding host_of text_of bytes_eq
host_of-text_of here = refl
host_of-text_of there = refl

abbrev hosts : AddrText
hosts = record {
  SocketAddr = Host;
  to_string = text_of;
  parse = host_of;
  IsPlain = λ a. Unit {0};
  to_string-IsText = text_of-IsText;
  parse-to_string = λ a h. host_of-text_of a;
}

abbrev md : Bytes
md = 109 ∷ 100 ∷ []

md-IsText : IsText md
unfolding utf8_valid
md-IsText = record { short = omega arith; utf8 = refl }

abbrev beat : ControlMsg Host
beat = ControlMsg.heartbeat 7 here there md

beat-IsControl : IsControl hosts beat
beat-IsControl = record {
  node_range = omega arith;
  addr_plain = tt;
  control_plain = tt;
  label = md-IsText;
}

abbrev beat_bytes : Bytes
beat_bytes =
    4 ∷ 7 ∷ 0 ∷ 0 ∷ 0 ∷ 0 ∷ 0 ∷ 0 ∷ 0 ∷ 7 ∷ 0 ∷ 0 ∷ 0 ∷ 91 ∷ 58 ∷ 58 ∷ 49 ∷ 93 ∷ 58 ∷ 49 ∷ 7 ∷ 0 ∷ 0
    ∷ 0 ∷ 91 ∷ 58 ∷ 58 ∷ 49 ∷ 93 ∷ 58 ∷ 50 ∷ 2 ∷ 0 ∷ 0 ∷ 0 ∷ 109 ∷ 100 ∷ []

encoded_beat : encode_control hosts beat ≡ beat_bytes
unfolding encode_control encode_control_into put_addr text_of ◌⨾◌ le_bytes Put.u8 Put.u64 Put.str
    Put.extend Put.u32
encoded_beat = refl

beat_fits : length (encode_control hosts beat) < 2 ^ 64
beat_fits = rw encoded_beat (omega arith)

decode-encode_control_example : decode_control hosts (encode_control hosts beat) ≡ ok beat
decode-encode_control_example = decode-encode_control hosts beat beat-IsControl beat_fits

control_truncated_example : (e : Error) × (decode_control hosts (take 5 beat_bytes) ≡ err e)
control_truncated_example =
    control_truncated hosts beat (take 5 beat_bytes) 0 (drop 6 beat_bytes) beat-IsControl beat_fits
      encoded_beat

abbrev asked : StreamMsg
asked = StreamMsg.subscribe (record { name = md; from = 5; generation = 1 })

abbrev asked_bytes : Bytes
asked_bytes =
    0 ∷ 2 ∷ 0 ∷ 0 ∷ 0 ∷ 109 ∷ 100 ∷ 5 ∷ 0 ∷ 0 ∷ 0 ∷ 0 ∷ 0 ∷ 0 ∷ 0 ∷ 1 ∷ 0 ∷ 0 ∷ 0 ∷ 0 ∷ 0 ∷ 0 ∷ 0
    ∷ []

encoded_asked : encode_stream asked ≡ asked_bytes
unfolding encode_stream encode_stream_into ◌⨾◌ le_bytes Put.u8 Put.u64 Put.str Put.extend Put.u32
encoded_asked = refl

asked-IsStream : IsStream asked
asked-IsStream = (md-IsText, omega arith, omega arith)

decode-encode_stream_example : decode_stream (encode_stream asked) ≡ ok asked
decode-encode_stream_example =
    decode-encode_stream asked asked-IsStream (rw encoded_asked (omega arith))

abbrev gone : ChannelChange
gone = ChannelChange.removed md 3

gone-length : length (encode_change gone).1 < 2 ^ 64
unfolding encode_change ◌⨾◌ le_bytes Put.u64 Put.str Put.extend Put.u32
gone-length = omega arith

abbrev asking : ClientRequest
asking = ClientRequest.create md default_options

asking-length : length (encode_client_request asking) < 2 ^ 64
unfolding encode_client_request put_options ◌⨾◌ le_bytes Put.u8 Put.u64 Put.str Put.extend Put.u32
asking-length = omega arith

default-AreOptions : AreOptions default_options
default-AreOptions = record {
  region_size = omega arith;
  mtu = omega arith;
  file_roll_size = omega arith;
  keep_files = omega arith;
}

decode-encode_client_request_example :
    decode_client_request (encode_client_request asking) ≡ ok asking
decode-encode_client_request_example =
    decode-encode_client_request asking (md-IsText, default-AreOptions) asking-length

abbrev answer : ClientReply
answer = ClientReply.created md

answer_length : length (encode_client_reply answer) < 2 ^ 64
unfolding encode_client_reply ◌⨾◌ le_bytes Put.u8 Put.u64 Put.str Put.extend Put.u32
answer_length = omega arith

abbrev identity : ChannelIdentity
identity = record {
  name = md;
  owner = 7;
  region_size = 1048576;
  mtu = 0;
  earliest_index = 0;
  registered_at_nanos = 10;
  epoch = 0;
  deleted = false;
  member_of = some md;
}
