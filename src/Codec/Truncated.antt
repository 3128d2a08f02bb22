-- ===== src/Codec/Truncated.antt =====
-- Frames that are cut short or have bytes added, for the messages between nodes.
use xchannel_net.Base.{
  ℕ, ◌^◌, ◌<◌, ◌≡◌, Bool, true, false, Option, none, some, ◌∷◌, ◌++◌, Bytes, length,
}
use xchannel_net.Wire.{ControlMsg, StreamMsg}
use xchannel_net.Codec.{Error, err, trailing_bytes, ◌>>=◌}
use xchannel_net.Codec.Get
use xchannel_net.Codec.Addr.{AddrText, get_addr, or_invalid}
use xchannel_net.Codec.Identity.{get_member_of, member_of_if, get_identity, get_identities}
use xchannel_net.Codec.Control.{
  encode_control, decode_control, get_control, IsControl, Carries-control,
}
use xchannel_net.Codec.Stream.{
  encode_stream, decode_stream, get_stream, get_ack, IsStream, Carries-stream,
}
use xchannel_net.Codec.Laws.{trailing_refused}
use xchannel_net.Codec.Local.{
  IsLocal, IsLocal-bind, IsLocal-pure, IsLocal-fail, IsLocal-if, IsLocal-u8, IsLocal-str,
  IsLocal-flag, local_reads, truncated_refused,
}

get_ack-IsLocal : IsLocal get_ack
unfolding get_ack
get_ack-IsLocal = search local_reads depth 24

get_stream-IsLocal : (tag : ℕ) → IsLocal (get_stream tag)
unfolding get_stream
get_stream-IsLocal tag = search (IsLocal-if, get_ack-IsLocal, local_reads) depth 24

decode_stream-IsLocal : IsLocal (Get.u8 >>= get_stream)
decode_stream-IsLocal = IsLocal-bind _ _ IsLocal-u8 get_stream-IsLocal

get_member_of-IsLocal : IsLocal get_member_of
unfolding get_member_of
get_member_of-IsLocal = IsLocal-bind _ _ IsLocal-flag there
  where
    there : (b : Bool) → IsLocal (member_of_if b)
    there true = search local_reads
    there false = search local_reads

get_identity-IsLocal : IsLocal get_identity
unfolding get_identity
get_identity-IsLocal = search (get_member_of-IsLocal, local_reads) depth 24

get_identities-IsLocal : IsLocal get_identities
unfolding get_identities
get_identities-IsLocal = search (get_identity-IsLocal, local_reads)

module _ (t : AddrText) where
  open t use {SocketAddr}

  get_addr-IsLocal : IsLocal (get_addr t)
  unfolding get_addr
  get_addr-IsLocal = IsLocal-bind _ _ IsLocal-str (λ s. parsed (t.parse s))
    where
      parsed : (o : Option SocketAddr) → IsLocal (or_invalid t o)
      parsed none = IsLocal-fail _
      parsed (some a) = IsLocal-pure a

  get_control-IsLocal : (tag : ℕ) → IsLocal (get_control t tag)
  unfolding get_control
  get_control-IsLocal tag =
      search
        (IsLocal-if, get_addr-IsLocal, get_identity-IsLocal, get_identities-IsLocal, local_reads)
        depth 24

  decode_control-IsLocal : IsLocal (Get.u8 >>= get_control t)
  decode_control-IsLocal = IsLocal-bind _ _ IsLocal-u8 get_control-IsLocal

  -- A control message with fields in the ranges of their types, and an encoding below 2^64 bytes,
  -- that lost at least its last byte is refused by the decoder.
  pub control_truncated :
      (m : ControlMsg SocketAddr) (front : Bytes) (x : ℕ) (back : Bytes)
      → IsControl t m
      → length (encode_control t m) < 2 ^ 64
      → encode_control t m ≡ front ++ x ∷ back
      → (e : Error) × (decode_control t front ≡ err e)
  unfolding encode_control decode_control
  control_truncated m front x back h fits e =
      truncated_refused front x back (Carries-control t m h) decode_control-IsLocal fits e

  -- A control message with fields in the ranges of their types that has at least one byte added
  -- behind it, and is below 2^64 bytes with them, is refused for trailing bytes.
  pub control_trailing :
      (m : ControlMsg SocketAddr) (x : ℕ) (xs : Bytes)
      → IsControl t m
      → length (encode_control t m ++ x ∷ xs) < 2 ^ 64
      → decode_control t (encode_control t m ++ x ∷ xs) ≡ err trailing_bytes
  unfolding encode_control decode_control
  control_trailing m x xs h fits = trailing_refused x xs (Carries-control t m h) fits

-- A stream message with fields in the ranges of their types, and an encoding below 2^64 bytes,
-- that lost at least its last byte is refused by the decoder.
pub stream_truncated :
    (m : StreamMsg) (front : Bytes) (x : ℕ) (back : Bytes)
    → IsStream m
    → length (encode_stream m) < 2 ^ 64
    → encode_stream m ≡ front ++ x ∷ back
    → (e : Error) × (decode_stream front ≡ err e)
unfolding encode_stream decode_stream
stream_truncated m front x back h fits e =
    truncated_refused front x back (Carries-stream m h) decode_stream-IsLocal fits e

-- A stream message with fields in the ranges of their types that has at least one byte added
-- behind it, and is below 2^64 bytes with them, is refused for trailing bytes.
pub stream_trailing :
    (m : StreamMsg) (x : ℕ) (xs : Bytes)
    → IsStream m
    → length (encode_stream m ++ x ∷ xs) < 2 ^ 64
    → decode_stream (encode_stream m ++ x ∷ xs) ≡ err trailing_bytes
unfolding encode_stream decode_stream
stream_trailing m x xs h fits = trailing_refused x xs (Carries-stream m h) fits
