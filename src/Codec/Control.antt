-- ===== src/Codec/Control.antt =====
-- The messages of the control plane on the wire.
use xchannel_net.Base.{ℕ, ◌^◌, ◌<◌, ◌≡◌, Bytes, length, ◌==◌, if◌then◌else◌, arith, []}
use xchannel_net.Identity.{NodeId}
use xchannel_net.Wire.{
  ControlMsg, register, deregister, registry_delta, registry_sync, heartbeat, peer_hint, leaving,
  register_rejected,
}
use xchannel_net.Codec.{W, ◌⨾◌, Result, ok, unknown_tag, Reads, ◌>>=◌, pure, fail}
use xchannel_net.Codec.Put
use xchannel_net.Codec.Get
use xchannel_net.Codec.Addr.{AddrText, put_addr, get_addr, Carries-addr}
use xchannel_net.Codec.Identity.{
  put_identity, get_identity, put_identities, get_identities, IsIdentity, AreIdentities,
  Carries-identity, Carries-identities,
}
use xchannel_net.Codec.Laws.{
  IsText, Carries, Carries-bind, Carries-last, Carries-u8, Carries-u64, Carries-str,
  decode_all-Carries,
}

-- `mod control_tag`
abbrev register_tag : ℕ
register_tag = 0

abbrev deregister_tag : ℕ
deregister_tag = 1

abbrev registry_delta_tag : ℕ
registry_delta_tag = 2

abbrev registry_sync_tag : ℕ
registry_sync_tag = 3

abbrev heartbeat_tag : ℕ
heartbeat_tag = 4

abbrev register_rejected_tag : ℕ
register_rejected_tag = 5

abbrev peer_hint_tag : ℕ
peer_hint_tag = 6

abbrev leaving_tag : ℕ
leaving_tag = 7

module _ (t : AddrText) where
  open t use {SocketAddr, IsPlain}

  unfoldable pub encode_control_into : ControlMsg SocketAddr → W
  encode_control_into (register id) = Put.u8 register_tag ⨾ put_identity id
  encode_control_into (deregister name owner) = Put.u8 deregister_tag ⨾ Put.str name ⨾ Put.u64 owner
  encode_control_into (registry_delta ids) = Put.u8 registry_delta_tag ⨾ put_identities ids
  encode_control_into (registry_sync ids) = Put.u8 registry_sync_tag ⨾ put_identities ids
  encode_control_into (heartbeat node addr control_addr name) =
      Put.u8 heartbeat_tag ⨾ Put.u64 node ⨾ put_addr t addr ⨾ put_addr t control_addr ⨾ Put.str name
  encode_control_into (peer_hint node addr control_addr name) =
      Put.u8 peer_hint_tag ⨾ Put.u64 node ⨾ put_addr t addr ⨾ put_addr t control_addr ⨾ Put.str name
  encode_control_into (leaving node) = Put.u8 leaving_tag ⨾ Put.u64 node
  encode_control_into (register_rejected name winner) =
      Put.u8 register_rejected_tag ⨾ Put.str name ⨾ Put.u64 winner

  unfoldable pub encode_control : ControlMsg SocketAddr → Bytes
  encode_control m = encode_control_into m []

  -- The four fields of `Heartbeat` and of `PeerHint`.
  unfoldable pub get_peer :
      (NodeId → SocketAddr → SocketAddr → Bytes → ControlMsg SocketAddr)
      → Reads (ControlMsg SocketAddr)
  get_peer make = do
    node ← Get.u64
    addr ← get_addr t
    control_addr ← get_addr t
    name ← Get.str
    pure (make node addr control_addr name)

  -- The message that a tag announces.
  unfoldable pub get_control : ℕ → Reads (ControlMsg SocketAddr)
  unfolding get_peer
  get_control tag =
      if tag == register_tag
      then (do id ← get_identity; pure (register id))
      else if tag == deregister_tag
      then (do name ← Get.str; owner ← Get.u64; pure (deregister name owner))
      else if tag == registry_delta_tag
      then (do ids ← get_identities; pure (registry_delta ids))
      else if tag == registry_sync_tag
      then (do ids ← get_identities; pure (registry_sync ids))
      else if tag == heartbeat_tag
      then get_peer heartbeat
      else if tag == peer_hint_tag
      then get_peer peer_hint
      else if tag == leaving_tag
      then (do node ← Get.u64; pure (leaving node))
      else if tag == register_rejected_tag
      then (do name ← Get.str; winner ← Get.u64; pure (register_rejected name winner))
      else fail unknown_tag

  unfoldable pub decode_control : Bytes → Result (ControlMsg SocketAddr)
  unfolding get_control
  decode_control bytes = Get.decode_all (do tag ← Get.u8; get_control tag) bytes

  pub record IsPeer (node : NodeId) (addr control_addr : SocketAddr) (name : Bytes) : Type 0 where
    pub node_range : node < 2 ^ 64
    pub addr_plain : IsPlain addr
    pub control_plain : IsPlain control_addr
    pub label : IsText name

  -- The ranges of the fields of each message, as the types of the source give them.
  abbrev pub IsControl : ControlMsg SocketAddr → Type 0
  IsControl (register id) = IsIdentity id
  IsControl (deregister name owner) = IsText name × (owner < 2 ^ 64)
  IsControl (registry_delta ids) = AreIdentities ids
  IsControl (registry_sync ids) = AreIdentities ids
  IsControl (heartbeat node addr control_addr name) = IsPeer node addr control_addr name
  IsControl (peer_hint node addr control_addr name) = IsPeer node addr control_addr name
  IsControl (leaving node) = node < 2 ^ 64
  IsControl (register_rejected name winner) = IsText name × (winner < 2 ^ 64)

  pub Carries-control :
      (m : ControlMsg SocketAddr)
      → IsControl m
      → Carries (encode_control_into m) (Get.u8 >>= get_control) m
  unfolding encode_control_into get_control
  Carries-control (register id) h =
      Carries-bind _ (Carries-u8 0 (omega arith)) (Carries-last _ (Carries-identity id h))
  Carries-control (deregister name owner) h =
      Carries-bind _ (Carries-u8 1 (omega arith))
        (Carries-bind _ (Carries-str name h.0) (Carries-last _ (Carries-u64 owner h.1)))
  Carries-control (registry_delta ids) h =
      Carries-bind _ (Carries-u8 2 (omega arith)) (Carries-last _ (Carries-identities ids h))
  Carries-control (registry_sync ids) h =
      Carries-bind _ (Carries-u8 3 (omega arith)) (Carries-last _ (Carries-identities ids h))
  Carries-control (heartbeat node addr control_addr name) h =
      Carries-bind _ (Carries-u8 4 (omega arith)) (
        Carries-bind _ (Carries-u64 node h.node_range) (
          Carries-bind _ (Carries-addr t addr h.addr_plain) (
            Carries-bind _ (Carries-addr t control_addr h.control_plain)
              (Carries-last _ (Carries-str name h.label)))))
  Carries-control (peer_hint node addr control_addr name) h =
      Carries-bind _ (Carries-u8 6 (omega arith)) (
        Carries-bind _ (Carries-u64 node h.node_range) (
          Carries-bind _ (Carries-addr t addr h.addr_plain) (
            Carries-bind _ (Carries-addr t control_addr h.control_plain)
              (Carries-last _ (Carries-str name h.label)))))
  Carries-control (leaving node) h =
      Carries-bind _ (Carries-u8 7 (omega arith)) (Carries-last _ (Carries-u64 node h))
  Carries-control (register_rejected name winner) h =
      Carries-bind _ (Carries-u8 5 (omega arith))
        (Carries-bind _ (Carries-str name h.0) (Carries-last _ (Carries-u64 winner h.1)))

  -- Every control message whose fields are in the ranges of their types, whose addresses survive
  -- their text and whose encoding is below 2^64 bytes decodes from its encoding with no byte left
  -- over.
  pub decode-encode_control :
      (m : ControlMsg SocketAddr)
      → IsControl m
      → length (encode_control m) < 2 ^ 64
      → decode_control (encode_control m) ≡ ok m
  unfolding encode_control decode_control
  decode-encode_control m h fits = decode_all-Carries (Carries-control m h) fits
