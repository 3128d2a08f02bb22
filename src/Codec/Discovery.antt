-- ===== src/Codec/Discovery.antt =====
-- What discovery reports, on the wire and in the discovery log.
use xchannel_net.Base.{
  subst, ℕ, ◌^◌, ◌<◌, ◌%◌, ◌≡◌, Bytes, length, ◌==◌, if◌then◌else◌, arith, [], ◌∷◌, List, All,
}
use xchannel_net.Wire.{ChannelInfo, ChannelChange, upserted, removed}
use xchannel_net.Codec.{W, ◌⨾◌, Result, ok, unknown_tag, Reads, ◌>>=◌, pure, fail}
use xchannel_net.Codec.Put
use xchannel_net.Codec.Get
use xchannel_net.Codec.Identity.{put_member_of, get_member_of, IsOptionText, Carries-member_of}
use xchannel_net.Codec.Laws.{
  IsText, Carries, Carries-bind, Carries-last, Carries-u32, Carries-u64, Carries-str, Carries-flag,
  Carries-many, decode_all-Carries,
}

unfoldable pub put_info : ChannelInfo → W
put_info c =
    Put.str c.name
    ⨾ Put.u64 c.owner
    ⨾ Put.u64 c.epoch
    ⨾ Put.flag c.owner_live
    ⨾ put_member_of c.member_of
    ⨾ Put.u32 c.region_size
    ⨾ Put.u32 c.mtu
    ⨾ Put.u64 c.earliest_index

unfoldable pub get_info : Reads ChannelInfo
get_info = do
  name ← Get.str
  owner ← Get.u64
  epoch ← Get.u64
  owner_live ← Get.flag
  member_of ← get_member_of
  region_size ← Get.u32
  mtu ← Get.u32
  earliest_index ← Get.u64
  pure (record {
    name = name;
    owner = owner;
    epoch = epoch;
    owner_live = owner_live;
    member_of = member_of;
    region_size = region_size;
    mtu = mtu;
    earliest_index = earliest_index;
  })

-- `mod discovery_msg_type`
abbrev pub upserted_type : ℕ
upserted_type = 1

abbrev pub removed_type : ℕ
removed_type = 2

-- The record type carries the variant, the payload its fields.
unfoldable pub encode_change : ChannelChange → ℕ × Bytes
encode_change (upserted info) = (upserted_type, put_info info [])
encode_change (removed name epoch) = (removed_type, (Put.str name ⨾ Put.u64 epoch) [])

get_change : ℕ → Reads ChannelChange
get_change msg_type =
    if msg_type == upserted_type
    then (do info ← get_info; pure (upserted info))
    else if msg_type == removed_type
    then (do name ← Get.str; epoch ← Get.u64; pure (removed name epoch))
    else fail unknown_tag

unfoldable pub decode_change : ℕ → Bytes → Result ChannelChange
unfolding get_change
decode_change msg_type payload = Get.decode_all (get_change msg_type) payload

pub record IsInfo (c : ChannelInfo) : Type 0 where
  pub name : IsText c.name
  pub owner : c.owner < 2 ^ 64
  pub epoch : c.epoch < 2 ^ 64
  pub member_of : IsOptionText c.member_of
  pub region_size : c.region_size < 2 ^ 32
  pub mtu : c.mtu < 2 ^ 32
  pub earliest_index : c.earliest_index < 2 ^ 64

pub Carries-info : (c : ChannelInfo) → IsInfo c → Carries (put_info c) get_info c
unfolding put_info get_info
Carries-info c h = Carries-bind _ (Carries-str c.name h.name) (
    Carries-bind _ (Carries-u64 c.owner h.owner) (
      Carries-bind _ (Carries-u64 c.epoch h.epoch) (
        Carries-bind _ (Carries-flag c.owner_live) (
          Carries-bind _ (Carries-member_of c.member_of h.member_of) (
            Carries-bind _ (Carries-u32 c.region_size h.region_size) (
              Carries-bind _ (Carries-u32 c.mtu h.mtu)
                (Carries-last _ (Carries-u64 c.earliest_index h.earliest_index))))))))

abbrev pub IsChange : ChannelChange → Type 0
IsChange (upserted info) = IsInfo info
IsChange (removed name epoch) = IsText name × (epoch < 2 ^ 64)

-- Every change of the discovery log whose fields are in the ranges of their types and whose
-- encoding is below 2^64 bytes decodes, from its record type and payload, to itself.
pub decode-encode_change :
    (c : ChannelChange)
    → IsChange c
    → length (encode_change c).1 < 2 ^ 64
    → decode_change (encode_change c).0 (encode_change c).1 ≡ ok c
unfolding encode_change decode_change
decode-encode_change (upserted info) h fits =
    decode_all-Carries (Carries-last upserted (Carries-info info h)) fits
decode-encode_change (removed name epoch) h fits =
    decode_all-Carries
      (Carries-bind _ (Carries-str name h.0)
        (Carries-last (λ e. removed name e) (Carries-u64 epoch h.1)))
      fits

-- What the source's types and the codec's bound on a count say of a listing.
pub record AreInfos (cs : List ChannelInfo) : Type 0 where
  pub count : length cs < 2 ^ 32
  pub each : All IsInfo cs

All-infos : (cs : List ChannelInfo) → All IsInfo cs → All (λ c. Carries (put_info c) get_info c) cs
All-infos [] h = tt
All-infos (c ∷ cs) h = (Carries-info c h.0, All-infos cs h.1)

-- `channels.len() as u32`, then the entries.
unfoldable pub put_infos : List ChannelInfo → W
put_infos cs = Put.u32 (length cs % 2 ^ 32) ⨾ Put.put_each put_info cs

unfoldable pub get_infos : Reads (List ChannelInfo)
get_infos = do n ← Get.u32; Get.many get_info n

pub Carries-infos : (cs : List ChannelInfo) → AreInfos cs → Carries (put_infos cs) get_infos cs
unfolding put_infos get_infos
Carries-infos cs h =
    Carries-bind _
      (subst (λ n. Carries (Put.u32 n) Get.u32 (length cs)) (omega (arith, h.count))
        (Carries-u32 (length cs) h.count))
      (Carries-many put_info get_info cs (All-infos cs h.each))
