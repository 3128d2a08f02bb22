-- ===== src/Codec/Identity.antt =====
-- The identity record of a channel on the wire, and its length.
pub mod Length
use xchannel_net.Base.{
  subst, ℕ, ◌+◌, ◌^◌, ◌<◌, ◌≡◌, refl, Bool, true, false, Option, none, some, List, [], ◌∷◌, Bytes,
  All, length, arith, ◌%◌,
}
use xchannel_net.Identity.{ChannelIdentity, ChannelName}
use xchannel_net.Codec.{W, ◌⨾◌, Reads, ◌>>=◌, pure}
use xchannel_net.Codec.Put
use xchannel_net.Codec.Get
use xchannel_net.Codec.Laws.{
  IsText, Carries, Carries-bind, Carries-last, Carries-then, Carries-u8, Carries-u32, Carries-u64,
  Carries-str, Carries-flag, Carries-many,
}

-- A topic member's topic: a byte that says whether there is one, then the name.
unfoldable pub put_member_of : Option ChannelName → W
put_member_of (some topic) = Put.u8 1 ⨾ Put.str topic
put_member_of none = Put.u8 0

unfoldable pub member_of_if : Bool → Reads (Option ChannelName)
member_of_if true = do topic ← Get.str; pure (some topic)
member_of_if false = pure none

unfoldable pub get_member_of : Reads (Option ChannelName)
unfolding member_of_if
get_member_of = do there ← Get.flag; member_of_if there

unfoldable pub put_identity : ChannelIdentity → W
put_identity id =
    Put.str id.name
    ⨾ Put.u64 id.owner
    ⨾ Put.u32 id.region_size
    ⨾ Put.u32 id.mtu
    ⨾ Put.u64 id.earliest_index
    ⨾ Put.u64 id.registered_at_nanos
    ⨾ Put.u64 id.epoch
    ⨾ Put.flag id.deleted
    ⨾ put_member_of id.member_of

unfoldable pub get_identity : Reads ChannelIdentity
get_identity = do
  name ← Get.str
  owner ← Get.u64
  region_size ← Get.u32
  mtu ← Get.u32
  earliest_index ← Get.u64
  registered_at_nanos ← Get.u64
  epoch ← Get.u64
  deleted ← Get.flag
  member_of ← get_member_of
  pure (record {
    name = name;
    owner = owner;
    region_size = region_size;
    mtu = mtu;
    earliest_index = earliest_index;
    registered_at_nanos = registered_at_nanos;
    epoch = epoch;
    deleted = deleted;
    member_of = member_of;
  })

-- `ids.len() as u32`, then the identities.
unfoldable pub put_identities : List ChannelIdentity → W
put_identities ids = Put.u32 (length ids % 2 ^ 32) ⨾ Put.put_each put_identity ids

unfoldable pub get_identities : Reads (List ChannelIdentity)
get_identities = do n ← Get.u32; Get.many get_identity n

abbrev encoded_len_of_str : Bytes → ℕ
encoded_len_of_str t = 4 + length t

abbrev encoded_len_of_member : Option ChannelName → ℕ
encoded_len_of_member none = 0
encoded_len_of_member (some t) = encoded_len_of_str t

unfoldable pub identity_encoded_len : ChannelIdentity → ℕ
identity_encoded_len id =
    encoded_len_of_str id.name + 8 + 4 + 4 + 8 + 8 + 8 + 1 + 1 + encoded_len_of_member id.member_of

unfoldable pub identities_encoded_len : List ChannelIdentity → ℕ
unfolding identity_encoded_len
identities_encoded_len [] = 0
identities_encoded_len (id ∷ ids) = identity_encoded_len id + identities_encoded_len ids

-- An optional name whose text is a string of the source.
abbrev pub IsOptionText : Option ChannelName → Type 0
IsOptionText none = Unit {0}
IsOptionText (some t) = IsText t

-- The ranges of the fields' types.
pub record IsIdentity (id : ChannelIdentity) : Type 0 where
  pub name : IsText id.name
  pub owner : id.owner < 2 ^ 64
  pub region_size : id.region_size < 2 ^ 32
  pub mtu : id.mtu < 2 ^ 32
  pub earliest_index : id.earliest_index < 2 ^ 64
  pub registered_at_nanos : id.registered_at_nanos < 2 ^ 64
  pub epoch : id.epoch < 2 ^ 64
  pub member_of : IsOptionText id.member_of

pub Carries-member_of :
    (o : Option ChannelName) → IsOptionText o → Carries (put_member_of o) get_member_of o
unfolding put_member_of get_member_of member_of_if Put.flag
Carries-member_of (some t) h = Carries-bind _ (Carries-flag true) (Carries-last _ (Carries-str t h))
Carries-member_of none h = Carries-then _ (Carries-flag false) (λ r. unfold pure in refl)

pub Carries-identity :
    (id : ChannelIdentity) → IsIdentity id → Carries (put_identity id) get_identity id
unfolding put_identity get_identity
Carries-identity id h = Carries-bind _ (Carries-str id.name h.name) (
    Carries-bind _ (Carries-u64 id.owner h.owner) (
      Carries-bind _ (Carries-u32 id.region_size h.region_size) (
        Carries-bind _ (Carries-u32 id.mtu h.mtu) (
          Carries-bind _ (Carries-u64 id.earliest_index h.earliest_index) (
            Carries-bind _ (Carries-u64 id.registered_at_nanos h.registered_at_nanos) (
              Carries-bind _ (Carries-u64 id.epoch h.epoch) (
                Carries-bind _ (Carries-flag id.deleted)
                  (Carries-last _ (Carries-member_of id.member_of h.member_of)))))))))

All-Carries :
    (ids : List ChannelIdentity)
    → All IsIdentity ids
    → All (λ id. Carries (put_identity id) get_identity id) ids
All-Carries [] h = tt
All-Carries (id ∷ ids) h = (Carries-identity id h.0, All-Carries ids h.1)

-- What the source's types and the codec's bound on a count say of a list of identities.
pub record AreIdentities (ids : List ChannelIdentity) : Type 0 where
  pub count : length ids < 2 ^ 32
  pub each : All IsIdentity ids

pub Carries-identities :
    (ids : List ChannelIdentity)
    → AreIdentities ids
    → Carries (put_identities ids) get_identities ids
unfolding put_identities get_identities
Carries-identities ids h =
    Carries-bind _
      (subst (λ n. Carries (Put.u32 n) Get.u32 (length ids)) (omega (arith, h.count))
        (Carries-u32 (length ids) h.count))
      (Carries-many put_identity get_identity ids (All-Carries ids h.each))
