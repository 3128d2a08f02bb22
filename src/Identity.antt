-- ===== src/Identity.antt =====
-- xchannel-net-core/src/identity.rs: the record that the registry propagates for one channel, and
-- the order that decides which of two records keeps a name. Numbers of the newtypes `NodeId` and
-- `RecordIndex` (lib.rs) are plain numbers; a `ChannelName` is its UTF-8 bytes.
pub mod Order
pub mod Equality
mod Examples
use xchannel_net.Base.{
  ℕ, Bool, true, false, Option, none, some, Bytes, bytes_eq, ◌==◌, ◌&&◌, leb, compare, Ordering,
  if◌then◌else◌,
}

-- NodeId, RecordIndex and StreamId of lib.rs.
abbrev pub NodeId : Type 0
NodeId = ℕ

abbrev pub RecordIndex : Type 0
RecordIndex = ℕ

abbrev pub StreamId : Type 0
StreamId = ℕ

abbrev pub ChannelName : Type 0
ChannelName = Bytes

pub record ChannelIdentity : Type 0 where
  pub name : ChannelName
  pub owner : NodeId
  pub region_size : ℕ
  pub mtu : ℕ
  pub earliest_index : RecordIndex
  pub registered_at_nanos : ℕ
  pub epoch : ℕ
  pub deleted : Bool
  pub member_of : Option ChannelName

-- The second match: a tombstone beats a live entry of its generation.
by_liveness : ChannelIdentity → ChannelIdentity → Bool → Bool → ChannelIdentity → ChannelIdentity
by_liveness a b true false rest = a
by_liveness a b false true rest = b
by_liveness a b false false rest = rest
by_liveness a b true true rest = rest

-- The third match: the earliest registration, then the lowest node.
by_registration : ChannelIdentity → ChannelIdentity → ChannelIdentity
by_registration a b = elim (compare a.registered_at_nanos b.registered_at_nanos) [
  | Ordering.lt ↦ a
  | Ordering.gt ↦ b
  | Ordering.eq ↦ if leb a.owner b.owner then a else b
]

unfoldable pub resolve_collision : ChannelIdentity → ChannelIdentity → ChannelIdentity
unfolding by_liveness by_registration
resolve_collision a b = elim (compare a.epoch b.epoch) [
  | Ordering.gt ↦ a
  | Ordering.lt ↦ b
  | Ordering.eq ↦ by_liveness a b a.deleted b.deleted (by_registration a b)
]

-- The derived `PartialEq`.
abbrev pub bool_eq : Bool → Bool → Bool
bool_eq true true = true
bool_eq false false = true
bool_eq true false = false
bool_eq false true = false

pub option_name_eq : Option ChannelName → Option ChannelName → Bool
option_name_eq none none = true
option_name_eq (some x) (some y) = bytes_eq x y
option_name_eq none (some y) = false
option_name_eq (some x) none = false

pub identity_eq : ChannelIdentity → ChannelIdentity → Bool
unfolding option_name_eq
identity_eq a b =
    bytes_eq a.name b.name
    && (a.owner == b.owner
        && (a.region_size == b.region_size
            && (a.mtu == b.mtu
                && (a.earliest_index == b.earliest_index
                    && (a.registered_at_nanos == b.registered_at_nanos
                        && (a.epoch == b.epoch
                            && (bool_eq a.deleted b.deleted
                                && option_name_eq a.member_of b.member_of)))))))
