-- ===== src/Registry.antt =====
-- xchannel-net/src/registry.rs: the map from a channel's name to the identity that keeps it. A
-- method that takes `&mut self` returns the new registry beside its result.
pub mod Merge
pub mod Held
pub mod Prefix
pub mod Converge
pub mod Lifecycle
pub mod Claim
mod Examples
use xchannel_net.Base.{
  ℕ, ◌+◌, ◌%◌, ◌^◌, Bool, true, false, not, Option, none, some, List, [], ◌∷◌, ◌==◌, if◌then◌else◌,
}
use xchannel_net.Base.Order.{bytes_lt, starts_with}
use xchannel_net.Base.NameMap.{NameMap, lookup, insert}
use xchannel_net.Identity.{ChannelIdentity, ChannelName, NodeId, resolve_collision, identity_eq}

pub record Merged : Type 0 where
  pub winner : ChannelIdentity
  pub changed : Bool

pub record Registry : Type 0 where
  pub channels : NameMap ChannelIdentity

pub new : Registry
new = record { channels = [] }

-- `existing` is what the map holds under the incoming name.
pub winner_of : Option ChannelIdentity → ChannelIdentity → ChannelIdentity
winner_of none incoming = incoming
winner_of (some existing) incoming = resolve_collision existing incoming

-- `held == Some(&winner)`
holds : Option ChannelIdentity → ChannelIdentity → Bool
holds none winner = false
holds (some held) winner = identity_eq held winner

pub merge_tracked : Registry → ChannelIdentity → Registry × Merged
unfolding winner_of holds
merge_tracked r incoming =
    let winner = winner_of (lookup incoming.name r.channels) incoming in
    let changed = not (holds (lookup winner.name r.channels) winner) in
    (
      record { channels = insert winner.name winner r.channels },
      record { winner = winner; changed = changed },
    )

pub merge : Registry → ChannelIdentity → Registry × ChannelIdentity
merge r incoming = let (r', merged) = merge_tracked r incoming in (r', merged.winner)

-- `range(prefix..)`: skip the keys below the prefix.
from_key : ChannelName → NameMap ChannelIdentity → NameMap ChannelIdentity
from_key prefix [] = []
from_key prefix ((k, id) ∷ m) = if bytes_lt k prefix then from_key prefix m else (k, id) ∷ m

-- `take_while(|(name, _)| name.starts_with(prefix))`
while_prefix : ChannelName → NameMap ChannelIdentity → NameMap ChannelIdentity
while_prefix prefix [] = []
while_prefix prefix ((k, id) ∷ m) =
    let rest = while_prefix prefix m in if starts_with k prefix then (k, id) ∷ rest else []

-- `map(|(_, id)| id).filter(|id| !id.deleted)`
live_entries : NameMap ChannelIdentity → List ChannelIdentity
live_entries [] = []
live_entries ((k, id) ∷ m) = let rest = live_entries m in if id.deleted then rest else id ∷ rest

pub with_prefix : Registry → ChannelName → List ChannelIdentity
with_prefix r prefix = live_entries (while_prefix prefix (from_key prefix r.channels))

-- `filter(|id| !id.deleted)` of an option.
pub live_only : Option ChannelIdentity → Option ChannelIdentity
live_only none = none
live_only (some id) = if id.deleted then none else some id

pub get : Registry → ChannelName → Option ChannelIdentity
unfolding live_only
get r name = live_only (lookup name r.channels)

pub get_raw : Registry → ChannelName → Option ChannelIdentity
get_raw r name = lookup name r.channels

-- The epoch is a `u64`; the addition wraps.
epoch_after : Option ChannelIdentity → ℕ
epoch_after none = 0
epoch_after (some id) = if id.deleted then (id.epoch + 1) % 2 ^ 64 else id.epoch

pub claim_epoch : Registry → ChannelName → ℕ
unfolding epoch_after
claim_epoch r name = epoch_after (lookup name r.channels)

-- `tombstone.deleted = true; Some(self.merge(tombstone))`
bury : Registry → ChannelIdentity → Registry × Option ChannelIdentity
bury r current = let (r', winner) = merge r (record current { deleted = true }) in (r', some winner)

deregister_entry : Registry → NodeId → Option ChannelIdentity → Registry × Option ChannelIdentity
deregister_entry r owner none = (r, none)
deregister_entry r owner (some current) =
    if current.deleted
    then (r, none)
    else if current.owner == owner
    then bury r current
    else (r, none)

pub deregister : Registry → ChannelName → NodeId → Registry × Option ChannelIdentity
unfolding deregister_entry
deregister r name owner = deregister_entry r owner (lookup name r.channels)

reap_entry : Registry → Option ChannelIdentity → Registry × Option ChannelIdentity
reap_entry r none = (r, none)
reap_entry r (some current) = if current.deleted then (r, none) else bury r current

pub reap : Registry → ChannelName → Registry × Option ChannelIdentity
unfolding reap_entry
reap r name = reap_entry r (lookup name r.channels)

-- `values()` of the map.
entries : NameMap ChannelIdentity → List ChannelIdentity
entries [] = []
entries ((k, id) ∷ m) = id ∷ entries m

-- All raw entries, tombstones included.
pub iter : Registry → List ChannelIdentity
unfolding entries
iter r = entries r.channels
