-- ===== src/Node/Gossip.antt =====
-- xchannel-net/src/node.rs, from `run_maintenance` to `change_of`: what a tick makes of the
-- identities that its links brought. The registry and the membership are locked anew for each of
-- them, so each comes with what the membership answers at that moment; the discovery log is the
-- list of the changes that were handed to `publish_change`, which drops every error.
pub mod Settle
pub mod Exchange
mod Examples
use xchannel_net.Base.{
  ℕ, Bool, true, false, not, Option, none, some, List, [], ◌∷◌, ◌++◌, ◌==◌, ◌&&◌, ◌||◌,
  if◌then◌else◌,
}
use xchannel_net.Base.NodeMap.{NodeMap, lookup, insert}
use xchannel_net.Identity.{ChannelIdentity, ChannelName, NodeId, bool_eq}
use xchannel_net.Wire.{ChannelChange, upserted, removed}
use xchannel_net.Registry.{Registry, Merged, merge_tracked}
use xchannel_net.Membership.{Membership, live_addr_of}

-- The tuples of `lost_to`, compared.
unfoldable pub same_key : ChannelIdentity → ChannelIdentity → Bool
same_key a b =
    a.epoch == b.epoch
    && (bool_eq a.deleted b.deleted
        && (a.registered_at_nanos == b.registered_at_nanos && a.owner == b.owner))

unfoldable pub lost_to : ChannelIdentity → ChannelIdentity → Bool
unfolding same_key
lost_to incoming winner = not (same_key incoming winner)

-- What a node holds of this: its registry and the changes it published.
pub record Local : Type 0 where
  pub registry : Registry
  pub published : List ChannelChange

-- What a tick has gathered to send, by link, and the names that turned out to be retired.
pub record Gathered : Type 0 where
  pub to_relay : NodeMap (List ChannelIdentity)
  pub to_reply : NodeMap (List ChannelIdentity)
  pub retired : List ChannelName

abbrev pub nothing : Gathered
nothing = record { to_relay = []; to_reply = []; retired = [] }

unfoldable pub or_default : {V : Type 0} → Option (List V) → List V
or_default none = []
or_default (some vs) = vs

-- `entry(from).or_default().push(v)`
unfoldable pub push : {V : Type 0} → ℕ → V → NodeMap (List V) → NodeMap (List V)
unfolding or_default
push from v m = insert from (or_default (lookup from m) ++ v ∷ []) m

unfoldable pub is_some : {V : Type 0} → Option V → Bool
is_some none = false
is_some (some v) = true

-- The link that brought an identity, the identity, and the membership when it is taken up.
pub record Arrival (A : Type 0) : Type 0 where
  pub from : ℕ
  pub id : ChannelIdentity
  pub membership : Membership A
  pub now : ℕ

-- The node's own id and its liveness timeout.
pub record Config : Type 0 where
  pub node_id : NodeId
  pub liveness_timeout : ℕ

unfoldable pub publish_if : Bool → ChannelChange → List ChannelChange → List ChannelChange
publish_if changed change log = if changed then log ++ change ∷ [] else log

-- The branches behind the merge: relay a change, answer what lost, note a tombstone.
unfoldable pub sort_out : ℕ → ChannelIdentity → Merged → Gathered → Gathered
sort_out from incoming merged g = record {
  to_relay = if merged.changed then push from merged.winner g.to_relay else g.to_relay;
  to_reply =
      if merged.changed
      then g.to_reply
      else if lost_to incoming merged.winner
      then push from merged.winner g.to_reply
      else g.to_reply;
  retired = if merged.winner.deleted then g.retired ++ incoming.name ∷ [] else g.retired;
}

module _ {A : Type 0} where
  unfoldable pub change_of : Config → Arrival A → ChannelIdentity → ChannelChange
  unfolding is_some
  change_of c x id =
      if id.deleted
      then removed id.name id.epoch
      else upserted (record {
        name = id.name;
        owner = id.owner;
        epoch = id.epoch;
        owner_live =
            id.owner == c.node_id
            || is_some (live_addr_of x.now id.owner c.liveness_timeout x.membership);
        member_of = id.member_of;
        region_size = id.region_size;
        mtu = id.mtu;
        earliest_index = id.earliest_index;
      })

  unfoldable pub merge_and_publish : Config → Local → Arrival A → Local × Merged
  unfolding publish_if
  merge_and_publish c s x =
      let (r, merged) = merge_tracked s.registry x.id in
      (
        record {
          registry = r;
          published = publish_if merged.changed (change_of c x merged.winner) s.published;
        },
        merged,
      )

  unfoldable pub ingest_one : Config → Local × Gathered → Arrival A → Local × Gathered
  ingest_one c (s, g) x =
      let (s', merged) = merge_and_publish c s x in (s', sort_out x.from x.id merged g)

  -- `for (from, id) in pumped`
  unfoldable pub ingest : Config → Local × Gathered → List (Arrival A) → Local × Gathered
  ingest c sg [] = sg
  ingest c sg (x ∷ xs) = ingest c (ingest_one c sg x) xs
