-- ===== src/Node/Gossip/Examples.antt =====
-- Two nodes that registered the channel "md" apart, and meet.
use xchannel_net.Base.{ℕ, ◌≡◌, false, none, some, [], ◌∷◌}
use xchannel_net.Identity.{ChannelIdentity}
use xchannel_net.Registry.{new, merge_tracked, get_raw}
use xchannel_net.Registry.Merge.{IsWellFormed, merge_tracked-IsWellFormed}
use xchannel_net.Registry.Held.{first_held}
use xchannel_net.Registry.Converge.{merge_all, new-IsWellFormed}
use xchannel_net.Membership.{Membership}
use xchannel_net.Node.Gossip.{Local, nothing, Arrival, Config, ingest}
use xchannel_net.Node.Gossip.Settle.{ingest-merge_all, ingest-held}
use xchannel_net.Node.Gossip.Exchange.{answers, arrive, Settled, exchange_lem}

abbrev entry : ℕ → ℕ → ChannelIdentity
entry owner at = record {
  name = 109 ∷ 100 ∷ [];
  owner = owner;
  region_size = 1048576;
  mtu = 0;
  earliest_index = 0;
  registered_at_nanos = at;
  epoch = 0;
  deleted = false;
  member_of = none;
}

abbrev holding : ChannelIdentity → Local
holding id = record { registry = (merge_tracked new id).0; published = [] }

abbrev one : Config
one = record { node_id = 1; liveness_timeout = 10 }

abbrev two : Config
two = record { node_id = 2; liveness_timeout = 10 }

abbrev nobody : Membership ℕ
nobody = record { members = [] }

abbrev later : Arrival ℕ
later = arrive 7 nobody 0 (entry 2 20)

abbrev again : Arrival ℕ
again = arrive 7 nobody 0 (entry 1 10)

well : (id : ChannelIdentity) → IsWellFormed (holding id).registry
well id = merge_tracked-IsWellFormed new id new-IsWellFormed

held : (id : ChannelIdentity) → get_raw (holding id).registry id.name ≡ some id
held = first_held

exchange_lem_example :
    Settled later.id.name (ingest one (holding (entry 1 10), nothing) (later ∷ [])).0.registry (
      ingest two
        (holding (entry 2 20), nothing)
        (answers 7 (arrive 3 nobody 0) (ingest one (holding (entry 1 10), nothing) (later ∷ [])).1))
exchange_lem_example =
    exchange_lem one two (holding (entry 1 10)) (holding (entry 2 20)) later 3 nobody 0
      (well (entry 1 10)) (well (entry 2 20)) (held (entry 2 20))

ingest-held_example :
    ((ingest one (holding (entry 1 10), nothing) (again ∷ again ∷ [])).0.published ≡ [])
    × ((ingest one (holding (entry 1 10), nothing) (again ∷ again ∷ [])).1.to_relay ≡ [])
    × ((ingest one (holding (entry 1 10), nothing) (again ∷ again ∷ [])).1.to_reply ≡ [])
ingest-held_example =
    ingest-held one (again ∷ again ∷ []) (holding (entry 1 10)) nothing (well (entry 1 10))
      (held (entry 1 10), (held (entry 1 10), tt))

ingest-merge_all_example :
    (ingest one (holding (entry 1 10), nothing) (later ∷ again ∷ [])).0.registry
    ≡ merge_all (holding (entry 1 10)).registry (entry 2 20 ∷ entry 1 10 ∷ [])
ingest-merge_all_example = ingest-merge_all one (later ∷ again ∷ []) (holding (entry 1 10)) nothing
