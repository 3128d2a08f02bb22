-- ===== src/Identity/Examples.antt =====
-- Two entries for one name, and `resolve_collision` at them.
use xchannel_net.Base.{ℕ, ◌≡◌, refl, Bool, true, false, none, [], ◌∷◌}
use xchannel_net.Identity.{ChannelIdentity, resolve_collision}

abbrev entry : ℕ → ℕ → ℕ → Bool → ChannelIdentity
entry owner at epoch deleted = record {
  name = 109 ∷ 100 ∷ [];
  owner = owner;
  region_size = 1048576;
  mtu = 0;
  earliest_index = 0;
  registered_at_nanos = at;
  epoch = epoch;
  deleted = deleted;
  member_of = none;
}

earlier_wins : resolve_collision (entry 1 20 0 false) (entry 2 10 0 false) ≡ entry 2 10 0 false
unfolding resolve_collision
earlier_wins = refl

lower_node_wins : resolve_collision (entry 2 10 0 false) (entry 1 10 0 false) ≡ entry 1 10 0 false
unfolding resolve_collision
lower_node_wins = refl

tombstone_wins : resolve_collision (entry 1 10 0 false) (entry 1 10 0 true) ≡ entry 1 10 0 true
unfolding resolve_collision
tombstone_wins = refl

reclaim_wins : resolve_collision (entry 1 10 0 true) (entry 3 90 1 false) ≡ entry 3 90 1 false
unfolding resolve_collision
reclaim_wins = refl
