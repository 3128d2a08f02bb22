-- ===== src/Registry/Claim.antt =====
-- Claims of a name with the epoch that `claim_epoch` gives.
use xchannel_net.Base.{
  ◌+◌, ◌^◌, ◌<◌, ◌≡◌, refl, sym, ap, ◌∙◌, false, Option, none, some, arith, bytes_eq_refl,
}
use xchannel_net.Identity.{ChannelIdentity}
use xchannel_net.Identity.Order.{resolve_newer, resolve_later}
use xchannel_net.Registry.{
  Registry, winner_of, merge_tracked, get, get_raw, live_only, claim_epoch, epoch_after,
}
use xchannel_net.Registry.Merge.{IsWellFormed, get_raw-merge_tracked, merged_changed, merged_winner}
use xchannel_net.Registry.Lifecycle.{get-raw}

claim_free-winner :
    (o : Option ChannelIdentity) (d : ChannelIdentity)
    → live_only o ≡ none
    → d.epoch ≡ epoch_after o
    → ((t : ChannelIdentity) → o ≡ some t → t.epoch + 1 < 2 ^ 64)
    → winner_of o d ≡ d
unfolding winner_of live_only epoch_after
claim_free-winner none d free e fits = refl
claim_free-winner (some t) d free e fits = ground (arith, resolve_newer t d, fits t refl)

-- In a well-formed registry, a live registration with the epoch of `claim_epoch` takes a name that
-- is absent or tombstoned, as long as the epoch does not overflow 64 bits.
pub claim_free :
    (r : Registry) (d : ChannelIdentity)
    → IsWellFormed r
    → get r d.name ≡ none
    → d.deleted ≡ false
    → d.epoch ≡ claim_epoch r d.name
    → ((t : ChannelIdentity) → get_raw r d.name ≡ some t → t.epoch + 1 < 2 ^ 64)
    → get (merge_tracked r d).0 d.name ≡ some d
claim_free r d w free live e fits = get-raw _ d.name ∙ ap live_only held ∙ kept
  where
    won : winner_of (get_raw r d.name) d ≡ d
    won =
        claim_free-winner (get_raw r d.name) d (unfold get get_raw in free)
          (unfold claim_epoch get_raw in e) fits

    held : get_raw (merge_tracked r d).0 d.name ≡ some d
    held = get_raw-merge_tracked r d d.name w ∙ rw (bytes_eq_refl d.name) (ap some won)

    kept : live_only (some d) ≡ some d
    kept = unfold live_only in (rw live)

claim_taken-winner :
    (o : Option ChannelIdentity) (d c : ChannelIdentity)
    → live_only o ≡ some c
    → d.deleted ≡ false
    → d.epoch ≡ epoch_after o
    → c.registered_at_nanos < d.registered_at_nanos
    → (o ≡ some c) × (winner_of o d ≡ c)
unfolding winner_of live_only epoch_after
claim_taken-winner none d c held live e earlier = cc
claim_taken-winner (some t) d c held live e earlier = ground (arith, resolve_later t d)

-- In a well-formed registry, a live registration with the epoch of `claim_epoch` does not take a
-- name from a live entry registered earlier: the winner is that entry and the merge reports no
-- change.
pub claim_taken :
    (r : Registry) (d c : ChannelIdentity)
    → IsWellFormed r
    → get r d.name ≡ some c
    → d.deleted ≡ false
    → d.epoch ≡ claim_epoch r d.name
    → c.registered_at_nanos < d.registered_at_nanos
    → ((merge_tracked r d).1.winner ≡ c) × ((merge_tracked r d).1.changed ≡ false)
claim_taken r d c w held live e earlier =
    (merged_winner r d ∙ t.1, (merged_changed r d w).1 (t.0 ∙ ap some (sym t.1)))
  where
    t : (get_raw r d.name ≡ some c) × (winner_of (get_raw r d.name) d ≡ c)
    t =
        claim_taken-winner (get_raw r d.name) d c (unfold get get_raw in held) live
          (unfold claim_epoch get_raw in e) earlier
