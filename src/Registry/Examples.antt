-- ===== src/Registry/Examples.antt =====
-- A registry with the channel "md" of node 1, withdrawn and reclaimed by node 3.
use xchannel_net.Base.{
  ℕ, ◌+◌, ◌^◌, ◌<◌, ◌≡◌, ◌≢◌, ◌⊎◌, ◌↔◌, refl, inl, inr, Bool, true, false, none, some, [], ◌∷◌,
  IsIn, arith, bytes_eq,
}
use xchannel_net.Base.Order.{starts_with, bytes_lt}
use xchannel_net.Base.NameMap.{lookup, insert}
use xchannel_net.Identity.{ChannelIdentity, ChannelName, resolve_collision}
use xchannel_net.Registry.{
  Registry, new, merge_tracked, merge, get, get_raw, claim_epoch, bury, deregister, reap,
  with_prefix, from_key, while_prefix, live_entries,
}
use xchannel_net.Registry.Merge.{IsWellFormed, merge_tracked-IsWellFormed, merge_tracked-changed}
use xchannel_net.Registry.Converge.{
  merge_all, IsBest, Agree, new-IsWellFormed, merge_all-IsBest, merge_all_converge,
}
use xchannel_net.Registry.Lifecycle.{Buried, tombstone, deregister_lem, IsGone, tombstone_terminal}
use xchannel_net.Registry.Claim.{claim_free, claim_taken}
use xchannel_net.Registry.Prefix.{with_prefix-get}

abbrev md : ChannelName
md = 109 ∷ 100 ∷ []

abbrev entry : ℕ → ℕ → ℕ → Bool → ChannelIdentity
entry owner at epoch deleted = record {
  name = md;
  owner = owner;
  region_size = 1048576;
  mtu = 0;
  earliest_index = 0;
  registered_at_nanos = at;
  epoch = epoch;
  deleted = deleted;
  member_of = none;
}

abbrev first : ChannelIdentity
first = entry 1 10 0 false

abbrev second : ChannelIdentity
second = entry 2 20 0 false

abbrev held : Registry
held = (merge_tracked new first).0

abbrev withdrawn : Registry
withdrawn = (merge_tracked held (tombstone first)).0

held-IsWellFormed : IsWellFormed held
held-IsWellFormed = merge_tracked-IsWellFormed new first new-IsWellFormed

withdrawn-IsWellFormed : IsWellFormed withdrawn
withdrawn-IsWellFormed = merge_tracked-IsWellFormed held (tombstone first) held-IsWellFormed

held_now : get held md ≡ some first
unfolding get merge_tracked new lookup insert bytes_eq
held_now = refl

gone_now : get withdrawn md ≡ none
unfolding get merge_tracked new lookup insert resolve_collision bytes_eq
gone_now = refl

IsGone-raw : IsGone withdrawn md 0
unfolding get_raw merge_tracked new lookup insert resolve_collision bytes_eq
IsGone-raw = (tombstone first, refl, refl, refl)

refused_for_another : deregister held md 2 ≡ (held, none)
unfolding deregister merge_tracked new lookup insert bytes_eq
refused_for_another = refl

reaped : (reap held md).1 ≡ some (tombstone first)
unfolding reap bury merge merge_tracked new lookup insert resolve_collision bytes_eq
reaped = refl

one_listed : with_prefix held (109 ∷ []) ≡ first ∷ []
unfolding with_prefix merge_tracked new lookup insert live_entries while_prefix from_key bytes_lt
    starts_with
one_listed = refl

both : (x : ChannelIdentity) → IsIn x (first ∷ second ∷ []) ↔ IsIn x (second ∷ first ∷ second ∷ [])
both x = (there, back)
  where
    there : IsIn x (first ∷ second ∷ []) → IsIn x (second ∷ first ∷ second ∷ [])
    there i = inr i

    back : IsIn x (second ∷ first ∷ second ∷ []) → IsIn x (first ∷ second ∷ [])
    back (inl e) = inr (inl e)
    back (inr i) = i

merge_all_converge_example :
    Agree
      (get_raw (merge_all new (first ∷ second ∷ [])) md)
      (get_raw (merge_all new (second ∷ first ∷ second ∷ [])) md)
merge_all_converge_example =
    merge_all_converge (first ∷ second ∷ []) (second ∷ first ∷ second ∷ []) md both

merge_all-IsBest_example :
    IsBest md (second ∷ first ∷ []) (get_raw (merge_all new (second ∷ first ∷ [])) md)
merge_all-IsBest_example = merge_all-IsBest (second ∷ first ∷ []) md

tombstone_terminal_example : get (merge_all withdrawn (second ∷ first ∷ [])) md ≡ none
tombstone_terminal_example =
    tombstone_terminal (second ∷ first ∷ []) withdrawn md 0 withdrawn-IsWellFormed IsGone-raw
      ((λ e. omega arith), ((λ e. omega arith), tt))

with_prefix-get_example :
    IsIn first (with_prefix held (109 ∷ []))
    ↔ ((get held md ≡ some first) × (starts_with md (109 ∷ []) ≡ true))
with_prefix-get_example = with_prefix-get held (109 ∷ []) first held-IsWellFormed

deregister_lem_example :
    ((c : ChannelIdentity) × (get held md ≡ some c)
      × (c.owner ≡ 1)
      × Buried held md c (deregister held md 1))
    ⊎ (((get held md ≡ none) ⊎ ((c : ChannelIdentity) × (get held md ≡ some c) × (c.owner ≢ 1)))
        × (deregister held md 1 ≡ (held, none)))
deregister_lem_example = deregister_lem held md 1 held-IsWellFormed

next_epoch : 1 ≡ claim_epoch withdrawn md
unfolding claim_epoch merge_tracked new lookup insert resolve_collision bytes_eq
next_epoch = refl

fits : (t : ChannelIdentity) → get_raw withdrawn md ≡ some t → t.epoch + 1 < 2 ^ 64
unfolding get_raw merge_tracked new lookup insert resolve_collision bytes_eq
fits t e = ground arith

claim_free_example :
    get (merge_tracked withdrawn (entry 3 90 1 false)).0 md ≡ some (entry 3 90 1 false)
claim_free_example =
    claim_free withdrawn (entry 3 90 1 false) withdrawn-IsWellFormed gone_now refl next_epoch fits

same_epoch : 0 ≡ claim_epoch held md
unfolding claim_epoch merge_tracked new lookup insert bytes_eq
same_epoch = refl

claim_taken_example :
    ((merge_tracked held second).1.winner ≡ first) × ((merge_tracked held second).1.changed ≡ false)
claim_taken_example =
    claim_taken held second first held-IsWellFormed held_now refl same_epoch (omega arith)

merge_tracked-changed_example :
    ((merge_tracked held second).1.changed ≡ false)
    ↔ ((n : ChannelName) → get_raw (merge_tracked held second).0 n ≡ get_raw held n)
merge_tracked-changed_example = merge_tracked-changed held second held-IsWellFormed
