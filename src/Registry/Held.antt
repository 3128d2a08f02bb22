-- ===== src/Registry/Held.antt =====
-- What a merge reports, against what the map holds before and after it.
use xchannel_net.Base.{
  ◌≡◌, refl, sym, ap, ◌∙◌, subst, ◌⊎◌, inl, inr, Bool, true, false, Option, none, some,
  bytes_eq_refl,
}
use xchannel_net.Base.NameMap.{lookup, insert}
use xchannel_net.Identity.{ChannelIdentity}
use xchannel_net.Identity.Order.{
  Le, SameKey, Le_refl, Le_antisymm, resolve_self, resolve_winner, resolve_cases,
}
use xchannel_net.Registry.{Registry, new, winner_of, merge_tracked, get_raw}
use xchannel_net.Registry.Merge.{IsWellFormed, get_raw-merge_tracked, merged_changed, merged_winner}

winner_of-held : (o : Option ChannelIdentity) (d : ChannelIdentity) → o ≡ some d → winner_of o d ≡ d
unfolding winner_of
winner_of-held o d h = rw h (resolve_self d)

-- Merging what is held reports no change, and it stays the winner.
pub merged_held :
    (r : Registry) (d : ChannelIdentity)
    → IsWellFormed r
    → get_raw r d.name ≡ some d
    → ((merge_tracked r d).1.changed ≡ false) × ((merge_tracked r d).1.winner ≡ d)
merged_held r d w h = (
  (merged_changed r d w).1 (h ∙ ap some (sym (winner_of-held (get_raw r d.name) d h))),
  merged_winner r d ∙ winner_of-held (get_raw r d.name) d h,
)

-- Behind a merge the winner is held.
pub winner_held :
    (r : Registry) (d : ChannelIdentity)
    → IsWellFormed r
    → get_raw (merge_tracked r d).0 d.name ≡ some (merge_tracked r d).1.winner
winner_held r d w =
    get_raw-merge_tracked r d d.name w
    ∙ rw (bytes_eq_refl d.name) (ap some (sym (merged_winner r d)))

-- When no change was reported the winner was held, and wins again.
pub winner_kept :
    (r : Registry) (d : ChannelIdentity)
    → IsWellFormed r
    → (merge_tracked r d).1.changed ≡ false
    → get_raw r d.name ≡ some (merge_tracked r d).1.winner
winner_kept r d w e = (merged_changed r d w).0 e ∙ ap some (sym (merged_winner r d))

winner_of-cases :
    (o : Option ChannelIdentity) (d : ChannelIdentity)
    → (winner_of o d ≡ d) ⊎ (o ≡ some (winner_of o d))
unfolding winner_of
winner_of-cases none d = inl refl
winner_of-cases (some t) d = elim (resolve_winner t d).2 [
  | inl e ↦ inr (ap some (sym e))
  | inr e ↦ inl e
]

pub reported_once : {b : Bool} → b ≡ true → b ≡ false → ⊥
reported_once e f = cc

-- Only what comes in can change what is held.
pub winner_changed :
    (r : Registry) (d : ChannelIdentity)
    → IsWellFormed r
    → (merge_tracked r d).1.changed ≡ true
    → (merge_tracked r d).1.winner ≡ d
winner_changed r d w e = elim (winner_of-cases (get_raw r d.name) d) [
  | inl won ↦ merged_winner r d ∙ won
  | inr held ↦ absurd (reported_once e ((merged_changed r d w).1 held))
]

above : (o : Option ChannelIdentity) (d : ChannelIdentity) → Le d (winner_of o d)
unfolding winner_of
above none d = Le_refl d
above (some t) d = (resolve_winner t d).1

above_held :
    (o : Option ChannelIdentity) (d x : ChannelIdentity)
    → o ≡ some x
    → Le x d
    → ¬ SameKey x d
    → winner_of o d ≡ d
unfolding winner_of
above_held o d x h le differs = rw h (elim (resolve_cases x d) [
  | inl kept ↦ absurd (differs (Le_antisymm x d le kept.1))
  | inr won ↦ won.0
])

-- What was held and stays is no lower than what came in.
pub kept_above :
    (r : Registry) (d : ChannelIdentity)
    → IsWellFormed r
    → (merge_tracked r d).1.changed ≡ false
    → Le d (merge_tracked r d).1.winner
kept_above r d w e = subst (λ x. Le d x) (sym (merged_winner r d)) (above (get_raw r d.name) d)

-- What is higher than what is held takes the name.
pub higher_wins :
    (r : Registry) (d x : ChannelIdentity)
    → get_raw r d.name ≡ some x
    → Le x d
    → ¬ SameKey x d
    → (merge_tracked r d).1.winner ≡ d
higher_wins r d x h le differs = merged_winner r d ∙ above_held (get_raw r d.name) d x h le differs

-- What an empty registry merges it holds.
pub first_held : (d : ChannelIdentity) → get_raw (merge_tracked new d).0 d.name ≡ some d
unfolding new get_raw merge_tracked winner_of lookup insert
first_held d = rw (bytes_eq_refl d.name) refl
