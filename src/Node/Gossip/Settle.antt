-- ===== src/Node/Gossip/Settle.antt =====
-- The registry behind a tick, and the ticks that bring nothing new.
use xchannel_net.Base.{◌≡◌, refl, ◌∙◌, false, some, List, [], ◌∷◌, All, arith}
use xchannel_net.Identity.{ChannelIdentity, ChannelName}
use xchannel_net.Registry.{Registry, merge_tracked, get_raw}
use xchannel_net.Registry.Merge.{IsWellFormed, merge_tracked-IsWellFormed, merge_tracked-changed}
use xchannel_net.Registry.Held.{merged_held}
use xchannel_net.Registry.Converge.{merge_all}
use xchannel_net.Node.Gossip.{
  Local, Gathered, Arrival, Config, same_key, lost_to, publish_if, merge_and_publish, sort_out,
  ingest_one, ingest,
}

pub lost_to_self : (a : ChannelIdentity) → lost_to a a ≡ false
unfolding lost_to same_key
lost_to_self a = ground arith

-- The registry holds the identity under its name.
abbrev pub Holds : Registry → ChannelIdentity → Type 0
Holds r d = get_raw r d.name ≡ some d

module _ {A : Type 0} where
  abbrev pub arrived : List (Arrival A) → List ChannelIdentity
  arrived [] = []
  arrived (x ∷ xs) = x.id ∷ arrived xs

  -- The registry that a tick leaves is the one that merging what arrived, one after the other,
  -- gives, whatever the links, the clock and the membership.
  pub ingest-merge_all :
      (c : Config) (xs : List (Arrival A)) (s : Local) (g : Gathered)
      → (ingest c (s, g) xs).0.registry ≡ merge_all s.registry (arrived xs)
  unfolding ingest ingest_one merge_and_publish merge_all
  ingest-merge_all c [] s g = refl
  ingest-merge_all c (x ∷ xs) s g =
      ingest-merge_all c xs (ingest_one c (s, g) x).0 (ingest_one c (s, g) x).1

  ingest_one-held :
      (c : Config) (s : Local) (g : Gathered) (x : Arrival A)
      → IsWellFormed s.registry
      → Holds s.registry x.id
      → ((ingest_one c (s, g) x).0.published ≡ s.published)
        × ((ingest_one c (s, g) x).1.to_relay ≡ g.to_relay)
        × ((ingest_one c (s, g) x).1.to_reply ≡ g.to_reply)
  unfolding ingest_one merge_and_publish publish_if sort_out
  ingest_one-held c s g x w h =
      rw
        (
          (merged_held s.registry x.id w h).0,
          (merged_held s.registry x.id w h).1,
          lost_to_self x.id,
        )
        (refl, refl, refl)

  All-kept :
      (r r' : Registry) (xs : List (Arrival A))
      → ((n : ChannelName) → get_raw r' n ≡ get_raw r n)
      → All (λ (x : Arrival A). Holds r x.id) xs
      → All (λ (x : Arrival A). Holds r' x.id) xs
  All-kept r r' [] same h = tt
  All-kept r r' (x ∷ xs) same h = (same x.id.name ∙ h.0, All-kept r r' xs same h.1)

  -- When a well-formed registry holds all that arrives, a tick publishes nothing, relays nothing
  -- and answers nothing.
  pub ingest-held :
      (c : Config) (xs : List (Arrival A)) (s : Local) (g : Gathered)
      → IsWellFormed s.registry
      → All (λ (x : Arrival A). get_raw s.registry x.id.name ≡ some x.id) xs
      → ((ingest c (s, g) xs).0.published ≡ s.published)
        × ((ingest c (s, g) xs).1.to_relay ≡ g.to_relay)
        × ((ingest c (s, g) xs).1.to_reply ≡ g.to_reply)
  unfolding ingest ingest_one merge_and_publish
  ingest-held c [] s g w h = (refl, refl, refl)
  ingest-held c (x ∷ xs) s g w h =
      let later =
        ingest-held c xs (ingest_one c (s, g) x).0 (ingest_one c (s, g) x).1
          (merge_tracked-IsWellFormed s.registry x.id w)
          (All-kept s.registry (merge_tracked s.registry x.id).0 xs
            ((merge_tracked-changed s.registry x.id w).0 (merged_held s.registry x.id w h.0).0)
            h.1) in
      let now = ingest_one-held c s g x w h.0 in (later.0 ∙ now.0, later.1 ∙ now.1, later.2 ∙ now.2)
