-- ===== src/Identity/Order.antt =====
-- `resolve_collision` as the maximum of an order on the merge key of an identity.
use xchannel_net.Base.{ℕ, ◌≤◌, ◌<◌, ◌≡◌, refl, ◌⊎◌, Bool, true, false, arith}
use xchannel_net.Identity.{ChannelIdentity, resolve_collision}

-- 1 for a tombstone, 0 for a live entry.
abbrev pub dead : Bool → ℕ
dead true = 1
dead false = 0

-- `Le b a`: `a` keeps the name against `b`. A higher epoch, then a tombstone, then the earlier
-- registration, then the lower node.
abbrev pub Le : ChannelIdentity → ChannelIdentity → Type 0
Le b a =
    (b.epoch < a.epoch)
    ⊎ ((b.epoch ≡ a.epoch)
        × ((dead b.deleted < dead a.deleted)
            ⊎ ((dead b.deleted ≡ dead a.deleted)
                × ((a.registered_at_nanos < b.registered_at_nanos)
                    ⊎ ((a.registered_at_nanos ≡ b.registered_at_nanos) × (a.owner ≤ b.owner))))))

-- The four components by which entries are compared.
pub record SameKey (a b : ChannelIdentity) : Type 0 where
  pub epoch : a.epoch ≡ b.epoch
  pub deleted : a.deleted ≡ b.deleted
  pub registered_at_nanos : a.registered_at_nanos ≡ b.registered_at_nanos
  pub owner : a.owner ≡ b.owner

pub Le_refl : (a : ChannelIdentity) → Le a a
Le_refl a = ground arith

pub Le_trans : (a b c : ChannelIdentity) → Le a b → Le b c → Le a c
Le_trans a b c p q = ground arith

pub dead_injective : (x y : Bool) → dead x ≡ dead y → x ≡ y
dead_injective true true e = refl
dead_injective true false e = absurd (omega arith)
dead_injective false true e = absurd (omega arith)
dead_injective false false e = refl

pub Le_antisymm : (a b : ChannelIdentity) → Le a b → Le b a → SameKey a b
Le_antisymm a b p q = ground (arith, dead_injective a.deleted b.deleted)

-- Either the first entry wins and is an upper bound, or the second does.
pub resolve_cases :
    (a b : ChannelIdentity)
    → ((resolve_collision a b ≡ a) × Le b a) ⊎ ((resolve_collision a b ≡ b) × Le a b)
unfolding resolve_collision
resolve_cases a b = ground arith

-- On a tie of keys the first entry is kept, so a merge with itself changes nothing.
pub resolve_tie : (a b : ChannelIdentity) → SameKey a b → resolve_collision a b ≡ a
unfolding resolve_collision
resolve_tie a b k = ground arith

pub resolve_assoc :
    (a b c : ChannelIdentity)
    → resolve_collision (resolve_collision a b) c ≡ resolve_collision a (resolve_collision b c)
unfolding resolve_collision
resolve_assoc a b c = ground arith

-- The result of a collision is one of the two identities, and is no lower than either in the order
-- of the merge key.
pub resolve_winner :
    (a b : ChannelIdentity)
    → Le a (resolve_collision a b)
      × Le b (resolve_collision a b)
      × ((resolve_collision a b ≡ a) ⊎ (resolve_collision a b ≡ b))
unfolding resolve_collision
resolve_winner a b = ground arith

-- The collisions of two identities in either order agree on the epoch, the tombstone, the
-- registration time and the owner.
pub resolve_comm : (a b : ChannelIdentity) → SameKey (resolve_collision a b) (resolve_collision b a)
unfolding resolve_collision
resolve_comm a b = ground arith

pub resolve_self : (a : ChannelIdentity) → resolve_collision a a ≡ a
unfolding resolve_collision
resolve_self a = ground arith

-- A newer generation takes the name, whatever the older entry is.
pub resolve_newer : (a b : ChannelIdentity) → a.epoch < b.epoch → resolve_collision a b ≡ b
unfolding resolve_collision
resolve_newer a b h = ground arith

-- A live entry yields to its own tombstone.
pub resolve_buried :
    (a : ChannelIdentity)
    → a.deleted ≡ false
    → resolve_collision a (record a { deleted = true }) ≡ record a { deleted = true }
unfolding resolve_collision
resolve_buried a h = ground arith

-- A tombstone keeps its name in its generation against every live entry of no newer one.
pub resolve_stale :
    (a b : ChannelIdentity)
    → a.deleted ≡ true
    → b.epoch ≤ a.epoch
    → ((resolve_collision a b).deleted ≡ true) × ((resolve_collision a b).epoch ≡ a.epoch)
unfolding resolve_collision
resolve_stale a b h k = ground arith

-- In one generation the earlier of two live registrations stays, whoever comes later.
pub resolve_later :
    (a b : ChannelIdentity)
    → a.epoch ≡ b.epoch
    → b.deleted ≡ false
    → a.registered_at_nanos < b.registered_at_nanos
    → resolve_collision a b ≡ a
unfolding resolve_collision
resolve_later a b e live h = ground arith
