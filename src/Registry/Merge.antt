-- ===== src/Registry/Merge.antt =====
-- What one merge does to the map.
use xchannel_net.Base.{
  ◌≡◌, ◌↔◌, refl, ap, ◌∙◌, inl, inr, true, false, Option, none, some, [], ◌∷◌, All, arith, bytes_eq,
  bytes_eq_iff, bytes_eq→eq, bytes_eq_refl, if◌then◌else◌, Bytes,
}
use xchannel_net.Base.NameMap.{NameMap, lookup, insert, lookup-insert, IsSorted, insert-IsSorted}
use xchannel_net.Identity.{ChannelIdentity, ChannelName, resolve_collision}
use xchannel_net.Identity.Order.{resolve_cases, resolve_self, resolve_assoc}
use xchannel_net.Identity.Equality.{identity_eq_iff}
use xchannel_net.Registry.{Registry, winner_of, holds, merge_tracked, get_raw}

-- Every entry stands under its own name.
abbrev pub IsKeyed : NameMap ChannelIdentity → Type 0
IsKeyed m = All (λ (e : Bytes × ChannelIdentity). e.1.name ≡ e.0) m

pub record IsWellFormed (r : Registry) : Type 0 where
  pub keyed : IsKeyed r.channels
  pub sorted : IsSorted r.channels

lookup-IsKeyed :
    (k : Bytes) (m : NameMap ChannelIdentity) (id : ChannelIdentity)
    → IsKeyed m
    → lookup k m ≡ some id
    → id.name ≡ k
unfolding lookup
lookup-IsKeyed k [] id h e = cc
lookup-IsKeyed k ((j, v) ∷ m) id h e = ground (arith, bytes_eq→eq j k, lookup-IsKeyed k m id h.1)

insert-IsKeyed :
    (k : Bytes) (v : ChannelIdentity) (m : NameMap ChannelIdentity)
    → v.name ≡ k
    → IsKeyed m
    → IsKeyed (insert k v m)
unfolding insert
insert-IsKeyed k v [] e h = (e, tt)
insert-IsKeyed k v ((j, w) ∷ m) e h = ground (arith, insert-IsKeyed k v m e h.1)

pub name-get_raw :
    {r : Registry} (n : ChannelName) (id : ChannelIdentity)
    → IsWellFormed r
    → get_raw r n ≡ some id
    → id.name ≡ n
unfolding get_raw
name-get_raw {r} n id w e = lookup-IsKeyed n r.channels id w.keyed e

name-winner_of :
    (o : Option ChannelIdentity) (d : ChannelIdentity)
    → ((id : ChannelIdentity) → o ≡ some id → id.name ≡ d.name)
    → (winner_of o d).name ≡ d.name
unfolding winner_of
name-winner_of none d h = refl
name-winner_of (some id) d h = elim (resolve_cases id d) [
  | inl p ↦ rw p.0 (h id refl)
  | inr p ↦ rw p.0
]

-- The winner of a merge stands under the incoming name.
pub name-merged :
    (r : Registry) (d : ChannelIdentity)
    → IsWellFormed r
    → (winner_of (get_raw r d.name) d).name ≡ d.name
name-merged r d w = name-winner_of (get_raw r d.name) d (λ id. name-get_raw d.name id w)

-- In a well-formed registry the map is sorted and every entry stands under its own name; a merge
-- leaves it so.
pub merge_tracked-IsWellFormed :
    (r : Registry) (d : ChannelIdentity) → IsWellFormed r → IsWellFormed (merge_tracked r d).0
unfolding merge_tracked get_raw
merge_tracked-IsWellFormed r d w = record {
  keyed = insert-IsKeyed _ _ r.channels refl w.keyed;
  sorted = insert-IsSorted _ _ r.channels w.sorted;
}

pub get_raw-merge_tracked :
    (r : Registry) (d : ChannelIdentity) (n : ChannelName)
    → IsWellFormed r
    → get_raw (merge_tracked r d).0 n
      ≡ (if bytes_eq d.name n then some (winner_of (get_raw r d.name) d) else get_raw r n)
unfolding merge_tracked get_raw
get_raw-merge_tracked r d n w =
    lookup-insert _ n _ r.channels
    ∙ ap
        (λ (k : Bytes).
          if bytes_eq k n
          then some (winner_of (lookup d.name r.channels) d)
          else lookup n r.channels)
        (name-merged r d w)

holds→eq : (o : Option ChannelIdentity) (a : ChannelIdentity) → (holds o a ≡ true) ↔ (o ≡ some a)
unfolding holds
holds→eq none a = ((λ e. cc), (λ e. cc))
holds→eq (some b) a = ground (arith, identity_eq_iff b a)

-- The flag says whether the winner is what the map held before.
pub merged_changed :
    (r : Registry) (d : ChannelIdentity)
    → IsWellFormed r
    → ((merge_tracked r d).1.changed ≡ false)
      ↔ (get_raw r d.name ≡ some (winner_of (get_raw r d.name) d))
unfolding merge_tracked get_raw
merged_changed r d w =
    rw (name-merged r d w)
      (ground (arith, holds→eq (lookup d.name r.channels) (winner_of (lookup d.name r.channels) d)))

-- In a well-formed registry, a merge reports no change exactly when what is held stays as it was
-- under every name.
pub merge_tracked-changed :
    (r : Registry) (d : ChannelIdentity)
    → IsWellFormed r
    → ((merge_tracked r d).1.changed ≡ false)
      ↔ ((n : ChannelName) → get_raw (merge_tracked r d).0 n ≡ get_raw r n)
merge_tracked-changed r d w = (unchanged, reported)
  where
    unchanged :
        (merge_tracked r d).1.changed ≡ false
        → (n : ChannelName) → get_raw (merge_tracked r d).0 n ≡ get_raw r n
    unchanged h n =
        ground (arith, merged_changed r d w, get_raw-merge_tracked r d n w, bytes_eq_iff d.name n)

    reported :
        ((n : ChannelName) → get_raw (merge_tracked r d).0 n ≡ get_raw r n)
        → (merge_tracked r d).1.changed ≡ false
    reported h = ground (
      arith,
      merged_changed r d w,
      h d.name,
      get_raw-merge_tracked r d d.name w,
      bytes_eq_iff d.name d.name,
    )

merge_twice-winner :
    (o : Option ChannelIdentity) (d : ChannelIdentity)
    → winner_of (some (winner_of o d)) d ≡ winner_of o d
unfolding winner_of
merge_twice-winner none d = resolve_self d
merge_twice-winner (some a) d = resolve_assoc a d d ∙ ap (resolve_collision a) (resolve_self d)

-- In a well-formed registry, merging an identity again reports no change and leaves what is held
-- under every name.
pub merge_again :
    (r : Registry) (d : ChannelIdentity)
    → IsWellFormed r
    → let r' = (merge_tracked r d).0 in
      ((merge_tracked r' d).1.changed ≡ false)
      × ((n : ChannelName) → get_raw (merge_tracked r' d).0 n ≡ get_raw r' n)
merge_again r d w = (same, (merge_tracked-changed (merge_tracked r d).0 d w').0 same)
  where
    w' : IsWellFormed (merge_tracked r d).0
    w' = merge_tracked-IsWellFormed r d w

    same : (merge_tracked (merge_tracked r d).0 d).1.changed ≡ false
    same = ground (
      arith,
      merged_changed (merge_tracked r d).0 d w',
      get_raw-merge_tracked r d d.name w,
      bytes_eq_refl d.name,
      merge_twice-winner (get_raw r d.name) d,
    )

pub merged_winner :
    (r : Registry) (d : ChannelIdentity)
    → (merge_tracked r d).1.winner ≡ winner_of (get_raw r d.name) d
unfolding merge_tracked get_raw
merged_winner r d = refl
