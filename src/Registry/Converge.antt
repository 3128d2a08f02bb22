-- ===== src/Registry/Converge.antt =====
-- What a registry holds after any sequence of merges, described without the map: under each name
-- the maximum of what was delivered for it.
use xchannel_net.Base.{
  ◌≡◌, ◌≢◌, ◌↔◌, refl, sym, ap, ◌∙◌, subst, ◌⊎◌, inl, inr, Option, none, some, List, [], ◌∷◌, IsIn,
  arith, bytes_eq, bytes_eq→eq, bytes_eq_iff, Bool-cases,
}
use xchannel_net.Base.NameMap.{lookup}
use xchannel_net.Identity.{ChannelIdentity, ChannelName, resolve_collision}
use xchannel_net.Identity.Order.{Le, SameKey, Le_refl, Le_trans, Le_antisymm, resolve_winner}
use xchannel_net.Registry.{Registry, new, winner_of, merge_tracked, get_raw}
use xchannel_net.Registry.Merge.{IsWellFormed, merge_tracked-IsWellFormed, get_raw-merge_tracked}

-- The deliveries one after the other, as `run_maintenance` merges what `pump` returned.
unfoldable pub merge_all : Registry → List ChannelIdentity → Registry
merge_all r [] = r
merge_all r (d ∷ ds) = merge_all (merge_tracked r d).0 ds

-- `o` is the greatest of the identities of `ds` that bear the name, or there is none of these.
abbrev pub IsBest : ChannelName → List ChannelIdentity → Option ChannelIdentity → Type 0
IsBest n ds none = (d : ChannelIdentity) → IsIn d ds → d.name ≢ n
IsBest n ds (some w) =
    IsIn w ds × (w.name ≡ n) × ((d : ChannelIdentity) → IsIn d ds → d.name ≡ n → Le d w)

IsBest-other :
    (n : ChannelName) (d : ChannelIdentity) (ds : List ChannelIdentity) (o : Option ChannelIdentity)
    → d.name ≢ n
    → IsBest n ds o
    → IsBest n (d ∷ ds) o
IsBest-other n d ds none h b = refuse
  where
    refuse : (e : ChannelIdentity) → IsIn e (d ∷ ds) → e.name ≢ n
    refuse e (inl p) = λ q. h (ap (λ (x : ChannelIdentity). x.name) (sym p) ∙ q)
    refuse e (inr i) = b e i
IsBest-other n d ds (some w) h b = (inr b.0, b.1, keep)
  where
    keep : (e : ChannelIdentity) → IsIn e (d ∷ ds) → e.name ≡ n → Le e w
    keep e (inl p) q = absurd (h (ap (λ (x : ChannelIdentity). x.name) (sym p) ∙ q))
    keep e (inr i) q = b.2 e i q

IsBest-same :
    (n : ChannelName) (d : ChannelIdentity) (ds : List ChannelIdentity) (o : Option ChannelIdentity)
    → d.name ≡ n
    → IsBest n ds o
    → IsBest n (d ∷ ds) (some (winner_of o d))
unfolding winner_of
IsBest-same n d ds none h b = (inl refl, h, top)
  where
    top : (e : ChannelIdentity) → IsIn e (d ∷ ds) → e.name ≡ n → Le e d
    top e (inl p) q = subst (λ x. Le x d) (sym p) (Le_refl d)
    top e (inr i) q = absurd (b e i q)
IsBest-same n d ds (some w) h b = (chosen.0, chosen.1, top)
  where
    pick : (x : ChannelIdentity) → (x ≡ w) ⊎ (x ≡ d) → IsIn x (d ∷ ds) × (x.name ≡ n)
    pick x (inl p) = (
      subst (λ y. IsIn y (d ∷ ds)) (sym p) (inr b.0),
      ap (λ (y : ChannelIdentity). y.name) p ∙ b.1,
    )
    pick x (inr p) = (inl p, ap (λ (y : ChannelIdentity). y.name) p ∙ h)

    chosen : IsIn (resolve_collision w d) (d ∷ ds) × ((resolve_collision w d).name ≡ n)
    chosen = pick (resolve_collision w d) (resolve_winner w d).2

    top : (e : ChannelIdentity) → IsIn e (d ∷ ds) → e.name ≡ n → Le e (resolve_collision w d)
    top e (inl p) q = subst (λ x. Le x (resolve_collision w d)) (sym p) (resolve_winner w d).1
    top e (inr i) q = Le_trans e w (resolve_collision w d) (b.2 e i q) (resolve_winner w d).0

-- The registry holds, under every name, the best of the deliveries.
abbrev pub Summarises : Registry → List ChannelIdentity → Type 0
Summarises r ds = (n : ChannelName) → IsBest n ds (get_raw r n)

Summarises-new : Summarises new []
unfolding new get_raw lookup
Summarises-new n d i = absurd i

merge_tracked-Summarises :
    (r : Registry) (d : ChannelIdentity) (ds : List ChannelIdentity)
    → IsWellFormed r
    → Summarises r ds
    → Summarises (merge_tracked r d).0 (d ∷ ds)
merge_tracked-Summarises r d ds w s n = elim (Bool-cases (bytes_eq d.name n)) [
  | inl same ↦
      rw (get_raw-merge_tracked r d n w, same)
        (IsBest-same n d ds (get_raw r d.name) (bytes_eq→eq d.name n same)
          (subst (λ k. IsBest n ds (get_raw r k)) (sym (bytes_eq→eq d.name n same)) (s n)))
  | inr other ↦
      rw (get_raw-merge_tracked r d n w, other)
        (IsBest-other n d ds (get_raw r n) (ground (arith, bytes_eq_iff d.name n)) (s n))
]

-- The deliveries merged so far, the latest first.
abbrev pub onto : List ChannelIdentity → List ChannelIdentity → List ChannelIdentity
onto [] es = es
onto (d ∷ ds) es = onto ds (d ∷ es)

merge_all-invariant :
    (ds : List ChannelIdentity) (r : Registry) (es : List ChannelIdentity)
    → IsWellFormed r
    → Summarises r es
    → IsWellFormed (merge_all r ds) × Summarises (merge_all r ds) (onto ds es)
unfolding merge_all
merge_all-invariant [] r es w s = (w, s)
merge_all-invariant (d ∷ ds) r es w s =
    merge_all-invariant ds (merge_tracked r d).0 (d ∷ es) (merge_tracked-IsWellFormed r d w)
      (merge_tracked-Summarises r d es w s)

IsIn-onto :
    (x : ChannelIdentity) (ds es : List ChannelIdentity)
    → IsIn x ds ⊎ IsIn x es
    → IsIn x (onto ds es)
IsIn-onto x [] es (inl i) = absurd i
IsIn-onto x [] es (inr i) = i
IsIn-onto x (d ∷ ds) es (inl (inl e)) = IsIn-onto x ds (d ∷ es) (inr (inl e))
IsIn-onto x (d ∷ ds) es (inl (inr i)) = IsIn-onto x ds (d ∷ es) (inl i)
IsIn-onto x (d ∷ ds) es (inr i) = IsIn-onto x ds (d ∷ es) (inr (inr i))

onto-IsIn :
    (x : ChannelIdentity) (ds es : List ChannelIdentity)
    → IsIn x (onto ds es)
    → IsIn x ds ⊎ IsIn x es
onto-IsIn x [] es i = inr i
onto-IsIn x (d ∷ ds) es i = elim (onto-IsIn x ds (d ∷ es) i) [
  | inl p ↦ inl (inr p)
  | inr (inl e) ↦ inl (inl e)
  | inr (inr p) ↦ inr p
]

-- Nothing but membership decides what is best.
IsBest-resp :
    (n : ChannelName) (ds es : List ChannelIdentity) (o : Option ChannelIdentity)
    → ((x : ChannelIdentity) → IsIn x ds ↔ IsIn x es)
    → IsBest n ds o
    → IsBest n es o
IsBest-resp n ds es none same b = λ e i. b e ((same e).1 i)
IsBest-resp n ds es (some w) same b = ((same w).0 b.0, b.1, λ e i. b.2 e ((same e).1 i))

-- Both hold nothing, or both hold identities with the same merge key.
abbrev pub Agree : Option ChannelIdentity → Option ChannelIdentity → Type 0
Agree none none = Unit {0}
Agree none (some b) = ⊥
Agree (some a) none = ⊥
Agree (some a) (some b) = SameKey a b

IsBest-Agree :
    (n : ChannelName) (ds : List ChannelIdentity) (o p : Option ChannelIdentity)
    → IsBest n ds o
    → IsBest n ds p
    → Agree o p
IsBest-Agree n ds none none b c = tt
IsBest-Agree n ds none (some y) b c = b y c.0 c.1
IsBest-Agree n ds (some x) none b c = c x b.0 b.1
IsBest-Agree n ds (some x) (some y) b c = Le_antisymm x y (c.2 x b.0 b.1) (b.2 y c.0 c.1)

pub new-IsWellFormed : IsWellFormed new
unfolding new
new-IsWellFormed = record { keyed = tt; sorted = tt }

-- A registry that started empty holds under every name the greatest, in the order of the merge
-- key, of the identities of that name that were merged, or nothing when there was none.
pub merge_all-IsBest :
    (ds : List ChannelIdentity) (n : ChannelName) → IsBest n ds (get_raw (merge_all new ds) n)
merge_all-IsBest ds n =
    IsBest-resp n (onto ds []) ds (get_raw (merge_all new ds) n)
      (λ x. (
        (λ i. elim (onto-IsIn x ds [] i) [ inl p ↦ p | inr p ↦ absurd p ]),
        (λ i. IsIn-onto x ds [] (inl i)),
      ))
      ((merge_all-invariant ds new [] new-IsWellFormed Summarises-new).1 n)

-- Two registries that started empty and merged the same identities, in whatever order and however
-- often each, agree under every name on whether it is held and on the epoch, the tombstone, the
-- registration time and the owner of what is held.
pub merge_all_converge :
    (ds es : List ChannelIdentity) (n : ChannelName)
    → ((x : ChannelIdentity) → IsIn x ds ↔ IsIn x es)
    → Agree (get_raw (merge_all new ds) n) (get_raw (merge_all new es) n)
merge_all_converge ds es n same =
    IsBest-Agree n es _ _
      (IsBest-resp n ds es (get_raw (merge_all new ds) n) same (merge_all-IsBest ds n))
      (merge_all-IsBest es n)
