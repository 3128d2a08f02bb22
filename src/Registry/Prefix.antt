-- ===== src/Registry/Prefix.antt =====
-- Listings by prefix: the range query, a full scan, and the lookups of single names.
use xchannel_net.Base.{
  ◌≡◌, refl, ◌∙◌, some, none, IsIn, bytes_eq, bytes_eq→eq, bytes_eq_refl, ◌↔◌, ◌⊎◌, inl, inr, Bool,
  true, false, not, ◌&&◌, List, [], ◌∷◌, arith, Bytes, All, Bool-cases, if◌then◌else◌,
}
use xchannel_net.Base.Order.{
  bytes_lt, bytes_lt_irrefl, bytes_lt_trans, starts_with, starts_with_below, starts_with_above,
}
use xchannel_net.Base.NameMap.{NameMap, lookup, IsSorted, Above}
use xchannel_net.Identity.{ChannelIdentity, ChannelName}
use xchannel_net.Registry.{
  Registry, get, live_only, from_key, while_prefix, live_entries, with_prefix,
}
use xchannel_net.Registry.Merge.{IsWellFormed, IsKeyed}

-- A full scan: the entries that are live and whose key starts with the prefix, in key order.
pub scan : ChannelName → NameMap ChannelIdentity → List ChannelIdentity
scan p [] = []
scan p ((k, id) ∷ m) =
    let rest = scan p m in if starts_with k p && not id.deleted then id ∷ rest else rest

scan-Above :
    (k p : Bytes) (m : NameMap ChannelIdentity)
    → bytes_lt k p ≡ false
    → starts_with k p ≡ false
    → Above k m
    → scan p m ≡ []
unfolding scan
scan-Above k p [] h s a = refl
scan-Above k p ((j, id) ∷ m) h s a =
    ground (arith, starts_with_above k j p h s a.0, scan-Above k p m h s a.1)

while_prefix-scan :
    (p : Bytes) (m : NameMap ChannelIdentity)
    → IsSorted m
    → All (λ (e : Bytes × ChannelIdentity). bytes_lt e.0 p ≡ false) m
    → live_entries (while_prefix p m) ≡ scan p m
unfolding while_prefix live_entries scan
while_prefix-scan p [] s a = refl
while_prefix-scan p ((k, id) ∷ m) s a =
    ground (arith, while_prefix-scan p m s.1 a.1, scan-Above k p m a.0)

-- Keys above one that is not below the prefix are not below it.
not_below :
    (k p : Bytes) (m : NameMap ChannelIdentity)
    → bytes_lt k p ≡ false
    → Above k m
    → All (λ (e : Bytes × ChannelIdentity). bytes_lt e.0 p ≡ false) m
not_below k p [] h a = tt
not_below k p ((j, id) ∷ m) h a = (ground (arith, bytes_lt_trans k j p a.0), not_below k p m h a.1)

from_key-scan :
    (p : Bytes) (m : NameMap ChannelIdentity)
    → IsSorted m
    → live_entries (while_prefix p (from_key p m)) ≡ scan p m
unfolding from_key
from_key-scan p [] s = unfold live_entries while_prefix scan in refl
from_key-scan p ((k, id) ∷ m) s = elim (Bool-cases (bytes_lt k p)) [
  | inl below ↦ rw below (from_key-scan p m s.1 ∙ unfold scan in rw (starts_with_below k p below))
  | inr reached ↦
      rw reached (while_prefix-scan p ((k, id) ∷ m) s (reached, not_below k p m reached s.0))
]

-- On a well-formed registry the range query lists what a full scan would, in the same order.
pub with_prefix-scan :
    (r : Registry) (p : ChannelName) → IsWellFormed r → with_prefix r p ≡ scan p r.channels
unfolding with_prefix
with_prefix-scan r p w = from_key-scan p r.channels w.sorted

lookup-Above : (k : Bytes) (m : NameMap ChannelIdentity) → Above k m → lookup k m ≡ none
unfolding lookup
lookup-Above k [] a = refl
lookup-Above k ((j, id) ∷ m) a =
    ground (arith, bytes_eq→eq j k, bytes_lt_irrefl k, a.0, lookup-Above k m a.1)

-- Membership in a list whose head is there under a test.
IsIn-if :
    (t : Bool) (x y : ChannelIdentity) (ys : List ChannelIdentity)
    → IsIn x (if t then y ∷ ys else ys)
    → ((t ≡ true) × (x ≡ y)) ⊎ IsIn x ys
IsIn-if true x y ys (inl e) = inl (refl, e)
IsIn-if true x y ys (inr i) = inr i
IsIn-if false x y ys i = inr i

if-IsIn :
    (t : Bool) (x y : ChannelIdentity) (ys : List ChannelIdentity)
    → ((t ≡ true) × (x ≡ y)) ⊎ IsIn x ys
    → IsIn x (if t then y ∷ ys else ys)
if-IsIn true x y ys (inl p) = inl p.1
if-IsIn true x y ys (inr i) = inr i
if-IsIn false x y ys (inl p) = cc (p.0)
if-IsIn false x y ys (inr i) = i

-- `x` is held live under its own name, which has the prefix.
abbrev Held : ChannelName → NameMap ChannelIdentity → ChannelIdentity → Type 0
Held p m x = (lookup x.name m ≡ some x) × (x.deleted ≡ false) × (starts_with x.name p ≡ true)

scan-Held :
    (p : Bytes) (m : NameMap ChannelIdentity) (x : ChannelIdentity)
    → IsSorted m
    → IsKeyed m
    → IsIn x (scan p m)
    → Held p m x
unfolding scan lookup
scan-Held p [] x s k i = absurd i
scan-Held p ((j, id) ∷ m) x s k i =
    elim (IsIn-if (starts_with j p && not id.deleted) x id (scan p m) i) [
      | inl (t, e) ↦ rw e (ground (arith, k.0, bytes_eq_refl id.name))
      | inr later ↦
          ground (arith, scan-Held p m x s.1 k.1 later, lookup-Above j m s.0, bytes_eq→eq j x.name)
    ]

Held-scan :
    (p : Bytes) (m : NameMap ChannelIdentity) (x : ChannelIdentity) → Held p m x → IsIn x (scan p m)
unfolding scan lookup
Held-scan p [] x h = cc (h.0)
Held-scan p ((j, id) ∷ m) x h =
    if-IsIn (starts_with j p && not id.deleted) x id (scan p m)
      (elim (Bool-cases (bytes_eq j x.name)) [
        | inl same ↦ inl (ground (arith, bytes_eq→eq j x.name))
        | inr other ↦ inr (Held-scan p m x (ground arith))
      ])

-- In a well-formed registry a listing by prefix holds exactly the identities that a lookup returns
-- under a name with the prefix.
pub with_prefix-get :
    (r : Registry) (p : ChannelName) (x : ChannelIdentity)
    → IsWellFormed r
    → IsIn x (with_prefix r p) ↔ ((get r x.name ≡ some x) × (starts_with x.name p ≡ true))
with_prefix-get r p x w = rw (with_prefix-scan r p w) (listed, found)
  where
    listed : IsIn x (scan p r.channels) → (get r x.name ≡ some x) × (starts_with x.name p ≡ true)
    listed i =
        let h = scan-Held p r.channels x w.sorted w.keyed i in
        unfold get live_only in (ground arith)

    found : (get r x.name ≡ some x) × (starts_with x.name p ≡ true) → IsIn x (scan p r.channels)
    found h = Held-scan p r.channels x (unfold get live_only in (ground arith))
