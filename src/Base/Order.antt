-- ===== src/Base/Order.antt =====
-- The lexicographic order of byte strings, which is Rust's order of `String`, and prefixes.
use Prim.Native.Nat.{compare, Ordering}
use mathlib.Core.Path.{◌≡◌, refl}
use mathlib.Core.Bool.{Bool, true, false, ◌&&◌}
use mathlib.Core.List.{[], ◌∷◌}
use native.Mathlib.Omega.{arith}
use xchannel_net.Base.Tests.{◌==◌}
use xchannel_net.Base.Lists.{Bytes, bytes_eq}

unfoldable pub bytes_lt : Bytes → Bytes → Bool
bytes_lt xs [] = false
bytes_lt [] (y ∷ ys) = true
bytes_lt (x ∷ xs) (y ∷ ys) = elim (compare x y) [
  | Ordering.lt ↦ true
  | Ordering.gt ↦ false
  | Ordering.eq ↦ bytes_lt xs ys
]

-- `starts_with k p` in the argument order of the source, `k.starts_with(p)`.
unfoldable pub starts_with : Bytes → Bytes → Bool
starts_with ks [] = true
starts_with [] (p ∷ ps) = false
starts_with (k ∷ ks) (p ∷ ps) = (k == p) && starts_with ks ps

pub bytes_lt_irrefl : (xs : Bytes) → bytes_lt xs xs ≡ false
unfolding bytes_lt
bytes_lt_irrefl [] = refl
bytes_lt_irrefl (x ∷ xs) = ground (arith, bytes_lt_irrefl xs)

pub bytes_lt_trans :
    (xs ys zs : Bytes) → bytes_lt xs ys ≡ true → bytes_lt ys zs ≡ true → bytes_lt xs zs ≡ true
unfolding bytes_lt
bytes_lt_trans xs ys [] h k = cc
bytes_lt_trans xs [] (z ∷ zs) h k = cc
bytes_lt_trans [] (y ∷ ys) (z ∷ zs) h k = refl
bytes_lt_trans (x ∷ xs) (y ∷ ys) (z ∷ zs) h k = ground (arith, bytes_lt_trans xs ys zs)

-- Of two different byte strings one is below the other.
pub bytes_lt_total :
    (xs ys : Bytes) → bytes_eq xs ys ≡ false → bytes_lt xs ys ≡ false → bytes_lt ys xs ≡ true
unfolding bytes_lt bytes_eq
bytes_lt_total [] [] h k = cc
bytes_lt_total (x ∷ xs) [] h k = refl
bytes_lt_total [] (y ∷ ys) h k = cc
bytes_lt_total (x ∷ xs) (y ∷ ys) h k = ground (arith, bytes_lt_total xs ys)

-- A string below a prefix does not start with it.
pub starts_with_below : (k p : Bytes) → bytes_lt k p ≡ true → starts_with k p ≡ false
unfolding bytes_lt starts_with
starts_with_below k [] h = cc
starts_with_below [] (p ∷ ps) h = refl
starts_with_below (k ∷ ks) (p ∷ ps) h = ground (arith, starts_with_below ks ps)

-- Once a string at or above the prefix does not start with it, no later one does.
pub starts_with_above :
    (k l p : Bytes)
    → bytes_lt k p ≡ false
    → starts_with k p ≡ false
    → bytes_lt k l ≡ true
    → starts_with l p ≡ false
unfolding bytes_lt starts_with
starts_with_above k l [] h s b = cc
starts_with_above k [] (p ∷ ps) h s b = refl
starts_with_above [] (l ∷ ls) (p ∷ ps) h s b = cc
starts_with_above (k ∷ ks) (l ∷ ls) (p ∷ ps) h s b = ground (arith, starts_with_above ks ls ps)
