-- ===== src/Base/NodeMap.antt =====
-- `HashMap` with numbers for keys: pairs with distinct keys. The order in which the pairs stand is
-- the model's own, so nothing is stated that depends on it.
use mathlib.Core.Path.{◌≡◌, refl, subst}
use mathlib.Core.Logic.{inl, inr, ◌↔◌}
use mathlib.Core.Bool.{Bool, false}
use mathlib.Core.Option.{Option, none, some}
use mathlib.Core.List.{List, [], ◌∷◌}
use Prim.Native.Nat.{ℕ}
use native.Mathlib.Omega.{arith}
use xchannel_net.Base.Tests.{if◌then◌else◌, ◌==◌, Bool-cases}
use xchannel_net.Base.Lists.{All, IsIn}

abbrev pub NodeMap : Type 0 → Type 0
NodeMap V = List (ℕ × V)

module _ {V : Type 0} where
  unfoldable pub lookup : ℕ → NodeMap V → Option V
  lookup node [] = none
  lookup node ((j, v) ∷ rest) = if j == node then some v else lookup node rest

  unfoldable pub insert : ℕ → V → NodeMap V → NodeMap V
  insert node v [] = (node, v) ∷ []
  insert node v ((j, w) ∷ rest) =
      if j == node then (node, v) ∷ rest else (j, w) ∷ insert node v rest

  -- The entries whose value passes the test.
  unfoldable pub keep : (V → Bool) → NodeMap V → NodeMap V
  keep p [] = []
  keep p ((j, w) ∷ rest) = if p w then (j, w) ∷ keep p rest else keep p rest

  unfoldable pub remove : ℕ → NodeMap V → NodeMap V
  remove node [] = []
  remove node ((j, w) ∷ rest) = if j == node then remove node rest else (j, w) ∷ remove node rest

  unfoldable pub keys : NodeMap V → List ℕ
  keys [] = []
  keys ((j, w) ∷ rest) = j ∷ keys rest

  abbrev pub Without : ℕ → NodeMap V → Type 0
  Without node rest = All (λ (e : ℕ × V). (e.0 == node) ≡ false) rest

  abbrev pub Distinct : NodeMap V → Type 0
  Distinct [] = Unit {0}
  Distinct ((node, v) ∷ rest) = Without node rest × Distinct rest

  pub lookup-insert :
      (node j : ℕ) (v : V) (rest : NodeMap V)
      → lookup j (insert node v rest) ≡ (if node == j then some v else lookup j rest)
  unfolding lookup insert
  lookup-insert node j v [] = refl
  lookup-insert node j v ((i, w) ∷ rest) = ground (arith, lookup-insert node j v rest)

  pub lookup-remove :
      (node j : ℕ) (rest : NodeMap V)
      → lookup j (remove node rest) ≡ (if node == j then none else lookup j rest)
  unfolding lookup remove
  lookup-remove node j [] = ground arith
  lookup-remove node j ((i, w) ∷ rest) = ground (arith, lookup-remove node j rest)

  insert-Without :
      (node j : ℕ) (v : V) (rest : NodeMap V)
      → (node == j) ≡ false
      → Without j rest
      → Without j (insert node v rest)
  unfolding insert
  insert-Without node j v [] h w = (h, tt)
  insert-Without node j v ((i, x) ∷ rest) h w = ground (arith, insert-Without node j v rest h w.1)

  pub insert-Distinct :
      (node : ℕ) (v : V) (rest : NodeMap V) → Distinct rest → Distinct (insert node v rest)
  unfolding insert
  insert-Distinct node v [] d = (tt, tt)
  insert-Distinct node v ((i, x) ∷ rest) d = elim (Bool-cases (i == node)) [
    | inl same ↦ rw same (subst (λ n. Without n rest) (ground arith) d.0, d.1)
    | inr differs ↦
        rw differs
          (insert-Without node i v rest (ground arith) d.0, insert-Distinct node v rest d.1)
  ]

  keep-Without :
      (p : V → Bool) (node : ℕ) (rest : NodeMap V) → Without node rest → Without node (keep p rest)
  unfolding keep
  keep-Without p node [] w = tt
  keep-Without p node ((j, x) ∷ rest) w = ground (arith, keep-Without p node rest w.1)

  remove-Without : (node j : ℕ) (rest : NodeMap V) → Without j rest → Without j (remove node rest)
  unfolding remove
  remove-Without node j [] w = tt
  remove-Without node j ((i, x) ∷ rest) w = ground (arith, remove-Without node j rest w.1)

  pub remove-Distinct : (node : ℕ) (rest : NodeMap V) → Distinct rest → Distinct (remove node rest)
  unfolding remove
  remove-Distinct node [] d = tt
  remove-Distinct node ((i, x) ∷ rest) d =
      ground (arith, remove-Without node i rest d.0, remove-Distinct node rest d.1)

  lookup-Without : (node : ℕ) (rest : NodeMap V) → Without node rest → lookup node rest ≡ none
  unfolding lookup
  lookup-Without node [] w = refl
  lookup-Without node ((j, x) ∷ rest) w = ground (arith, w.0, lookup-Without node rest w.1)

  pub keep-Distinct : (p : V → Bool) (rest : NodeMap V) → Distinct rest → Distinct (keep p rest)
  unfolding keep
  keep-Distinct p [] d = tt
  keep-Distinct p ((j, x) ∷ rest) d =
      ground (arith, keep-Without p j rest d.0, keep-Distinct p rest d.1)

  -- `Option::filter`
  abbrev pub filter_option : (V → Bool) → Option V → Option V
  filter_option p none = none
  filter_option p (some v) = if p v then some v else none

  pub lookup-keep :
      (p : V → Bool) (node : ℕ) (rest : NodeMap V)
      → Distinct rest
      → lookup node (keep p rest) ≡ filter_option p (lookup node rest)
  unfolding lookup keep
  lookup-keep p node [] d = refl
  lookup-keep p node ((j, x) ∷ rest) d = ground (
    arith,
    lookup-keep p node rest d.1,
    lookup-Without j rest d.0,
    lookup-Without j (keep p rest) (keep-Without p j rest d.0),
  )

  -- A key is listed exactly when it is bound.
  pub keys-lookup :
      (node : ℕ) (rest : NodeMap V)
      → IsIn node (keys rest) ↔ ((v : V) × (lookup node rest ≡ some v))
  unfolding keys lookup
  keys-lookup node [] = ((λ i. absurd i), (λ p. cc (p.1)))
  keys-lookup node ((j, x) ∷ rest) = elim (Bool-cases (j == node)) [
    | inl same ↦ ((λ i. (x, rw same)), (λ p. inl (ground arith)))
    | inr differs ↦ (
      (λ i. elim i [
        | inl e ↦ absurd (ground arith)
        | inr later ↦ let t = (keys-lookup node rest).0 later in (t.0, rw differs t.1)
      ]),
      (λ p. inr ((keys-lookup node rest).1 (p.0, ground arith))),
    )
  ]
