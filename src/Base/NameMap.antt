-- ===== src/Base/NameMap.antt =====
-- `BTreeMap<String, V>`: pairs in strictly increasing order of their keys.
use mathlib.Core.Path.{◌≡◌, refl}
use mathlib.Core.Logic.{inl, inr}
use mathlib.Core.Bool.{true}
use mathlib.Core.Option.{Option, none, some}
use mathlib.Core.List.{List, [], ◌∷◌}
use native.Mathlib.Omega.{arith}
use xchannel_net.Base.Tests.{if◌then◌else◌, Bool-cases}
use xchannel_net.Base.Lists.{Bytes, All, bytes_eq, bytes_eq→eq, bytes_eq_iff}
use xchannel_net.Base.Order.{bytes_lt, bytes_lt_trans, bytes_lt_total}

abbrev pub NameMap {ℓ} : Type ℓ → Type ℓ
NameMap V = List (Bytes × V)

module _ {ℓ} {V : Type ℓ} where
  unfoldable pub lookup : Bytes → NameMap V → Option V
  lookup name [] = none
  lookup name ((j, v) ∷ rest) = if bytes_eq j name then some v else lookup name rest

  unfoldable pub insert : Bytes → V → NameMap V → NameMap V
  insert name v [] = (name, v) ∷ []
  insert name v ((j, w) ∷ rest) =
      if bytes_eq j name
      then (name, v) ∷ rest
      else if bytes_lt name j
      then (name, v) ∷ (j, w) ∷ rest
      else (j, w) ∷ insert name v rest

  pub lookup-insert :
      (name j : Bytes) (v : V) (rest : NameMap V)
      → lookup j (insert name v rest) ≡ (if bytes_eq name j then some v else lookup j rest)
  unfolding lookup insert
  lookup-insert name j v [] = refl
  lookup-insert name j v ((i, w) ∷ rest) = ground (
    arith,
    bytes_eq_iff name j,
    bytes_eq_iff i name,
    bytes_eq_iff i j,
    lookup-insert name j v rest,
  )

  -- Every key of the map is above `name`.
  abbrev pub Above : Bytes → NameMap V → Type 0
  Above name rest = All (λ (e : Bytes × V). bytes_lt name e.0 ≡ true) rest

  abbrev pub IsSorted : NameMap V → Type 0
  IsSorted [] = Unit {0}
  IsSorted ((name, v) ∷ rest) = Above name rest × IsSorted rest

  Above-trans :
      (i name : Bytes) (rest : NameMap V) → bytes_lt i name ≡ true → Above name rest → Above i rest
  Above-trans i name [] h a = tt
  Above-trans i name ((j, w) ∷ rest) h a =
      (bytes_lt_trans i name j h a.0, Above-trans i name rest h a.1)

  insert-Above :
      (i name : Bytes) (v : V) (rest : NameMap V)
      → bytes_lt i name ≡ true
      → Above i rest
      → Above i (insert name v rest)
  unfolding insert
  insert-Above i name v [] h a = (h, tt)
  insert-Above i name v ((j, w) ∷ rest) h a = ground (arith, insert-Above i name v rest h a.1)

  pub insert-IsSorted :
      (name : Bytes) (v : V) (rest : NameMap V) → IsSorted rest → IsSorted (insert name v rest)
  unfolding insert
  insert-IsSorted name v [] s = (tt, tt)
  insert-IsSorted name v ((j, w) ∷ rest) s = elim (Bool-cases (bytes_eq j name)) [
    | inl same ↦ rw same (rw (← bytes_eq→eq j name same) s)
    | inr differs ↦ rw differs (elim (Bool-cases (bytes_lt name j)) [
      | inl below ↦ rw below ((below, Above-trans name j rest below s.0), s)
      | inr above ↦ rw above (
        insert-Above j name v rest
            (bytes_lt_total name j (ground (arith, bytes_eq_iff j name, bytes_eq_iff name j)) above)
            s.0,
        insert-IsSorted name v rest s.1,
      )
    ])
  ]
