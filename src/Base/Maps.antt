-- ===== src/Base/Maps.antt =====
-- Go maps as association lists with one entry for each key, in insertion order.
use mathlib.Core.Path.{◌≡◌, refl}
use mathlib.Core.Bool.{Bool, true, false}
use mathlib.Core.Option.{Option, none, some}
use mathlib.Core.List.{List, [], ◌∷◌}
use native.Mathlib.Omega.{arith}
use zkrollup_go.Base.Tests.{if◌then◌else◌}
use zkrollup_go.Base.Equality.{Eq, ◌==◌}

abbrev pub Map {ℓ κ} : Type ℓ → Type κ → Type (ℓ ⊔ κ)
Map K V = List (K × V)

module _ {ℓ κ} {K : Type ℓ} ⦃e : Eq K⦄ {V : Type κ} where
  -- `v, ok := m[k]`
  abbrev pub lookup : K → Map K V → Option V
  lookup key [] = none
  lookup key ((k, v) ∷ rest) = if k == key then some v else lookup key rest

  -- `m[k] = v`
  abbrev pub insert : K → V → Map K V → Map K V
  insert key new [] = (key, new) ∷ []
  insert key new ((k, v) ∷ rest) =
      if k == key then (k, new) ∷ rest else (k, v) ∷ insert key new rest

  abbrev pub contains : K → Map K V → Bool
  contains k m = elim (lookup k m) [ none ↦ false | some _ ↦ true ]

  -- No key has two entries.
  abbrev pub HasUniqueKeys : Map K V → Type ℓ
  HasUniqueKeys [] = Unit
  HasUniqueKeys ((k, v) ∷ m) = (contains k m ≡ false) × HasUniqueKeys m

  pub lookup-insert :
      (at k : K) (new : V) (m : Map K V)
      → lookup k (insert at new m) ≡ (if at == k then some new else lookup k m)
  lookup-insert at k new [] = refl
  lookup-insert at k new ((i, w) ∷ rest) =
      ground (arith, e.eqb_iff at k, e.eqb_iff i at, e.eqb_iff i k, lookup-insert at k new rest)

  pub insert-HasUniqueKeys :
      (k : K) (v : V) (m : Map K V) → HasUniqueKeys m → HasUniqueKeys (insert k v m)
  insert-HasUniqueKeys k v [] h = (refl, tt)
  insert-HasUniqueKeys k v ((j, w) ∷ m) h =
      ground
        (arith, e.eqb_iff k j, e.eqb_iff j k, lookup-insert k j v m, insert-HasUniqueKeys k v m h.1)

  pub insert-insert : (k : K) (v w : V) (m : Map K V) → insert k w (insert k v m) ≡ insert k w m
  insert-insert k v w [] = ground (arith, e.eqb_iff k k)
  insert-insert k v w ((j, u) ∷ m) =
      ground (arith, e.eqb_iff k k, e.eqb_iff j k, insert-insert k v w m)
