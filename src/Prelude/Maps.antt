-- ===== src/Prelude/Maps.antt =====
-- `BTreeMap` and `BTreeSet` of the standard library: entries in the order of their keys.
pub mod Laws
use mathlib.Core.Bool.{Bool}
use mathlib.Core.Option.{Option, none, some}
use mathlib.Core.List.{List, [], ◌∷◌, map}
use signalweave.Prelude.Tests.{if◌then◌else◌, is_some}
use signalweave.Prelude.Keys.{Key, same, before}

abbrev pub Map {ℓ κ} : Type ℓ → Type κ → Type (ℓ ⊔ κ)
Map K V = List (K × V)

abbrev pub Set {ℓ} : Type ℓ → Type ℓ
Set K = Map K (Unit {0})

module _ {ℓ κ} {K : Type ℓ} {V : Type κ} ⦃e : Key K⦄ where
  unfoldable pub get : K → Map K V → Option V
  get k [] = none
  get k ((j, v) ∷ m) = if same j k then some v else get k m

  unfoldable pub insert : K → V → Map K V → Map K V
  insert k v [] = (k, v) ∷ []
  insert k v ((j, w) ∷ m) =
      let rest = insert k v m in
      if same j k then (k, v) ∷ m else if before k j then (k, v) ∷ (j, w) ∷ m else (j, w) ∷ rest

  unfoldable pub remove : K → Map K V → Map K V
  remove k [] = []
  remove k ((j, w) ∷ m) = let rest = remove k m in if same j k then rest else (j, w) ∷ rest

  -- `if let Some(value) = map.get_mut(key)`
  unfoldable pub modify : K → (V → V) → Map K V → Map K V
  unfolding get insert
  modify k f m = elim (get k m) [ none ↦ m | some v ↦ insert k (f v) m ]

  -- `contains_key`, and `contains` of a set
  abbrev pub contains : K → Map K V → Bool
  contains k m = is_some (get k m)

module _ {ℓ κ} {K : Type ℓ} {V : Type κ} where
  unfoldable pub keep : (K → V → Bool) → Map K V → Map K V
  keep p [] = []
  keep p ((j, w) ∷ m) = let rest = keep p m in if p j w then (j, w) ∷ rest else rest

  unfoldable pub map_values {μ} : {W : Type μ} → (V → W) → Map K V → Map K W
  map_values f [] = []
  map_values f ((j, w) ∷ m) = (j, f w) ∷ map_values f m

  abbrev pub values : Map K V → List V
  values = map (λ (entry : K × V). entry.1)

  abbrev pub keys : Map K V → List K
  keys = map (λ (entry : K × V). entry.0)
