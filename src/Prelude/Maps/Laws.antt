-- ===== src/Prelude/Maps/Laws.antt =====
-- The laws of the ordered maps: what a read sees after each write, and how the size moves.
use Prim.Native.Nat.{ℕ, ◌+◌, ◌≤◌}
use mathlib.Core.Path.{◌≡◌, refl}
use mathlib.Core.Logic.{inl, inr}
use mathlib.Core.Bool.{Bool, true, false}
use mathlib.Core.Option.{Option, none, some}
use mathlib.Core.List.{[], ◌∷◌}
use native.Mathlib.Omega.{arith}
use signalweave.Prelude.Tests.{if◌then◌else◌, is_some, Bool-cases}
use signalweave.Prelude.Lists.{length, count_if}
use signalweave.Prelude.Keys.{
  Key, same, before, same_iff, before_irrefl, before_trans, before_total,
}
use signalweave.Prelude.Maps.{Map, get, insert, remove, contains, keep, values, map_values}

-- What a filtered read returns.
abbrev pub kept {ℓ} : {V : Type ℓ} → (V → Bool) → Option V → Option V
kept p none = none
kept p (some v) = if p v then some v else none

module _ {ℓ} {K : Type ℓ} ⦃e : Key K⦄ where
  before-same : (j k : K) → before j k ≡ true → same j k ≡ false
  before-same j k h = elim (Bool-cases (same j k)) [ inl s ↦ absurd (clash s) | inr s ↦ s ]
    where
      clash : same j k ≡ true → ⊥
      clash s = cc ((same_iff j k).0 s, before_irrefl k)

module _ {ℓ κ} {K : Type ℓ} {V : Type κ} ⦃e : Key K⦄ where
  -- Every key of the map stands after `k`.
  abbrev pub Above : K → Map K V → Type 0
  Above k [] = Unit
  Above k ((j, v) ∷ m) = (before k j ≡ true) × Above k m

  -- The keys rise strictly.
  abbrev pub IsSorted : Map K V → Type 0
  IsSorted [] = Unit
  IsSorted ((k, v) ∷ m) = Above k m × IsSorted m

  pub Above-before : (j k : K) (m : Map K V) → before j k ≡ true → Above k m → Above j m
  Above-before j k [] h a = tt
  Above-before j k ((i, v) ∷ m) h a = (before_trans j k i h a.0, Above-before j k m h a.1)

  pub get-Above : (k : K) (m : Map K V) → Above k m → get k m ≡ none
  unfolding get
  get-Above k [] a = refl
  get-Above k ((j, v) ∷ m) a =
      ground (arith, before-same k j a.0, same_iff j k, same_iff k j, get-Above k m a.1)

  pub get-insert :
      (k j : K) (v : V) (m : Map K V)
      → get j (insert k v m) ≡ (if same k j then some v else get j m)
  unfolding get insert
  get-insert k j v [] = refl
  get-insert k j v ((i, w) ∷ m) =
      ground (arith, same_iff k j, same_iff i k, same_iff i j, get-insert k j v m)

  pub get-remove :
      (k j : K) (m : Map K V) → get j (remove k m) ≡ (if same k j then none else get j m)
  unfolding get remove
  get-remove k j [] = ground arith
  get-remove k j ((i, w) ∷ m) =
      ground (arith, same_iff k j, same_iff i k, same_iff i j, get-remove k j m)

  Above-insert :
      (j k : K) (v : V) (m : Map K V) → before j k ≡ true → Above j m → Above j (insert k v m)
  unfolding insert
  Above-insert j k v [] h a = (h, tt)
  Above-insert j k v ((i, w) ∷ m) h a = ground (arith, Above-insert j k v m h a.1)

  pub insert-IsSorted : (k : K) (v : V) (m : Map K V) → IsSorted m → IsSorted (insert k v m)
  unfolding insert
  insert-IsSorted k v [] s = (tt, tt)
  insert-IsSorted k v ((j, w) ∷ m) s = ground (
    arith,
    same_iff j k,
    before_total k j,
    same_iff k j,
    Above-before k j m,
    Above-insert j k v m,
    insert-IsSorted k v m s.1,
  )

  Above-remove : (j k : K) (m : Map K V) → Above j m → Above j (remove k m)
  unfolding remove
  Above-remove j k [] a = tt
  Above-remove j k ((i, w) ∷ m) a = ground (arith, Above-remove j k m a.1)

  pub remove-IsSorted : (k : K) (m : Map K V) → IsSorted m → IsSorted (remove k m)
  unfolding remove
  remove-IsSorted k [] s = tt
  remove-IsSorted k ((j, w) ∷ m) s = ground (arith, Above-remove j k m s.0, remove-IsSorted k m s.1)

  Above-keep : (p : K → V → Bool) (j : K) (m : Map K V) → Above j m → Above j (keep p m)
  unfolding keep
  Above-keep p j [] a = tt
  Above-keep p j ((i, w) ∷ m) a = ground (arith, Above-keep p j m a.1)

  pub keep-IsSorted : (p : K → V → Bool) (m : Map K V) → IsSorted m → IsSorted (keep p m)
  unfolding keep
  keep-IsSorted p [] s = tt
  keep-IsSorted p ((j, w) ∷ m) s = ground (arith, Above-keep p j m s.0, keep-IsSorted p m s.1)

  pub get-keep :
      (p : K → V → Bool) (k : K) (m : Map K V)
      → IsSorted m
      → get k (keep p m) ≡ kept (p k) (get k m)
  unfolding get keep
  get-keep p k [] s = refl
  get-keep p k ((j, w) ∷ m) s = ground (arith, same_iff j k, get-Above j m s.0, get-keep p k m s.1)

  -- Removing a key that is not there changes nothing.
  pub remove-absent : (k : K) (m : Map K V) → get k m ≡ none → remove k m ≡ m
  unfolding get remove
  remove-absent k [] h = refl
  remove-absent k ((j, w) ∷ m) h = ground (arith, remove-absent k m)

  pub length-insert_new :
      (k : K) (v : V) (m : Map K V) → get k m ≡ none → length (insert k v m) ≡ length m + 1
  unfolding get insert
  length-insert_new k v [] h = omega arith
  length-insert_new k v ((j, w) ∷ m) h = ground (arith, length-insert_new k v m)

  pub length-insert_old :
      (k : K) (v : V) (m : Map K V)
      → IsSorted m
      → is_some (get k m) ≡ true
      → length (insert k v m) ≡ length m
  unfolding get insert
  length-insert_old k v [] s h = cc
  length-insert_old k v ((j, w) ∷ m) s h =
      ground (arith, length-insert_old k v m s.1, Above-before k j m, get-Above k m)

  pub length-remove :
      (k : K) (m : Map K V)
      → IsSorted m
      → length (remove k m) + (if contains k m then 1 else 0) ≡ length m
  unfolding get remove
  length-remove k [] s = omega arith
  length-remove k ((j, w) ∷ m) s =
      ground (arith, same_iff j k, get-Above j m s.0, length-remove k m s.1, remove-absent k m)

  pub length-remove-le : (k : K) (m : Map K V) → length (remove k m) ≤ length m
  unfolding remove
  length-remove-le k [] = omega arith
  length-remove-le k ((j, w) ∷ m) = ground (arith, length-remove-le k m)

  pub length-insert-le : (k : K) (v : V) (m : Map K V) → length (insert k v m) ≤ length m + 1
  unfolding insert
  length-insert-le k v [] = omega arith
  length-insert-le k v ((j, w) ∷ m) = ground (arith, length-insert-le k v m)

  pub length-keep-le : (p : K → V → Bool) (m : Map K V) → length (keep p m) ≤ length m
  unfolding keep
  length-keep-le p [] = omega arith
  length-keep-le p ((j, w) ∷ m) = ground (arith, length-keep-le p m)

-- One, if there is a value and it passes the test.
abbrev pub weight {ℓ} : {V : Type ℓ} → (V → Bool) → Option V → ℕ
weight p none = 0
weight p (some v) = if p v then 1 else 0

module _ {ℓ κ} {K : Type ℓ} {V : Type κ} ⦃e : Key K⦄ where
  count_values-Above : (p : V → Bool) (k : K) (m : Map K V) → Above k m → weight p (get k m) ≡ 0
  count_values-Above p k m a = rw (get-Above k m a)

  -- A write moves the number of values that pass a test by the new value and the old one.
  pub count_values-insert :
      (p : V → Bool) (k : K) (v : V) (m : Map K V)
      → IsSorted m
      → count_if p (values (insert k v m)) + weight p (get k m)
        ≡ count_if p (values m) + (if p v then 1 else 0)
  unfolding get insert count_if
  count_values-insert p k v [] s = ground arith
  count_values-insert p k v ((j, w) ∷ m) s =
      ground (arith, Above-before k j m, get-Above k m, count_values-insert p k v m s.1)

module _ {ℓ κ μ} {K : Type ℓ} {V : Type κ} {W : Type μ} ⦃e : Key K⦄ (f : V → W) where
  Above-map_values : (k : K) (m : Map K V) → Above k m → Above k (map_values f m)
  unfolding map_values
  Above-map_values k [] a = tt
  Above-map_values k ((j, v) ∷ m) a = (a.0, Above-map_values k m a.1)

  pub map_values-IsSorted : (m : Map K V) → IsSorted m → IsSorted (map_values f m)
  unfolding map_values
  map_values-IsSorted [] s = tt
  map_values-IsSorted ((j, v) ∷ m) s = (Above-map_values j m s.0, map_values-IsSorted m s.1)

  pub get-map_values :
      (k : K) (m : Map K V)
      → get k (map_values f m) ≡ (elim (get k m) [ none ↦ none | some v ↦ some (f v) ])
  unfolding get map_values
  get-map_values k [] = refl
  get-map_values k ((j, v) ∷ m) = ground (arith, get-map_values k m)

-- A change of the values under which no value comes to pass the test lets no more of them pass it.
pub count_values-map_values {ℓ κ} :
    {K : Type ℓ} {V : Type κ} (p : V → Bool) (f : V → V)
    → ((v : V) → p (f v) ≡ true → p v ≡ true)
    → (m : Map K V) → count_if p (values (map_values f m)) ≤ count_if p (values m)
unfolding map_values count_if
count_values-map_values p f h [] = omega arith
count_values-map_values p f h ((k, v) ∷ m) = ground (arith, h v, count_values-map_values p f h m)
