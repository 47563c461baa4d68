-- ===== src/Queue/Index.antt =====
-- An arrival order kept beside an ordered map, as `latest_order` is beside `latest` in
-- crates/woven-core/src/queue.rs: what it means that the two agree, and what keeps them so.
use signalweave.Prelude.{
  ◌≡◌, refl, Bool, true, false, not, ◌||◌, ◌&&◌, none, some, List, [], ◌∷◌, ◌++◌, arith, length,
  retain, Key, same, same_iff, same_refl, Map,
}
use signalweave.Prelude.Maps.{get, insert, remove, contains, keep}
use signalweave.Prelude.Maps.Laws.{
  IsSorted, get-insert, get-remove, get-keep, insert-IsSorted, remove-IsSorted, keep-IsSorted,
  length-remove,
}

module _ {ℓ} {K : Type ℓ} ⦃e : Key K⦄ where
  unfoldable pub member : K → List K → Bool
  member k [] = false
  member k (j ∷ js) = same j k || member k js

  abbrev pub IsDistinct : List K → Type 0
  IsDistinct [] = Unit
  IsDistinct (k ∷ ks) = (member k ks ≡ false) × IsDistinct ks

  pub member-append : (j k : K) (ks : List K) → member j (ks ++ k ∷ []) ≡ (member j ks || same k j)
  unfolding member
  member-append j k [] = ground arith
  member-append j k (i ∷ ks) = ground (arith, member-append j k ks)

  pub append-IsDistinct :
      (k : K) (ks : List K) → member k ks ≡ false → IsDistinct ks → IsDistinct (ks ++ k ∷ [])
  unfolding member
  append-IsDistinct k [] h d = ground arith
  append-IsDistinct k (i ∷ ks) h d =
      ground (arith, member-append i k ks, same_iff i k, same_iff k i, append-IsDistinct k ks)

  pub member-retain :
      (p : K → Bool) (j : K) (ks : List K) → member j (retain p ks) ≡ (p j && member j ks)
  unfolding member retain
  member-retain p j [] = ground arith
  member-retain p j (i ∷ ks) = ground (arith, member-retain p j ks, same_iff i j)

  pub retain-IsDistinct : (p : K → Bool) (ks : List K) → IsDistinct ks → IsDistinct (retain p ks)
  unfolding member retain
  retain-IsDistinct p [] d = tt
  retain-IsDistinct p (i ∷ ks) d = ground (arith, member-retain p i ks, retain-IsDistinct p ks d.1)

module _ {ℓ κ} {K : Type ℓ} {V : Type κ} ⦃e : Key K⦄ where
  -- The order names every key of the map once, and no other.
  pub record IsSynced (order : List K) (m : Map K V) : Type (ℓ ⊔ κ) where
    pub sorted : IsSorted m
    pub distinct : IsDistinct order
    pub agree : (k : K) → member k order ≡ contains k m

  -- The values in the order of arrival.
  unfoldable pub arrivals : List K → Map K V → List V
  arrivals [] m = []
  arrivals (k ∷ ks) m =
      let rest = arrivals ks m in elim (get k m) [ none ↦ rest | some v ↦ v ∷ rest ]

  pub IsSynced-push :
      (k : K) (v : V) (order : List K) (m : Map K V)
      → get k m ≡ none
      → IsSynced order m
      → IsSynced (order ++ k ∷ []) (insert k v m)
  IsSynced-push k v order m h s = record {
    sorted = insert-IsSorted k v m s.sorted;
    distinct = append-IsDistinct k order (ground (arith, s.agree k)) s.distinct;
    agree = λ j. ground (arith, member-append j k order, get-insert k j v m, s.agree j);
  }

  pub IsSynced-replace :
      (k : K) (v : V) (order : List K) (m : Map K V)
      → IsSynced order m
      → IsSynced (retain (λ o. not (same o k)) order ++ k ∷ []) (insert k v m)
  IsSynced-replace k v order m s = record {
    sorted = insert-IsSorted k v m s.sorted;
    distinct =
        append-IsDistinct k (retain (λ o. not (same o k)) order)
          (ground (arith, member-retain (λ o. not (same o k)) k order, same_refl k))
          (retain-IsDistinct (λ o. not (same o k)) order s.distinct);
    agree = λ j. ground (
      arith,
      member-append j k (retain (λ o. not (same o k)) order),
      member-retain (λ o. not (same o k)) j order,
      get-insert k j v m,
      s.agree j,
      same_iff j k,
      same_iff k j,
    );
  }

  pub IsSynced-pop :
      (k : K) (order : List K) (m : Map K V) → IsSynced (k ∷ order) m → IsSynced order (remove k m)
  unfolding member
  IsSynced-pop k order m s = record {
    sorted = remove-IsSorted k m s.sorted;
    distinct = s.distinct.1;
    agree = λ j. ground (arith, get-remove k j m, s.agree j, same_iff k j, s.distinct.0);
  }

  pub IsSynced-purge :
      (p : K → V → Bool) (order : List K) (m : Map K V)
      → IsSynced order m
      → IsSynced (retain (λ k. contains k (keep p m)) order) (keep p m)
  IsSynced-purge p order m s = record {
    sorted = keep-IsSorted p m s.sorted;
    distinct = retain-IsDistinct (λ k. contains k (keep p m)) order s.distinct;
    agree = λ j. ground (
      arith,
      member-retain (λ k. contains k (keep p m)) j order,
      get-keep p j m s.sorted,
      s.agree j,
    );
  }

  pub IsSynced-head :
      (k : K) (order : List K) (m : Map K V) → IsSynced (k ∷ order) m → contains k m ≡ true
  unfolding member
  IsSynced-head k order m s = ground (arith, s.agree k, same_refl k)

  pub length-IsSynced : (order : List K) (m : Map K V) → IsSynced order m → length order ≡ length m
  unfolding member get
  length-IsSynced [] [] s = refl
  length-IsSynced [] ((k, v) ∷ m) s = ground (arith, s.agree k, same_refl k)
  length-IsSynced (k ∷ order) m s = ground (
    arith,
    length-remove k m s.sorted,
    IsSynced-head k order m s,
    length-IsSynced order (remove k m) (IsSynced-pop k order m s),
  )

  pub arrivals-remove :
      (k : K) (order : List K) (m : Map K V)
      → member k order ≡ false
      → arrivals order (remove k m) ≡ arrivals order m
  unfolding member arrivals
  arrivals-remove k [] m h = refl
  arrivals-remove k (j ∷ order) m h =
      ground (arith, get-remove k j m, same_iff k j, same_iff j k, arrivals-remove k order m)

  pub arrivals-insert :
      (k : K) (v : V) (order : List K) (m : Map K V)
      → member k order ≡ false
      → arrivals order (insert k v m) ≡ arrivals order m
  unfolding member arrivals
  arrivals-insert k v [] m h = refl
  arrivals-insert k v (j ∷ order) m h =
      ground (arith, get-insert k j v m, same_iff k j, same_iff j k, arrivals-insert k v order m)

  pub arrivals-append :
      (xs ys : List K) (m : Map K V) → arrivals (xs ++ ys) m ≡ arrivals xs m ++ arrivals ys m
  unfolding arrivals
  arrivals-append [] ys m = refl
  arrivals-append (k ∷ xs) ys m = ground (arith, arrivals-append xs ys m)

  pub length-arrivals :
      (order : List K) (m : Map K V) → IsSynced order m → length (arrivals order m) ≡ length m
  unfolding arrivals
  length-arrivals [] m s = length-IsSynced [] m s
  length-arrivals (k ∷ order) m s = ground (
    arith,
    IsSynced-head k order m s,
    length-remove k m s.sorted,
    arrivals-remove k order m s.distinct.0,
    length-arrivals order (remove k m) (IsSynced-pop k order m s),
  )

  -- Purging by the value commutes with listing.
  pub arrivals-purge :
      (p : V → Bool) (order : List K) (m : Map K V)
      → IsSorted m
      → arrivals (retain (λ k. contains k (keep (λ _ v. p v) m)) order) (keep (λ _ v. p v) m)
        ≡ retain p (arrivals order m)
  unfolding arrivals retain
  arrivals-purge p [] m s = refl
  arrivals-purge p (k ∷ order) m s =
      ground (arith, get-keep (λ _ v. p v) k m s, arrivals-purge p order m s)
