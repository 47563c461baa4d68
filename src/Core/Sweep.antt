-- ===== src/Core/Sweep.antt =====
-- What one loop over spaces or entities adds in crates/woven-core/src/core.rs.
use signalweave.Prelude.{
  ℕ, ◌+◌, ◌≤◌, ◌≡◌, refl, Bool, true, not, List, [], ◌∷◌, Set, nat_key, arith, All, count_if,
  length, same_iff, if◌then◌else◌,
}
use signalweave.Prelude.Maps.{contains}
use signalweave.Prelude.Maps.Laws.{get-insert, length-insert_new}
use signalweave.Core.Cascade.{add, sweep}

abbrev pub IsWithin : Set ℕ → Set ℕ → Type 0
IsWithin a b = (k : ℕ) → contains k a ≡ true → contains k b ≡ true

pub add-IsWithin : (k : ℕ) (set : Set ℕ) → IsWithin set (add k set)
add-IsWithin k set j h = ground (arith, get-insert k j tt set)

pub contains-add : (k : ℕ) (set : Set ℕ) → contains k (add k set) ≡ true
contains-add k set = ground (arith, get-insert k k tt set, same_iff k k)

module _ {A : Type 0} (id : A → ℕ) (test : Set ℕ → A → Bool) where
  -- The set after the test of one element.
  abbrev tested : A → Set ℕ → Set ℕ
  tested a set = if test set a then add (id a) set else set

  tested-IsWithin : (a : A) (set : Set ℕ) → IsWithin set (tested a set)
  tested-IsWithin a set j h = ground (arith, add-IsWithin (id a) set j h)

  pub sweep-IsWithin : (rest : List A) (set : Set ℕ) → IsWithin set (sweep id test rest set)
  unfolding sweep
  sweep-IsWithin [] set j h = h
  sweep-IsWithin (a ∷ rest) set j h =
      sweep-IsWithin rest (tested a set) j (tested-IsWithin a set j h)

  -- Elements that the set lacks.
  abbrev pub missing : List A → Set ℕ → ℕ
  missing rest set = count_if (λ a. not (contains (id a) set)) rest

  missing-le :
      (rest : List A) (set more : Set ℕ) → IsWithin set more → missing rest more ≤ missing rest set
  unfolding count_if
  missing-le [] set more w = omega arith
  missing-le (a ∷ rest) set more w = ground (arith, missing-le rest set more w, w (id a))

  -- What the set gains the elements lose.
  pub sweep-missing :
      (rest : List A) (set : Set ℕ)
      → length (sweep id test rest set) + missing rest (sweep id test rest set)
        ≤ length set + missing rest set
  unfolding sweep count_if
  sweep-missing [] set = omega arith
  sweep-missing (a ∷ rest) set = ground (
    arith,
    sweep-missing rest (tested a set),
    missing-le rest set (tested a set) (tested-IsWithin a set),
    sweep-IsWithin rest (tested a set) (id a),
    length-insert_new (id a) tt set,
    contains-add (id a) set,
    tested-IsWithin a set (id a),
  )

  pub length-sweep-le : (rest : List A) (set : Set ℕ) → length set ≤ length (sweep id test rest set)
  unfolding sweep
  length-sweep-le [] set = omega arith
  length-sweep-le (a ∷ rest) set =
      ground (arith, length-sweep-le rest (tested a set), length-insert_new (id a) tt set)

  -- A sweep that adds nothing leaves the set as it is.
  pub sweep-same :
      (rest : List A) (set : Set ℕ)
      → length set ≡ length (sweep id test rest set)
      → sweep id test rest set ≡ set
  unfolding sweep
  sweep-same [] set h = refl
  sweep-same (a ∷ rest) set h = ground (
    arith,
    sweep-same rest (tested a set),
    length-sweep-le rest (tested a set),
    length-insert_new (id a) tt set,
  )

  -- Every element that passes the test of the first set is added.
  pub sweep-closed :
      ((set more : Set ℕ) (a : A) → IsWithin set more → test set a ≡ true → test more a ≡ true)
      → (rest : List A) (set : Set ℕ)
      → All (λ a. test set a ≡ true → contains (id a) (sweep id test rest set) ≡ true) rest
  unfolding sweep
  sweep-closed mono rest set = go rest set set (λ k h. h)
    where
      go :
          (rest : List A) (first set : Set ℕ)
          → IsWithin first set
          → All (λ a. test first a ≡ true → contains (id a) (sweep id test rest set) ≡ true) rest
      go [] first set w = tt
      go (a ∷ rest) first set w = (
        (λ h.
            sweep-IsWithin rest (tested a set) (id a)
              (ground (arith, mono first set a w h, contains-add (id a) set))),
        go rest first (tested a set) (λ k h. tested-IsWithin a set k (w k h)),
      )

  -- The set stays within a bound that holds every element whose test passes on a set within it.
  pub sweep-least :
      (p : ℕ → Bool) (rest : List A)
      → All
          (λ a.
            (set : Set ℕ)
            → ((k : ℕ) → contains k set ≡ true → p k ≡ true)
            → test set a ≡ true
            → p (id a) ≡ true)
          rest
      → (set : Set ℕ) → ((k : ℕ) → contains k set ≡ true → p k ≡ true)
      → (k : ℕ) → contains k (sweep id test rest set) ≡ true
      → p k ≡ true
  unfolding sweep
  sweep-least p [] h set w k c = w k c
  sweep-least p (a ∷ rest) h set w k c =
      sweep-least p rest h.1 (tested a set)
        (λ j d. ground (arith, w j, h.0 set w, get-insert (id a) j tt set, same_iff (id a) j)) k c
