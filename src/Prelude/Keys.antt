-- ===== src/Prelude/Keys.antt =====
-- Keys of ordered maps. `#[derive(Ord)]` compares the fields of a struct in their order, so a key
-- is given by the list of its fields' numbers, and all keys share one lexicographic order.
use Prim.Native.Nat.{ℕ, suc}
use mathlib.Core.Path.{◌≡◌, refl}
use mathlib.Core.Logic.{◌↔◌}
use mathlib.Core.Bool.{Bool, true, false, ◌&&◌}
use mathlib.Core.Option.{Option, none, some}
use mathlib.Core.List.{List, [], ◌∷◌}
use native.Mathlib.Omega.{arith}
use signalweave.Prelude.Tests.{ltb, ◌==◌, if◌then◌else◌}

pub record Key {ℓ} (K : Type ℓ) : Type ℓ where
  pub rank : K → List ℕ
  pub rank_injective : (a b : K) → rank a ≡ rank b → a ≡ b

ranks_eq : List ℕ → List ℕ → Bool
ranks_eq [] [] = true
ranks_eq [] (y ∷ ys) = false
ranks_eq (x ∷ xs) [] = false
ranks_eq (x ∷ xs) (y ∷ ys) = (x == y) && ranks_eq xs ys

ranks_lt : List ℕ → List ℕ → Bool
ranks_lt [] [] = false
ranks_lt [] (y ∷ ys) = true
ranks_lt (x ∷ xs) [] = false
ranks_lt (x ∷ xs) (y ∷ ys) =
    let rest = ranks_lt xs ys in if ltb x y then true else if x == y then rest else false

ranks_eq_refl : (xs : List ℕ) → ranks_eq xs xs ≡ true
unfolding ranks_eq
ranks_eq_refl [] = refl
ranks_eq_refl (x ∷ xs) = ground (arith, ranks_eq_refl xs)

ranks_eq_sound : (xs ys : List ℕ) → ranks_eq xs ys ≡ true → xs ≡ ys
unfolding ranks_eq
ranks_eq_sound [] [] h = refl
ranks_eq_sound [] (y ∷ ys) h = cc
ranks_eq_sound (x ∷ xs) [] h = cc
ranks_eq_sound (x ∷ xs) (y ∷ ys) h = ground (arith, ranks_eq_sound xs ys)

ranks_lt_irrefl : (xs : List ℕ) → ranks_lt xs xs ≡ false
unfolding ranks_lt
ranks_lt_irrefl [] = refl
ranks_lt_irrefl (x ∷ xs) = ground (arith, ranks_lt_irrefl xs)

ranks_lt_trans :
    (xs ys zs : List ℕ) → ranks_lt xs ys ≡ true → ranks_lt ys zs ≡ true → ranks_lt xs zs ≡ true
unfolding ranks_lt
ranks_lt_trans [] [] zs p q = cc
ranks_lt_trans [] (y ∷ ys) [] p q = cc
ranks_lt_trans [] (y ∷ ys) (z ∷ zs) p q = refl
ranks_lt_trans (x ∷ xs) [] zs p q = cc
ranks_lt_trans (x ∷ xs) (y ∷ ys) [] p q = cc
ranks_lt_trans (x ∷ xs) (y ∷ ys) (z ∷ zs) p q = ground (arith, ranks_lt_trans xs ys zs)

ranks_lt-total :
    (xs ys : List ℕ) → ranks_eq xs ys ≡ false → ranks_lt xs ys ≡ false → ranks_lt ys xs ≡ true
unfolding ranks_lt ranks_eq
ranks_lt-total [] [] p q = cc
ranks_lt-total [] (y ∷ ys) p q = cc
ranks_lt-total (x ∷ xs) [] p q = refl
ranks_lt-total (x ∷ xs) (y ∷ ys) p q = ground (arith, ranks_lt-total xs ys)

module _ {ℓ} {K : Type ℓ} ⦃e : Key K⦄ where
  -- `==` and `<` of the derived instances.
  unfoldable pub same : K → K → Bool
  unfolding ranks_eq
  same a b = ranks_eq (e.rank a) (e.rank b)

  unfoldable pub before : K → K → Bool
  unfolding ranks_lt
  before a b = ranks_lt (e.rank a) (e.rank b)

  pub same_refl : (a : K) → same a a ≡ true
  unfolding same
  same_refl a = ranks_eq_refl (e.rank a)

  pub same_iff : (a b : K) → (same a b ≡ true) ↔ (a ≡ b)
  unfolding same
  same_iff a b =
      (λ h. e.rank_injective a b (ranks_eq_sound (e.rank a) (e.rank b) h), λ h. subst_same h)
    where
      subst_same : a ≡ b → ranks_eq (e.rank a) (e.rank b) ≡ true
      subst_same h = rw h (ranks_eq_refl (e.rank b))

  pub before_irrefl : (a : K) → before a a ≡ false
  unfolding before
  before_irrefl a = ranks_lt_irrefl (e.rank a)

  pub before_trans : (a b c : K) → before a b ≡ true → before b c ≡ true → before a c ≡ true
  unfolding before
  before_trans a b c = ranks_lt_trans (e.rank a) (e.rank b) (e.rank c)

  pub before_total : (a b : K) → same a b ≡ false → before a b ≡ false → before b a ≡ true
  unfolding before same
  before_total a b = ranks_lt-total (e.rank a) (e.rank b)

pub singleton-injective : (a b : ℕ) → a ∷ [] ≡ b ∷ [] → a ≡ b
singleton-injective a b h = cc

instance abbrev pub nat_key : Key ℕ
nat_key = record { rank = λ n. n ∷ []; rank_injective = singleton-injective }

-- `None` stands before every `Some`.
abbrev pub opt_rank : Option ℕ → ℕ
opt_rank none = 0
opt_rank (some n) = suc n

pub opt_rank-injective : (a b : Option ℕ) → opt_rank a ≡ opt_rank b → a ≡ b
opt_rank-injective a b h = ground arith
