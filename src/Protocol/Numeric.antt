-- ===== src/Protocol/Numeric.antt =====
-- The macro `numeric_enum!` of crates/woven-protocol/src/model.rs: an enumeration whose variants
-- have numbers on the wire.
use signalweave.Prelude.{
  ℕ, ◌≡◌, Bool, Option, none, some, List, [], ◌∷◌, ◌==◌, if◌then◌else◌, All, arith,
}

-- The `match` that the macro writes.
unfoldable pub from_variants : {E : Type 0} → List (ℕ × E) → ℕ → Option E
from_variants [] n = none
from_variants ((m, e) ∷ variants) n = if n == m then some e else from_variants variants n

pub record NumericEnum (E : Type 0) : Type 0 where
  pub number : E → ℕ
  pub variants : List (ℕ × E)
  pub variant_found : (e : E) → from_variants variants (number e) ≡ some e
  pub variants_numbered : All (λ (entry : ℕ × E). number entry.1 ≡ entry.0) variants

number-from_variants :
    {E : Type 0} (number : E → ℕ) (variants : List (ℕ × E))
    → All (λ (entry : ℕ × E). number entry.1 ≡ entry.0) variants
    → (n : ℕ) (e : E) → from_variants variants n ≡ some e
    → number e ≡ n
unfolding from_variants
number-from_variants number [] numbered n e h = cc
number-from_variants number ((m, d) ∷ variants) numbered n e h =
    ground (arith, number-from_variants number variants numbered.1 n e)

module _ {E : Type 0} ⦃numeric : NumericEnum E⦄ where
  unfoldable pub value_of : E → ℕ
  value_of = numeric.number

  unfoldable pub from_wire : ℕ → Option E
  unfolding from_variants
  from_wire = from_variants numeric.variants

  -- `==` of the derived instance
  unfoldable pub is_same : E → E → Bool
  unfolding value_of
  is_same a b = value_of a == value_of b

-- Every variant comes back from its number, and a number that is read as a variant is its number.
abbrev pub RoundTrips : (E : Type 0) ⦃numeric : NumericEnum E⦄ → Type 0
RoundTrips E =
    ((e : E) → from_wire (value_of e) ≡ some e)
    × ((n : ℕ) (e : E) → from_wire n ≡ some e → value_of e ≡ n)

pub numeric-RoundTrips : (E : Type 0) ⦃numeric : NumericEnum E⦄ → RoundTrips E
unfolding from_wire value_of
numeric-RoundTrips E ⦃numeric⦄ = (
  numeric.variant_found,
  number-from_variants numeric.number numeric.variants numeric.variants_numbered,
)
