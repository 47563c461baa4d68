-- ===== src/Core/Keys.antt =====
-- The keys of the maps of a session in crates/woven-core/src/core.rs, in the order of their fields.
use signalweave.Prelude.{ℕ, ◌≡◌, List, [], ◌∷◌, Key, opt_rank, opt_rank-injective, arith}
use signalweave.Core.{SequenceKey, StateKey, SpatialCell, cell_2d, cell_3d, SpatialCellKey}

abbrev pub sequence_rank : SequenceKey → List ℕ
sequence_rank k =
    k.connection ∷ k.space ∷ k.space_epoch ∷ opt_rank k.entity ∷ k.channel ∷ k.component ∷ []

pub sequence_rank-injective : (a b : SequenceKey) → sequence_rank a ≡ sequence_rank b → a ≡ b
sequence_rank-injective a b h = ground (arith, opt_rank-injective a.entity b.entity)

instance abbrev pub sequence_key_order : Key SequenceKey
sequence_key_order = record { rank = sequence_rank; rank_injective = sequence_rank-injective }

abbrev pub state_rank : StateKey → List ℕ
state_rank k = k.space ∷ k.space_epoch ∷ opt_rank k.entity ∷ k.channel ∷ k.component ∷ []

pub state_rank-injective : (a b : StateKey) → state_rank a ≡ state_rank b → a ≡ b
state_rank-injective a b h = ground (arith, opt_rank-injective a.entity b.entity)

instance abbrev pub state_key_order : Key StateKey
state_key_order = record { rank = state_rank; rank_injective = state_rank-injective }

-- The variants of an enum are ordered before their fields.
abbrev pub cell_rank : SpatialCell → List ℕ
cell_rank (cell_2d x y) = 0 ∷ x ∷ y ∷ []
cell_rank (cell_3d x y z) = 1 ∷ x ∷ y ∷ z ∷ []

pub cell_rank-injective : (a b : SpatialCell) → cell_rank a ≡ cell_rank b → a ≡ b
cell_rank-injective (cell_2d x y) (cell_2d v w) h = cc
cell_rank-injective (cell_2d x y) (cell_3d u v w) h = ground arith
cell_rank-injective (cell_3d x y z) (cell_2d v w) h = ground arith
cell_rank-injective (cell_3d x y z) (cell_3d u v w) h = cc

abbrev pub spatial_cell_rank : SpatialCellKey → List ℕ
spatial_cell_rank k = k.space ∷ k.space_epoch ∷ cell_rank k.cell

pub spatial_cell_rank-injective :
    (a b : SpatialCellKey) → spatial_cell_rank a ≡ spatial_cell_rank b → a ≡ b
spatial_cell_rank-injective a b h = ground (arith, cell_rank-injective a.cell b.cell)

instance abbrev pub spatial_cell_key_order : Key SpatialCellKey
spatial_cell_key_order = record {
  rank = spatial_cell_rank;
  rank_injective = spatial_cell_rank-injective;
}
