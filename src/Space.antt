-- ===== src/Space.antt =====
-- crates/woven-core/src/model.rs: coordinate frames, positions, routing policies and the validation
-- of space descriptors. Floating-point numbers and their operations are a parameter, `Floats`.
pub mod Validation
pub mod Sample
mod Examples
use signalweave.Prelude.{
  ℕ, Bool, true, false, ◌&&◌, Option, none, some, Result, ok, err, fail_if, ◌>>=◌, ◌>>◌, ◌==◌,
  if◌then◌else◌,
}
use signalweave.Ids.{SpaceId, SpaceEpoch, EntityId}

-- The operations of `f64` that the program calls. An `i64` is given by its offset from `i64::MIN`.
pub record Floats : Type 1 where
  pub F64 : Type 0
  pub is_finite : F64 → Bool
  pub is_positive : F64 → Bool
  pub add : F64 → F64 → F64
  pub sub : F64 → F64 → F64
  pub div : F64 → F64 → F64
  pub floor : F64 → F64
  pub abs : F64 → F64
  pub maximum : F64 → F64 → F64
  pub square : F64 → F64
  pub zero : F64
  pub le : F64 → F64 → Bool
  pub lt : F64 → F64 → Bool
  pub i64_min : F64
  pub i64_max : F64
  pub to_i64 : F64 → ℕ
  pub of_u64 : ℕ → F64

pub data CoordinateFrame (F : Type 0) : Type 0 where
  logical : CoordinateFrame F
  cartesian_2d : F → CoordinateFrame F
  cartesian_3d : F → CoordinateFrame F

pub data EntityPosition (F : Type 0) : Type 0 where
  at_2d : F → F → EntityPosition F
  at_3d : F → F → F → EntityPosition F

pub data PositionValidationError : Type 0 where
  logical_frame dimension_mismatch non_finite_coordinate : PositionValidationError

pub record ParentAnchor : Type 0 where
  pub parent_space : SpaceId
  pub anchor_entity : EntityId

-- The fields of a grid are `cell_size`, `interest_radius` and `exact_distance`.
pub data RoutingPolicy (F : Type 0) : Type 0 where
  broadcast_all : RoutingPolicy F
  spatial_grid_2d : F → F → Bool → RoutingPolicy F
  spatial_grid_3d : F → F → Bool → RoutingPolicy F
  topic_only : RoutingPolicy F

pub record SpaceDescriptor (F : Type 0) : Type 0 where
  pub id : SpaceId
  pub local_frame : CoordinateFrame F
  pub parent : Option ParentAnchor
  pub epoch : SpaceEpoch
  pub routing : RoutingPolicy F

pub data SpaceValidationError : Type 0 where
  zero_space_id zero_epoch zero_parent_space_id zero_anchor_entity_id self_parent invalid_scale
        routing_dimension_mismatch :
      SpaceValidationError

abbrev pub dimensions_match : {F : Type 0} → EntityPosition F → CoordinateFrame F → Bool
dimensions_match (at_2d x y) (cartesian_2d _) = true
dimensions_match (at_3d x y z) (cartesian_3d _) = true
dimensions_match _ _ = false

abbrev pub is_logical : {F : Type 0} → CoordinateFrame F → Bool
is_logical logical = true
is_logical _ = false

abbrev pub is_2d : {F : Type 0} → CoordinateFrame F → Bool
is_2d (cartesian_2d _) = true
is_2d _ = false

abbrev pub is_3d : {F : Type 0} → CoordinateFrame F → Bool
is_3d (cartesian_3d _) = true
is_3d _ = false

module _ (f : Floats) where
  open f use {F64, is_finite, is_positive}

  unfoldable pub position_is_finite : EntityPosition F64 → Bool
  position_is_finite (at_2d x y) = is_finite x && is_finite y
  position_is_finite (at_3d x y z) = is_finite x && (is_finite y && is_finite z)

  unfoldable pub validate_for_frame :
      EntityPosition F64 → CoordinateFrame F64 → Result PositionValidationError (Unit {0})
  unfolding position_is_finite
  validate_for_frame position frame =
      if is_logical frame
      then err logical_frame
      else if dimensions_match position frame
      then if position_is_finite position then ok tt else err non_finite_coordinate
      else err dimension_mismatch

  unfoldable pub validate_positive_finite : F64 → Result SpaceValidationError (Unit {0})
  validate_positive_finite value =
      if is_finite value && is_positive value then ok tt else err invalid_scale

  unfoldable pub validate_parent :
      SpaceId → Option ParentAnchor → Result SpaceValidationError (Unit {0})
  validate_parent id none = ok tt
  validate_parent id (some parent) = do
    fail_if (parent.parent_space == 0) zero_parent_space_id
    fail_if (parent.anchor_entity == 0) zero_anchor_entity_id
    fail_if (parent.parent_space == id) self_parent

  unfoldable pub validate_frame : CoordinateFrame F64 → Result SpaceValidationError (Unit {0})
  unfolding validate_positive_finite
  validate_frame logical = ok tt
  validate_frame (cartesian_2d meters_per_unit) = validate_positive_finite meters_per_unit
  validate_frame (cartesian_3d meters_per_unit) = validate_positive_finite meters_per_unit

  unfoldable pub validate_routing :
      CoordinateFrame F64 → RoutingPolicy F64 → Result SpaceValidationError (Unit {0})
  unfolding validate_positive_finite
  validate_routing frame broadcast_all = ok tt
  validate_routing frame topic_only = ok tt
  validate_routing frame (spatial_grid_2d cell_size interest_radius _) = do
    (if is_2d frame then ok tt else err routing_dimension_mismatch)
    validate_positive_finite cell_size
    validate_positive_finite interest_radius
  validate_routing frame (spatial_grid_3d cell_size interest_radius _) = do
    (if is_3d frame then ok tt else err routing_dimension_mismatch)
    validate_positive_finite cell_size
    validate_positive_finite interest_radius

  unfoldable pub validate : SpaceDescriptor F64 → Result SpaceValidationError (Unit {0})
  validate d = do
    fail_if (d.id == 0) zero_space_id
    fail_if (d.epoch == 0) zero_epoch
    validate_parent d.id d.parent
    validate_frame d.local_frame
    validate_routing d.local_frame d.routing
