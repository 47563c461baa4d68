-- ===== src/Space/Examples.antt =====
-- Tests of the validation of space descriptors, with numbers and their infinities for floating-point
-- numbers, and the theorems at concrete descriptors.
use signalweave.Prelude.{ℕ, ◌≡◌, ◌≢◌, ◌↔◌, refl, true, some, ok, err}
use signalweave.Space.{
  cartesian_2d, cartesian_3d, at_2d, spatial_grid_2d, SpaceDescriptor, validate, validate_for_frame,
  dimension_mismatch, logical_frame, self_parent, routing_dimension_mismatch, validate_parent,
  validate_frame, validate_routing, validate_positive_finite,
}
use signalweave.Space.Sample.{floats}
use signalweave.Space.Validation.{
  PositionFits, IsMismatch, IsLogical, ParentFits, FrameFits, RoutingFits, validate_iff,
  validate_for_frame_iff,
}

abbrev grid : SpaceDescriptor ℕ
grid = record {
  id = 1;
  local_frame = cartesian_2d 10;
  parent = some (record { parent_space = 2; anchor_entity = 3 });
  epoch = 1;
  routing = spatial_grid_2d 5 20 true;
}

grid_valid : validate floats grid ≡ ok tt
unfolding validate validate_parent validate_frame validate_routing validate_positive_finite
grid_valid = refl

own_parent : validate floats (record grid { id = 2 }) ≡ err self_parent
unfolding validate validate_parent
own_parent = refl

flat_grid :
    validate floats (record grid { local_frame = cartesian_3d 10 }) ≡ err routing_dimension_mismatch
unfolding validate validate_parent validate_frame validate_routing validate_positive_finite
flat_grid = refl

validate_iff_example : (validate floats grid ≡ ok tt) ↔ (
    (grid.id ≢ 0)
    × (grid.epoch ≢ 0)
    × ParentFits 1 grid.parent
    × FrameFits floats grid.local_frame
    × RoutingFits floats grid.local_frame grid.routing)
validate_iff_example = validate_iff floats grid

validate_for_frame_iff_example :
    ((validate_for_frame floats (at_2d 4 1000) (cartesian_2d 10) ≡ ok tt)
      ↔ PositionFits floats (at_2d 4 1000) (cartesian_2d 10))
    × ((validate_for_frame floats (at_2d 4 1000) (cartesian_2d 10) ≡ err dimension_mismatch)
        ↔ IsMismatch floats (at_2d 4 1000) (cartesian_2d 10))
    × ((validate_for_frame floats (at_2d 4 1000) (cartesian_2d 10) ≡ err logical_frame)
        ↔ IsLogical floats (cartesian_2d 10))
validate_for_frame_iff_example = validate_for_frame_iff floats (at_2d 4 1000) (cartesian_2d 10)
