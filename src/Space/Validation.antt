-- ===== src/Space/Validation.antt =====
-- What the validation in crates/woven-core/src/model.rs accepts.
use signalweave.Prelude.{◌≡◌, ◌≢◌, ◌↔◌, true, Option, none, some, ok, err, arith}
use signalweave.Ids.{SpaceId}
use signalweave.Space.{
  Floats, CoordinateFrame, logical, cartesian_2d, cartesian_3d, EntityPosition, at_2d, at_3d,
  logical_frame, dimension_mismatch, ParentAnchor, RoutingPolicy, broadcast_all, spatial_grid_2d,
  spatial_grid_3d, topic_only, SpaceDescriptor, is_2d, is_3d, validate, validate_parent,
  validate_frame, validate_routing, validate_for_frame, position_is_finite,
}

-- A parent anchor names two identifiers that are not zero, and not the space itself.
abbrev pub ParentFits : SpaceId → Option ParentAnchor → Type 0
ParentFits id none = Unit
ParentFits id (some p) = (p.parent_space ≢ 0) × (p.anchor_entity ≢ 0) × (p.parent_space ≢ id)

module _ (f : Floats) where
  open f use {F64, is_finite, is_positive}

  abbrev pub IsScale : F64 → Type 0
  IsScale x = (is_finite x ≡ true) × (is_positive x ≡ true)

  abbrev pub FrameFits : CoordinateFrame F64 → Type 0
  FrameFits logical = Unit
  FrameFits (cartesian_2d m) = IsScale m
  FrameFits (cartesian_3d m) = IsScale m

  abbrev pub RoutingFits : CoordinateFrame F64 → RoutingPolicy F64 → Type 0
  RoutingFits frame broadcast_all = Unit
  RoutingFits frame topic_only = Unit
  RoutingFits frame (spatial_grid_2d c r _) = (is_2d frame ≡ true) × IsScale c × IsScale r
  RoutingFits frame (spatial_grid_3d c r _) = (is_3d frame ≡ true) × IsScale c × IsScale r

  parent-fits :
      (id : SpaceId) (p : Option ParentAnchor) → (validate_parent f id p ≡ ok tt) ↔ ParentFits id p
  unfolding validate_parent
  parent-fits id none = ground arith
  parent-fits id (some p) = ground arith

  frame-fits : (frame : CoordinateFrame F64) → (validate_frame f frame ≡ ok tt) ↔ FrameFits frame
  unfolding validate_frame
  frame-fits logical = ground arith
  frame-fits (cartesian_2d m) = ground arith
  frame-fits (cartesian_3d m) = ground arith

  routing-fits :
      (frame : CoordinateFrame F64) (r : RoutingPolicy F64)
      → (validate_routing f frame r ≡ ok tt) ↔ RoutingFits frame r
  unfolding validate_routing
  routing-fits frame broadcast_all = ground arith
  routing-fits frame topic_only = ground arith
  routing-fits frame (spatial_grid_2d c r _) = ground arith
  routing-fits frame (spatial_grid_3d c r _) = ground arith

  -- A descriptor passes exactly when its identifier and epoch are not zero, its parent anchor names
  -- other, non-zero identifiers, its scale is finite and positive, and a grid has the dimension of
  -- the frame and finite, positive sizes.
  pub validate_iff :
      (d : SpaceDescriptor F64)
      → (validate f d ≡ ok tt) ↔ (
          (d.id ≢ 0)
          × (d.epoch ≢ 0)
          × ParentFits d.id d.parent
          × FrameFits d.local_frame
          × RoutingFits d.local_frame d.routing)
  unfolding validate
  validate_iff d = (sound, complete)
    where
      sound :
          validate f d ≡ ok tt
          → (d.id ≢ 0)
            × (d.epoch ≢ 0)
            × ParentFits d.id d.parent
            × FrameFits d.local_frame
            × RoutingFits d.local_frame d.routing
      sound h = (
        ground arith,
        ground arith,
        (parent-fits d.id d.parent).0 (ground arith),
        (frame-fits d.local_frame).0 (ground arith),
        (routing-fits d.local_frame d.routing).0 (ground arith),
      )

      complete :
          (d.id ≢ 0)
            × (d.epoch ≢ 0)
            × ParentFits d.id d.parent
            × FrameFits d.local_frame
            × RoutingFits d.local_frame d.routing
          → validate f d ≡ ok tt
      complete (nonzero, epoch, parent, frame, routing) = ground (
        arith,
        (parent-fits d.id d.parent).1 parent,
        (frame-fits d.local_frame).1 frame,
        (routing-fits d.local_frame d.routing).1 routing,
      )

  -- The position has the dimension of the frame, and each of its coordinates is finite.
  abbrev pub PositionFits : EntityPosition F64 → CoordinateFrame F64 → Type 0
  PositionFits (at_2d x y) (cartesian_2d _) = (is_finite x ≡ true) × (is_finite y ≡ true)
  PositionFits (at_3d x y z) (cartesian_3d _) =
      (is_finite x ≡ true) × (is_finite y ≡ true) × (is_finite z ≡ true)
  PositionFits _ _ = ⊥

  -- The position has another dimension than a frame that has one.
  abbrev pub IsMismatch : EntityPosition F64 → CoordinateFrame F64 → Type 0
  IsMismatch (at_2d x y) (cartesian_3d _) = Unit
  IsMismatch (at_3d x y z) (cartesian_2d _) = Unit
  IsMismatch _ _ = ⊥

  abbrev pub IsLogical : CoordinateFrame F64 → Type 0
  IsLogical logical = Unit
  IsLogical _ = ⊥

  -- A position passes exactly when the frame has its dimension and every one of its coordinates is finite; it is
  -- refused for its dimension exactly when the frame has the other one, and for a logical frame exactly when the frame
  -- is logical.
  pub validate_for_frame_iff :
      (p : EntityPosition F64) (frame : CoordinateFrame F64)
      → ((validate_for_frame f p frame ≡ ok tt) ↔ PositionFits p frame)
        × ((validate_for_frame f p frame ≡ err dimension_mismatch) ↔ IsMismatch p frame)
        × ((validate_for_frame f p frame ≡ err logical_frame) ↔ IsLogical frame)
  unfolding validate_for_frame position_is_finite
  validate_for_frame_iff (at_2d x y) logical = (ground arith, ground arith, ground arith)
  validate_for_frame_iff (at_2d x y) (cartesian_2d m) = (ground arith, ground arith, ground arith)
  validate_for_frame_iff (at_2d x y) (cartesian_3d m) = (ground arith, ground arith, ground arith)
  validate_for_frame_iff (at_3d x y z) logical = (ground arith, ground arith, ground arith)
  validate_for_frame_iff (at_3d x y z) (cartesian_2d m) = (ground arith, ground arith, ground arith)
  validate_for_frame_iff (at_3d x y z) (cartesian_3d m) = (ground arith, ground arith, ground arith)
