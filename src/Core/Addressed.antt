-- ===== src/Core/Addressed.antt =====
-- Whom a message is to reach, said without the loops of crates/woven-core/src/core.rs.
use signalweave.Prelude.{
  Bool, true, false, not, ◌&&◌, ◌||◌, Option, none, some, [], Set, nat_key, any, ◌==◌, or_default,
}
use signalweave.Prelude.Maps.{get, contains}
use signalweave.Ids.{EntityId, ConnectionId}
use signalweave.Message.{OutboundMessage, is_critical}
use signalweave.Space.{
  Floats, EntityPosition, at_2d, at_3d, RoutingPolicy, broadcast_all, spatial_grid_2d,
  spatial_grid_3d, topic_only, SpaceDescriptor,
}
use signalweave.Core.{EntityRecord, SessionState, SpatialCell, cell_2d, cell_3d, SpatialCellKey}
use signalweave.Core.Routing.{abs_diff}

-- The cell is one of the message's space and epoch.
abbrev pub is_of_message : OutboundMessage → SpatialCellKey → Bool
is_of_message outbound c = c.space == outbound.space && c.space_epoch == outbound.space_epoch

module _ (f : Floats) where
  open f use {F64, le, add, sub, div, square, abs, maximum, zero, is_finite, of_u64}

  -- Cells of one dimension whose coordinates differ by no more than a number of cells.
  abbrev pub near : SpatialCell → SpatialCell → F64 → Bool
  near (cell_2d a b) (cell_2d x y) cells =
      le (of_u64 (abs_diff a x)) cells && le (of_u64 (abs_diff b y)) cells
  near (cell_3d a b c) (cell_3d x y z) cells =
      le (of_u64 (abs_diff a x)) cells
      && (le (of_u64 (abs_diff b y)) cells && le (of_u64 (abs_diff c z)) cells)
  near _ _ cells = false

  -- The square of a difference in the unit of a scale.
  abbrev scaled : F64 → F64 → F64
  scaled difference scale = square (div difference scale)

  -- Positions of one dimension whose distance is at most the radius, in the unit of the greatest of the radius and the
  -- differences of the coordinates, which must be finite.
  abbrev pub within : EntityPosition F64 → EntityPosition F64 → F64 → Bool
  within (at_2d a b) (at_2d x y) radius =
      let scale = maximum (maximum radius (abs (sub a x))) (abs (sub b y)) in
      is_finite scale
      && le (add (add zero (scaled (sub a x) scale)) (scaled (sub b y) scale)) (scaled radius scale)
  within (at_3d a b c) (at_3d x y z) radius =
      let scale =
        maximum (maximum (maximum radius (abs (sub a x))) (abs (sub b y))) (abs (sub c z)) in
      is_finite scale
      && le
          (add (add (add zero (scaled (sub a x) scale)) (scaled (sub b y) scale))
            (scaled (sub c z) scale))
          (scaled radius scale)
  within _ _ radius = false

  -- The entity is the connection's, and has a position, within the radius where the distance counts.
  abbrev pub hears :
      EntityPosition F64 → F64 → Bool → ConnectionId → Option (EntityRecord F64) → Bool
  hears source radius exact connection none = false
  hears source radius exact connection (some entity) = elim entity.position [
    | none ↦ false
    | some position ↦
        entity.owner_connection == connection && (not exact || within source position radius)
  ]

  -- One of the entities in a near cell of the message's space and epoch does.
  abbrev pub heard_from :
      SessionState F64
      → OutboundMessage
      → ConnectionId
      → F64
      → F64
      → Bool
      → EntityPosition F64
      → SpatialCellKey
      → Bool
  heard_from session outbound connection cell_size radius exact source cell =
      is_of_message outbound cell
      && any
          (λ (entry : SpatialCellKey × Set EntityId).
            (is_of_message outbound entry.0 && near cell.cell entry.0.cell (div radius cell_size))
            && any
                (λ (member : EntityId × Unit {0}).
                  hears source radius exact connection (get member.0 session.entities))
                entry.1)
          session.cell_entities

  -- The position of an entity.
  abbrev pub place_of : Option (EntityRecord F64) → Option (EntityPosition F64)
  place_of none = none
  place_of (some entity) = entity.position

  -- The message has a source with a position and a cell, from which the connection hears it.
  abbrev pub is_near : SessionState F64 → OutboundMessage → ConnectionId → F64 → F64 → Bool → Bool
  is_near session outbound connection cell_size radius exact = elim outbound.entity [
    | none ↦ false
    | some source ↦ elim (place_of (get source session.entities)) [
      | none ↦ false
      | some position ↦ elim (get source session.entity_cells) [
        | none ↦ false
        | some cell ↦ heard_from session outbound connection cell_size radius exact position cell
      ]
    ]
  ]

  -- Whether the routing of a space lets a message that is not critical reach the connection.
  abbrev pub admits : SessionState F64 → OutboundMessage → ConnectionId → RoutingPolicy F64 → Bool
  admits session outbound connection broadcast_all = true
  admits session outbound connection topic_only = true
  admits session outbound connection (spatial_grid_2d cell_size radius exact) =
      is_near session outbound connection cell_size radius exact
  admits session outbound connection (spatial_grid_3d cell_size radius exact) =
      is_near session outbound connection cell_size radius exact

  -- Whether a message is to reach the connection.
  abbrev pub addressed :
      SessionState F64 → OutboundMessage → ConnectionId → Option (SpaceDescriptor F64) → Bool
  addressed session outbound connection none = false
  addressed session outbound connection (some descriptor) =
      contains connection (or_default (get outbound.space session.subscribers) [])
      && (is_critical outbound.delivery || admits session outbound connection descriptor.routing)
