-- ===== src/Core/Routing.antt =====
-- Spatial cells and the recipients of a message in crates/woven-core/src/core.rs.
use signalweave.Prelude.{
  ℕ, ◌+◌, ◌-◌, Bool, false, not, ◌&&◌, ◌||◌, Option, none, some, List, [], ◌∷◌, Result, ok, err,
  ◌>>=◌, Map, Set, nat_key, ◌==◌, or_default, if◌then◌else◌,
}
use signalweave.Prelude.Maps
use signalweave.Ids.{EntityId, ConnectionId, SpaceEpoch}
use signalweave.Message.{OutboundMessage, is_critical}
use signalweave.Space.{
  Floats, EntityPosition, at_2d, at_3d, RoutingPolicy, broadcast_all, spatial_grid_2d,
  spatial_grid_3d, topic_only, SpaceDescriptor, dimension_mismatch,
}
use signalweave.Core.{
  CoreError, EntityRecord, SessionState, SpatialCell, cell_2d, cell_3d, SpatialCellKey,
  invalid_entity_position, spatial_cell_out_of_range,
}

-- `let Some(a) = option else { return … }`
abbrev pub and_then : {A B : Type 0} → Option A → (A → Option B) → Option B
and_then none next = none
and_then (some a) next = next a

-- `abs_diff`
abbrev pub abs_diff : ℕ → ℕ → ℕ
abs_diff a b = (a - b) + (b - a)

module _ (f : Floats) where
  open f use {
    F64, is_finite, add, sub, div, floor, abs, maximum, square, zero, le, lt, i64_min, i64_max,
    to_i64, of_u64,
  }

  unfoldable pub grid_coordinate : F64 → F64 → Result CoreError ℕ
  grid_coordinate value cell_size =
      let coordinate = floor (div value cell_size) in
      if not (is_finite coordinate) || (lt coordinate i64_min || le i64_max coordinate)
      then err spatial_cell_out_of_range
      else ok (to_i64 coordinate)

  unfoldable pub spatial_cell_for :
      EntityPosition F64
      → SpaceDescriptor F64
      → SpaceEpoch
      → Result CoreError (Option SpatialCellKey)
  unfolding grid_coordinate
  spatial_cell_for position descriptor epoch = cell position descriptor.routing
    where
      indexed : SpatialCell → Result CoreError (Option SpatialCellKey)
      indexed c = ok (some (record { space = descriptor.id; space_epoch = epoch; cell = c }))

      cell : EntityPosition F64 → RoutingPolicy F64 → Result CoreError (Option SpatialCellKey)
      cell (at_2d x y) (spatial_grid_2d cell_size _ _) = do
        i ← grid_coordinate x cell_size
        j ← grid_coordinate y cell_size
        indexed (cell_2d i j)
      cell (at_3d x y z) (spatial_grid_3d cell_size _ _) = do
        i ← grid_coordinate x cell_size
        j ← grid_coordinate y cell_size
        k ← grid_coordinate z cell_size
        indexed (cell_3d i j k)
      cell _ broadcast_all = ok none
      cell _ topic_only = ok none
      cell _ _ = err (invalid_entity_position dimension_mismatch)

  unfoldable pub cells_are_near : SpatialCell → SpatialCell → F64 → Bool
  cells_are_near (cell_2d a b) (cell_2d x y) radius_in_cells =
      le (of_u64 (abs_diff a x)) radius_in_cells && le (of_u64 (abs_diff b y)) radius_in_cells
  cells_are_near (cell_3d a b c) (cell_3d x y z) radius_in_cells =
      le (of_u64 (abs_diff a x)) radius_in_cells
      && (le (of_u64 (abs_diff b y)) radius_in_cells && le (of_u64 (abs_diff c z)) radius_in_cells)
  cells_are_near _ _ radius_in_cells = false

  -- The differences of the coordinates, if both have the same dimension.
  abbrev pub components : EntityPosition F64 → EntityPosition F64 → Option (List F64)
  components (at_2d a b) (at_2d x y) = some (sub a x ∷ sub b y ∷ [])
  components (at_3d a b c) (at_3d x y z) = some (sub a x ∷ sub b y ∷ sub c z ∷ [])
  components _ _ = none

  unfoldable pub largest : F64 → List F64 → F64
  largest so_far [] = so_far
  largest so_far (c ∷ cs) = largest (maximum so_far (abs c)) cs

  unfoldable pub sum_of_squares : F64 → F64 → List F64 → F64
  sum_of_squares scale so_far [] = so_far
  sum_of_squares scale so_far (c ∷ cs) = sum_of_squares scale (add so_far (square (div c scale))) cs

  unfoldable pub squared_distance_within : EntityPosition F64 → EntityPosition F64 → F64 → Bool
  unfolding largest sum_of_squares
  squared_distance_within source candidate radius = elim (components source candidate) [
    | none ↦ false
    | some cs ↦
        (let scale = largest radius cs in
          if not (is_finite scale)
          then false
          else le (sum_of_squares scale zero cs) (square (div radius scale)))
  ]

  -- What the loops over the cells and over their entities read.
  pub record Search : Type 0 where
    pub entities : Map EntityId (EntityRecord F64)
    pub subscribers : Set ConnectionId
    pub message : OutboundMessage
    pub cell : SpatialCell
    pub position : EntityPosition F64
    pub radius_in_cells : F64
    pub interest_radius : F64
    pub exact_distance : Bool

  -- The connection that an entity lets the message reach, before the test of its subscription.
  unfoldable pub reached : Search → EntityId → Option ConnectionId
  unfolding squared_distance_within
  reached q id = elim (Maps.get id q.entities) [
    | none ↦ none
    | some candidate ↦ elim candidate.position [
      | none ↦ none
      | some position ↦
          if q.exact_distance && not (squared_distance_within q.position position q.interest_radius)
          then none
          else some candidate.owner_connection
    ]
  ]

  -- The inner loop of `routing_recipients`, over the entities of one cell.
  unfoldable pub entity_loop : Search → Set EntityId → Set ConnectionId → Set ConnectionId
  unfolding reached
  entity_loop q [] recipients = recipients
  entity_loop q ((id, _) ∷ rest) recipients = entity_loop q rest (elim (reached q id) [
    | none ↦ recipients
    | some owner ↦
        if Maps.contains owner q.subscribers then Maps.insert owner tt recipients else recipients
  ])

  -- A cell of the message's space and epoch, near the cell of its source.
  abbrev pub is_candidate : Search → SpatialCellKey → Bool
  is_candidate q c =
      c.space == q.message.space
      && (c.space_epoch == q.message.space_epoch && cells_are_near q.cell c.cell q.radius_in_cells)

  -- The outer loop, over the cells.
  unfoldable pub cell_loop :
      Search → Map SpatialCellKey (Set EntityId) → Set ConnectionId → Set ConnectionId
  unfolding entity_loop cells_are_near
  cell_loop q [] recipients = recipients
  cell_loop q ((c, entities) ∷ rest) recipients =
      cell_loop q rest (if is_candidate q c then entity_loop q entities recipients else recipients)

  -- The search in a grid, for a message whose source is there.
  unfoldable pub grid_search :
      SessionState F64 → OutboundMessage → Set ConnectionId → F64 → F64 → Bool → Option Search
  grid_search session outbound subscribers cell_size interest_radius exact_distance =
      and_then outbound.entity λ source_entity.
        and_then (Maps.get source_entity session.entities) λ source.
          and_then source.position λ source_position.
            and_then (Maps.get source_entity session.entity_cells) λ source_cell.
              if not (source_cell.space == outbound.space)
                || not (source_cell.space_epoch == outbound.space_epoch)
              then none
              else some (record {
                entities = session.entities;
                subscribers = subscribers;
                message = outbound;
                cell = source_cell.cell;
                position = source_position;
                radius_in_cells = div interest_radius cell_size;
                interest_radius = interest_radius;
                exact_distance = exact_distance;
              })

  unfoldable pub grid_recipients :
      SessionState F64 → OutboundMessage → Set ConnectionId → F64 → F64 → Bool → Set ConnectionId
  unfolding grid_search cell_loop
  grid_recipients session outbound subscribers cell_size interest_radius exact_distance =
      elim (grid_search session outbound subscribers cell_size interest_radius exact_distance) [
        | none ↦ []
        | some q ↦ cell_loop q session.cell_entities []
      ]

  abbrev pub subscribers_of : SessionState F64 → OutboundMessage → Set ConnectionId
  subscribers_of session outbound = or_default (Maps.get outbound.space session.subscribers) []

  -- The recipients of a message that is not critical.
  unfoldable pub route : SessionState F64 → OutboundMessage → RoutingPolicy F64 → Set ConnectionId
  unfolding grid_recipients
  route session outbound broadcast_all = subscribers_of session outbound
  route session outbound topic_only = subscribers_of session outbound
  route session outbound (spatial_grid_2d cell_size radius exact) =
      grid_recipients session outbound (subscribers_of session outbound) cell_size radius exact
  route session outbound (spatial_grid_3d cell_size radius exact) =
      grid_recipients session outbound (subscribers_of session outbound) cell_size radius exact

  unfoldable pub routing_recipients : SessionState F64 → OutboundMessage → Set ConnectionId
  unfolding route
  routing_recipients session outbound = elim (Maps.get outbound.space session.spaces) [
    | none ↦ []
    | some descriptor ↦
        if is_critical outbound.delivery
        then subscribers_of session outbound
        else route session outbound descriptor.routing
  ]
