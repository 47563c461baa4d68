-- ===== src/Core/Recipients.antt =====
-- Whom a message reaches in crates/woven-core/src/core.rs.
use signalweave.Prelude.{
  ◌≡◌, Bool, true, false, ◌&&◌, ◌||◌, none, some, [], ◌∷◌, Map, Set, nat_key, arith, any, same_iff,
  ◌==◌, Option-cases, Bool-cases, inl, inr,
}
use signalweave.Prelude.Maps.{get, insert, contains}
use signalweave.Prelude.Maps.Laws.{get-insert}
use signalweave.Ids.{EntityId, ConnectionId}
use signalweave.Message.{OutboundMessage}
use signalweave.Space.{
  Floats, RoutingPolicy, broadcast_all, spatial_grid_2d, spatial_grid_3d, topic_only,
}
use signalweave.Core.{SessionState, SpatialCellKey}
use signalweave.Core.Addressed.{addressed}
use signalweave.Core.Routing.{
  Search, reached, entity_loop, is_candidate, cell_loop, grid_search, grid_recipients,
  subscribers_of, route, routing_recipients,
}

module _ (f : Floats) where
  open f use {F64}

  -- The entity lets the message reach the connection.
  abbrev reaches : Search f → ConnectionId → EntityId → Bool
  reaches q connection id = elim (reached f q id) [
    | none ↦ false
    | some owner ↦ owner == connection
  ]

  -- An entity of a cell near the source does.
  abbrev in_range : Search f → ConnectionId → Map SpatialCellKey (Set EntityId) → Bool
  in_range q connection cells =
      any
        (λ (entry : SpatialCellKey × Set EntityId).
          is_candidate f q entry.0
          && any (λ (member : EntityId × Unit {0}). reaches q connection member.0) entry.1)
        cells

  abbrev searched : SessionState F64 → OutboundMessage → ConnectionId → F64 → F64 → Bool → Bool
  searched session outbound connection cell_size radius exact =
      elim (grid_search f session outbound (subscribers_of f session outbound) cell_size radius
        exact) [ none ↦ false | some q ↦ in_range q connection session.cell_entities ]

  -- Whether the routing of a space lets a message that is not critical reach the connection.
  abbrev routes : SessionState F64 → OutboundMessage → ConnectionId → RoutingPolicy F64 → Bool
  routes session outbound connection broadcast_all = true
  routes session outbound connection topic_only = true
  routes session outbound connection (spatial_grid_2d cell_size radius exact) =
      searched session outbound connection cell_size radius exact
  routes session outbound connection (spatial_grid_3d cell_size radius exact) =
      searched session outbound connection cell_size radius exact

  entity_loop-contains :
      (q : Search f) (connection : ConnectionId) (entities : Set EntityId)
      (recipients : Set ConnectionId)
      → contains connection (entity_loop f q entities recipients) ≡ (
          contains connection recipients
          || (contains connection q.subscribers
              && any (λ (member : EntityId × Unit {0}). reaches q connection member.0) entities))
  unfolding entity_loop any
  entity_loop-contains q connection [] recipients = ground arith
  entity_loop-contains q connection ((id, u) ∷ rest) recipients =
      elim (Option-cases (reached f q id)) [
        | inl e ↦ ground (arith, e, entity_loop-contains q connection rest recipients)
        | inr (owner, e) ↦ elim (Bool-cases (contains owner q.subscribers)) [
          | inl s ↦ ground (
            arith,
            e,
            s,
            entity_loop-contains q connection rest (insert owner tt recipients),
            get-insert owner connection tt recipients,
            same_iff owner connection,
          )
          | inr s ↦ ground (arith, e, s, entity_loop-contains q connection rest recipients)
        ]
      ]

  cell_loop-contains :
      (q : Search f) (connection : ConnectionId) (cells : Map SpatialCellKey (Set EntityId))
      (recipients : Set ConnectionId)
      → contains connection (cell_loop f q cells recipients) ≡ (
          contains connection recipients
          || (contains connection q.subscribers && in_range q connection cells))
  unfolding cell_loop any
  cell_loop-contains q connection [] recipients = ground arith
  cell_loop-contains q connection ((c, entities) ∷ rest) recipients =
      elim (Bool-cases (is_candidate f q c)) [
        | inl e ↦ ground (
          arith,
          e,
          cell_loop-contains q connection rest (entity_loop f q entities recipients),
          entity_loop-contains q connection entities recipients,
        )
        | inr e ↦ ground (arith, e, cell_loop-contains q connection rest recipients)
      ]

  grid_search-subscribers :
      (session : SessionState F64) (outbound : OutboundMessage) (subscribers : Set ConnectionId)
      (cell_size radius : F64) (exact : Bool) (q : Search f)
      → grid_search f session outbound subscribers cell_size radius exact ≡ some q
      → q.subscribers ≡ subscribers
  unfolding grid_search
  grid_search-subscribers session outbound subscribers cell_size radius exact q h = ground arith

  grid_recipients-contains :
      (session : SessionState F64) (outbound : OutboundMessage) (connection : ConnectionId)
      (cell_size radius : F64) (exact : Bool)
      → contains connection (
          grid_recipients f session outbound
            (subscribers_of f session outbound)
            cell_size
            radius
            exact)
        ≡ (contains connection (subscribers_of f session outbound)
            && searched session outbound connection cell_size radius exact)
  unfolding grid_recipients get
  grid_recipients-contains session outbound connection cell_size radius exact =
      elim (Option-cases (
        grid_search f session outbound (subscribers_of f session outbound) cell_size radius
          exact)) [
            | inl e ↦ ground (arith, e)
            | inr (q, e) ↦ ground (
              arith,
              e,
              grid_search-subscribers session outbound (subscribers_of f session outbound) cell_size
                  radius exact q e,
              cell_loop-contains q connection session.cell_entities [],
            )
          ]

  route-contains :
      (session : SessionState F64) (outbound : OutboundMessage) (connection : ConnectionId)
      (routing : RoutingPolicy F64)
      → contains connection (route f session outbound routing) ≡ (
          contains connection (subscribers_of f session outbound)
          && routes session outbound connection routing)
  unfolding route
  route-contains session outbound connection broadcast_all = ground arith
  route-contains session outbound connection topic_only = ground arith
  route-contains session outbound connection (spatial_grid_2d cell_size radius exact) =
      grid_recipients-contains session outbound connection cell_size radius exact
  route-contains session outbound connection (spatial_grid_3d cell_size radius exact) =
      grid_recipients-contains session outbound connection cell_size radius exact

  -- A connection is among the recipients of a message exactly when the message's space exists, the connection subscribes
  -- to it, and the message is critical, or the space broadcasts or routes by topic, or, in a grid, the message names an
  -- entity that has a position and a cell of the message's space and epoch, and an entity of the connection that has a
  -- position stands in a cell of that space and epoch which is no more than the interest radius of cells away in each
  -- coordinate, and, where the space asks for the exact distance, is within the radius itself.
  pub contains-routing_recipients :
      (session : SessionState F64) (outbound : OutboundMessage) (connection : ConnectionId)
      → contains connection (routing_recipients f session outbound)
        ≡ addressed f session outbound connection (get outbound.space session.spaces)
  unfolding routing_recipients get
  contains-routing_recipients session outbound connection =
      elim (Option-cases (get outbound.space session.spaces)) [
        | inl e ↦ ground (arith, e)
        | inr (descriptor, e) ↦
            ground (arith, e, route-contains session outbound connection descriptor.routing)
      ]
