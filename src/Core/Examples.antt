-- ===== src/Core/Examples.antt =====
-- A small core: tests of membership, subscription and routing, and the theorems at it.
use signalweave.Prelude.{
  ◌++◌, Bool, Set, Option, false, ◌==◌, arith, same_iff, ℕ, ◌≡◌, refl, true, not, ◌||◌, none, some,
  List, [], ◌∷◌, ok, nat_key, same, before,
}
use signalweave.Prelude.Maps.{get, insert, contains}
use signalweave.Ids.{
  EntityId, SpaceId, SessionKey, SpaceKey, ConnectionId, session_key_order, space_key_order,
}
use signalweave.Message.{OutboundMessage, best_effort_event, ephemeral}
use signalweave.Queue
use signalweave.RateLimit
use signalweave.Auth.{
  AuthenticatedPrincipal, ChannelScope, can_read_channel, channel_scope_order, Authenticator,
  no_grants, read_write, can_read_namespace, can_read_session, can_read_space,
}
use signalweave.Space
use signalweave.Space.{
  SpaceDescriptor, at_2d, broadcast_all, cartesian_2d, spatial_grid_2d, validate_parent,
  validate_frame, validate_routing, validate_positive_finite,
}
use signalweave.Space.Sample.{floats}
use signalweave.Core
use signalweave.Core.{
  ConnectionState, SpatialCellKey, EntityRecord, SessionState, WovenCore, cell_2d,
  default_core_config, new_session,
}
use signalweave.Core.Sessions.{
  check_session, provision_session, check_space, install_space, check_history, check_parent,
}
use signalweave.Core.Connections.{
  check_connection_limit, transport_connected, check_credentials, authenticate, check_join,
  join_session_unchecked_admission, join_session,
}
use signalweave.Core.Subscriptions.{check_subscriber, check_subscription, subscribe}
use signalweave.Core.Agreement.{is_member, has_member, is_subscribed, has_subscriber}
use signalweave.Core.Steps.{
  Call, spawn, advance, leave, lose, provision, install, connect, sign_in, join, subscribe_to, step,
  run, run-Agrees,
}
use signalweave.Core.Routing.{
  routing_recipients, route, grid_recipients, grid_search, cell_loop, entity_loop, reached,
  cells_are_near, squared_distance_within, largest, sum_of_squares,
}
use signalweave.Core.Cascade.{cascade, cascade_loop, sweep}
use signalweave.Core.Closure.{IsClosed, cascade-IsClosed, implies}
use signalweave.Core.Least.{cascade-least}
use signalweave.Core.Entities.{move_to_cell}
use signalweave.Core.Cells.{IsIndexed, move_to_cell-IsIndexed}
use signalweave.Core.Keys.{spatial_cell_key_order}
use signalweave.Core.Delivery.{deliver_to-hidden}
use signalweave.Core.Fanout.{
  Fanout, can_receive, receiver, delivered, push_to, deliver_at, deliver, deliver_to, no_activity,
}
use signalweave.Core.Addressed.{addressed}
use signalweave.Core.Recipients.{contains-routing_recipients}

abbrev pub room : SessionKey
room = record { namespace = 1; session = 1 }

abbrev pub hall : SpaceKey
hall = record { session = room; space = 5 }

abbrev pub everyone : Authenticator
everyone _ = ok (record {
  principal_id = 7;
  grants = record no_grants {
    namespaces = (1, read_write) ∷ [];
    sessions = (room, read_write) ∷ [];
    spaces = (hall, read_write) ∷ [];
  };
})

abbrev pub hall_descriptor : SpaceDescriptor ℕ
hall_descriptor = record {
  id = 5;
  local_frame = cartesian_2d 1;
  parent = none;
  epoch = 1;
  routing = spatial_grid_2d 10 20 true;
}

abbrev pub begun : WovenCore ℕ
begun = record {
  authenticator = everyone;
  config = default_core_config;
  next_connection_id = 1;
  next_entity_id = 1;
  connections = [];
  sessions = [];
  channels = [];
  admissions = [];
  pending_admissions = [];
  admission_leases = [];
  journal_outbox = record { capacity = 1_024; records = [] };
}

abbrev history : List (Call ℕ)
history =
    provision room
    ∷ install room hall_descriptor
    ∷ connect
    ∷ sign_in 1 (record { token = [] })
    ∷ join 1 room
    ∷ subscribe_to 1 hall
    ∷ []

new-begun : Core.new {F = ℕ} everyone default_core_config ≡ ok begun
unfolding Core.new Core.validate Queue.validate RateLimit.validate
new-begun = refl

subscribed : is_subscribed (run floats begun history) 1 hall ≡ true
unfolding run step provision_session check_session install_space check_space transport_connected
    check_connection_limit authenticate check_credentials join_session
    join_session_unchecked_admission check_join subscribe check_subscriber check_subscription get
    insert same before Space.validate validate_parent validate_frame validate_routing
    validate_positive_finite check_history check_parent Queue.new Queue.validate can_read_namespace
    can_read_session can_read_space
subscribed = refl

-- The same, and then the connection has an entity, moves the space on, and is lost.
abbrev departed : List (Call ℕ)
departed = history ++ (spawn 1 hall 1 ∷ advance room 5 2 ∷ leave 1 room 7 ∷ lose 1 8 ∷ [])

run-Agrees_example :
    (is_member (run floats begun departed) 1 room ≡ has_member (run floats begun departed) 1 room)
    × (is_subscribed (run floats begun departed) 1 hall
        ≡ has_subscriber (run floats begun departed) 1 room 5)
    × ((not (is_subscribed (run floats begun departed) 1 hall)
          || is_member (run floats begun departed) 1 room)
        ≡ true)
run-Agrees_example = run-Agrees floats everyone default_core_config begun departed 1 hall new-begun

abbrev pub entity : ℕ → ℕ → ℕ → EntityRecord ℕ
entity id owner x = record {
  id = id;
  owner_connection = owner;
  owner_principal = owner;
  space = 5;
  space_epoch = 1;
  position = some (at_2d x 0);
}

-- Three subscribers with an entity each, the third far from the others.
abbrev pub crowd : SessionState ℕ
crowd = record new_session {
  spaces = (5, hall_descriptor) ∷ [];
  subscribers = (5, (1, tt) ∷ (2, tt) ∷ (3, tt) ∷ []) ∷ [];
  entities = (11, entity 11 1 4) ∷ (12, entity 12 2 15) ∷ (13, entity 13 3 90) ∷ [];
  entity_cells =
      (11, record { space = 5; space_epoch = 1; cell = cell_2d 0 0 })
      ∷ (12, record { space = 5; space_epoch = 1; cell = cell_2d 1 0 })
      ∷ (13, record { space = 5; space_epoch = 1; cell = cell_2d 9 0 })
      ∷ [];
  cell_entities =
      (record { space = 5; space_epoch = 1; cell = cell_2d 0 0 }, (11, tt) ∷ [])
      ∷ (record { space = 5; space_epoch = 1; cell = cell_2d 1 0 }, (12, tt) ∷ [])
      ∷ (record { space = 5; space_epoch = 1; cell = cell_2d 9 0 }, (13, tt) ∷ [])
      ∷ [];
}

abbrev wave : OutboundMessage
wave = record {
  namespace = 1;
  session = 1;
  space = 5;
  space_epoch = 1;
  entity = some 11;
  channel = 7;
  sequence = 1;
  delivery = best_effort_event;
  persistence = ephemeral;
  coalesce_key = none;
  payload = [];
}

wave_recipients : routing_recipients floats crowd wave ≡ (1, tt) ∷ (2, tt) ∷ []
unfolding routing_recipients route grid_recipients grid_search cell_loop entity_loop reached
    cells_are_near squared_distance_within largest sum_of_squares get insert same before
wave_recipients = refl

contains-routing_recipients_example :
    contains 2 (routing_recipients floats crowd wave)
    ≡ addressed floats crowd wave 2 (get wave.space crowd.spaces)
contains-routing_recipients_example = contains-routing_recipients floats crowd wave 2

-- A space on the first entity, with an entity, and a space on that one.
abbrev stack : SessionState ℕ
stack = record crowd {
  spaces =
      (5, hall_descriptor)
      ∷ (
        6,
        record hall_descriptor {
          id = 6;
          parent = some (record { parent_space = 5; anchor_entity = 11 });
        },
      )
      ∷ (
        7,
        record hall_descriptor {
          id = 7;
          parent = some (record { parent_space = 6; anchor_entity = 14 });
        },
      )
      ∷ [];
  entities =
      (11, entity 11 1 4) ∷ (14, record (entity 14 2 0) { space = 6 }) ∷ (13, entity 13 3 90) ∷ [];
}

abbrev first : Set EntityId
first = (11, tt) ∷ []

abbrev both : Set EntityId
both = (11, tt) ∷ (14, tt) ∷ []

abbrev upper : Set SpaceId
upper = (6, tt) ∷ (7, tt) ∷ []

stack_removed : cascade stack first ≡ some (both, upper)
unfolding cascade cascade_loop sweep get insert same before
stack_removed = refl

cascade-IsClosed_example :
    (removed : Set EntityId) × (gone : Set SpaceId) × (cascade stack first ≡ some (removed, gone))
    × ((k : EntityId) → implies (contains k first) (contains k removed) ≡ true)
    × IsClosed stack (λ k. contains k removed) (λ k. contains k gone)
cascade-IsClosed_example = cascade-IsClosed stack first

-- The closed sets of all entities but the third and of all spaces but the hall.
abbrev not_third : ℕ → Bool
not_third k = not (k == 13)

abbrev not_hall : ℕ → Bool
not_hall k = not (k == 5)

not_third-first : (j : ℕ) → implies (contains j first) (not_third j) ≡ true
unfolding get
not_third-first j = ground (arith, same_iff 11 j)

cascade-least_example :
    (implies (contains 14 both) (not_third 14) ≡ true)
    × (implies (contains 14 upper) (not_hall 14) ≡ true)
cascade-least_example =
    cascade-least stack first both upper not_third not_hall 14 stack_removed not_third-first
      (record { hangs = (refl, (refl, (refl, tt))); inside = (refl, (refl, (refl, tt))) })

abbrev lobby : ChannelScope
lobby = record { session = room; channel = 7 }

abbrev pub publisher_principal : AuthenticatedPrincipal
publisher_principal = record {
  principal_id = 7;
  grants = record no_grants {
    namespaces = (1, read_write) ∷ [];
    sessions = (room, read_write) ∷ [];
    spaces = (hall, read_write) ∷ [];
    channels = (lobby, read_write) ∷ [];
  };
}

abbrev pub member_of : Option AuthenticatedPrincipal → ConnectionState
member_of principal = record {
  authenticated = principal;
  memberships = (room, tt) ∷ [];
  subscriptions = (hall, tt) ∷ [];
  owned_entities = 1;
  rate_limiter = RateLimit.fresh;
  outbound = record {
    config = Queue.default_config;
    critical = [];
    latest_order = [];
    latest = [];
    best_effort = [];
    exhausted = false;
  };
}

-- A fan-out to two connections of which the second is not authenticated.
abbrev fanout : Fanout
fanout = record {
  connections = (1, member_of (some publisher_principal)) ∷ (2, member_of none) ∷ [];
  recipient_attempts = 0;
  queues = no_activity;
  disconnected = [];
}

abbrev two : Set ConnectionId
two = (1, tt) ∷ (2, tt) ∷ []

one_delivered : (deliver_to room wave two fanout).0.recipient_attempts ≡ 1
unfolding deliver_to deliver receiver deliver_at push_to delivered can_receive get insert same
    before can_read_namespace can_read_session can_read_space can_read_channel Queue.push
    Queue.push_best_effort
one_delivered = refl

deliver_to-hidden_example :
    get 2 (deliver_to room wave two fanout).0.connections ≡ get 2 fanout.connections
unfolding get same
deliver_to-hidden_example = deliver_to-hidden room wave two fanout 2 refl

-- No entity has a cell yet.
abbrev empty_session : SessionState ℕ
empty_session = new_session

empty_session-IsIndexed : IsIndexed empty_session
unfolding get
empty_session-IsIndexed e cell = refl

abbrev origin : SpatialCellKey
origin = record { space = 5; space_epoch = 1; cell = cell_2d 0 0 }

move_to_cell-IsIndexed_example :
    IsIndexed (move_to_cell 11 (some origin) empty_session)
    × (get 11 (move_to_cell 11 (some origin) empty_session).entity_cells ≡ some origin)
move_to_cell-IsIndexed_example =
    move_to_cell-IsIndexed empty_session 11 (some origin) empty_session-IsIndexed
