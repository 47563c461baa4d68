-- ===== src/Core.antt =====
-- crates/woven-core/src/core.rs: the state of `WovenCore`, its configuration and its errors. `F` is
-- the type of floating-point numbers. A cell's coordinate is given by its offset from `i64::MIN`.
pub mod Access
pub mod Sessions
pub mod Connections
pub mod Subscriptions
pub mod Agreement
pub mod Joining
pub mod Leaving
pub mod Provisioning
pub mod Restricting
pub mod Shrinking
pub mod Departing
pub mod Renewing
pub mod Inhabiting
pub mod Relaying
pub mod Routing
pub mod Addressed
pub mod Recipients
pub mod Cascade
pub mod Sweep
pub mod Closure
pub mod Least
pub mod Keys
pub mod Removal
pub mod Departure
pub mod Publishing
pub mod StateStore
pub mod StateBounds
pub mod Fanout
pub mod Publish
pub mod Delivery
pub mod Sequences
pub mod Recorded
pub mod Published
pub mod Entities
pub mod Transitions
pub mod Cells
pub mod Steps
pub mod Snapshot
mod Examples
use signalweave.Prelude.{
  ℕ, ◌+◌, ◌*◌, ◌≡◌, Bool, true, false, not, ◌||◌, Option, none, some, List, [], ◌∷◌, Result, ok,
  err, panic, fail_if, map_err, ◌>>=◌, ◌>>◌, Map, Set, Key, ltb, ◌==◌, opt_rank, opt_rank-injective,
  arith,
}
use signalweave.Ids.{
  NamespaceId, SpaceId, EntityId, ConnectionId, PrincipalId, ChannelId, SpaceEpoch, SessionKey,
  SpaceKey,
}
use signalweave.Message.{CoalesceKey, DeliveryClass, PersistenceClass}
use signalweave.Queue
use signalweave.Queue.{OutboundQueue, OutboundQueueConfig, QueueConfigError, QueueError}
use signalweave.Space.{
  EntityPosition, PositionValidationError, SpaceDescriptor, SpaceValidationError,
}
use signalweave.Auth.{AuthenticatedPrincipal, Authenticator, AuthError, ChannelScope}
use signalweave.Authority.{AuthorityRejection, ChannelDefinition}
use signalweave.RateLimit
use signalweave.RateLimit.{
  ConnectionRateLimiter, Duration, PublishRateLimit, RateLimitError, publish_rate_limited,
  clock_regressed,
}
use signalweave.Journal
use signalweave.Journal.{JournalOutbox}
use signalweave.Admission.{AdmissionController, AdmissionLease}

pub record CoreConfig : Type 0 where
  pub outbound_queue : OutboundQueueConfig
  pub publish_rate_limit : PublishRateLimit
  pub max_connections : ℕ
  pub max_sessions : ℕ
  pub max_channels : ℕ
  pub max_memberships_per_connection : ℕ
  pub max_subscriptions_per_connection : ℕ
  pub max_owned_entities_per_connection : ℕ
  pub max_payload_bytes : ℕ
  pub max_spaces_per_session : ℕ
  pub max_space_epoch_tombstones_per_session : ℕ
  pub max_entities_per_session : ℕ
  pub max_state_entries_per_session : ℕ
  pub max_state_bytes_per_session : ℕ
  pub max_sequence_keys_per_session : ℕ
  pub max_authority_emissions : ℕ
  pub journal_outbox_capacity : ℕ

abbrev pub default_core_config : CoreConfig
default_core_config = record {
  outbound_queue = Queue.default_config;
  publish_rate_limit = RateLimit.default_rate_limit;
  max_connections = 4_096;
  max_sessions = 1_024;
  max_channels = 1_024;
  max_memberships_per_connection = 32;
  max_subscriptions_per_connection = 128;
  max_owned_entities_per_connection = 256;
  max_payload_bytes = 64 * 1_024;
  max_spaces_per_session = 1_024;
  max_space_epoch_tombstones_per_session = 4_096;
  max_entities_per_session = 16_384;
  max_state_entries_per_session = 65_536;
  max_state_bytes_per_session = 64 * 1_024 * 1_024;
  max_sequence_keys_per_session = 131_072;
  max_authority_emissions = 16;
  journal_outbox_capacity = 1_024;
}

pub data IdKind : Type 0 where
  namespace session space entity connection principal channel space_epoch : IdKind

pub data CoreError : Type 0 where
  invalid_configuration : CoreError
  invalid_queue_config : QueueConfigError → CoreError
  reserved_zero_id : IdKind → CoreError
  authentication_failed : AuthError → CoreError
  authentication_required already_authenticated : CoreError
  unknown_connection : ConnectionId → CoreError
  connection_limit_reached : CoreError
  namespace_read_access_denied namespace_write_access_denied : NamespaceId → CoreError
  session_read_access_denied session_write_access_denied : SessionKey → CoreError
  space_read_access_denied space_write_access_denied : SpaceKey → CoreError
  channel_write_access_denied : ChannelScope → CoreError
  unknown_channel channel_already_registered : ChannelId → CoreError
  channel_limit_reached : CoreError
  invalid_channel_limit : ChannelId → CoreError
  channel_policy_mismatch :
      ChannelId → DeliveryClass → DeliveryClass → PersistenceClass → PersistenceClass → CoreError
  session_not_found session_already_provisioned : SessionKey → CoreError
  session_limit_reached : CoreError
  session_membership_required : SessionKey → CoreError
  membership_limit_reached : CoreError
  space_not_found space_already_exists : SpaceKey → CoreError
  space_limit_reached space_id_history_limit_reached : CoreError
  invalid_space : SpaceValidationError → CoreError
  parent_space_not_found : SpaceId → CoreError
  parent_anchor_not_found : EntityId → CoreError
  parent_anchor_in_wrong_space : EntityId → SpaceId → CoreError
  epoch_did_not_advance : SpaceEpoch → SpaceEpoch → CoreError
  space_epoch_mismatch : SpaceEpoch → SpaceEpoch → CoreError
  subscription_required : SpaceKey → CoreError
  subscription_limit_reached entity_limit_reached owned_entity_limit_reached : CoreError
  entity_not_found entity_not_owned entity_space_mismatch : EntityId → CoreError
  invalid_entity_position : PositionValidationError → CoreError
  spatial_cell_out_of_range state_entry_limit_reached state_byte_limit_reached
        sequence_key_limit_reached :
      CoreError
  payload_too_large : ℕ → ℕ → CoreError
  missing_coalesce_key invalid_coalesce_key : CoreError
  stale_sequence : ℕ → ℕ → CoreError
  rate_limited : Duration → CoreError
  rate_limit_clock_regressed : CoreError
  authority_rejected : AuthorityRejection → CoreError
  authority_emission_limit_exceeded journal_outbox_saturated id_exhausted : CoreError
  admission_already_configured admission_lease_required invalid_admission_lease :
      SessionKey → CoreError
  queue : QueueError → CoreError

-- The errors of the rate limiter.
abbrev pub of_rate_limit : RateLimitError → CoreError
of_rate_limit RateLimit.invalid_configuration = invalid_configuration
of_rate_limit (publish_rate_limited retry_after) = rate_limited retry_after
of_rate_limit clock_regressed = rate_limit_clock_regressed

-- A limit that must not be zero is.
abbrev pub has_zero_limit : CoreConfig → Bool
has_zero_limit c =
    c.max_connections == 0
    || c.max_sessions == 0
    || c.max_channels == 0
    || c.max_memberships_per_connection == 0
    || c.max_subscriptions_per_connection == 0
    || c.max_owned_entities_per_connection == 0
    || c.max_payload_bytes == 0
    || c.max_spaces_per_session == 0
    || c.max_space_epoch_tombstones_per_session == 0
    || c.max_entities_per_session == 0
    || c.max_state_entries_per_session == 0
    || c.max_state_bytes_per_session == 0
    || c.max_sequence_keys_per_session == 0
    || c.max_authority_emissions == 0

unfoldable pub validate : CoreConfig → Result CoreError CoreConfig
validate c = do
  _ ← map_err invalid_queue_config (Queue.validate c.outbound_queue)
  _ ← map_err of_rate_limit (RateLimit.validate c.publish_rate_limit)
  fail_if
      (has_zero_limit c || ltb c.max_space_epoch_tombstones_per_session c.max_spaces_per_session)
      invalid_configuration
  ok c

pub record ConnectionState : Type 0 where
  pub authenticated : Option AuthenticatedPrincipal
  pub memberships : Set SessionKey
  pub subscriptions : Set SpaceKey
  pub owned_entities : ℕ
  pub rate_limiter : ConnectionRateLimiter
  pub outbound : OutboundQueue

pub record EntityRecord (F : Type 0) : Type 0 where
  pub id : EntityId
  pub owner_connection : ConnectionId
  pub owner_principal : PrincipalId
  pub space : SpaceId
  pub space_epoch : SpaceEpoch
  pub position : Option (EntityPosition F)

pub data SpatialCell : Type 0 where
  cell_2d : ℕ → ℕ → SpatialCell
  cell_3d : ℕ → ℕ → ℕ → SpatialCell

pub record SpatialCellKey : Type 0 where
  pub space : SpaceId
  pub space_epoch : SpaceEpoch
  pub cell : SpatialCell

pub record SequenceKey : Type 0 where
  pub connection : ConnectionId
  pub space : SpaceId
  pub space_epoch : SpaceEpoch
  pub entity : Option EntityId
  pub channel : ChannelId
  pub component : ℕ

pub record StateKey : Type 0 where
  pub space : SpaceId
  pub space_epoch : SpaceEpoch
  pub entity : Option EntityId
  pub channel : ChannelId
  pub component : ℕ

pub record StateRecord : Type 0 where
  pub sequence : ℕ
  pub payload : List ℕ

pub record SessionState (F : Type 0) : Type 0 where
  pub members : Set ConnectionId
  pub spaces : Map SpaceId (SpaceDescriptor F)
  pub space_epoch_tombstones : Map SpaceId SpaceEpoch
  pub subscribers : Map SpaceId (Set ConnectionId)
  pub entities : Map EntityId (EntityRecord F)
  pub entity_cells : Map EntityId SpatialCellKey
  pub cell_entities : Map SpatialCellKey (Set EntityId)
  pub sequences : Map SequenceKey ℕ
  pub state : Map StateKey StateRecord
  pub state_bytes : ℕ

abbrev pub new_session : {F : Type 0} → SessionState F
new_session = record {
  members = [];
  spaces = [];
  space_epoch_tombstones = [];
  subscribers = [];
  entities = [];
  entity_cells = [];
  cell_entities = [];
  sequences = [];
  state = [];
  state_bytes = 0;
}

pub record WovenCore (F : Type 0) : Type 0 where
  pub authenticator : Authenticator
  pub config : CoreConfig
  pub next_connection_id : ℕ
  pub next_entity_id : ℕ
  pub connections : Map ConnectionId ConnectionState
  pub sessions : Map SessionKey (SessionState F)
  pub channels : Map ChannelId ChannelDefinition
  pub admissions : Map SessionKey AdmissionController
  pub pending_admissions : Map (ConnectionId × SessionKey) AdmissionLease
  pub admission_leases : Map (ConnectionId × SessionKey) AdmissionLease
  pub journal_outbox : JournalOutbox

unfoldable pub new : {F : Type 0} → Authenticator → CoreConfig → Result CoreError (WovenCore F)
new authenticator given = do
  config ← validate given
  ok (record {
    authenticator = authenticator;
    config = config;
    next_connection_id = 1;
    next_entity_id = 1;
    connections = [];
    sessions = [];
    channels = [];
    admissions = [];
    pending_admissions = [];
    admission_leases = [];
    journal_outbox = Journal.new config.journal_outbox_capacity;
  })
