-- ===== src/Core/Publishing.antt =====
-- What a publish is checked for in crates/woven-core/src/core.rs.
use signalweave.Prelude.{
  ℕ, Bool, not, ◌&&◌, ◌||◌, Option, none, some, List, Map, nat_key, length, ◌==◌, opt_eq, ltb, leb,
  max, min, if◌then◌else◌, Result, ok, err, fail_if, ok_or, ◌>>=◌, ◌>>◌,
}
use signalweave.Prelude.Maps
use signalweave.Ids.{
  ChannelId, EntityId, SpaceId, SpaceEpoch, ConnectionId, SessionKey, session_key_order,
  space_key_order,
}
use signalweave.Message.{
  CoalesceKey, DeliveryClass, PersistenceClass, OutboundMessage, is_replaceable, stateful, durable,
  ephemeral,
}
use signalweave.Authority.{AuthorityEmission, ChannelDefinition}
use signalweave.Core.{
  CoreError, IdKind, SequenceKey, StateKey, SessionState, WovenCore, unknown_channel,
  channel_policy_mismatch, payload_too_large, missing_coalesce_key, invalid_coalesce_key,
  session_not_found, space_not_found, space_epoch_mismatch, entity_not_found, entity_space_mismatch,
  stale_sequence,
}
use signalweave.Core.Access.{require_nonzero, validate_session_key}
use signalweave.Core.Keys.{sequence_key_order, state_key_order}

pub record PublishRequest : Type 0 where
  pub connection : ConnectionId
  pub session : SessionKey
  pub space : SpaceId
  pub space_epoch : SpaceEpoch
  pub entity : Option EntityId
  pub channel : ChannelId
  pub sequence : ℕ
  pub delivery : DeliveryClass
  pub persistence : PersistenceClass
  pub coalesce_key : Option CoalesceKey
  pub payload : List ℕ

pub record AuthorizedMessage : Type 0 where
  pub space : SpaceId
  pub space_epoch : SpaceEpoch
  pub entity : Option EntityId
  pub channel : ChannelId
  pub sequence : ℕ
  pub delivery : DeliveryClass
  pub persistence : PersistenceClass
  pub coalesce_key : Option CoalesceKey
  pub payload : List ℕ

abbrev pub from_request : PublishRequest → AuthorizedMessage
from_request r = record {
  space = r.space;
  space_epoch = r.space_epoch;
  entity = r.entity;
  channel = r.channel;
  sequence = r.sequence;
  delivery = r.delivery;
  persistence = r.persistence;
  coalesce_key = r.coalesce_key;
  payload = r.payload;
}

abbrev pub from_emission : AuthorityEmission → AuthorizedMessage
from_emission e = record {
  space = e.space;
  space_epoch = e.space_epoch;
  entity = e.entity;
  channel = e.channel;
  sequence = e.sequence;
  delivery = e.delivery;
  persistence = e.persistence;
  coalesce_key = e.coalesce_key;
  payload = e.payload;
}

abbrev pub to_outbound : SessionKey → AuthorizedMessage → OutboundMessage
to_outbound key m = record {
  namespace = key.namespace;
  session = key.session;
  space = m.space;
  space_epoch = m.space_epoch;
  entity = m.entity;
  channel = m.channel;
  sequence = m.sequence;
  delivery = m.delivery;
  persistence = m.persistence;
  coalesce_key = m.coalesce_key;
  payload = m.payload;
}

-- `coalesce_key.map_or(0, |key| key.component)`
abbrev pub component_of : Option CoalesceKey → ℕ
component_of none = 0
component_of (some key) = key.component

unfoldable pub sequence_key : ConnectionId → AuthorizedMessage → SequenceKey
sequence_key connection m = record {
  connection = connection;
  space = m.space;
  space_epoch = m.space_epoch;
  entity = m.entity;
  channel = m.channel;
  component = component_of m.coalesce_key;
}

unfoldable pub state_key : AuthorizedMessage → StateKey
state_key m = record {
  space = m.space;
  space_epoch = m.space_epoch;
  entity = m.entity;
  channel = m.channel;
  component = component_of m.coalesce_key;
}

-- `if let Some(entity) = entity { require_nonzero(entity) }`
abbrev require_entity : Option EntityId → Result CoreError (Unit {0})
require_entity none = ok tt
require_entity (some entity) = require_nonzero entity IdKind.entity

abbrev require_coalesce_ids : Option CoalesceKey → Result CoreError (Unit {0})
require_coalesce_ids none = ok tt
require_coalesce_ids (some key) = do
  require_nonzero key.channel IdKind.channel
  require_entity key.entity

unfoldable pub validate_publish_request_ids : PublishRequest → Result CoreError (Unit {0})
validate_publish_request_ids request = do
  validate_session_key request.session
  require_nonzero request.space IdKind.space
  require_nonzero request.space_epoch IdKind.space_epoch
  require_nonzero request.channel IdKind.channel
  require_entity request.entity
  require_coalesce_ids request.coalesce_key

unfoldable pub validate_authorized_message_ids : AuthorizedMessage → Result CoreError (Unit {0})
validate_authorized_message_ids message = do
  require_nonzero message.space IdKind.space
  require_nonzero message.space_epoch IdKind.space_epoch
  require_nonzero message.channel IdKind.channel
  require_entity message.entity
  require_coalesce_ids message.coalesce_key

abbrev delivery_rank : DeliveryClass → ℕ
delivery_rank DeliveryClass.reliable_ordered = 0
delivery_rank DeliveryClass.reliable_unordered = 1
delivery_rank DeliveryClass.latest_value = 2
delivery_rank DeliveryClass.unreliable_sequenced = 3
delivery_rank DeliveryClass.best_effort_event = 4

abbrev persistence_rank : PersistenceClass → ℕ
persistence_rank ephemeral = 0
persistence_rank stateful = 1
persistence_rank durable = 2

-- `==` of the two classes
abbrev pub same_delivery : DeliveryClass → DeliveryClass → Bool
same_delivery a b = delivery_rank a == delivery_rank b

abbrev pub same_persistence : PersistenceClass → PersistenceClass → Bool
same_persistence a b = persistence_rank a == persistence_rank b

unfoldable pub validate_channel_policy :
    ChannelDefinition → DeliveryClass → PersistenceClass → Result CoreError (Unit {0})
validate_channel_policy channel delivery persistence =
    if same_delivery channel.delivery delivery && same_persistence channel.persistence persistence
    then ok tt
    else err (
        channel_policy_mismatch channel.id channel.delivery delivery channel.persistence
          persistence)

-- The key names another channel or another entity than the message.
abbrev names_another : AuthorizedMessage → CoalesceKey → Bool
names_another message key =
    not (key.channel == message.channel) || not (opt_eq key.entity message.entity)

unfoldable pub validate_coalesce_key : AuthorizedMessage → Result CoreError (Unit {0})
validate_coalesce_key message = elim message.coalesce_key [
  | none ↦ fail_if (is_replaceable message.delivery) missing_coalesce_key
  | some key ↦ fail_if (names_another message key) invalid_coalesce_key
]

-- The greater of the two, if there is one.
abbrev pub later : Option ℕ → Option ℕ → Option ℕ
later none b = b
later (some a) none = some a
later (some a) (some b) = some (max a b)

-- A sequence number must exceed the last one of its key.
unfoldable pub validate_sequence : ℕ → Option ℕ → Result CoreError (Unit {0})
validate_sequence received none = ok tt
validate_sequence received (some last) = fail_if (leb received last) (stale_sequence received last)

module _ {F : Type 0} where
  unfoldable pub validate_entity : AuthorizedMessage → SessionState F → Result CoreError (Unit {0})
  validate_entity message session = elim message.entity [
    | none ↦ ok tt
    | some id ↦ elim (Maps.get id session.entities) [
      | none ↦ err (entity_not_found id)
      | some entity ↦
          fail_if
            (not (entity.space == message.space) || not (entity.space_epoch == message.space_epoch))
            (entity_space_mismatch id)
    ]
  ]

  -- The last sequence number of the key of a message: stored, or planned by the same publish.
  abbrev pub last_sequence : SessionState F → Map SequenceKey ℕ → SequenceKey → Option ℕ
  last_sequence session planned key = later (Maps.get key session.sequences) (Maps.get key planned)

  -- The checks that read no session.
  unfoldable pub validate_content : WovenCore F → AuthorizedMessage → Result CoreError (Unit {0})
  unfolding validate_authorized_message_ids validate_channel_policy validate_coalesce_key
  validate_content core message = do
    validate_authorized_message_ids message
    channel ← ok_or (Maps.get message.channel core.channels) (unknown_channel message.channel)
    validate_channel_policy channel message.delivery message.persistence
    fail_if
        (ltb (min core.config.max_payload_bytes channel.max_payload_bytes) (length message.payload))
        (payload_too_large (length message.payload)
          (min core.config.max_payload_bytes channel.max_payload_bytes))
    validate_coalesce_key message

  -- The checks of the space, its epoch and the entity.
  unfoldable pub validate_place :
      SessionKey → AuthorizedMessage → SessionState F → Result CoreError (Unit {0})
  unfolding validate_entity
  validate_place key message session = do
    descriptor ←
        ok_or (Maps.get message.space session.spaces)
          (space_not_found (record { session = key; space = message.space }))
    fail_if (not (descriptor.epoch == message.space_epoch))
        (space_epoch_mismatch descriptor.epoch message.space_epoch)
    validate_entity message session

  -- Without planned sequences, `None`, the map is empty.
  unfoldable pub validate_message :
      WovenCore F
      → ConnectionId
      → SessionKey
      → AuthorizedMessage
      → Map SequenceKey ℕ
      → Result CoreError (Unit {0})
  unfolding validate_content validate_place validate_sequence sequence_key
  validate_message core connection key message planned = do
    validate_content core message
    session ← ok_or (Maps.get key core.sessions) (session_not_found key)
    validate_place key message session
    validate_sequence message.sequence
        (last_sequence session planned (sequence_key connection message))
