-- ===== src/Core/Published/Examples.antt =====
-- A publish and a snapshot of a core with one connection: the theorems at them.
use signalweave.Prelude.{
  ◌≢◌, Map, ◌&&◌, true, retain, ℕ, ◌≤◌, ◌≡◌, refl, some, [], ◌∷◌, All, ok, count_if, nat_key, same,
  before, length,
}
use signalweave.Prelude.Maps.{get, insert}
use signalweave.Ids.{session_key_order, space_key_order}
use signalweave.Message.{latest_value, stateful}
use signalweave.Authority.{relay_channel, relay_owned}
use signalweave.Auth.{
  can_read_namespace, can_read_session, can_read_space, can_read_channel, can_write_namespace,
  can_write_session, can_write_space, can_write_channel, channel_scope_order,
}
use signalweave.Core.{SequenceKey, SessionState, StateKey, WovenCore}
use signalweave.Core.Examples.{
  room, hall_descriptor, entity, begun, crowd, publisher_principal, member_of,
}
use signalweave.Core.Keys.{sequence_key_order, state_key_order}
use signalweave.Core.Publishing.{
  PublishRequest, AuthorizedMessage, from_request, sequence_key, state_key,
  validate_publish_request_ids, validate_channel_policy, validate_message, validate_content,
  validate_place, validate_sequence, validate_authorized_message_ids, validate_coalesce_key,
  validate_entity,
}
use signalweave.Core.Removal.{payload_bytes}
use signalweave.Core.StateStore.{
  validate_sequence_capacity, validate_state_capacity, count_new, project_all, project_message,
  check_projection,
}
use signalweave.Core.StateBounds.{HasStateBytes}
use signalweave.Core.Publish.{
  Plan, check_publish, check_publisher, context_of, entity_owner, proposed_of, decide, plan_all,
  store_plan,
}
use signalweave.Core.Sequences.{Exceeds, Rises}
use signalweave.Core.Snapshot.{
  EntitySnapshot, StateSnapshot, SessionSnapshot, entity_snapshot, state_snapshot, snapshot,
  snapshot_of, visible_spaces, shown_spaces, sum_payloads, sum_subscribers,
}
use signalweave.Core.Snapshot.Visible.{IsSeen, reads_session, sees, reads, snapshot-sees}
use signalweave.Core.Published.Replay.{stored, store_plan-refuses}
use signalweave.Core.Published.{store_plan-Rises, store_plan-HasStateBytes}

abbrev pose : PublishRequest
pose = record {
  connection = 1;
  session = room;
  space = 5;
  space_epoch = 1;
  entity = some 11;
  channel = 7;
  sequence = 4;
  delivery = latest_value;
  persistence = stateful;
  coalesce_key = some (record { channel = 7; entity = some 11; component = 2 });
  payload = 8 ∷ 9 ∷ [];
}

abbrev pose_sequence : SequenceKey
pose_sequence = record {
  connection = 1;
  space = 5;
  space_epoch = 1;
  entity = some 11;
  channel = 7;
  component = 2;
}

abbrev pose_state : StateKey
pose_state = record { space = 5; space_epoch = 1; entity = some 11; channel = 7; component = 2 }

-- The session has the pose with the number 3, of three bytes.
abbrev session : SessionState ℕ
session = record crowd {
  sequences = (pose_sequence, 3) ∷ [];
  state = (pose_state, record { sequence = 3; payload = 1 ∷ 2 ∷ 3 ∷ [] }) ∷ [];
  state_bytes = 3;
}

abbrev core : WovenCore ℕ
core = record begun {
  connections = (1, member_of (some publisher_principal)) ∷ [];
  sessions = (room, session) ∷ [];
  channels = (7, relay_channel 7 latest_value stateful 16) ∷ [];
}

abbrev plan : Plan
plan = record { messages = from_request pose ∷ []; sequences = (pose_sequence, 4) ∷ [] }

pose-planned : check_publish pose core ≡ ok plan
unfolding check_publish check_publisher context_of proposed_of decide plan_all sequence_key
    state_key validate_publish_request_ids validate_channel_policy validate_message validate_content
    validate_place validate_sequence validate_authorized_message_ids validate_coalesce_key
    validate_entity validate_sequence_capacity validate_state_capacity count_new project_all
    project_message check_projection entity_owner relay_owned get insert same before
    can_write_namespace can_write_session can_write_space can_write_channel count_if
pose-planned = refl

session-HasStateBytes : HasStateBytes session
unfolding payload_bytes
session-HasStateBytes = record { sorted = (tt, tt); counted = refl }

session-there : get room core.sessions ≡ some session
unfolding get same
session-there = refl

store_plan-Rises_example :
    All
      (λ (message : AuthorizedMessage).
        Exceeds (get (sequence_key pose.connection message) session.sequences) message.sequence)
      plan.messages
    × ((key : SequenceKey)
        → Rises (get key session.sequences) (get key (store_plan plan session).sequences))
store_plan-Rises_example = store_plan-Rises core pose session plan session-there pose-planned

store_plan-HasStateBytes_example :
    HasStateBytes (store_plan plan session)
    × (length (store_plan plan session).state ≤ core.config.max_state_entries_per_session)
    × ((store_plan plan session).state_bytes ≤ core.config.max_state_bytes_per_session)
store_plan-HasStateBytes_example =
    store_plan-HasStateBytes core pose session plan session-there session-HasStateBytes pose-planned

-- The one connection sees everything of the session.
abbrev shown : SessionSnapshot ℕ
shown = record {
  key = room;
  member_count = 0;
  subscription_count = 3;
  state_bytes = 3;
  spaces = record { descriptor = hall_descriptor } ∷ [];
  entities =
      entity_snapshot (entity 11 1 4)
      ∷ entity_snapshot (entity 12 2 15)
      ∷ entity_snapshot (entity 13 3 90)
      ∷ [];
  state = state_snapshot (pose_state, record { sequence = 3; payload = 1 ∷ 2 ∷ 3 ∷ [] }) ∷ [];
}

core-shown : snapshot 1 room core ≡ ok shown
unfolding snapshot snapshot_of visible_spaces shown_spaces sum_payloads sum_subscribers retain get
    insert same before can_read_namespace can_read_session can_read_space can_read_channel
core-shown = refl

snapshot-sees_example :
    (reads_session (get 1 core.connections) room ≡ true)
    × All (λ (e : EntitySnapshot). sees core 1 room e.space ≡ true) shown.entities
    × All
        (λ (s : StateSnapshot). (sees core 1 room s.space && reads core 1 room s.channel) ≡ true)
        shown.state
    × All (IsSeen (sees core 1 room) (get room core.sessions)) shown.spaces
snapshot-sees_example = snapshot-sees core 1 room shown core-shown

store_plan-refuses_example :
    All
      (λ (message : AuthorizedMessage).
        (planned : Map SequenceKey ℕ)
        → validate_message
            (stored core pose session plan session-there)
            pose.connection
            pose.session
            message
            planned
          ≢ ok tt)
      plan.messages
store_plan-refuses_example = store_plan-refuses core pose session plan session-there pose-planned
