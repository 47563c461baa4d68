-- ===== src/Core/Steps.antt =====
-- Sequences of calls of the operations of `WovenCore` in crates/woven-core/src/core.rs.
use signalweave.Prelude.{
  ◌≡◌, refl, true, not, ◌||◌, some, List, [], ◌∷◌, Result, ok, option_cases, if_cases, arith,
  nat_key,
}
use signalweave.Prelude.Maps
use signalweave.Ids.{
  EntityId, SpaceId, SpaceEpoch, ConnectionId, SessionKey, SpaceKey, session_key_order,
}
use signalweave.Auth.{Authenticator, Credentials}
use signalweave.Authority.{ChannelDefinition}
use signalweave.RateLimit.{Instant}
use signalweave.Space.{Floats, EntityPosition, SpaceDescriptor}
use signalweave.Usage.{AdmissionMetadata}
use signalweave.Admission.{
  AdmissionLease, CapacityUpdate, IdempotencyKey, JoinDecision, QueuePolicy,
}
use signalweave.Admission.Methods.{request_join_at}
use signalweave.Core
use signalweave.Core.{CoreConfig, CoreError, WovenCore, admission_lease_required, validate}
use signalweave.Core.Access.{pair_order}
use signalweave.Core.Sessions.{
  check_channel, check_configuration, check_controller, check_request, register_channel,
  provision_session, configure_session_admission, apply_session_capacity_at,
  request_session_admission_at, install_space,
}
use signalweave.Core.Connections.{
  after_drain, transport_connected, authenticate, join_session_unchecked_admission, join_session,
  join_session_with_admission, check_lease, check_lease_owner, pop_journal_record,
}
use signalweave.Core.Subscriptions.{subscribe, unsubscribe}
use signalweave.Core.Departure.{advance_space_epoch, leave_session, transport_lost}
use signalweave.Core.Departing.{leave_session-Agrees, transport_lost-Agrees}
use signalweave.Core.Renewing.{advance_space_epoch-Agrees}
use signalweave.Core.Entities.{remove_entity, spawn_entity, update_entity_position}
use signalweave.Core.Transitions.{EntityTransitionRequest, transition_entity}
use signalweave.Core.Publishing.{PublishRequest}
use signalweave.Core.Publish.{publish_at}
use signalweave.Core.Inhabiting.{
  remove_entity-Agrees, spawn_entity-Agrees, transition_entity-Agrees,
  update_entity_position-Agrees,
}
use signalweave.Core.Relaying.{drain_outbound-Agrees, publish_at-Agrees}
use signalweave.Core.Agreement.{
  Agrees, unchanged-Agrees, commit_cases, is_member, has_member, is_subscribed, has_subscriber,
}
use signalweave.Core.Joining.{join_session_unchecked_admission-Agrees, subscribe-Agrees}
use signalweave.Core.Leaving.{unsubscribe-Agrees}
use signalweave.Core.Provisioning.{
  transport_connected-Agrees, authenticate-Agrees, provision_session-Agrees, install_space-Agrees,
}

pub data Call (F : Type 0) : Type 0 where
  register : ChannelDefinition → Call F
  provision : SessionKey → Call F
  configure : SessionKey → AdmissionMetadata → QueuePolicy → CapacityUpdate → Call F
  capacity : SessionKey → CapacityUpdate → Instant → Call F
  request : ConnectionId → SessionKey → IdempotencyKey → Instant → Call F
  install : SessionKey → SpaceDescriptor F → Call F
  connect : Call F
  sign_in : ConnectionId → Credentials → Call F
  join : ConnectionId → SessionKey → Call F
  join_with : ConnectionId → SessionKey → AdmissionLease → Call F
  leave : ConnectionId → SessionKey → Instant → Call F
  lose : ConnectionId → Instant → Call F
  subscribe_to unsubscribe_from : ConnectionId → SpaceKey → Call F
  advance : SessionKey → SpaceId → SpaceEpoch → Call F
  spawn : ConnectionId → SpaceKey → SpaceEpoch → Call F
  place : ConnectionId → SessionKey → EntityId → EntityPosition F → Call F
  remove : ConnectionId → SessionKey → EntityId → Call F
  move : EntityTransitionRequest → Call F
  publish : PublishRequest → Instant → Call F
  drain_queue : ConnectionId → Call F
  pop_record : Call F

module _ {F : Type 0} where
  register_channel-Agrees :
      (channel : ChannelDefinition) (core : WovenCore F)
      → Agrees core
      → Agrees (register_channel channel core).0
  unfolding register_channel
  register_channel-Agrees channel core v =
      commit_cases Agrees core (check_channel channel core) _ v
        λ _ _. unchanged-Agrees core _ v refl refl refl

  configure_session_admission-Agrees :
      (key : SessionKey) (metadata : AdmissionMetadata) (policy : QueuePolicy)
      (update : CapacityUpdate) (core : WovenCore F)
      → Agrees core
      → Agrees (configure_session_admission key metadata policy update core).0
  unfolding configure_session_admission
  configure_session_admission-Agrees key metadata policy update core v =
      commit_cases Agrees core (check_configuration key metadata core) _ v
        λ _ _. unchanged-Agrees core _ v refl refl refl

  apply_session_capacity_at-Agrees :
      (key : SessionKey) (update : CapacityUpdate) (now : Instant) (core : WovenCore F)
      → Agrees core
      → Agrees (apply_session_capacity_at key update now core).0
  unfolding apply_session_capacity_at
  apply_session_capacity_at-Agrees key update now core v =
      commit_cases Agrees core (check_controller key core) _ v
        λ _ _. unchanged-Agrees core _ v refl refl refl

  decision_cases :
      (P : WovenCore F × Result CoreError JoinDecision → Type 0) (d : JoinDecision)
      (f : AdmissionLease → WovenCore F) (x : WovenCore F)
      → ((lease : AdmissionLease) → P (f lease, ok (JoinDecision.admitted lease)))
      → ((e : JoinDecision) → P (x, ok e))
      → P (elim d as (λ _. WovenCore F × Result CoreError JoinDecision) [
        | JoinDecision.admitted lease ↦ (f lease, ok (JoinDecision.admitted lease))
        | JoinDecision.queued ticket ↦ (x, ok (JoinDecision.queued ticket))
        | JoinDecision.paused ↦ (x, ok JoinDecision.paused)
        | JoinDecision.rejected reason ↦ (x, ok (JoinDecision.rejected reason))
      ])
  decision_cases P (JoinDecision.admitted lease) f x h k = h lease
  decision_cases P (JoinDecision.queued ticket) f x h k = k _
  decision_cases P JoinDecision.paused f x h k = k _
  decision_cases P (JoinDecision.rejected reason) f x h k = k _

  request_session_admission_at-Agrees :
      (connection : ConnectionId) (key : SessionKey) (idempotency_key : IdempotencyKey)
      (now : Instant) (core : WovenCore F)
      → Agrees core
      → Agrees (request_session_admission_at connection key idempotency_key now core).0
  unfolding request_session_admission_at
  request_session_admission_at-Agrees connection key idempotency_key now core v =
      commit_cases Agrees core (check_request connection key core) _ v λ x _.
        decision_cases (λ r. Agrees r.0)
          (request_join_at (record { principal = x.0; idempotency_key = some idempotency_key }) now
            x.1).1
          _ _ (λ _. unchanged-Agrees core _ v refl refl refl)
          λ _. unchanged-Agrees core _ v refl refl refl

  join_session-Agrees :
      (connection : ConnectionId) (key : SessionKey) (core : WovenCore F)
      → Agrees core
      → Agrees (join_session connection key core).0
  unfolding join_session
  join_session-Agrees connection key core v =
      if_cases (λ (r : WovenCore F × Result CoreError (Unit {0})). Agrees r.0)
        (Maps.contains key core.admissions) _ _ (λ _. v)
        λ _. join_session_unchecked_admission-Agrees connection key core v

  join_session_with_admission-Agrees :
      (connection : ConnectionId) (key : SessionKey) (lease : AdmissionLease) (core : WovenCore F)
      → Agrees core
      → Agrees (join_session_with_admission connection key lease core).0
  unfolding join_session_with_admission
  join_session_with_admission-Agrees connection key lease core v =
      commit_cases Agrees core (check_lease_owner connection key lease core) _ v λ _ _.
        option_cases (λ (r : WovenCore F × Result CoreError (Unit {0})). Agrees r.0)
          (Maps.get (connection, key) core.admission_leases) _ _
          (λ _. commit_cases Agrees core (check_lease connection key lease core) _ v λ _ _.
            commit_cases Agrees _ (join_session_unchecked_admission connection key core).1 _ joined
              λ _ _. unchanged-Agrees _ _ joined refl refl refl)
          λ _ _. v
    where
      joined : Agrees (join_session_unchecked_admission connection key core).0
      joined = join_session_unchecked_admission-Agrees connection key core v

module _ (f : Floats) where
  open f use {F64}

  unfoldable pub step : WovenCore F64 → Call F64 → WovenCore F64
  unfolding pop_journal_record
  step core (register channel) = (register_channel channel core).0
  step core (provision key) = (provision_session key core).0
  step core (configure key metadata policy update) =
      (configure_session_admission key metadata policy update core).0
  step core (capacity key update now) = (apply_session_capacity_at key update now core).0
  step core (request connection key idempotency_key now) =
      (request_session_admission_at connection key idempotency_key now core).0
  step core (install key descriptor) = (install_space f key descriptor core).0
  step core connect = (transport_connected core).0
  step core (sign_in connection credentials) = (authenticate connection credentials core).0
  step core (join connection key) = (join_session connection key core).0
  step core (join_with connection key lease) =
      (join_session_with_admission connection key lease core).0
  step core (subscribe_to connection key) = (subscribe connection key core).0
  step core (unsubscribe_from connection key) = (unsubscribe connection key core).0
  step core (leave connection key now) = (leave_session connection key now core).0
  step core (lose connection now) = (transport_lost connection now core).0
  step core (advance key space epoch) = (advance_space_epoch key space epoch core).0
  step core (spawn connection key epoch) = (spawn_entity connection key epoch core).0
  step core (place connection key entity position) =
      (update_entity_position f connection key entity position core).0
  step core (remove connection key entity) = (remove_entity connection key entity core).0
  step core (move transition) = (transition_entity transition core).0
  step core (publish published now) = (publish_at f published now core).0
  step core (drain_queue connection) = after_drain connection core
  step core pop_record = (pop_journal_record core).0

  unfoldable pub run : WovenCore F64 → List (Call F64) → WovenCore F64
  run core [] = core
  run core (call ∷ calls) = run (step core call) calls

  step-Agrees : (core : WovenCore F64) (call : Call F64) → Agrees core → Agrees (step core call)
  unfolding step
  step-Agrees core (register channel) v = register_channel-Agrees channel core v
  step-Agrees core (provision key) v = provision_session-Agrees key core v
  step-Agrees core (configure key metadata policy update) v =
      configure_session_admission-Agrees key metadata policy update core v
  step-Agrees core (capacity key update now) v =
      apply_session_capacity_at-Agrees key update now core v
  step-Agrees core (request connection key idempotency_key now) v =
      request_session_admission_at-Agrees connection key idempotency_key now core v
  step-Agrees core (install key descriptor) v = install_space-Agrees f key descriptor core v
  step-Agrees core connect v = transport_connected-Agrees core v
  step-Agrees core (sign_in connection credentials) v =
      authenticate-Agrees connection credentials core v
  step-Agrees core (join connection key) v = join_session-Agrees connection key core v
  step-Agrees core (join_with connection key lease) v =
      join_session_with_admission-Agrees connection key lease core v
  step-Agrees core (subscribe_to connection key) v = subscribe-Agrees connection key core v
  step-Agrees core (unsubscribe_from connection key) v = unsubscribe-Agrees connection key core v
  step-Agrees core (leave connection key now) v = leave_session-Agrees connection key now core v
  step-Agrees core (lose connection now) v = transport_lost-Agrees connection now core v
  step-Agrees core (advance key space epoch) v = advance_space_epoch-Agrees key space epoch core v
  step-Agrees core (spawn connection key epoch) v = spawn_entity-Agrees connection key epoch core v
  step-Agrees core (place connection key entity position) v =
      update_entity_position-Agrees f connection key entity position core v
  step-Agrees core (remove connection key entity) v =
      remove_entity-Agrees connection key entity core v
  step-Agrees core (move transition) v = transition_entity-Agrees transition core v
  step-Agrees core (publish published now) v = publish_at-Agrees f published now core v
  step-Agrees core (drain_queue connection) v = drain_outbound-Agrees connection core v
  step-Agrees core pop_record v = unchanged-Agrees core _ v refl refl refl

  new-Agrees :
      (authenticator : Authenticator) (config : CoreConfig) (core : WovenCore F64)
      → Core.new authenticator config ≡ ok core
      → Agrees core
  unfolding Core.new Maps.get
  new-Agrees authenticator config core h = record {
    members = λ c k. ground arith;
    subscribers = λ c k. ground arith;
    inside = λ c k. ground arith;
    spaces = λ c k. ground arith;
    fresh = λ c n. ground arith;
  }

  -- From a new core, after any calls of its operations in any order, a connection lists a session exactly when the
  -- session lists it as a member, it lists a space exactly when the space lists it as a subscriber, and it subscribes
  -- only to spaces of sessions it is a member of. The calls are those that change the state: on channels, sessions,
  -- admission and spaces with their epochs, on connections with their loss, on membership and subscriptions, on
  -- entities, on publishing and on draining.
  pub run-Agrees :
      (authenticator : Authenticator) (config : CoreConfig) (core : WovenCore F64)
      (calls : List (Call F64)) (connection : ConnectionId) (key : SpaceKey)
      → Core.new authenticator config ≡ ok core
      → let after = run core calls in
        (is_member after connection key.session ≡ has_member after connection key.session)
        × (is_subscribed after connection key
            ≡ has_subscriber after connection key.session key.space)
        × ((not (is_subscribed after connection key) || is_member after connection key.session)
            ≡ true)
  unfolding run
  run-Agrees authenticator config core calls connection key h =
      let w = runs core calls (new-Agrees authenticator config core h) in
      (w.members connection key.session, w.subscribers connection key, inside (run core calls) w)
    where
      inside :
          (after : WovenCore F64)
          → Agrees after
          → (not (is_subscribed after connection key) || is_member after connection key.session)
            ≡ true
      inside after w = ground (arith, w.inside connection key)

      runs :
          (core : WovenCore F64) (calls : List (Call F64)) → Agrees core → Agrees (run core calls)
      runs core [] v = v
      runs core (call ∷ calls) v = runs (step core call) calls (step-Agrees core call v)
