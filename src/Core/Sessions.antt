-- ===== src/Core/Sessions.antt =====
-- Channels, sessions, their admission and their spaces in crates/woven-core/src/core.rs.
use signalweave.Prelude.{
  ◌+◌, not, Option, none, some, [], Result, ok, fail_if, ok_or, map_err, ◌>>=◌, ◌>>◌, nat_key,
  length, leb, ◌==◌, same,
}
use signalweave.Prelude.Maps
use signalweave.Ids.{PrincipalId, SpaceId, SpaceEpoch, ConnectionId, SessionKey, session_key_order}
use signalweave.Space
use signalweave.Space.{Floats, ParentAnchor, SpaceDescriptor}
use signalweave.Authority.{ChannelDefinition}
use signalweave.RateLimit.{Instant}
use signalweave.Usage
use signalweave.Usage.{AdmissionMetadata}
use signalweave.Admission
use signalweave.Admission.{
  AdmissionController, AdmissionSnapshot, CapacityUpdate, IdempotencyKey, JoinDecision, QueuePolicy,
}
use signalweave.Admission.Methods.{apply_capacity_at, request_join_at}
use signalweave.Core.{
  CoreConfig, CoreError, IdKind, SessionState, WovenCore, new_session, invalid_channel_limit,
  channel_already_registered, channel_limit_reached, session_already_provisioned,
  session_limit_reached, session_not_found, invalid_admission_lease, admission_already_configured,
  admission_lease_required, invalid_space, space_already_exists, space_limit_reached,
  space_id_history_limit_reached, epoch_did_not_advance, parent_space_not_found,
  parent_anchor_not_found, parent_anchor_in_wrong_space,
}
use signalweave.Core.Access.{
  commit, pair_order, require_nonzero, validate_session_key, validate_connection_id,
  authenticated_principal, require_namespace_read, require_session_read,
}

module _ {F : Type 0} where
  -- The checks of `register_channel`.
  unfoldable pub check_channel : ChannelDefinition → WovenCore F → Result CoreError (Unit {0})
  check_channel channel core = do
    require_nonzero channel.id IdKind.channel
    fail_if (channel.max_payload_bytes == 0) (invalid_channel_limit channel.id)
    fail_if (Maps.contains channel.id core.channels) (channel_already_registered channel.id)
    fail_if (length core.channels == core.config.max_channels) channel_limit_reached

  unfoldable pub register_channel :
      ChannelDefinition → WovenCore F → WovenCore F × Result CoreError (Unit {0})
  unfolding check_channel
  register_channel channel core =
      commit core (check_channel channel core)
        λ _. (record core { channels = Maps.insert channel.id channel core.channels }, ok tt)

  -- The checks of `provision_session`.
  unfoldable pub check_session : SessionKey → WovenCore F → Result CoreError (Unit {0})
  check_session key core = do
    validate_session_key key
    fail_if (Maps.contains key core.sessions) (session_already_provisioned key)
    fail_if (length core.sessions == core.config.max_sessions) session_limit_reached

  unfoldable pub provision_session :
      SessionKey → WovenCore F → WovenCore F × Result CoreError (Unit {0})
  unfolding check_session
  provision_session key core =
      commit core (check_session key core)
        λ _. (record core { sessions = Maps.insert key new_session core.sessions }, ok tt)

  -- The checks of `configure_session_admission`.
  unfoldable pub check_configuration :
      SessionKey → AdmissionMetadata → WovenCore F → Result CoreError (Unit {0})
  check_configuration key metadata core = do
    validate_session_key key
    fail_if (not (Maps.contains key core.sessions)) (session_not_found key)
    fail_if (not (same metadata.session key)) (invalid_admission_lease key)
    fail_if (Maps.contains key core.admissions) (admission_already_configured key)

  unfoldable pub configure_session_admission :
      SessionKey
      → AdmissionMetadata
      → QueuePolicy
      → CapacityUpdate
      → WovenCore F
      → WovenCore F × Result CoreError (Unit {0})
  unfolding check_configuration
  configure_session_admission key metadata policy capacity core =
      commit core (check_configuration key metadata core) λ _. (
        record core {
          admissions =
              Maps.insert key (Admission.new metadata policy capacity (Usage.new metadata))
                core.admissions;
        },
        ok tt,
      )

  -- The controller of a session.
  unfoldable pub check_controller : SessionKey → WovenCore F → Result CoreError AdmissionController
  check_controller key core = do
    validate_session_key key
    ok_or (Maps.get key core.admissions) (admission_lease_required key)

  unfoldable pub apply_session_capacity_at :
      SessionKey
      → CapacityUpdate
      → Instant
      → WovenCore F
      → WovenCore F × Result CoreError AdmissionSnapshot
  unfolding check_controller
  apply_session_capacity_at key update now core =
      commit core (check_controller key core) λ controller.
        let (updated, snapshot) = apply_capacity_at update now controller in
        (record core { admissions = Maps.insert key updated core.admissions }, ok snapshot)

  -- The checks of `request_session_admission_at`, with the principal and the controller found.
  unfoldable pub check_request :
      ConnectionId → SessionKey → WovenCore F → Result CoreError (PrincipalId × AdmissionController)
  check_request connection key core = do
    validate_connection_id connection
    validate_session_key key
    principal ← authenticated_principal core connection
    require_namespace_read principal key.namespace
    require_session_read principal key
    controller ← ok_or (Maps.get key core.admissions) (admission_lease_required key)
    ok (principal.principal_id, controller)

  unfoldable pub request_session_admission_at :
      ConnectionId
      → SessionKey
      → IdempotencyKey
      → Instant
      → WovenCore F
      → WovenCore F × Result CoreError JoinDecision
  unfolding check_request
  request_session_admission_at connection key idempotency_key now core =
      commit core (check_request connection key core) λ (principal, controller).
        let (updated, decision) =
          request_join_at (record { principal = principal; idempotency_key = some idempotency_key })
            now controller in
        let after : WovenCore F = record core {
          admissions = Maps.insert key updated core.admissions;
        } in
        elim decision [
          | JoinDecision.admitted lease ↦ (
            record after {
              pending_admissions = Maps.insert (connection, key) lease core.pending_admissions;
            },
            ok (JoinDecision.admitted lease),
          )
          | JoinDecision.queued ticket ↦ (after, ok (JoinDecision.queued ticket))
          | JoinDecision.paused ↦ (after, ok JoinDecision.paused)
          | JoinDecision.rejected reason ↦ (after, ok (JoinDecision.rejected reason))
        ]

  unfoldable pub validate_parent_anchor :
      SessionState F → ParentAnchor → Result CoreError (Unit {0})
  validate_parent_anchor session parent = do
    fail_if (not (Maps.contains parent.parent_space session.spaces))
        (parent_space_not_found parent.parent_space)
    anchor ←
        ok_or (Maps.get parent.anchor_entity session.entities)
          (parent_anchor_not_found parent.anchor_entity)
    fail_if (not (anchor.space == parent.parent_space))
        (parent_anchor_in_wrong_space parent.anchor_entity parent.parent_space)

  -- A space that was removed comes back with a newer epoch only; the history of identifiers is
  -- bounded.
  unfoldable pub check_history :
      CoreConfig → SessionState F → SpaceId → SpaceEpoch → Result CoreError (Unit {0})
  check_history config session id epoch = elim (Maps.get id session.space_epoch_tombstones) [
    | some previous ↦ fail_if (leb epoch previous) (epoch_did_not_advance previous epoch)
    | none ↦
        fail_if
          (length session.spaces + length session.space_epoch_tombstones
            == config.max_space_epoch_tombstones_per_session)
          space_id_history_limit_reached
  ]

  unfoldable pub check_parent : SessionState F → Option ParentAnchor → Result CoreError (Unit {0})
  unfolding validate_parent_anchor
  check_parent session none = ok tt
  check_parent session (some parent) = validate_parent_anchor session parent

module _ (f : Floats) where
  open f use {F64}

  -- The checks of `install_space`, with the session found.
  unfoldable pub check_space :
      SessionKey → SpaceDescriptor F64 → WovenCore F64 → Result CoreError (SessionState F64)
  unfolding check_history check_parent
  check_space key descriptor core = do
    validate_session_key key
    map_err invalid_space (Space.validate f descriptor)
    session ← ok_or (Maps.get key core.sessions) (session_not_found key)
    fail_if (Maps.contains descriptor.id session.spaces)
        (space_already_exists (record { session = key; space = descriptor.id }))
    fail_if (length session.spaces == core.config.max_spaces_per_session) space_limit_reached
    check_history core.config session descriptor.id descriptor.epoch
    check_parent session descriptor.parent
    ok session

  unfoldable pub install_space :
      SessionKey → SpaceDescriptor F64 → WovenCore F64 → WovenCore F64 × Result CoreError (Unit {0})
  unfolding check_space
  install_space key descriptor core = commit core (check_space key descriptor core) λ session.
      let installed : SessionState F64 = record session {
        space_epoch_tombstones = Maps.remove descriptor.id session.space_epoch_tombstones;
        subscribers = Maps.insert descriptor.id [] session.subscribers;
        spaces = Maps.insert descriptor.id descriptor session.spaces;
      } in
      (record core { sessions = Maps.insert key installed core.sessions }, ok tt)
