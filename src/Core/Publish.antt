-- ===== src/Core/Publish.antt =====
-- `publish_at` of crates/woven-core/src/core.rs.
use signalweave.Prelude.{
  ℕ, true, not, Option, none, some, List, [], ◌∷◌, map, Map, Set, nat_key, length, ltb,
  if◌then◌else◌, count_if, Result, ok, err, fail_if, ok_or, map_err, map_ok, ◌>>=◌, ◌>>◌,
}
use signalweave.Prelude.Maps
use signalweave.Ids.{ConnectionId, SessionKey, session_key_order, space_key_order}
use signalweave.Message.{OutboundMessage, durable}
use signalweave.Journal
use signalweave.Journal.{JournalOutbox}
use signalweave.RateLimit
use signalweave.RateLimit.{Instant}
use signalweave.Space.{Floats}
use signalweave.Auth.{AuthenticatedPrincipal, can_write_channel}
use signalweave.Authority.{
  AuthorityContext, ProposedMessage, AuthorityOutcome, accept, reject, transform, emit,
}
use signalweave.Core.{
  ConnectionState, CoreConfig, CoreError, SequenceKey, SessionState, WovenCore, of_rate_limit,
  channel_write_access_denied, unknown_channel, session_not_found, authority_rejected,
  authority_emission_limit_exceeded, journal_outbox_saturated,
}
use signalweave.Core.Access.{
  commit, validate_connection_id, connection_of, authenticated_principal, require_namespace_write,
  require_session_write, require_space_write, require_membership, require_subscription,
}
use signalweave.Core.Keys.{sequence_key_order}
use signalweave.Core.Publishing.{
  PublishRequest, AuthorizedMessage, from_request, from_emission, to_outbound, sequence_key,
  same_persistence, validate_publish_request_ids, validate_channel_policy, validate_message,
}
use signalweave.Core.StateStore.{
  validate_sequence_capacity, validate_state_capacity, store_sequences, store_all,
}
use signalweave.Core.Routing.{routing_recipients}
use signalweave.Core.Departure.{transport_lost}
use signalweave.Core.Fanout.{PublishOutcome, no_activity, push_durable, Fanout, deliver_to}

-- The messages and the sequences planned so far.
pub record Plan : Type 0 where
  pub messages : List AuthorizedMessage
  pub sequences : Map SequenceKey ℕ

-- What the authority's outcome makes of the request.
unfoldable pub decide :
    CoreConfig → ConnectionId → AuthorizedMessage → AuthorityOutcome → Result CoreError Plan
unfolding sequence_key
decide config connection proposed accept = ok (record { messages = proposed ∷ []; sequences = [] })
decide config connection proposed (reject reason) = err (authority_rejected reason)
decide config connection proposed (transform transformed) = ok (record {
  messages =
      record proposed { coalesce_key = transformed.coalesce_key; payload = transformed.payload }
      ∷ [];
  sequences = [];
})
decide config connection proposed (emit emissions) = do
  fail_if (ltb config.max_authority_emissions (length emissions)) authority_emission_limit_exceeded
  ok (record {
    messages = map from_emission emissions;
    sequences = (sequence_key connection proposed, proposed.sequence) ∷ [];
  })

unfoldable pub proposed_of : PublishRequest → ProposedMessage
proposed_of request = record {
  space = request.space;
  space_epoch = request.space_epoch;
  entity = request.entity;
  channel = request.channel;
  sequence = request.sequence;
  delivery = request.delivery;
  persistence = request.persistence;
  coalesce_key = request.coalesce_key;
  payload = request.payload;
}

module _ {F : Type 0} where
  -- The owner of the entity that the request names.
  unfoldable pub entity_owner : Option ℕ → SessionState F → Option ConnectionId
  entity_owner none session = none
  entity_owner (some entity) session = elim (Maps.get entity session.entities) [
    | none ↦ none
    | some found ↦ some found.owner_connection
  ]

  -- `for message in &messages`: each is checked against the sequences planned before it.
  unfoldable pub plan_all :
      WovenCore F
      → ConnectionId
      → SessionKey
      → List AuthorizedMessage
      → Map SequenceKey ℕ
      → Result CoreError (Map SequenceKey ℕ)
  unfolding validate_message sequence_key
  plan_all core connection key [] planned = ok planned
  plan_all core connection key (message ∷ messages) planned = do
    validate_message core connection key message planned
    plan_all core connection key messages
        (Maps.insert (sequence_key connection message) message.sequence planned)

  -- The checks of the grants, with the principal found.
  unfoldable pub check_publisher :
      PublishRequest → WovenCore F → Result CoreError AuthenticatedPrincipal
  unfolding validate_publish_request_ids
  check_publisher request core = do
    validate_publish_request_ids request
    principal ← authenticated_principal core request.connection
    require_namespace_write principal request.session.namespace
    require_session_write principal request.session
    require_space_write principal (record { session = request.session; space = request.space })
    fail_if
        (not (
          can_write_channel principal.grants
            (record { session = request.session; channel = request.channel })))
        (channel_write_access_denied
          (record { session = request.session; channel = request.channel }))
    require_membership core request.connection request.session
    require_subscription core request.connection
        (record { session = request.session; space = request.space })
    ok principal

  -- What the authority is asked.
  unfoldable pub context_of :
      PublishRequest → AuthenticatedPrincipal → SessionState F → AuthorityContext
  unfolding entity_owner
  context_of request principal session = record {
    connection = request.connection;
    principal = principal.principal_id;
    is_session_member = true;
    is_space_subscriber = true;
    entity_owner = entity_owner request.entity session;
  }

  -- All that is checked before anything is stored: the messages, and the sequences they use.
  unfoldable pub check_publish : PublishRequest → WovenCore F → Result CoreError Plan
  unfolding check_publisher validate_channel_policy validate_message context_of proposed_of decide
      plan_all validate_sequence_capacity validate_state_capacity
  check_publish request core = do
    principal ← check_publisher request core
    channel ← ok_or (Maps.get request.channel core.channels) (unknown_channel request.channel)
    validate_channel_policy channel request.delivery request.persistence
    session ← ok_or (Maps.get request.session core.sessions) (session_not_found request.session)
    validate_message core request.connection request.session (from_request request) []
    decided ←
        decide core.config request.connection (from_request request)
          (channel.authority (context_of request principal session) (proposed_of request))
    planned ← plan_all core request.connection request.session decided.messages decided.sequences
    validate_sequence_capacity core.config session planned
    validate_state_capacity core.config session decided.messages
    fail_if
        (ltb (Journal.remaining_capacity core.journal_outbox) (
          count_if (λ (message : AuthorizedMessage). same_persistence message.persistence durable)
            decided.messages))
        journal_outbox_saturated
    ok (record { messages = decided.messages; sequences = planned })

  -- The sequences and the states of a plan, stored in the session.
  unfoldable pub store_plan : Plan → SessionState F → SessionState F
  unfolding store_sequences store_all
  store_plan plan session =
      store_all plan.messages
        (record session { sequences = store_sequences plan.sequences session.sequences })

  -- `for connection in disconnected`, with the connections that it has disconnected.
  unfoldable pub disconnect_all :
      Set ConnectionId → Instant → WovenCore F → WovenCore F × Result CoreError (List ConnectionId)
  unfolding transport_lost
  disconnect_all [] now core = (core, ok [])
  disconnect_all ((connection, _) ∷ rest) now core =
      let others = disconnect_all rest now core in
      let lost = transport_lost connection now core in
      let after = disconnect_all rest now lost.0 in
      if not (Maps.contains connection core.connections)
      then others
      else (commit lost.0 lost.1 λ _. (after.0, map_ok (λ ids. connection ∷ ids) after.1))

module _ (f : Floats) where
  open f use {F64}

  -- The loop over the messages and their recipients.
  unfoldable pub deliver_all :
      WovenCore F64
      → SessionKey
      → List OutboundMessage
      → Fanout
      → Fanout × Result CoreError (Unit {0})
  unfolding deliver_to routing_recipients
  deliver_all core key [] fanout = (fanout, ok tt)
  deliver_all core key (outbound ∷ messages) fanout =
      let recipients = elim (Maps.get key core.sessions) as (λ _. Set ConnectionId) [
        | none ↦ []
        | some session ↦ routing_recipients f session outbound
      ] in
      let sent = deliver_to key outbound recipients fanout in
      commit sent.0 sent.1 λ _. deliver_all core key messages sent.0

  -- What follows when the checks have passed.
  unfoldable pub apply_publish :
      SessionKey → Plan → Instant → WovenCore F64 → WovenCore F64 × Result CoreError PublishOutcome
  unfolding push_durable store_plan deliver_all disconnect_all
  apply_publish key plan now core =
      let outbound = map (to_outbound key) plan.messages in
      let journal = push_durable outbound core.journal_outbox in
      let recorded : WovenCore F64 = record core { journal_outbox = journal.0 } in
      commit recorded journal.1 λ _.
        commit recorded (ok_or (Maps.get key core.sessions) (session_not_found key)) λ session.
          let stored : WovenCore F64 = record recorded {
            sessions = Maps.insert key (store_plan plan session) core.sessions;
          } in
          let sent = deliver_all stored key outbound (record {
            connections = stored.connections;
            recipient_attempts = 0;
            queues = no_activity;
            disconnected = [];
          }) in
          let delivered_core : WovenCore F64 = record stored { connections = sent.0.connections } in
          commit delivered_core sent.1 λ _.
            let closed = disconnect_all sent.0.disconnected now delivered_core in
            (
              closed.0,
              map_ok
                  (λ ids. record {
                    authorized_messages = length plan.messages;
                    recipient_attempts = sent.0.recipient_attempts;
                    queues = sent.0.queues;
                    disconnected_slow_consumers = ids;
                  })
                  closed.1,
            )

  -- The connection that publishes.
  unfoldable pub check_known : ConnectionId → WovenCore F64 → Result CoreError ConnectionState
  check_known connection core = do validate_connection_id connection; connection_of core connection

  unfoldable pub publish_at :
      PublishRequest → Instant → WovenCore F64 → WovenCore F64 × Result CoreError PublishOutcome
  unfolding check_known check_publish apply_publish
  publish_at request now core = commit core (check_known request.connection core) λ state.
      let admitted = RateLimit.admit core.config.publish_rate_limit now state.rate_limiter in
      let limited : WovenCore F64 = record core {
        connections =
            Maps.insert request.connection (record state { rate_limiter = admitted.0 })
              core.connections;
      } in
      commit limited (map_err of_rate_limit admitted.1) λ _.
        commit limited (check_publish request limited)
          λ plan. apply_publish request.session plan now limited
