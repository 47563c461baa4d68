-- ===== src/Core/Provisioning.antt =====
-- New connections, sign-in, new sessions and new spaces of crates/woven-core/src/core.rs, for the
-- agreement of both records.
use signalweave.Prelude.{
  ◌+◌, ◌≡◌, refl, none, some, [], ok, map_err, nat_key, arith, same, same_iff, if◌then◌else◌,
}
use signalweave.Prelude.Maps.{get, insert, contains}
use signalweave.Prelude.Maps.Laws.{get-insert}
use signalweave.Ids.{ConnectionId, SpaceId, SessionKey, session_key_order, space_key_order}
use signalweave.Auth.{AuthenticatedPrincipal, Credentials}
use signalweave.Queue
use signalweave.Queue.{OutboundQueue}
use signalweave.RateLimit
use signalweave.Space.{Floats, SpaceDescriptor}
use signalweave.Core.{ConnectionState, SessionState, WovenCore, new_session, invalid_queue_config}
use signalweave.Core.Connections.{
  check_connection_limit, transport_connected, authenticate, check_credentials,
}
use signalweave.Core.Sessions.{check_session, provision_session, check_space, install_space}
use signalweave.Core.Agreement.{Agrees, commit_cases, same-Agrees, no_state}

-- A connection that has just begun.
abbrev connected : OutboundQueue → ConnectionState
connected outbound = record {
  authenticated = none;
  memberships = [];
  subscriptions = [];
  owned_entities = 0;
  rate_limiter = RateLimit.fresh;
  outbound = outbound;
}

module _ {F : Type 0} where
  pub transport_connected-Agrees :
      (core : WovenCore F) → Agrees core → Agrees (transport_connected core).0
  unfolding transport_connected get
  transport_connected-Agrees core v =
      commit_cases Agrees core (check_connection_limit core) _ v λ _ _.
        commit_cases Agrees (record core { next_connection_id = core.next_connection_id + 1 })
          (map_err invalid_queue_config (Queue.new core.config.outbound_queue)) _
          (same-Agrees core _ v refl refl (omega arith)) λ outbound _. added outbound
    where
      added :
          (outbound : OutboundQueue)
          → Agrees (record core {
            next_connection_id = core.next_connection_id + 1;
            connections = insert core.next_connection_id (connected outbound) core.connections;
          })
      added outbound = record {
        members = λ c k.
            ground (arith, v.members c k, free, same_iff core.next_connection_id c, states c);
        subscribers = λ c k.
            ground (arith, v.subscribers c k, free, same_iff core.next_connection_id c, states c);
        inside =
            λ c k h. ground (arith, v.inside c k, same_iff core.next_connection_id c, states c);
        spaces = v.spaces;
        fresh = λ c h. ground (arith, v.fresh c, same_iff core.next_connection_id c, states c);
      }
        where
          free : get core.next_connection_id core.connections ≡ none
          free = v.fresh core.next_connection_id (omega arith)

          states :
              (c : ConnectionId)
              → get c (insert core.next_connection_id (connected outbound) core.connections) ≡ (
                  if same core.next_connection_id c
                  then some (connected outbound)
                  else get c core.connections)
          states c = get-insert core.next_connection_id c _ core.connections

  check_credentials-found :
      (connection : ConnectionId) (credentials : Credentials) (core : WovenCore F)
      (x : ConnectionState × AuthenticatedPrincipal)
      → check_credentials connection credentials core ≡ ok x
      → get connection core.connections ≡ some x.0
  unfolding check_credentials
  check_credentials-found connection credentials core x h = ground arith

  pub authenticate-Agrees :
      (connection : ConnectionId) (credentials : Credentials) (core : WovenCore F)
      → Agrees core
      → Agrees (authenticate connection credentials core).0
  unfolding authenticate
  authenticate-Agrees connection credentials core v =
      commit_cases Agrees core (check_credentials connection credentials core) _ v
        λ x h. signed_in x (check_credentials-found connection credentials core x h)
    where
      signed_in :
          (x : ConnectionState × AuthenticatedPrincipal)
          → get connection core.connections ≡ some x.0
          → Agrees (record core {
            connections =
                insert connection (record x.0 { authenticated = some x.1 }) core.connections;
          })
      signed_in x e = record {
        members = λ c k. ground (arith, v.members c k, e, same_iff connection c, states c);
        subscribers = λ c k. ground (arith, v.subscribers c k, e, same_iff connection c, states c);
        inside = λ c k h. ground (arith, v.inside c k, e, same_iff connection c, states c);
        spaces = v.spaces;
        fresh = λ c h. ground (arith, v.fresh c h, e, same_iff connection c, states c);
      }
        where
          states :
              (c : ConnectionId)
              → get c (insert connection (record x.0 { authenticated = some x.1 }) core.connections)
                ≡ (if same connection c
                    then some (record x.0 { authenticated = some x.1 })
                    else get c core.connections)
          states c = get-insert connection c _ core.connections

  -- A session that is replaced by one with the same members, whose new spaces have no subscribers.
  pub insert_session-Agrees :
      (key : SessionKey) (session : SessionState F) (core : WovenCore F)
      → Agrees core
      → ((c : ConnectionId)
          → contains c session.members ≡ no_state (get key core.sessions) λ s. contains c s.members)
      → ((c : ConnectionId) (j : SpaceId)
          → no_state (get j session.subscribers) (λ set. contains c set)
            ≡ no_state
                (get key core.sessions)
                (λ s. no_state (get j s.subscribers) λ set. contains c set))
      → ((j : SpaceId) → contains j session.spaces ≡ contains j session.subscribers)
      → Agrees (record core { sessions = insert key session core.sessions })
  insert_session-Agrees key session core v m s t = record {
    members = λ c k.
        ground (arith, v.members c k, m c, same_iff key k, get-insert key k session core.sessions);
    subscribers = λ c k. ground (
      arith,
      v.subscribers c k,
      s c k.space,
      same_iff key k.session,
      get-insert key k.session session core.sessions,
    );
    inside = v.inside;
    spaces = λ k j.
        ground (arith, v.spaces k j, t j, same_iff key k, get-insert key k session core.sessions);
    fresh = v.fresh;
  }

  check_session-absent :
      (key : SessionKey) (core : WovenCore F)
      → check_session key core ≡ ok tt
      → get key core.sessions ≡ none
  unfolding check_session
  check_session-absent key core h = ground arith

  pub provision_session-Agrees :
      (key : SessionKey) (core : WovenCore F) → Agrees core → Agrees (provision_session key core).0
  unfolding provision_session get
  provision_session-Agrees key core v = commit_cases Agrees core (check_session key core) _ v λ _ h.
      let absent = check_session-absent key core (ground arith) in
      insert_session-Agrees key new_session core v (λ c. rw absent refl) (λ c j. rw absent refl)
        λ j. refl

module _ (f : Floats) where
  open f use {F64}

  check_space-found :
      (key : SessionKey) (descriptor : SpaceDescriptor F64) (core : WovenCore F64)
      (session : SessionState F64)
      → check_space f key descriptor core ≡ ok session
      → (get key core.sessions ≡ some session) × (get descriptor.id session.spaces ≡ none)
  unfolding check_space
  check_space-found key descriptor core session h = ground arith

  pub install_space-Agrees :
      (key : SessionKey) (descriptor : SpaceDescriptor F64) (core : WovenCore F64)
      → Agrees core
      → Agrees (install_space f key descriptor core).0
  unfolding install_space get
  install_space-Agrees key descriptor core v =
      commit_cases Agrees core (check_space f key descriptor core) _ v λ session h.
        let (s, absent) = check_space-found key descriptor core session h in
        insert_session-Agrees key _ core v (λ c. ground (arith, s))
          (λ c j. ground (
            arith,
            s,
            absent,
            v.spaces key j,
            same_iff descriptor.id j,
            get-insert descriptor.id j [] session.subscribers,
          ))
          λ j. ground (
            arith,
            s,
            v.spaces key j,
            same_iff descriptor.id j,
            get-insert descriptor.id j [] session.subscribers,
            get-insert descriptor.id j descriptor session.spaces,
          )
