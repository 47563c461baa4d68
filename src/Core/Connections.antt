-- ===== src/Core/Connections.antt =====
-- Connections of crates/woven-core/src/core.rs: their start, sign-in, membership and subscriptions. A
-- second look-up of a key that a check has just found is the first.
use signalweave.Prelude.{
  ◌+◌, Bool, not, ◌&&◌, ◌||◌, Option, none, some, List, [], Result, ok, err, panic, fail_if, ok_or,
  map_err, ◌>>=◌, ◌>>◌, nat_key, length, any, is_some, ltb, ◌==◌, same, if◌then◌else◌,
}
use signalweave.Prelude.Maps
use signalweave.Ids.{
  PrincipalId, ConnectionId, SessionKey, session_key_order, space_key_order, u64_mod,
}
use signalweave.Message.{OutboundMessage}
use signalweave.Queue
use signalweave.Auth.{AuthenticatedPrincipal, Credentials}
use signalweave.RateLimit
use signalweave.Journal
use signalweave.Journal.{JournalRecord}
use signalweave.Admission.{AdmissionLease}
use signalweave.Admission.Control.{has_active_lease}
use signalweave.Core.{
  ConnectionState, CoreError, IdKind, SessionState, WovenCore, connection_limit_reached,
  id_exhausted, invalid_queue_config, already_authenticated, authentication_failed,
  admission_lease_required, invalid_admission_lease, session_not_found, membership_limit_reached,
}
use signalweave.Core.Access.{
  commit, pair_order, require_nonzero, validate_session_key, validate_connection_id, connection_of,
  authenticated_principal, require_namespace_read, require_session_read,
}

-- `==` of leases
abbrev pub same_lease : AdmissionLease → AdmissionLease → Bool
same_lease a b =
    a.id == b.id
    && (same a.session b.session
        && (a.principal == b.principal && a.resume_token == b.resume_token))

module _ {F : Type 0} where
  -- Another connection fits, and has an identifier.
  unfoldable pub check_connection_limit : WovenCore F → Result CoreError (Unit {0})
  check_connection_limit core = do
    fail_if (length core.connections == core.config.max_connections) connection_limit_reached
    fail_if (not (ltb (core.next_connection_id + 1) u64_mod)) id_exhausted

  unfoldable pub transport_connected : WovenCore F → WovenCore F × Result CoreError ConnectionId
  unfolding check_connection_limit
  transport_connected core = commit core (check_connection_limit core) λ _.
      let id = core.next_connection_id in
      let numbered : WovenCore F = record core { next_connection_id = id + 1 } in
      commit numbered (map_err invalid_queue_config (Queue.new core.config.outbound_queue))
        λ outbound.
          let state : ConnectionState = record {
            authenticated = none;
            memberships = [];
            subscriptions = [];
            owned_entities = 0;
            rate_limiter = RateLimit.fresh;
            outbound = outbound;
          } in
          (record numbered { connections = Maps.insert id state core.connections }, ok id)

  -- The checks of `authenticate`, with the connection found and its new principal.
  unfoldable pub check_credentials :
      ConnectionId
      → Credentials
      → WovenCore F
      → Result CoreError (ConnectionState × AuthenticatedPrincipal)
  check_credentials connection credentials core = do
    validate_connection_id connection
    state ← connection_of core connection
    fail_if (is_some state.authenticated) already_authenticated
    principal ← map_err authentication_failed (core.authenticator credentials)
    require_nonzero principal.principal_id IdKind.principal
    ok (state, principal)

  unfoldable pub authenticate :
      ConnectionId → Credentials → WovenCore F → WovenCore F × Result CoreError PrincipalId
  unfolding check_credentials
  authenticate connection credentials core =
      commit core (check_credentials connection credentials core) λ (state, principal). (
        record core {
          connections =
              Maps.insert connection (record state { authenticated = some principal })
                core.connections;
        },
        ok principal.principal_id,
      )

  -- The connection becomes a member.
  abbrev pub add_member :
      ConnectionId → SessionKey → ConnectionState → SessionState F → WovenCore F → WovenCore F
  add_member connection key state session core = record core {
    connections =
        Maps.insert connection (record state { memberships = Maps.insert key tt state.memberships })
          core.connections;
    sessions =
        Maps.insert key (record session { members = Maps.insert connection tt session.members })
          core.sessions;
  }

  -- The checks of `join_session_unchecked_admission`, with the session and the connection found.
  unfoldable pub check_join :
      ConnectionId → SessionKey → WovenCore F → Result CoreError (SessionState F × ConnectionState)
  check_join connection key core = do
    validate_connection_id connection
    validate_session_key key
    principal ← authenticated_principal core connection
    require_namespace_read principal key.namespace
    require_session_read principal key
    session ← ok_or (Maps.get key core.sessions) (session_not_found key)
    state ← connection_of core connection
    ok (session, state)

  unfoldable pub join_session_unchecked_admission :
      ConnectionId → SessionKey → WovenCore F → WovenCore F × Result CoreError (Unit {0})
  unfolding check_join
  join_session_unchecked_admission connection key core =
      commit core (check_join connection key core) λ (session, state).
        if Maps.contains key state.memberships
        then (core, ok tt)
        else if length state.memberships == core.config.max_memberships_per_connection
        then (core, err membership_limit_reached)
        else (add_member connection key state session core, ok tt)

  unfoldable pub join_session :
      ConnectionId → SessionKey → WovenCore F → WovenCore F × Result CoreError (Unit {0})
  unfolding join_session_unchecked_admission
  join_session connection key core =
      if Maps.contains key core.admissions
      then (core, err (admission_lease_required key))
      else join_session_unchecked_admission connection key core

  -- The lease is pending for the connection, active, and bound to no connection.
  unfoldable pub check_lease :
      ConnectionId → SessionKey → AdmissionLease → WovenCore F → Result CoreError (Unit {0})
  check_lease connection key lease core = do
    pending ←
        ok_or (Maps.get (connection, key) core.pending_admissions) (invalid_admission_lease key)
    fail_if (not (same_lease pending lease)) (invalid_admission_lease key)
    controller ← ok_or (Maps.get key core.admissions) (admission_lease_required key)
    fail_if
        (not (has_active_lease controller lease)
          || any (λ bound. same_lease bound lease) (Maps.values core.admission_leases))
        (invalid_admission_lease key)

  -- The lease is one of the session, for the principal of the connection.
  unfoldable pub check_lease_owner :
      ConnectionId → SessionKey → AdmissionLease → WovenCore F → Result CoreError (Unit {0})
  check_lease_owner connection key lease core = do
    validate_connection_id connection
    validate_session_key key
    principal ← authenticated_principal core connection
    fail_if (not (same lease.session key) || not (lease.principal == principal.principal_id))
        (invalid_admission_lease key)

  unfoldable pub join_session_with_admission :
      ConnectionId
      → SessionKey
      → AdmissionLease
      → WovenCore F
      → WovenCore F × Result CoreError (Unit {0})
  unfolding check_lease join_session_unchecked_admission check_lease_owner
  join_session_with_admission connection key lease core =
      commit core (check_lease_owner connection key lease core) λ _.
        elim (Maps.get (connection, key) core.admission_leases) [
          | some bound ↦
              (core, if same_lease bound lease then ok tt else err (invalid_admission_lease key))
          | none ↦ commit core (check_lease connection key lease core) λ _.
              let (joined, result) = join_session_unchecked_admission connection key core in
              commit joined result λ _. (
                record joined {
                  pending_admissions = Maps.remove (connection, key) joined.pending_admissions;
                  admission_leases = Maps.insert (connection, key) lease joined.admission_leases;
                },
                ok tt,
              )
        ]

  unfoldable pub drain_outbound :
      ConnectionId → WovenCore F → Option (WovenCore F × Result CoreError (List OutboundMessage))
  drain_outbound connection core =
      elim (do validate_connection_id connection; connection_of core connection) [
        | err e ↦ some (core, err e)
        | panic ↦ some (core, panic)
        | ok state ↦ elim (Queue.drain state.outbound) [
          | none ↦ none
          | some (outbound, messages) ↦ some (
            record core {
              connections =
                  Maps.insert connection (record state { outbound = outbound }) core.connections;
            },
            ok messages,
          )
        ]
      ]

  -- The core after a call of `drain_outbound`; the loop of the queue always returns.
  abbrev pub after_drain : ConnectionId → WovenCore F → WovenCore F
  after_drain connection core = elim (drain_outbound connection core) [
    | none ↦ core
    | some drained ↦ drained.0
  ]

  unfoldable pub pop_journal_record : WovenCore F → WovenCore F × Option JournalRecord
  pop_journal_record core =
      let (journal_outbox, popped) = Journal.pop core.journal_outbox in
      (record core { journal_outbox = journal_outbox }, popped)
