-- ===== src/Core/Access.antt =====
-- The checks of crates/woven-core/src/core.rs on identifiers, grants, membership and subscription.
use signalweave.Prelude.{
  ℕ, ◌≡◌, [], ◌∷◌, Result, ok, err, panic, fail_if, ok_or, ◌>>=◌, ◌>>◌, Key, nat_key, not, ◌==◌,
}
use signalweave.Prelude.Maps
use signalweave.Ids.{
  NamespaceId, ConnectionId, SessionKey, SpaceKey, session_key_order, space_key_order,
}
use signalweave.Auth.{
  AuthenticatedPrincipal, can_read_namespace, can_write_namespace, can_read_session,
  can_write_session, can_read_space, can_write_space,
}
use signalweave.Core.{
  CoreError, IdKind, WovenCore, ConnectionState, reserved_zero_id, unknown_connection,
  authentication_required, namespace_read_access_denied, namespace_write_access_denied,
  session_read_access_denied, session_write_access_denied, space_read_access_denied,
  space_write_access_denied, session_membership_required, subscription_required,
}

-- A check with the state before it, and what follows when it passes.
abbrev pub commit :
    {S X A : Type 0}
    → S
    → Result CoreError X
    → (X → S × Result CoreError A)
    → S × Result CoreError A
commit s (ok x) next = next x
commit s (err e) next = (s, err e)
commit s panic next = (s, panic)

-- A connection and a session as one key.
pub pair_injective :
    (a b : ConnectionId × SessionKey)
    → ◌≡◌ (a.0 ∷ a.1.namespace ∷ a.1.session ∷ []) (b.0 ∷ b.1.namespace ∷ b.1.session ∷ [])
    → a ≡ b
pair_injective a b h = cc

instance abbrev pub pair_order : Key (ConnectionId × SessionKey)
pair_order = record {
  rank = λ k. k.0 ∷ k.1.namespace ∷ k.1.session ∷ [];
  rank_injective = pair_injective;
}

abbrev pub require_nonzero : ℕ → IdKind → Result CoreError (Unit {0})
require_nonzero value kind = fail_if (value == 0) (reserved_zero_id kind)

abbrev pub validate_session_key : SessionKey → Result CoreError (Unit {0})
validate_session_key key = do
  require_nonzero key.namespace IdKind.namespace
  require_nonzero key.session IdKind.session

abbrev pub validate_space_key : SpaceKey → Result CoreError (Unit {0})
validate_space_key key = do validate_session_key key.session; require_nonzero key.space IdKind.space

abbrev pub validate_connection_id : ConnectionId → Result CoreError (Unit {0})
validate_connection_id connection = require_nonzero connection IdKind.connection

abbrev pub require_namespace_read :
    AuthenticatedPrincipal → NamespaceId → Result CoreError (Unit {0})
require_namespace_read p k =
    fail_if (not (can_read_namespace p.grants k)) (namespace_read_access_denied k)

abbrev pub require_namespace_write :
    AuthenticatedPrincipal → NamespaceId → Result CoreError (Unit {0})
require_namespace_write p k =
    fail_if (not (can_write_namespace p.grants k)) (namespace_write_access_denied k)

abbrev pub require_session_read : AuthenticatedPrincipal → SessionKey → Result CoreError (Unit {0})
require_session_read p k =
    fail_if (not (can_read_session p.grants k)) (session_read_access_denied k)

abbrev pub require_session_write : AuthenticatedPrincipal → SessionKey → Result CoreError (Unit {0})
require_session_write p k =
    fail_if (not (can_write_session p.grants k)) (session_write_access_denied k)

abbrev pub require_space_read : AuthenticatedPrincipal → SpaceKey → Result CoreError (Unit {0})
require_space_read p k = fail_if (not (can_read_space p.grants k)) (space_read_access_denied k)

abbrev pub require_space_write : AuthenticatedPrincipal → SpaceKey → Result CoreError (Unit {0})
require_space_write p k = fail_if (not (can_write_space p.grants k)) (space_write_access_denied k)

-- `get` with the error for a connection that is not there.
abbrev pub connection_of :
    {F : Type 0} → WovenCore F → ConnectionId → Result CoreError ConnectionState
connection_of core connection =
    ok_or (Maps.get connection core.connections) (unknown_connection connection)

abbrev pub authenticated_principal :
    {F : Type 0} → WovenCore F → ConnectionId → Result CoreError AuthenticatedPrincipal
authenticated_principal core connection = do
  state ← connection_of core connection
  ok_or state.authenticated authentication_required

abbrev pub require_membership :
    {F : Type 0} → WovenCore F → ConnectionId → SessionKey → Result CoreError (Unit {0})
require_membership core connection session = do
  state ← connection_of core connection
  fail_if (not (Maps.contains session state.memberships)) (session_membership_required session)

abbrev pub require_subscription :
    {F : Type 0} → WovenCore F → ConnectionId → SpaceKey → Result CoreError (Unit {0})
require_subscription core connection space = do
  state ← connection_of core connection
  fail_if (not (Maps.contains space state.subscriptions)) (subscription_required space)
