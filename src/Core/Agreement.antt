-- ===== src/Core/Agreement.antt =====
-- The records of memberships and subscriptions that connections and sessions keep in
-- crates/woven-core/src/core.rs, and their agreement.
use signalweave.Prelude.{
  ◌≤◌, ◌≡◌, refl, Bool, true, false, Option, none, some, Result, ok, err, panic, nat_key, arith,
  same, same_iff, if◌then◌else◌,
}
use signalweave.Prelude.Maps.{get, insert, contains}
use signalweave.Prelude.Maps.Laws.{get-insert}
use signalweave.Ids.{
  ConnectionId, SpaceId, SessionKey, SpaceKey, session_key_order, space_key_order,
}
use signalweave.Core.{ConnectionState, CoreError, SessionState, WovenCore}
use signalweave.Core.Access.{commit}
use signalweave.Core.Connections.{add_member}

abbrev pub no_state : {V : Type 0} → Option V → (V → Bool) → Bool
no_state none p = false
no_state (some v) p = p v

-- A property of the state holds after a checked operation if it held before and the operation keeps
-- it when the check passes.
pub commit_cases :
    {S X A : Type 0} (P : S → Type 0) (s : S) (check : Result CoreError X)
    (next : X → S × Result CoreError A)
    → P s
    → ((x : X) → check ≡ ok x → P (next x).0)
    → P (commit s check next).0
commit_cases P s (ok x) next h k = k x refl
commit_cases P s (err e) next h k = h
commit_cases P s panic next h k = h

module _ {F : Type 0} where
  -- The connection's side.
  abbrev pub is_member : WovenCore F → ConnectionId → SessionKey → Bool
  is_member core connection key =
      no_state (get connection core.connections) λ state. contains key state.memberships

  abbrev pub is_subscribed : WovenCore F → ConnectionId → SpaceKey → Bool
  is_subscribed core connection key =
      no_state (get connection core.connections) λ state. contains key state.subscriptions

  -- The session's side.
  abbrev pub has_member : WovenCore F → ConnectionId → SessionKey → Bool
  has_member core connection key =
      no_state (get key core.sessions) λ session. contains connection session.members

  abbrev pub has_subscriber : WovenCore F → ConnectionId → SessionKey → SpaceId → Bool
  has_subscriber core connection key space =
      no_state (get key core.sessions)
        λ session. no_state (get space session.subscribers) λ set. contains connection set

  -- Whether a space of the session has a descriptor, and whether it has a set of subscribers.
  abbrev pub has_space : WovenCore F → SessionKey → SpaceId → Bool
  has_space core key space =
      no_state (get key core.sessions) λ session. contains space session.spaces

  abbrev pub has_subscribers : WovenCore F → SessionKey → SpaceId → Bool
  has_subscribers core key space =
      no_state (get key core.sessions) λ session. contains space session.subscribers

  pub record Agrees (core : WovenCore F) : Type 0 where
    pub members :
        (connection : ConnectionId) (key : SessionKey)
        → is_member core connection key ≡ has_member core connection key
    pub subscribers :
        (connection : ConnectionId) (key : SpaceKey)
        → is_subscribed core connection key ≡ has_subscriber core connection key.session key.space
    pub inside :
        (connection : ConnectionId) (key : SpaceKey)
        → is_subscribed core connection key ≡ true
        → is_member core connection key.session ≡ true
    pub spaces :
        (key : SessionKey) (space : SpaceId)
        → has_space core key space ≡ has_subscribers core key space
    -- Identifiers that are still to be given out are in no use.
    pub fresh :
        (connection : ConnectionId)
        → core.next_connection_id ≤ connection
        → get connection core.connections ≡ none

  -- The invariant is about three fields only.
  pub same-Agrees :
      (core after : WovenCore F)
      → Agrees core
      → after.connections ≡ core.connections
      → after.sessions ≡ core.sessions
      → core.next_connection_id ≤ after.next_connection_id
      → Agrees after
  same-Agrees core after v c s n = record {
    members = λ k j. ground (arith, c, s, v.members k j);
    subscribers = λ k j. ground (arith, c, s, v.subscribers k j);
    inside = λ k j h. ground (arith, c, s, v.inside k j);
    spaces = λ k j. ground (arith, c, s, v.spaces k j);
    fresh = λ k h. ground (arith, c, v.fresh k);
  }

  pub unchanged-Agrees :
      (core after : WovenCore F)
      → Agrees core
      → after.connections ≡ core.connections
      → after.sessions ≡ core.sessions
      → core.next_connection_id ≡ after.next_connection_id
      → Agrees after
  unchanged-Agrees core after v c s n = same-Agrees core after v c s (omega (arith, n))

  pub add_member-Agrees :
      (connection : ConnectionId) (key : SessionKey) (state : ConnectionState)
      (session : SessionState F) (core : WovenCore F)
      → Agrees core
      → get connection core.connections ≡ some state
      → get key core.sessions ≡ some session
      → Agrees (add_member connection key state session core)
  add_member-Agrees connection key state session core v e s = record {
    members = λ c k. ground (
      arith,
      v.members c k,
      e,
      s,
      same_iff connection c,
      same_iff key k,
      states c,
      sessions k,
      get-insert key k tt state.memberships,
      get-insert connection c tt session.members,
    );
    subscribers = λ c k. ground (
      arith,
      v.subscribers c k,
      e,
      s,
      same_iff connection c,
      same_iff key k.session,
      states c,
      sessions k.session,
    );
    inside = λ c k h. ground (
      arith,
      v.inside c k,
      e,
      same_iff connection c,
      states c,
      get-insert key k.session tt state.memberships,
    );
    spaces = λ k j. ground (arith, v.spaces k j, s, same_iff key k, sessions k);
    fresh = λ c h. ground (arith, v.fresh c h, e, same_iff connection c, states c);
  }
    where
      states :
          (c : ConnectionId)
          → get c (add_member connection key state session core).connections ≡ (
              if same connection c
              then some (record state { memberships = insert key tt state.memberships })
              else get c core.connections)
      states c = get-insert connection c _ core.connections

      sessions :
          (k : SessionKey)
          → get k (add_member connection key state session core).sessions ≡ (
              if same key k
              then some (record session { members = insert connection tt session.members })
              else get k core.sessions)
      sessions k = get-insert key k _ core.sessions
