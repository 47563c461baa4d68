-- ===== src/Core/Snapshot/Visible.antt =====
-- What the snapshot of crates/woven-core/src/core.rs shows of a session.
use signalweave.Prelude.{
  same_refl, ◌≡◌, refl, subst, Bool, true, false, ◌&&◌, Option, none, some, List, [], ◌∷◌, All, map,
  Set, nat_key, same_iff, retain, if_cases, option_cases, ok, ok_or, >>=-eq-ok, then_eq_ok,
  ok_injective, arith,
}
use signalweave.Prelude.Maps.{get, contains, values}
use signalweave.Prelude.Maps.Laws.{get-insert}
use signalweave.Ids.{
  ChannelId, ConnectionId, SessionKey, SpaceId, SpaceKey, session_key_order, space_key_order,
}
use signalweave.Space.{ParentAnchor, SpaceDescriptor}
use signalweave.Auth.{
  AuthenticatedPrincipal, can_read_channel, can_read_namespace, can_read_session, can_read_space,
}
use signalweave.Core.{
  authentication_required, ConnectionState, SessionState, WovenCore, session_not_found,
}
use signalweave.Core.Access.{
  authenticated_principal, connection_of, require_membership, require_namespace_read,
  require_session_read, validate_connection_id, validate_session_key,
}
use signalweave.Core.Snapshot.{
  SpaceSnapshot, EntitySnapshot, StateSnapshot, SessionSnapshot, visible_parent, visible_spaces,
  entity_snapshot, state_snapshot, shown_spaces, snapshot_of, snapshot,
}

-- The connection subscribes to the space, and its principal may read it.
abbrev may_see : AuthenticatedPrincipal → Set SpaceKey → SpaceKey → Bool
may_see principal subscriptions space =
    contains space subscriptions && can_read_space principal.grants space

-- The same of a connection of the core.
abbrev pub sees_space : Option ConnectionState → SpaceKey → Bool
sees_space none space = false
sees_space (some state) space = elim state.authenticated [
  | none ↦ false
  | some principal ↦ may_see principal state.subscriptions space
]

abbrev pub reads_channel : Option ConnectionState → SessionKey → ChannelId → Bool
reads_channel none key channel = false
reads_channel (some state) key channel = elim state.authenticated [
  | none ↦ false
  | some principal ↦ can_read_channel principal.grants (record { session = key; channel = channel })
]

-- The connection is a member of the session, and its principal may read its namespace and it.
abbrev pub reads_session : Option ConnectionState → SessionKey → Bool
reads_session none key = false
reads_session (some state) key = elim state.authenticated [
  | none ↦ false
  | some principal ↦
      contains key state.memberships
      && (can_read_namespace principal.grants key.namespace
          && can_read_session principal.grants key)
]

-- The parent is hidden, or its space passes the test.
abbrev pub parent_is : (SpaceId → Bool) → Option ParentAnchor → Bool
parent_is seen none = true
parent_is seen (some parent) = seen parent.parent_space

All-map-retain :
    {A B : Type 0} (P : B → Type 0) (test : A → Bool) (f : A → B) (xs : List A)
    → ((x : A) → test x ≡ true → P (f x))
    → All P (map f (retain test xs))
unfolding retain
All-map-retain P test f [] holds = tt
All-map-retain P test f (x ∷ xs) holds =
    if_cases (λ ys. All P (map f ys)) (test x) _ _
      (λ kept. (holds x kept, All-map-retain P test f xs holds))
      (λ dropped. All-map-retain P test f xs holds)

module _ {F : Type 0} (key : SessionKey) (principal : AuthenticatedPrincipal)
    (session : SessionState F) where
  -- A visible space is one of a visible subscription.
  contains-visible_spaces :
      (subscriptions : Set SpaceKey) (space : SpaceId)
      → contains space (visible_spaces key principal session subscriptions) ≡ true
      → may_see principal subscriptions (record { session = key; space = space }) ≡ true
  unfolding visible_spaces get
  contains-visible_spaces [] space shown = cc
  contains-visible_spaces ((subscription, _) ∷ subscriptions) space shown = ground (
    arith,
    shown,
    same_iff subscription (record { session = key; space = space }),
    same_iff subscription.session key,
    same_iff subscription.space space,
    get-insert subscription.space space tt (visible_spaces key principal session subscriptions),
    contains-visible_spaces subscriptions space,
  )

-- A parent that the snapshot shows is visible.
visible_parent-parent_is :
    (visible : Set SpaceId) (seen : SpaceId → Bool) (parent : Option ParentAnchor)
    → ((space : SpaceId) → contains space visible ≡ true → seen space ≡ true)
    → parent_is seen (visible_parent visible parent) ≡ true
visible_parent-parent_is visible seen none see = refl
visible_parent-parent_is visible seen (some parent) see = ground (arith, see parent.parent_space)

-- The space of a session, if both are there.
abbrev pub space_of : {F : Type 0} → Option (SessionState F) → SpaceId → Option (SpaceDescriptor F)
space_of none space = none
space_of (some session) space = get space session.spaces

module _ {F : Type 0} (seen : SpaceId → Bool) (found : Option (SessionState F)) where
  -- A space of the snapshot is one of the session that may be seen: it has the descriptor of that space, but for the
  -- parent, which is hidden unless its space may be seen too.
  pub record IsSeen (shown : SpaceSnapshot F) : Type 0 where
    pub space : SpaceId
    pub is_seen : seen space ≡ true
    pub descriptor : SpaceDescriptor F
    pub stored : space_of found space ≡ some descriptor
    pub same_descriptor : shown.descriptor ≡ record descriptor { parent = shown.descriptor.parent }
    pub parent_seen : parent_is seen shown.descriptor.parent ≡ true

  contains-tail :
      (j space : SpaceId) (spaces : Set SpaceId)
      → contains space spaces ≡ true
      → contains space ((j, tt) ∷ spaces) ≡ true
  unfolding get
  contains-tail j space spaces there = ground (arith, there)

  contains-head :
      (space : SpaceId) (spaces : Set SpaceId) → contains space ((space, tt) ∷ spaces) ≡ true
  unfolding get
  contains-head space spaces = ground (arith, same_refl space)

  shown_spaces-IsSeen :
      (session : SessionState F) (visible spaces : Set SpaceId)
      → found ≡ some session
      → ((space : SpaceId) → contains space visible ≡ true → seen space ≡ true)
      → ((space : SpaceId) → contains space spaces ≡ true → seen space ≡ true)
      → All IsSeen (shown_spaces spaces visible session)
  unfolding shown_spaces
  shown_spaces-IsSeen session visible [] is see some_of = tt
  shown_spaces-IsSeen session visible ((space, _) ∷ spaces) is see some_of =
      let rest =
        shown_spaces-IsSeen session visible spaces is see
          (λ j there. some_of j (contains-tail space j spaces there)) in
      option_cases (All IsSeen) (get space session.spaces) _ _ (λ absent. rest)
        (λ descriptor there. (
          record {
            space = space;
            is_seen = some_of space (contains-head space spaces);
            descriptor = descriptor;
            stored = rw is there;
            same_descriptor = refl;
            parent_seen = visible_parent-parent_is visible seen descriptor.parent see;
          },
          rest,
        ))

ok_or-some :
    {E A : Type 0} (found : Option A) (e : E) {a : A} → ok_or found e ≡ ok a → found ≡ some a
ok_or-some none e h = cc
ok_or-some (some b) e h = cc

module _ {F : Type 0} (core : WovenCore F) (connection : ConnectionId) (key : SessionKey) where
  abbrev pub sees : SpaceId → Bool
  sees space =
      sees_space (get connection core.connections) (record { session = key; space = space })

  abbrev pub reads : ChannelId → Bool
  reads channel = reads_channel (get connection core.connections) key channel

  -- The state of a connection whose principal the core gives.
  record IsState (principal : AuthenticatedPrincipal) (state : ConnectionState) : Type 0 where
    there : get connection core.connections ≡ some state
    given : state.authenticated ≡ some principal

  authenticated_principal-IsState :
      (principal : AuthenticatedPrincipal) (state : ConnectionState)
      → authenticated_principal core connection ≡ ok principal
      → connection_of core connection ≡ ok state
      → IsState principal state
  authenticated_principal-IsState principal state given there =
      let is = ok_or-some (get connection core.connections) _ there in
      record {
        there = is;
        given = ok_or-some state.authenticated authentication_required (rw is at given);
      }

  module _ (principal : AuthenticatedPrincipal) (state : ConnectionState)
      (is : IsState principal state) where
    may_see-sees :
        (space : SpaceId)
        → may_see principal state.subscriptions (record { session = key; space = space }) ≡ true
        → sees space ≡ true
    may_see-sees space may = rw (is.there, is.given) may

    can_read_channel-reads :
        (channel : ChannelId)
        → can_read_channel principal.grants (record { session = key; channel = channel }) ≡ true
        → reads channel ≡ true
    can_read_channel-reads channel can = rw (is.there, is.given) can

    reads_session-true :
        require_namespace_read principal key.namespace ≡ ok tt
        → require_session_read principal key ≡ ok tt
        → require_membership core connection key ≡ ok tt
        → reads_session (get connection core.connections) key ≡ true
    reads_session-true namespace own member =
        rw (is.there, is.given) (ground (arith, namespace, own, member, is.there))

  -- What the snapshot of a session may show the connection.
  abbrev Shows : SessionSnapshot F → Type 0
  Shows shown =
      All (λ (entity : EntitySnapshot). sees entity.space ≡ true) shown.entities
      × All (λ (state : StateSnapshot). (sees state.space && reads state.channel) ≡ true)
          shown.state
      × All (IsSeen sees (get key core.sessions)) shown.spaces

  snapshot_of-Shows :
      (principal : AuthenticatedPrincipal) (state : ConnectionState) (session : SessionState F)
      → IsState principal state
      → get key core.sessions ≡ some session
      → Shows (
          snapshot_of key principal
            (visible_spaces key principal session state.subscriptions)
            session)
  unfolding snapshot_of
  snapshot_of-Shows principal state session is there =
      let see : (space : SpaceId)
          → contains space (visible_spaces key principal session state.subscriptions) ≡ true
          → sees space ≡ true =
        λ space shown.
          may_see-sees principal state is space
            (contains-visible_spaces key principal session state.subscriptions space shown) in
      (
        All-map-retain _ _ entity_snapshot (values session.entities)
            (λ entity shown. see entity.space shown),
        All-map-retain _ _ state_snapshot session.state (λ entry shown. ground (
          arith,
          shown,
          see entry.0.space,
          can_read_channel-reads principal state is entry.0.channel,
        )),
        shown_spaces-IsSeen sees (get key core.sessions) session _ _ there see see,
      )

  -- A snapshot shows a connection no more than its subscriptions and the grants of its principal let it read: the
  -- connection is a member of the session and may read its namespace and it; every space that is shown, and the space
  -- of every entity and of every state, is one that it subscribes to and may read; the channel of every state is one that
  -- it may read; a space is shown with the descriptor that it has in the session, but for its parent, which is hidden
  -- unless the parent's space is one of those too.
  pub snapshot-sees :
      (shown : SessionSnapshot F)
      → snapshot connection key core ≡ ok shown
      → (reads_session (get connection core.connections) key ≡ true)
        × All (λ (entity : EntitySnapshot). sees entity.space ≡ true) shown.entities
        × All
            (λ (state : StateSnapshot). (sees state.space && reads state.channel) ≡ true)
            shown.state
        × All (IsSeen sees (get key core.sessions)) shown.spaces
  unfolding snapshot snapshot_of
  snapshot-sees shown is =
      let principal =
        >>=-eq-ok (authenticated_principal core connection) _
          (then_eq_ok (validate_session_key key) _
            (then_eq_ok (validate_connection_id connection) _ is).1).1 in
      let namespace = then_eq_ok (require_namespace_read principal.0 key.namespace) _ principal.2 in
      let own = then_eq_ok (require_session_read principal.0 key) _ namespace.1 in
      let member = then_eq_ok (require_membership core connection key) _ own.1 in
      let state = >>=-eq-ok (connection_of core connection) _ member.1 in
      let session = >>=-eq-ok (ok_or (get key core.sessions) (session_not_found key)) _ state.2 in
      let at_state = authenticated_principal-IsState principal.0 state.0 principal.1 state.1 in
      let shows = subst Shows (ok_injective session.2) (
        snapshot_of-Shows principal.0 state.0 session.0 at_state
          (ok_or-some (get key core.sessions) _ session.1)) in
      (
        reads_session-true principal.0 state.0 at_state namespace.0 own.0 member.0,
        shows.0,
        shows.1,
        shows.2,
      )
