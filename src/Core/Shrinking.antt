-- ===== src/Core/Shrinking.antt =====
-- What the removal of entities and of the spaces that hang on them in crates/woven-core/src/core.rs does
-- to memberships, subscriptions and spaces.
use signalweave.Prelude.{
  ℕ, ◌-◌, ◌≡◌, ◌∙◌, refl, Bool, true, not, ◌&&◌, ◌||◌, Option, none, some, [], ◌∷◌, Map, Set,
  nat_key, arith, same, same_iff, if◌then◌else◌, option_cases, or_default, Option-cases, inl, inr,
}
use signalweave.Prelude.Maps.{get, insert, contains, map_values}
use signalweave.Prelude.Maps.Laws.{get-insert, get-remove, get-map_values}
use signalweave.Ids.{
  ConnectionId, EntityId, SpaceId, SessionKey, SpaceKey, session_key_order, space_key_order,
}
use signalweave.Core.{ConnectionState, SessionState, WovenCore}
use signalweave.Core.Cascade.{cascade}
use signalweave.Core.Removal.{
  leave_cells, remove_entity_from_cell, close_spaces, recompute_state_bytes, shrink_session,
  count_owners, release_owned, forget, removed_records, remove_from_session,
  remove_entities_and_anchored_spaces,
}
use signalweave.Core.Subscriptions.{CleanupSummary}
use signalweave.Core.Agreement.{Agrees, no_state}
use signalweave.Core.Restricting.{Restricts, Restricts-Agrees, contains-keep}

-- The entry of a space, unless the space is gone.
abbrev unless_gone : {V : Type 0} → Set SpaceId → SpaceId → Option V → Option V
unless_gone gone j found = if contains j gone then none else found

module _ {F : Type 0} where
  -- The members, the spaces and the subscribers of a session stay.
  pub record SameRoom (s t : SessionState F) : Type 0 where
    pub members : t.members ≡ s.members
    pub spaces : t.spaces ≡ s.spaces
    pub subscribers : t.subscribers ≡ s.subscribers

  leave_cells-SameRoom :
      (entities : Set EntityId) (session : SessionState F)
      → SameRoom session (leave_cells entities session)
  unfolding leave_cells remove_entity_from_cell
  leave_cells-SameRoom [] session = record { members = refl; spaces = refl; subscribers = refl }
  leave_cells-SameRoom ((entity, _) ∷ entities) session =
      let rest = leave_cells-SameRoom entities (remove_entity_from_cell entity session) in
      record {
        members = ground (arith, rest.members);
        spaces = ground (arith, rest.spaces);
        subscribers = ground (arith, rest.subscribers);
      }

  record Closes (gone : Set SpaceId) (s t : SessionState F) : Type 0 where
    members : t.members ≡ s.members
    spaces : (j : SpaceId) → get j t.spaces ≡ unless_gone gone j (get j s.spaces)
    subscribers : (j : SpaceId) → get j t.subscribers ≡ unless_gone gone j (get j s.subscribers)

  close_spaces-Closes :
      (gone : Set SpaceId) (session : SessionState F)
      → Closes gone session (close_spaces gone session).0
  unfolding close_spaces get
  close_spaces-Closes [] session = record {
    members = refl;
    spaces = λ j. refl;
    subscribers = λ j. refl;
  }
  close_spaces-Closes ((space, _) ∷ gone) session =
      let rest = close_spaces-Closes gone _ in
      record {
        members = rest.members;
        spaces = λ j. ground (arith, rest.spaces j, get-remove space j session.spaces);
        subscribers =
            λ j. ground (arith, rest.subscribers j, get-remove space j session.subscribers);
      }

  shrink_session-Closes :
      (entities : Set EntityId) (gone : Set SpaceId) (session : SessionState F)
      → Closes gone session (shrink_session entities gone session)
  unfolding shrink_session recompute_state_bytes
  shrink_session-Closes entities gone session =
      let left = leave_cells-SameRoom entities session in
      let closed = close_spaces-Closes gone _ in
      record {
        members = closed.members ∙ left.members;
        spaces = λ j. ground (arith, closed.spaces j, left.spaces);
        subscribers = λ j. ground (arith, closed.subscribers j, left.subscribers);
      }

-- What a connection is a member of and subscribes to.
abbrev pub in_memberships : Option ConnectionState → SessionKey → Bool
in_memberships found key = no_state found λ state. contains key state.memberships

abbrev pub in_subscriptions : Option ConnectionState → SpaceKey → Bool
in_subscriptions found key = no_state found λ state. contains key state.subscriptions

-- Both are the same, and a connection that is not there stays so.
pub record SameRolls (a b : Option ConnectionState) : Type 0 where
  pub memberships : (k : SessionKey) → in_memberships b k ≡ in_memberships a k
  pub subscriptions : (k : SpaceKey) → in_subscriptions b k ≡ in_subscriptions a k
  pub absent : a ≡ none → b ≡ none

release_owned-SameRolls :
    (owners : Map ConnectionId ℕ) (connections : Map ConnectionId ConnectionState)
    (c : ConnectionId)
    → SameRolls (get c connections) (get c (release_owned owners connections))
unfolding release_owned
release_owned-SameRolls [] connections c = record {
  memberships = λ k. refl;
  subscriptions = λ k. refl;
  absent = λ h. h;
}
release_owned-SameRolls ((owner, count) ∷ owners) connections c =
    elim (Option-cases (get owner connections)) [
      | inl none_there ↦ rw none_there (release_owned-SameRolls owners connections c)
      | inr (state, there) ↦
          (let released = record state { owned_entities = state.owned_entities - count } in
            let rest = release_owned-SameRolls owners (insert owner released connections) c in
            let entry = get-insert owner c released connections in
            rw there (record {
              memberships = λ k. ground (arith, there, rest.memberships k, entry, same_iff owner c);
              subscriptions =
                  λ k. ground (arith, there, rest.subscriptions k, entry, same_iff owner c);
              absent = λ h. ground (arith, h, there, rest.absent, entry, same_iff owner c);
            }))
    ]

abbrev pub all_spaces : SessionKey → SpaceId → Bool
all_spaces k j = true

-- What is kept when the spaces are gone.
abbrev pub keeps_space : SessionKey → Set SpaceId → SessionKey → SpaceId → Bool
keeps_space key gone k j = not (same k key && contains j gone)

abbrev pub keeps : SessionKey → Set SpaceId → ConnectionId → SpaceKey → Bool
keeps key gone c k = keeps_space key gone k.session k.space

abbrev pub keeps_member : ConnectionId → SessionKey → Bool
keeps_member c k = true

forget-rolls :
    (key : SessionKey) (entities : Set EntityId) (gone : Set SpaceId)
    (connections : Map ConnectionId ConnectionState) (c : ConnectionId)
    → ((k : SessionKey)
        → in_memberships (get c (map_values (forget key entities gone) connections)) k
          ≡ in_memberships (get c connections) k)
      × ((k : SpaceKey)
          → in_subscriptions (get c (map_values (forget key entities gone) connections)) k
            ≡ (in_subscriptions (get c connections) k && keeps key gone c k))
      × (get c connections ≡ none
          → get c (map_values (forget key entities gone) connections) ≡ none)
unfolding forget
forget-rolls key entities gone connections c =
    let after = get-map_values (forget key entities gone) c connections in
    elim (Option-cases (get c connections)) [
      | inl absent ↦ (
        (λ k. ground (arith, absent, after)),
        (λ k. ground (arith, absent, after)),
        (λ h. ground (arith, absent, after)),
      )
      | inr (state, there) ↦ (
        (λ k. ground (arith, there, after)),
        (λ k. ground (
          arith,
          there,
          after,
          contains-keep
              (λ (space : SpaceKey).
                not (same space.session key) || not (contains space.space gone))
              k state.subscriptions,
        )),
        (λ h. ground (arith, h, there)),
      )
    ]

module _ {F : Type 0} where
  remove_from_session-Restricts :
      (key : SessionKey) (entities : Set EntityId) (gone : Set SpaceId) (session : SessionState F)
      (core : WovenCore F)
      → get key core.sessions ≡ some session
      → Restricts core
          (remove_from_session key entities gone session core).0
          keeps_member
          (keeps key gone)
          (keeps_space key gone)
  unfolding remove_from_session
  remove_from_session-Restricts key entities gone session core there =
      let owners = count_owners (removed_records entities session) [] in
      let closed = shrink_session-Closes entities gone session in
      let rolls = λ (c : ConnectionId). release_owned-SameRolls owners core.connections c in
      let forgotten = λ (c : ConnectionId).
        forget-rolls key entities gone (release_owned owners core.connections) c in
      let entry =
        λ (k : SessionKey). get-insert key k (shrink_session entities gone session) core.sessions in
      record {
        is_members = λ c k. ground (arith, (forgotten c).0 k, (rolls c).memberships k);
        has_members = λ c k. ground (arith, there, entry k, same_iff key k, closed.members);
        are_subscribed = λ c k. ground (arith, (forgotten c).1 k, (rolls c).subscriptions k);
        have_subscribers = λ c k. ground (
          arith,
          there,
          entry k.session,
          same_iff key k.session,
          same_iff k.session key,
          closed.subscribers k.space,
        );
        have_spaces =
            λ k j. ground (arith, there, entry k, same_iff key k, same_iff k key, closed.spaces j);
        have_sets = λ k j.
            ground (arith, there, entry k, same_iff key k, same_iff k key, closed.subscribers j);
        absent = λ c h. (forgotten c).2 ((rolls c).absent h);
        next = refl;
      }

  -- Without the session no space goes.
  forgotten-Restricts :
      (key : SessionKey) (entities : Set EntityId) (core : WovenCore F)
      → Restricts core
          (record core { connections = map_values (forget key entities []) core.connections })
          keeps_member
          (keeps key [])
          (keeps_space key [])
  unfolding get
  forgotten-Restricts key entities core =
      let forgotten = λ (c : ConnectionId). forget-rolls key entities [] core.connections c in
      record {
        is_members = λ c k. ground (arith, (forgotten c).0 k);
        has_members = λ c k. ground arith;
        are_subscribed = λ c k. ground (arith, (forgotten c).1 k);
        have_subscribers = λ c k. ground arith;
        have_spaces = λ k j. ground arith;
        have_sets = λ k j. ground arith;
        absent = λ c h. (forgotten c).2 h;
        next = refl;
      }

  -- The removal takes the subscriptions and the sets of some spaces of the session, and nothing else.
  pub remove_entities_and_anchored_spaces-Restricts :
      (key : SessionKey) (entities : Set EntityId) (core : WovenCore F)
      → (gone : Set SpaceId) × Restricts core
          (remove_entities_and_anchored_spaces key entities core).0
          keeps_member
          (keeps key gone)
          (keeps_space key gone)
  unfolding remove_entities_and_anchored_spaces
  remove_entities_and_anchored_spaces-Restricts key entities core =
      option_cases
        (λ (r : WovenCore F × CleanupSummary).
          (gone : Set SpaceId) × Restricts core r.0 keeps_member (keeps key gone)
            (keeps_space key gone))
        (get key core.sessions) _ _ (λ absent. ([], forgotten-Restricts key entities core))
        (λ session there.
          let removed = or_default (cascade session entities) (entities, []) in
          (removed.1, remove_from_session-Restricts key removed.0 removed.1 session core there))

  pub remove_entities_and_anchored_spaces-Agrees :
      (key : SessionKey) (entities : Set EntityId) (core : WovenCore F)
      → Agrees core
      → Agrees (remove_entities_and_anchored_spaces key entities core).0
  remove_entities_and_anchored_spaces-Agrees key entities core v =
      Restricts-Agrees core _ _ _ _
        (remove_entities_and_anchored_spaces-Restricts key entities core).1 (λ c k h. refl) v
