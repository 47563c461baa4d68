-- ===== src/Core/Restricting.antt =====
-- Changes of the state of crates/woven-core/src/core.rs that only take memberships, subscriptions and
-- spaces away, the same on both sides.
use signalweave.Prelude.{
  ◌≡◌, refl, Bool, true, ◌&&◌, none, some, [], ◌∷◌, Map, Set, Key, nat_key, arith, same, same_iff,
  if◌then◌else◌, Option-cases, inl, inr,
}
use signalweave.Prelude.Maps.{get, contains, keep, modify}
use signalweave.Prelude.Maps.Laws.{get-insert}
use signalweave.Ids.{
  ConnectionId, SpaceId, SessionKey, SpaceKey, session_key_order, space_key_order,
}
use signalweave.Core.{WovenCore}
use signalweave.Core.Agreement.{
  Agrees, is_member, has_member, is_subscribed, has_subscriber, has_space, has_subscribers,
}

module _ {F : Type 0} where
  pub record Restricts (core after : WovenCore F) (kept_member : ConnectionId → SessionKey → Bool)
      (kept : ConnectionId → SpaceKey → Bool) (kept_space : SessionKey → SpaceId → Bool)
      : Type 0 where
    pub is_members :
        (c : ConnectionId) (k : SessionKey)
        → is_member after c k ≡ (is_member core c k && kept_member c k)
    pub has_members :
        (c : ConnectionId) (k : SessionKey)
        → has_member after c k ≡ (has_member core c k && kept_member c k)
    pub are_subscribed :
        (c : ConnectionId) (k : SpaceKey)
        → is_subscribed after c k ≡ (is_subscribed core c k && kept c k)
    pub have_subscribers :
        (c : ConnectionId) (k : SpaceKey)
        → has_subscriber after c k.session k.space
          ≡ (has_subscriber core c k.session k.space && kept c k)
    pub have_spaces :
        (k : SessionKey) (j : SpaceId)
        → has_space after k j ≡ (has_space core k j && kept_space k j)
    pub have_sets :
        (k : SessionKey) (j : SpaceId)
        → has_subscribers after k j ≡ (has_subscribers core k j && kept_space k j)
    pub absent : (c : ConnectionId) → get c core.connections ≡ none → get c after.connections ≡ none
    pub next : core.next_connection_id ≡ after.next_connection_id

  pub Restricts-Agrees :
      (core after : WovenCore F) (kept_member : ConnectionId → SessionKey → Bool)
      (kept : ConnectionId → SpaceKey → Bool) (kept_space : SessionKey → SpaceId → Bool)
      → Restricts core after kept_member kept kept_space
      → ((c : ConnectionId) (k : SpaceKey) → kept c k ≡ true → kept_member c k.session ≡ true)
      → Agrees core
      → Agrees after
  Restricts-Agrees core after kept_member kept kept_space r nested v = record {
    members = λ c k. ground (arith, r.is_members c k, r.has_members c k, v.members c k);
    subscribers =
        λ c k. ground (arith, r.are_subscribed c k, r.have_subscribers c k, v.subscribers c k);
    inside = λ c k h.
        ground (arith, h, r.are_subscribed c k, r.is_members c k.session, v.inside c k, nested c k);
    spaces = λ k j. ground (arith, r.have_spaces k j, r.have_sets k j, v.spaces k j);
    fresh = λ c h. r.absent c (v.fresh c (omega (arith, h, r.next)));
  }

-- What a filter of a set by its elements, a change of one entry and a change of all leave.
module _ {ℓ} {K : Type ℓ} ⦃e : Key K⦄ where
  pub contains-keep :
      (p : K → Bool) (k : K) (set : Set K)
      → contains k (keep (λ j _. p j) set) ≡ (contains k set && p k)
  unfolding get keep
  contains-keep p k [] = refl
  contains-keep p k ((j, _) ∷ set) = ground (arith, same_iff j k, contains-keep p k set)

-- A change of the entry of one key.
module _ {K : Type 0} {V : Type 0} ⦃e : Key K⦄ where
  pub get-modify :
      (f : V → V) (j k : K) (m : Map K V)
      → get k (modify j f m)
        ≡ (if same j k then (elim (get k m) [ none ↦ none | some v ↦ some (f v) ]) else get k m)
  unfolding modify
  get-modify f j k m = elim (Option-cases (get j m)) [
    | inl absent ↦ ground (arith, absent, same_iff j k)
    | inr (v, there) ↦ ground (arith, there, same_iff j k, get-insert j k (f v) m)
  ]
