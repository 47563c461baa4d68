-- ===== src/Core/Cascade.antt =====
-- The loop of `remove_entities_and_anchored_spaces` in crates/woven-core/src/core.rs: the entities and
-- the spaces that go with the given entities.
use signalweave.Prelude.{
  ℕ, zero, suc, ◌+◌, Bool, false, ◌&&◌, ◌||◌, Option, none, some, List, [], ◌∷◌, Set, nat_key,
  length, ◌==◌, if◌then◌else◌,
}
use signalweave.Prelude.Maps
use signalweave.Ids.{EntityId, SpaceId}
use signalweave.Space.{ParentAnchor, SpaceDescriptor}
use signalweave.Core.{EntityRecord, SessionState}

-- `BTreeSet::insert`, which leaves a set as it is that has the element.
abbrev pub add : ℕ → Set ℕ → Set ℕ
add k set = if Maps.contains k set then set else Maps.insert k tt set

-- A loop that adds the elements that pass a test of the set so far.
unfoldable pub sweep : {A : Type 0} → (A → ℕ) → (Set ℕ → A → Bool) → List A → Set ℕ → Set ℕ
sweep id test [] set = set
sweep id test (a ∷ rest) set = sweep id test rest (if test set a then add (id a) set else set)

-- The space hangs on a removed entity or lies in a removed space.
abbrev pub hangs_on : Set EntityId → Set SpaceId → Option ParentAnchor → Bool
hangs_on entities spaces none = false
hangs_on entities spaces (some parent) =
    Maps.contains parent.anchor_entity entities || Maps.contains parent.parent_space spaces

module _ {F : Type 0} where
  -- The two inner loops.
  abbrev pub sweep_spaces : SessionState F → Set EntityId → Set SpaceId → Set SpaceId
  sweep_spaces session entities =
      sweep (λ (d : SpaceDescriptor F). d.id) (λ spaces d. hangs_on entities spaces d.parent)
        (Maps.values session.spaces)

  abbrev pub sweep_entities : SessionState F → Set SpaceId → Set EntityId → Set EntityId
  sweep_entities session spaces =
      sweep (λ (e : EntityRecord F). e.id) (λ _ e. Maps.contains e.space spaces)
        (Maps.values session.entities)

  -- The outer loop, on fuel: the removed entities and spaces, or `none` when the fuel runs out.
  unfoldable pub cascade_loop :
      ℕ → SessionState F → Set EntityId → Set SpaceId → Option (Set EntityId × Set SpaceId)
  unfolding sweep
  cascade_loop zero session entities spaces = none
  cascade_loop (suc fuel) session entities spaces =
      let more_spaces = sweep_spaces session entities spaces in
      let more_entities = sweep_entities session more_spaces entities in
      let rest = cascade_loop fuel session more_entities more_spaces in
      if length spaces == length more_spaces && length entities == length more_entities
      then some (more_entities, more_spaces)
      else rest

  unfoldable pub cascade : SessionState F → Set EntityId → Option (Set EntityId × Set SpaceId)
  unfolding cascade_loop
  cascade session entities =
      cascade_loop (suc (length session.spaces + length session.entities)) session entities []
