-- ===== src/Core/Least.antt =====
-- The results of the loop of `remove_entities_and_anchored_spaces` in
-- crates/woven-core/src/core.rs beside other closed sets.
use signalweave.Prelude.{
  ℕ, zero, suc, ◌+◌, ◌≡◌, subst, Bool, true, ◌&&◌, Option, none, some, [], Set, nat_key, arith,
  length, ◌==◌, Bool-cases, inl, inr,
}
use signalweave.Prelude.Maps.{get, contains, values}
use signalweave.Ids.{EntityId, SpaceId}
use signalweave.Space.{ParentAnchor}
use signalweave.Core.{SessionState}
use signalweave.Core.Cascade.{hangs_on, sweep_spaces, sweep_entities, cascade_loop, cascade}
use signalweave.Core.Sweep.{sweep-least}
use signalweave.Core.Closure.{
  All-map, IsClosed, entity_id, hangs_in, hangs_test, implies, lies_test, space_id,
}

module _ {F : Type 0} (session : SessionState F) where
  cascade_loop-least :
      (p q : ℕ → Bool)
      → IsClosed session p q
      → (fuel : ℕ) (entities : Set EntityId) (spaces : Set SpaceId) (removed : Set EntityId)
        (gone : Set SpaceId)
      → cascade_loop fuel session entities spaces ≡ some (removed, gone)
      → ((k : ℕ) → contains k entities ≡ true → p k ≡ true)
      → ((k : ℕ) → contains k spaces ≡ true → q k ≡ true)
      → ((k : ℕ) → contains k removed ≡ true → p k ≡ true)
        × ((k : ℕ) → contains k gone ≡ true → q k ≡ true)
  unfolding cascade_loop
  cascade_loop-least p q closed zero entities spaces removed gone h a b = cc
  cascade_loop-least p q closed (suc fuel) entities spaces removed gone h a b =
      elim (Bool-cases
        (length spaces == length more_spaces && length entities == length more_entities)) [
          | inl e ↦
              (let r : more_entities ≡ removed = ground arith in
                let g : more_spaces ≡ gone = ground arith in
                (
                  subst (λ s. (k : ℕ) → contains k s ≡ true → p k ≡ true) r entities_in,
                  subst (λ s. (k : ℕ) → contains k s ≡ true → q k ≡ true) g spaces_in,
                ))
          | inr e ↦
              cascade_loop-least p q closed fuel more_entities more_spaces removed gone
                (ground arith) entities_in spaces_in
        ]
    where
      more_spaces : Set SpaceId
      more_spaces = sweep_spaces session entities spaces

      more_entities : Set EntityId
      more_entities = sweep_entities session more_spaces entities

      hangs :
          (parent : Option ParentAnchor) (set : Set SpaceId)
          → ((k : ℕ) → contains k set ≡ true → q k ≡ true)
          → hangs_on entities set parent ≡ true
          → hangs_in p q parent ≡ true
      hangs none set w h = h
      hangs (some parent) set w h = ground (arith, h, w parent.parent_space, a parent.anchor_entity)

      spaces_in : (k : ℕ) → contains k more_spaces ≡ true → q k ≡ true
      spaces_in =
          sweep-least (space_id session) (hangs_test session entities) q (values session.spaces)
            (All-map (λ d i set w j. ground (arith, i, hangs d.parent set w j))
              (values session.spaces) closed.hangs)
            spaces b

      entities_in : (k : ℕ) → contains k more_entities ≡ true → p k ≡ true
      entities_in =
          sweep-least (entity_id session) (lies_test session more_spaces) p
            (values session.entities)
            (All-map (λ d i set w j. ground (arith, i, spaces_in d.space j))
              (values session.entities) closed.inside)
            entities a

  -- What the loop finds is least: it lies within all closed sets that hold the given entities.
  pub cascade-least :
      (entities removed : Set EntityId) (gone : Set SpaceId) (p q : ℕ → Bool) (k : ℕ)
      → cascade session entities ≡ some (removed, gone)
      → ((j : ℕ) → implies (contains j entities) (p j) ≡ true)
      → IsClosed session p q
      → (implies (contains k removed) (p k) ≡ true) × (implies (contains k gone) (q k) ≡ true)
  unfolding cascade get
  cascade-least entities removed gone p q k h w closed =
      let (a, b) =
        cascade_loop-least p q closed (suc (length session.spaces + length session.entities))
          entities [] removed gone h (λ j c. ground (arith, w j, c)) (λ j c. ground arith) in
      (ground (arith, a k), ground (arith, b k))
