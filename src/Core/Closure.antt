-- ===== src/Core/Closure.antt =====
-- Closed sets of entities and spaces, and the loop of `remove_entities_and_anchored_spaces` in
-- crates/woven-core/src/core.rs.
use signalweave.Prelude.{
  ℕ, zero, suc, ◌+◌, ◌≤◌, ◌<◌, ◌≡◌, refl, sym, ap, subst, Bool, true, false, not, ◌&&◌, ◌||◌,
  Option, none, some, List, [], ◌∷◌, Map, Set, nat_key, arith, All, count_if, length, ◌==◌,
  Bool-cases, inl, inr,
}
use signalweave.Prelude.Maps.{contains, values}
use signalweave.Ids.{EntityId, SpaceId}
use signalweave.Space.{ParentAnchor, SpaceDescriptor}
use signalweave.Core.{EntityRecord, SessionState}
use signalweave.Core.Cascade.{hangs_on, sweep_spaces, sweep_entities, cascade_loop, cascade}
use signalweave.Core.Sweep.{
  IsWithin, sweep-IsWithin, missing, sweep-missing, length-sweep-le, sweep-same, sweep-closed,
}

abbrev pub implies : Bool → Bool → Bool
implies a b = not a || b

-- The anchor of a space is in `p`, or its parent in `q`.
abbrev pub hangs_in : (ℕ → Bool) → (ℕ → Bool) → Option ParentAnchor → Bool
hangs_in p q none = false
hangs_in p q (some parent) = p parent.anchor_entity || q parent.parent_space

-- A set of entities and a set of spaces that hold all that hangs on them.
pub record IsClosed {F : Type 0} (session : SessionState F) (p q : ℕ → Bool) : Type 0 where
  pub hangs :
      All
        (λ (d : SpaceDescriptor F). implies (hangs_in p q d.parent) (q d.id) ≡ true)
        (values session.spaces)
  pub inside :
      All (λ (e : EntityRecord F). implies (q e.space) (p e.id) ≡ true) (values session.entities)

pub All-map :
    {A : Type 0} {P Q : A → Type 0} → ((a : A) → P a → Q a) → (xs : List A) → All P xs → All Q xs
All-map f [] h = tt
All-map f (x ∷ xs) h = (f x h.0, All-map f xs h.1)

count_if_le : {A : Type 0} (p : A → Bool) (xs : List A) → count_if p xs ≤ length xs
unfolding count_if
count_if_le p [] = omega arith
count_if_le p (x ∷ xs) = ground (arith, count_if_le p xs)

length-values : {V : Type 0} (m : Map ℕ V) → length (values m) ≡ length m
length-values [] = refl
length-values (e ∷ m) = ap suc (length-values m)

module _ {F : Type 0} (session : SessionState F) where
  abbrev pub space_id : SpaceDescriptor F → ℕ
  space_id d = d.id

  abbrev pub entity_id : EntityRecord F → ℕ
  entity_id e = e.id

  -- The tests of the two loops.
  abbrev pub hangs_test : Set EntityId → Set SpaceId → SpaceDescriptor F → Bool
  hangs_test entities spaces d = hangs_on entities spaces d.parent

  abbrev pub lies_test : Set SpaceId → Set EntityId → EntityRecord F → Bool
  lies_test spaces _ e = contains e.space spaces

  abbrev lost_spaces : Set SpaceId → ℕ
  lost_spaces spaces =
      missing (λ (d : SpaceDescriptor F). d.id) (λ s (d : SpaceDescriptor F). true)
        (values session.spaces) spaces

  abbrev lost_entities : Set EntityId → ℕ
  lost_entities entities =
      missing (λ (e : EntityRecord F). e.id) (λ s (e : EntityRecord F). true)
        (values session.entities) entities

  -- A round that adds nothing has found closed sets.
  fixed-IsClosed :
      (entities : Set EntityId) (spaces : Set SpaceId)
      → sweep_spaces session entities spaces ≡ spaces
      → sweep_entities session spaces entities ≡ entities
      → IsClosed session (λ k. contains k entities) (λ k. contains k spaces)
  fixed-IsClosed entities spaces s e = record {
    hangs =
        All-map (λ d h. ground (arith, h, s)) (values session.spaces)
          (sweep-closed space_id (hangs_test entities)
            (λ set more d w h. grows d.parent set more w h) (values session.spaces) spaces);
    inside =
        All-map (λ d h. ground (arith, h, e)) (values session.entities)
          (sweep-closed entity_id (lies_test spaces) (λ set more d w h. h) (values session.entities)
            entities);
  }
    where
      grows :
          (parent : Option ParentAnchor) (set more : Set SpaceId)
          → IsWithin set more
          → hangs_on entities set parent ≡ true
          → hangs_on entities more parent ≡ true
      grows none set more w h = h
      grows (some parent) set more w h = ground (arith, h, w parent.parent_space)

  -- With more fuel than spaces and entities that are not yet removed, the loop ends, in closed sets
  -- that hold those it began with.
  record Found (entities : Set EntityId) (spaces : Set SpaceId)
      (result : Option (Set EntityId × Set SpaceId)) : Type 0 where
    removed : Set EntityId
    gone : Set SpaceId
    found : result ≡ some (removed, gone)
    holds : IsWithin entities removed
    closed : IsClosed session (λ k. contains k removed) (λ k. contains k gone)

  cascade_loop-Found :
      (fuel : ℕ) (entities : Set EntityId) (spaces : Set SpaceId)
      → lost_spaces spaces + lost_entities entities < fuel
      → Found entities spaces (cascade_loop fuel session entities spaces)
  unfolding cascade_loop
  cascade_loop-Found zero entities spaces h = ground arith
  cascade_loop-Found (suc fuel) entities spaces h =
      elim (Bool-cases
        (length spaces == length more_spaces && length entities == length more_entities)) [
          | inl e ↦ record {
            removed = more_entities;
            gone = more_spaces;
            found = rw e refl;
            holds =
                sweep-IsWithin entity_id (lies_test more_spaces) (values session.entities) entities;
            closed = stable e;
          }
          | inr e ↦
              (let later = cascade_loop-Found fuel more_entities more_spaces (shrinks e) in
                record {
                  removed = later.removed;
                  gone = later.gone;
                  found = rw e later.found;
                  holds = λ k c. later.holds k (
                      sweep-IsWithin entity_id (lies_test more_spaces) (values session.entities)
                        entities k c);
                  closed = later.closed;
                })
        ]
    where
      more_spaces : Set SpaceId
      more_spaces = sweep_spaces session entities spaces

      more_entities : Set EntityId
      more_entities = sweep_entities session more_spaces entities

      stable :
          (length spaces == length more_spaces && length entities == length more_entities) ≡ true
          → IsClosed session (λ k. contains k more_entities) (λ k. contains k more_spaces)
      stable e =
          let s : more_spaces ≡ spaces =
            sweep-same space_id (hangs_test entities) (values session.spaces) spaces
              (ground arith) in
          let t : more_entities ≡ entities =
            sweep-same entity_id (lies_test more_spaces) (values session.entities) entities
              (ground arith) in
          subst (λ a. IsClosed session (λ k. contains k a) (λ k. contains k more_spaces)) (sym t)
            (subst (λ b. IsClosed session (λ k. contains k entities) (λ k. contains k b)) (sym s)
              (fixed-IsClosed entities spaces s
                (subst (λ b. sweep_entities session b entities ≡ entities) s t)))

      shrinks :
          (length spaces == length more_spaces && length entities == length more_entities) ≡ false
          → lost_spaces more_spaces + lost_entities more_entities < fuel
      shrinks e = ground (
        arith,
        h,
        length-sweep-le space_id (hangs_test entities) (values session.spaces) spaces,
        length-sweep-le entity_id (lies_test more_spaces) (values session.entities) entities,
        sweep-missing space_id (hangs_test entities) (values session.spaces) spaces,
        sweep-missing entity_id (lies_test more_spaces) (values session.entities) entities,
      )

  -- The loop that finds what is removed with the given entities ends, whatever hangs on what: it
  -- yields sets of entities and spaces that hold the given entities, every space anchored to a removed
  -- entity or below a removed space, and every entity of a removed space.
  pub cascade-IsClosed :
      (entities : Set EntityId)
      → (removed : Set EntityId) × (gone : Set SpaceId) × (cascade session entities
          ≡ some (removed, gone))
        × ((k : EntityId) → implies (contains k entities) (contains k removed) ≡ true)
        × IsClosed session (λ k. contains k removed) (λ k. contains k gone)
  unfolding cascade
  cascade-IsClosed entities =
      let f =
        cascade_loop-Found (suc (length session.spaces + length session.entities)) entities [] (
          omega (
            arith,
            count_if_le (λ (d : SpaceDescriptor F). not (contains {V = Unit {0}} d.id []))
                (values session.spaces),
            count_if_le (λ (e : EntityRecord F). not (contains e.id entities))
                (values session.entities),
            length-values session.spaces,
            length-values session.entities,
          )) in
      (f.removed, f.gone, f.found, (λ k. ground (arith, f.holds k)), f.closed)
