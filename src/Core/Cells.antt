-- ===== src/Core/Cells.antt =====
-- The index of the spatial cells of crates/woven-core/src/core.rs: the cell of each entity, and the
-- entities of each cell.
use signalweave.Prelude.{
  ◌≡◌, refl, ap, Bool, true, false, Option, none, some, [], ◌∷◌, Map, Set, nat_key, length, ◌==◌,
  if◌then◌else◌, if_cases, option_cases, or_default, arith, same, same_iff, same_refl,
}
use signalweave.Prelude.Maps.{get, insert, remove, contains}
use signalweave.Prelude.Maps.Laws.{get-insert, get-remove}
use signalweave.Ids.{EntityId}
use signalweave.Core.{SpatialCellKey, SessionState}
use signalweave.Core.Keys.{spatial_cell_key_order}
use signalweave.Core.Removal.{leave_cell, remove_entity_from_cell, insert_entity_into_cell}
use signalweave.Core.Entities.{move_to_cell, same_cell}

-- Whether the entity is in the set of the cell.
abbrev pub in_set : EntityId → Option (Set EntityId) → Bool
in_set entity none = false
in_set entity (some entities) = contains entity entities

-- Whether the cell is the entity's.
abbrev pub is_cell : SpatialCellKey → Option SpatialCellKey → Bool
is_cell cell none = false
is_cell cell (some own) = same own cell

module _ {F : Type 0} where
  -- Both sides of the index say the same.
  abbrev pub IsIndexed : SessionState F → Type 0
  IsIndexed session =
      (entity : EntityId) (cell : SpatialCellKey)
      → in_set entity (get cell session.cell_entities)
        ≡ is_cell cell (get entity session.entity_cells)

-- An empty set has no element.
contains-empty :
    (entity : EntityId) (entities : Set EntityId)
    → (length entities == 0) ≡ true
    → contains entity entities ≡ false
unfolding get
contains-empty entity [] empty = refl
contains-empty entity (e ∷ entities) empty = ground arith

-- What the removal of an entity from a set leaves.
abbrev without : EntityId → EntityId → Bool → Bool
without entity other found = if same entity other then false else found

contains-remove :
    (entity other : EntityId) (entities : Set EntityId)
    → contains other (remove entity entities) ≡ without entity other (contains other entities)
contains-remove entity other entities = ground (arith, get-remove entity other entities)

in_set-leave_cell :
    (entity other : EntityId) (cell c : SpatialCellKey) (cells : Map SpatialCellKey (Set EntityId))
    → in_set other (get c (leave_cell entity cell cells)) ≡ (
        if same cell c
        then without entity other (in_set other (get c cells))
        else in_set other (get c cells))
unfolding leave_cell
in_set-leave_cell entity other cell c cells =
    option_cases Left (get cell cells) cells _ (λ absent. ground (arith, absent, same_iff cell c))
      (λ entities present.
        if_cases Left (length (remove entity entities) == 0) _ _
          (λ empty. ground (
            arith,
            present,
            same_iff cell c,
            get-remove cell c cells,
            contains-empty other (remove entity entities) empty,
            contains-remove entity other entities,
          ))
          (λ some_left. ground (
            arith,
            present,
            same_iff cell c,
            get-insert cell c (remove entity entities) cells,
            contains-remove entity other entities,
          )))
  where
    Left : Map SpatialCellKey (Set EntityId) → Type 0
    Left after = in_set other (get c after) ≡ (
        if same cell c
        then without entity other (in_set other (get c cells))
        else in_set other (get c cells))

contains-insert-entry :
    (entity other : EntityId) (found : Option (Set EntityId))
    → contains other (insert entity tt (or_default found []))
      ≡ (if same entity other then true else in_set other found)
unfolding get insert
contains-insert-entry entity other none = ground arith
contains-insert-entry entity other (some entities) =
    ground (arith, get-insert entity other tt entities)

module _ {F : Type 0} (session : SessionState F) (indexed : IsIndexed session) where
  remove_entity_from_cell-IsIndexed :
      (entity : EntityId) → IsIndexed (remove_entity_from_cell entity session)
  unfolding remove_entity_from_cell
  remove_entity_from_cell-IsIndexed entity =
      option_cases IsIndexed (get entity session.entity_cells) session _ (λ absent. indexed)
        (λ cell present other c. ground (
          arith,
          present,
          indexed other c,
          in_set-leave_cell entity other cell c session.cell_entities,
          get-remove entity other session.entity_cells,
          same_iff entity other,
          same_iff cell c,
        ))

  remove_entity_from_cell-none :
      (entity : EntityId) → get entity (remove_entity_from_cell entity session).entity_cells ≡ none
  unfolding remove_entity_from_cell
  remove_entity_from_cell-none entity =
      option_cases (λ (after : SessionState F). get entity after.entity_cells ≡ none)
        (get entity session.entity_cells) session _ (λ absent. absent)
        (λ cell present.
          ground (arith, get-remove entity entity session.entity_cells, same_refl entity))

  insert_entity_into_cell-IsIndexed :
      (entity : EntityId) (cell : SpatialCellKey)
      → get entity session.entity_cells ≡ none
      → IsIndexed (insert_entity_into_cell entity cell session)
  unfolding insert_entity_into_cell
  insert_entity_into_cell-IsIndexed entity cell absent other c = ground (
    arith,
    absent,
    indexed other c,
    same_iff entity other,
    same_iff cell c,
    get-insert entity other cell session.entity_cells,
    get-insert cell c (insert entity tt (or_default (get cell session.cell_entities) []))
        session.cell_entities,
    contains-insert-entry entity other (get cell session.cell_entities),
  )

same_cell-eq : (a b : Option SpatialCellKey) → same_cell a b ≡ true → a ≡ b
same_cell-eq none none h = refl
same_cell-eq none (some b) h = cc
same_cell-eq (some a) none h = cc
same_cell-eq (some a) (some b) h = ap some ((same_iff a b).0 h)

-- What a move has to do: keep the index, and give the entity its cell.
abbrev IsMoved : {F : Type 0} → EntityId → Option SpatialCellKey → SessionState F → Type 0
IsMoved entity cell session = IsIndexed session × (get entity session.entity_cells ≡ cell)

insert_entity_into_cell-IsMoved :
    {F : Type 0} (session : SessionState F) (entity : EntityId) (cell : SpatialCellKey)
    → IsMoved entity none session
    → IsMoved entity (some cell) (insert_entity_into_cell entity cell session)
unfolding insert_entity_into_cell
insert_entity_into_cell-IsMoved session entity cell free = (
  insert_entity_into_cell-IsIndexed session free.0 entity cell free.1,
  ground (arith, get-insert entity entity cell session.entity_cells, same_refl entity),
)

-- Moving an entity keeps the index of the cells: whatever cell the entity was in, and whichever it gets, or none, the
-- entities of each cell are afterwards again those whose own cell it is.
pub move_to_cell-IsIndexed :
    {F : Type 0} (session : SessionState F) (entity : EntityId) (cell : Option SpatialCellKey)
    → IsIndexed session
    → IsIndexed (move_to_cell entity cell session)
      × (get entity (move_to_cell entity cell session).entity_cells ≡ cell)
unfolding move_to_cell
move_to_cell-IsIndexed session entity none indexed =
    if_cases (IsMoved entity none) (same_cell (get entity session.entity_cells) none) session _
      (λ there. (indexed, same_cell-eq (get entity session.entity_cells) none there))
      (λ elsewhere. (
        remove_entity_from_cell-IsIndexed session indexed entity,
        remove_entity_from_cell-none session indexed entity,
      ))
move_to_cell-IsIndexed session entity (some cell) indexed =
    if_cases (IsMoved entity (some cell)) (same_cell (get entity session.entity_cells) (some cell))
      session _
      (λ there. (indexed, same_cell-eq (get entity session.entity_cells) (some cell) there))
      (λ elsewhere.
        insert_entity_into_cell-IsMoved (remove_entity_from_cell entity session) entity cell (
          remove_entity_from_cell-IsIndexed session indexed entity,
          remove_entity_from_cell-none session indexed entity,
        ))
