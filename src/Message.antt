-- ===== src/Message.antt =====
-- crates/woven-core/src/model.rs: delivery and persistence classes, coalescing keys and outbound
-- messages. (Frames, positions and space descriptors are in Space.antt.)
use signalweave.Prelude.{
  ℕ, ◌≡◌, Bool, true, false, Option, none, some, List, [], ◌∷◌, Key, opt_rank, opt_rank-injective,
  arith,
}
use signalweave.Ids.{NamespaceId, SessionId, SpaceId, SpaceEpoch, ChannelId, EntityId}

pub data DeliveryClass : Type 0 where
  reliable_ordered reliable_unordered latest_value unreliable_sequenced best_effort_event :
      DeliveryClass

abbrev pub is_critical : DeliveryClass → Bool
is_critical reliable_ordered = true
is_critical reliable_unordered = true
is_critical _ = false

abbrev pub is_replaceable : DeliveryClass → Bool
is_replaceable latest_value = true
is_replaceable unreliable_sequenced = true
is_replaceable _ = false

pub data PersistenceClass : Type 0 where
  ephemeral stateful durable : PersistenceClass

pub record CoalesceKey : Type 0 where
  pub channel : ChannelId
  pub entity : Option EntityId
  pub component : ℕ

pub record ScopedCoalesceKey : Type 0 where
  pub namespace : NamespaceId
  pub session : SessionId
  pub space : SpaceId
  pub space_epoch : SpaceEpoch
  pub application : CoalesceKey

abbrev scoped_rank : ScopedCoalesceKey → List ℕ
scoped_rank k =
    k.namespace
    ∷ k.session
    ∷ k.space
    ∷ k.space_epoch
    ∷ k.application.channel
    ∷ opt_rank k.application.entity
    ∷ k.application.component
    ∷ []

pub scoped_rank-injective : (a b : ScopedCoalesceKey) → scoped_rank a ≡ scoped_rank b → a ≡ b
scoped_rank-injective a b h =
    ground (arith, opt_rank-injective a.application.entity b.application.entity)

instance abbrev pub scoped_coalesce_key_order : Key ScopedCoalesceKey
scoped_coalesce_key_order = record { rank = scoped_rank; rank_injective = scoped_rank-injective }

pub record OutboundMessage : Type 0 where
  pub namespace : NamespaceId
  pub session : SessionId
  pub space : SpaceId
  pub space_epoch : SpaceEpoch
  pub entity : Option EntityId
  pub channel : ChannelId
  pub sequence : ℕ
  pub delivery : DeliveryClass
  pub persistence : PersistenceClass
  pub coalesce_key : Option CoalesceKey
  pub payload : List ℕ

abbrev pub scoped_coalesce_key : OutboundMessage → Option ScopedCoalesceKey
scoped_coalesce_key m = elim m.coalesce_key [
  | none ↦ none
  | some application ↦ some (record {
    namespace = m.namespace;
    session = m.session;
    space = m.space;
    space_epoch = m.space_epoch;
    application = application;
  })
]
