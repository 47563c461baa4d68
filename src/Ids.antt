-- ===== src/Ids.antt =====
-- crates/woven-core/src/ids.rs: the numeric identifiers and the two composite keys. A `u64` newtype
-- is a number; the operations that allocate one keep its bound.
use signalweave.Prelude.{ℕ, ◌^◌, ◌≡◌, Key, [], ◌∷◌}

abbrev pub u64_mod : ℕ
u64_mod = 2 ^ 64

abbrev pub u32_mod : ℕ
u32_mod = 2 ^ 32

abbrev pub NamespaceId : Type 0
NamespaceId = ℕ

abbrev pub SessionId : Type 0
SessionId = ℕ

abbrev pub SpaceId : Type 0
SpaceId = ℕ

abbrev pub EntityId : Type 0
EntityId = ℕ

abbrev pub ConnectionId : Type 0
ConnectionId = ℕ

abbrev pub PrincipalId : Type 0
PrincipalId = ℕ

abbrev pub ChannelId : Type 0
ChannelId = ℕ

abbrev pub SpaceEpoch : Type 0
SpaceEpoch = ℕ

abbrev pub NodeId : Type 0
NodeId = ℕ

pub record SessionKey : Type 0 where
  pub namespace : NamespaceId
  pub session : SessionId

pub record SpaceKey : Type 0 where
  pub session : SessionKey
  pub space : SpaceId

pub session_key_injective :
    (a b : SessionKey) → ◌≡◌ (a.namespace ∷ a.session ∷ []) (b.namespace ∷ b.session ∷ []) → a ≡ b
session_key_injective a b h = cc

instance abbrev pub session_key_order : Key SessionKey
session_key_order = record {
  rank = λ k. k.namespace ∷ k.session ∷ [];
  rank_injective = session_key_injective;
}

pub space_key_injective :
    (a b : SpaceKey)
    → ◌≡◌
        (a.session.namespace ∷ a.session.session ∷ a.space ∷ [])
        (b.session.namespace ∷ b.session.session ∷ b.space ∷ [])
    → a ≡ b
space_key_injective a b h = cc

instance abbrev pub space_key_order : Key SpaceKey
space_key_order = record {
  rank = λ k. k.session.namespace ∷ k.session.session ∷ k.space ∷ [];
  rank_injective = space_key_injective;
}
