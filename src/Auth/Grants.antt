-- ===== src/Auth/Grants.antt =====
-- Grants of crates/woven-core/src/auth.rs: what a grant gives, and that it gives nothing else.
use signalweave.Prelude.{◌≡◌, refl, Bool, false, arith, same, nat_key, if◌then◌else◌}
use signalweave.Prelude.Maps.Laws.{get-insert}
use signalweave.Ids.{NamespaceId, SessionKey, SpaceKey, session_key_order, space_key_order}
use signalweave.Auth.{
  AccessGrant, AuthorizationGrants, ChannelScope, channel_scope_order, permits_read, permits_write,
  grant_namespace, grant_session, grant_space, grant_channel, can_read_namespace,
  can_write_namespace, can_read_session, can_write_session, can_read_space, can_write_space,
  can_read_channel, can_write_channel,
}

-- What a grant is about.
pub data Scope : Type 0 where
  namespace : NamespaceId → Scope
  session : SessionKey → Scope
  space : SpaceKey → Scope
  channel : ChannelScope → Scope

abbrev pub same_scope : Scope → Scope → Bool
same_scope (namespace a) (namespace b) = same a b
same_scope (session a) (session b) = same a b
same_scope (space a) (space b) = same a b
same_scope (channel a) (channel b) = same a b
same_scope _ _ = false

abbrev pub give : Scope → AccessGrant → AuthorizationGrants → AuthorizationGrants
give (namespace k) = grant_namespace k
give (session k) = grant_session k
give (space k) = grant_space k
give (channel k) = grant_channel k

abbrev pub can_read : AuthorizationGrants → Scope → Bool
can_read g (namespace k) = can_read_namespace g k
can_read g (session k) = can_read_session g k
can_read g (space k) = can_read_space g k
can_read g (channel k) = can_read_channel g k

abbrev pub can_write : AuthorizationGrants → Scope → Bool
can_write g (namespace k) = can_write_namespace g k
can_write g (session k) = can_write_session g k
can_write g (space k) = can_write_space g k
can_write g (channel k) = can_write_channel g k

-- A grant decides both answers for its own scope, replacing what was granted there before, and
-- changes the answer for no other scope, of its own kind or of another.
pub can-give :
    (s t : Scope) (access : AccessGrant) (g : AuthorizationGrants)
    → (can_read (give s access g) t
        ≡ (if same_scope s t then permits_read access else can_read g t))
      × (can_write (give s access g) t
          ≡ (if same_scope s t then permits_write access else can_write g t))
unfolding grant_namespace grant_session grant_space grant_channel can_read_namespace
    can_write_namespace can_read_session can_write_session can_read_space can_write_space
    can_read_channel can_write_channel
can-give (namespace a) (namespace b) access g = ground (arith, get-insert a b access g.namespaces)
can-give (session a) (session b) access g = ground (arith, get-insert a b access g.sessions)
can-give (space a) (space b) access g = ground (arith, get-insert a b access g.spaces)
can-give (channel a) (channel b) access g = ground (arith, get-insert a b access g.channels)
can-give _ _ access g = (refl, refl)
