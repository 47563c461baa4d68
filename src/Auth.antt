-- ===== src/Auth.antt =====
-- crates/woven-core/src/auth.rs: grants by scope, principals, and the bounded development
-- authenticator. A token is the list of its bytes, by which `String` is ordered.
pub mod Grants
pub mod Development
mod Examples
use signalweave.Prelude.{
  ℕ, ◌≡◌, Bool, true, false, not, ◌&&◌, Option, none, some, List, [], ◌∷◌, Result, ok, err, ok_or,
  Map, Key, nat_key, same, length, ◌==◌, if◌then◌else◌,
}
use signalweave.Prelude.Maps
use signalweave.Ids.{
  NamespaceId, ChannelId, PrincipalId, SessionKey, SpaceKey, session_key_order, space_key_order,
}

abbrev pub Token : Type 0
Token = List ℕ

pub token_injective : (a b : Token) → a ≡ b → a ≡ b
token_injective a b h = h

instance abbrev pub token_order : Key Token
token_order = record { rank = λ t. t; rank_injective = token_injective }

pub record Credentials : Type 0 where
  pub token : Token

pub data AccessGrant : Type 0 where
  read write read_write : AccessGrant

abbrev pub permits_read : AccessGrant → Bool
permits_read read = true
permits_read write = false
permits_read read_write = true

abbrev pub permits_write : AccessGrant → Bool
permits_write read = false
permits_write write = true
permits_write read_write = true

pub record ChannelScope : Type 0 where
  pub session : SessionKey
  pub channel : ChannelId

pub channel_scope_injective :
    (a b : ChannelScope)
    → ◌≡◌
        (a.session.namespace ∷ a.session.session ∷ a.channel ∷ [])
        (b.session.namespace ∷ b.session.session ∷ b.channel ∷ [])
    → a ≡ b
channel_scope_injective a b h = cc

instance abbrev pub channel_scope_order : Key ChannelScope
channel_scope_order = record {
  rank = λ s. s.session.namespace ∷ s.session.session ∷ s.channel ∷ [];
  rank_injective = channel_scope_injective;
}

pub record AuthorizationGrants : Type 0 where
  pub namespaces : Map NamespaceId AccessGrant
  pub sessions : Map SessionKey AccessGrant
  pub spaces : Map SpaceKey AccessGrant
  pub channels : Map ChannelScope AccessGrant

abbrev pub no_grants : AuthorizationGrants
no_grants = record { namespaces = []; sessions = []; spaces = []; channels = [] }

unfoldable pub grant_namespace :
    NamespaceId → AccessGrant → AuthorizationGrants → AuthorizationGrants
grant_namespace k access g = record g { namespaces = Maps.insert k access g.namespaces }

unfoldable pub grant_session : SessionKey → AccessGrant → AuthorizationGrants → AuthorizationGrants
grant_session k access g = record g { sessions = Maps.insert k access g.sessions }

unfoldable pub grant_space : SpaceKey → AccessGrant → AuthorizationGrants → AuthorizationGrants
grant_space k access g = record g { spaces = Maps.insert k access g.spaces }

unfoldable pub grant_channel :
    ChannelScope → AccessGrant → AuthorizationGrants → AuthorizationGrants
grant_channel k access g = record g { channels = Maps.insert k access g.channels }

-- `Option::is_some_and`
abbrev pub is_some_and {ℓ} : {A : Type ℓ} → (A → Bool) → Option A → Bool
is_some_and p none = false
is_some_and p (some a) = p a

unfoldable pub can_read_namespace : AuthorizationGrants → NamespaceId → Bool
can_read_namespace g k = is_some_and permits_read (Maps.get k g.namespaces)

unfoldable pub can_write_namespace : AuthorizationGrants → NamespaceId → Bool
can_write_namespace g k = is_some_and permits_write (Maps.get k g.namespaces)

unfoldable pub can_read_session : AuthorizationGrants → SessionKey → Bool
can_read_session g k = is_some_and permits_read (Maps.get k g.sessions)

unfoldable pub can_write_session : AuthorizationGrants → SessionKey → Bool
can_write_session g k = is_some_and permits_write (Maps.get k g.sessions)

unfoldable pub can_read_space : AuthorizationGrants → SpaceKey → Bool
can_read_space g k = is_some_and permits_read (Maps.get k g.spaces)

unfoldable pub can_write_space : AuthorizationGrants → SpaceKey → Bool
can_write_space g k = is_some_and permits_write (Maps.get k g.spaces)

unfoldable pub can_read_channel : AuthorizationGrants → ChannelScope → Bool
can_read_channel g k = is_some_and permits_read (Maps.get k g.channels)

unfoldable pub can_write_channel : AuthorizationGrants → ChannelScope → Bool
can_write_channel g k = is_some_and permits_write (Maps.get k g.channels)

pub record AuthenticatedPrincipal : Type 0 where
  pub principal_id : PrincipalId
  pub grants : AuthorizationGrants

pub data AuthError : Type 0 where
  invalid_credentials : AuthError

-- The trait `Authenticator`, by its one method.
abbrev pub Authenticator : Type 0
Authenticator = Credentials → Result AuthError AuthenticatedPrincipal

pub data DevAuthenticatorError : Type 0 where
  zero_capacity capacity_reached : DevAuthenticatorError

pub record DevAuthenticator : Type 0 where
  pub max_identities : ℕ
  pub identities : Map Token AuthenticatedPrincipal

abbrev pub default_max_identities : ℕ
default_max_identities = 64

abbrev pub new : DevAuthenticator
new = record { max_identities = default_max_identities; identities = [] }

unfoldable pub with_capacity : ℕ → Result DevAuthenticatorError DevAuthenticator
with_capacity max_identities =
    if max_identities == 0
    then err zero_capacity
    else ok (record { max_identities = max_identities; identities = [] })

-- The authenticator after the call, and the identity that the token had before.
unfoldable pub insert :
    Token
    → AuthenticatedPrincipal
    → DevAuthenticator
    → DevAuthenticator × Result DevAuthenticatorError (Option AuthenticatedPrincipal)
insert token principal a =
    if not (Maps.contains token a.identities) && length a.identities == a.max_identities
    then (a, err capacity_reached)
    else (
      record a { identities = Maps.insert token principal a.identities },
      ok (Maps.get token a.identities),
    )

unfoldable pub authenticate : DevAuthenticator → Authenticator
authenticate a credentials = ok_or (Maps.get credentials.token a.identities) invalid_credentials
