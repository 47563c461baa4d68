-- ===== src/Auth/Examples.antt =====
-- Tests of the development authenticator and of grants, and the theorems at concrete ones.
use signalweave.Prelude.{
  ◌≡◌, ◌↔◌, refl, ◌&&◌, ◌||◌, not, none, [], ◌∷◌, ok, err, length, same, before, ◌==◌, arith,
  if◌then◌else◌,
}
use signalweave.Prelude.Maps.{get, insert, contains}
use signalweave.Ids.{SessionKey, session_key_order}
use signalweave.Auth
use signalweave.Auth.{
  Token, token_order, DevAuthenticator, AuthenticatedPrincipal, AuthorizationGrants, no_grants,
  read, read_write, write, permits_read, permits_write, grant_session, authenticate,
  capacity_reached, invalid_credentials, with_capacity,
}
use signalweave.Auth.Grants.{session, same_scope, give, can_read, can_write, can-give}
use signalweave.Auth.Development.{IsValid, insert-IsValid, authenticate-insert}

abbrev alice_token : Token
alice_token = 65 ∷ []

abbrev alice : AuthenticatedPrincipal
alice = record { principal_id = 1; grants = no_grants }

abbrev bob : AuthenticatedPrincipal
bob = record { principal_id = 2; grants = no_grants }

abbrev one_identity : DevAuthenticator
one_identity = record { max_identities = 1; identities = ((65 ∷ []), alice) ∷ [] }

one_identity-IsValid : IsValid one_identity
one_identity-IsValid = ground arith

full_refused : Auth.insert (66 ∷ []) bob one_identity ≡ (one_identity, err capacity_reached)
unfolding Auth.insert insert get same before
full_refused = refl

insert-IsValid_example :
    IsValid (Auth.insert (66 ∷ []) bob one_identity).0
    × ((Auth.insert (66 ∷ []) bob one_identity ≡ (one_identity, err capacity_reached)) ↔ (
        (get (66 ∷ []) one_identity.identities ≡ none)
        × (length one_identity.identities ≡ one_identity.max_identities)))
insert-IsValid_example = insert-IsValid (66 ∷ []) bob one_identity one_identity-IsValid

authenticate-insert_example :
    authenticate (Auth.insert (65 ∷ []) bob one_identity).0 (record { token = 65 ∷ [] }) ≡ (
      if same alice_token alice_token
        && (contains alice_token one_identity.identities
            || not (length one_identity.identities == one_identity.max_identities))
      then ok bob
      else authenticate one_identity (record { token = 65 ∷ [] }))
authenticate-insert_example =
    authenticate-insert (65 ∷ []) bob one_identity (record { token = 65 ∷ [] })

abbrev room : SessionKey
room = record { namespace = 1; session = 2 }

abbrev room_grants : AuthorizationGrants
room_grants = record no_grants { sessions = (room, read_write) ∷ [] }

can-give_example :
    (can_read (give (session room) write room_grants) (session room) ≡ (
      if same_scope (session room) (session room)
      then permits_read write
      else can_read room_grants (session room)))
    × (can_write (give (session room) write room_grants) (session room) ≡ (
        if same_scope (session room) (session room)
        then permits_write write
        else can_write room_grants (session room)))
can-give_example = can-give (session room) (session room) write room_grants
