-- ===== src/Auth/Development.antt =====
-- The bounded authenticator of crates/woven-core/src/auth.rs.
use signalweave.Prelude.{
  ◌≤◌, ◌≡◌, not, ◌&&◌, ◌||◌, ◌==◌, ◌↔◌, none, ok, err, arith, length, same, if◌then◌else◌,
}
use signalweave.Prelude.Maps.{get, contains}
use signalweave.Prelude.Maps.Laws.{
  IsSorted, get-insert, insert-IsSorted, length-insert_new, length-insert_old,
}
use signalweave.Auth.{
  Token, token_order, Credentials, AuthenticatedPrincipal, DevAuthenticator, capacity_reached,
  insert, authenticate,
}

pub record IsValid (a : DevAuthenticator) : Type 0 where
  pub sorted : IsSorted a.identities
  pub bound : length a.identities ≤ a.max_identities

-- In an authenticator within its capacity, inserting keeps the number of identities within the capacity. It is refused, with nothing
-- changed, exactly when the token is new and the authenticator is full.
pub insert-IsValid :
    (token : Token) (p : AuthenticatedPrincipal) (a : DevAuthenticator)
    → IsValid a
    → IsValid (insert token p a).0
      × ((insert token p a ≡ (a, err capacity_reached))
          ↔ ((get token a.identities ≡ none) × (length a.identities ≡ a.max_identities)))
unfolding insert
insert-IsValid token p a v = ground (
  arith,
  insert-IsSorted token p a.identities v.sorted,
  length-insert_new token p a.identities,
  length-insert_old token p a.identities v.sorted,
)

-- After an accepted insertion the token signs in as its new principal and every other token as
-- before; after a refused one every token signs in as before.
pub authenticate-insert :
    (token : Token) (p : AuthenticatedPrincipal) (a : DevAuthenticator) (c : Credentials)
    → let r = insert token p a in
      authenticate r.0 c ≡ (
        if same token c.token
          && (contains token a.identities || not (length a.identities == a.max_identities))
        then ok p
        else authenticate a c)
unfolding insert authenticate
authenticate-insert token p a c = ground (arith, get-insert token c.token p a.identities)
