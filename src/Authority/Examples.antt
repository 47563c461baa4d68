-- ===== src/Authority/Examples.antt =====
-- The relay policy at a message about an entity that its sender owns.
use signalweave.Prelude.{◌≡◌, ◌≢◌, ◌↔◌, ◌⊎◌, refl, true, none, some, []}
use signalweave.Message.{reliable_ordered, ephemeral}
use signalweave.Authority.{
  AuthorityContext, ProposedMessage, AuthorityRejection, accept, reject, entity_not_owned,
  relay_owned,
}
use signalweave.Authority.Relay.{relay_owned-accept}

abbrev owner : AuthorityContext
owner = record {
  connection = 4;
  principal = 1;
  is_session_member = true;
  is_space_subscriber = true;
  entity_owner = some 4;
}

abbrev update : ProposedMessage
update = record {
  space = 1;
  space_epoch = 1;
  entity = some 9;
  channel = 7;
  sequence = 1;
  delivery = reliable_ordered;
  persistence = ephemeral;
  coalesce_key = none;
  payload = [];
}

owner_accepted : relay_owned owner update ≡ accept
unfolding relay_owned
owner_accepted = refl

stranger_rejected : relay_owned (record owner { connection = 5 }) update ≡ reject entity_not_owned
unfolding relay_owned
stranger_rejected = refl

relay_owned-accept_example :
    ((relay_owned owner update ≡ accept) ↔ (
      (owner.is_session_member ≡ true)
      × (owner.is_space_subscriber ≡ true)
      × (update.entity ≢ none)
      × (owner.entity_owner ≡ some owner.connection)))
    × ((relay_owned owner update ≡ accept)
        ⊎ ((reason : AuthorityRejection) × (relay_owned owner update ≡ reject reason)))
relay_owned-accept_example = relay_owned-accept owner update
