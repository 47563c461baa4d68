-- ===== src/Core/Renewing.antt =====
-- A new epoch of a space in crates/woven-core/src/core.rs, for the agreement of both records.
use signalweave.Prelude.{◌≡◌, refl, Bool, true, some, nat_key, arith, same_iff, ok, ◌==◌}
use signalweave.Prelude.Maps.{get, insert, map_values, values}
use signalweave.Prelude.Maps.Laws.{get-insert, get-map_values}
use signalweave.Ids.{
  ConnectionId, SpaceId, SpaceEpoch, SessionKey, session_key_order, space_key_order,
}
use signalweave.Space.{SpaceDescriptor}
use signalweave.Message.{OutboundMessage}
use signalweave.Core.{EntityRecord, SessionState, WovenCore}
use signalweave.Core.Access.{pair_order}
use signalweave.Core.Subscriptions.{is_of_space}
use signalweave.Core.Removal.{remove_entities_and_anchored_spaces, recompute_state_bytes}
use signalweave.Core.Departure.{
  entities_with, purge_queue, check_epoch, renew_space, check_renewed, advance_space_epoch,
}
use signalweave.Core.Agreement.{Agrees, commit_cases}
use signalweave.Core.Restricting.{Restricts, Restricts-Agrees}
use signalweave.Core.Shrinking.{
  remove_entities_and_anchored_spaces-Agrees, keeps_member, all_spaces,
}

module _ {F : Type 0} where
  pub purged-Restricts :
      (test : OutboundMessage → Bool) (core : WovenCore F)
      → Restricts core
          (record core { connections = map_values (purge_queue test) core.connections })
          keeps_member
          (λ c k. true)
          all_spaces
  purged-Restricts test core =
      let states = λ (c : ConnectionId). get-map_values (purge_queue test) c core.connections in
      record {
        is_members = λ c k. ground (arith, states c);
        has_members = λ c k. ground arith;
        are_subscribed = λ c k. ground (arith, states c);
        have_subscribers = λ c k. ground arith;
        have_spaces = λ k j. ground arith;
        have_sets = λ k j. ground arith;
        absent = λ c h. ground (arith, h, states c);
        next = refl;
      }

  found_renewed :
      (key : SessionKey) (space : SpaceId) (core : WovenCore F) (session : SessionState F)
      (descriptor : SpaceDescriptor F)
      → check_renewed key space core ≡ ok (session, descriptor)
      → (get key core.sessions ≡ some session) × (get space session.spaces ≡ some descriptor)
  unfolding check_renewed
  found_renewed key space core session descriptor is = ground arith

  renewed-Restricts :
      (key : SessionKey) (space : SpaceId) (proposed : SpaceEpoch) (core : WovenCore F)
      (session : SessionState F) (descriptor : SpaceDescriptor F)
      → check_renewed key space core ≡ ok (session, descriptor)
      → Restricts core
          (record core {
            sessions = insert key (renew_space space proposed descriptor session) core.sessions;
          })
          keeps_member
          (λ c k. true)
          all_spaces
  unfolding renew_space recompute_state_bytes check_renewed
  renewed-Restricts key space proposed core session descriptor is =
      let found = found_renewed key space core session descriptor is in
      let rooms = λ (k : SessionKey).
        get-insert key k (renew_space space proposed descriptor session) core.sessions in
      record {
        is_members = λ c k. ground arith;
        has_members = λ c k. ground (arith, rooms k, found.0, same_iff key k);
        are_subscribed = λ c k. ground arith;
        have_subscribers = λ c k. ground (arith, rooms k.session, found.0, same_iff key k.session);
        have_spaces = λ k j. ground (
          arith,
          rooms k,
          found.0,
          found.1,
          same_iff key k,
          same_iff space j,
          get-insert space j (record descriptor { epoch = proposed }) session.spaces,
        );
        have_sets = λ k j. ground (arith, rooms k, found.0, same_iff key k);
        absent = λ c h. h;
        next = refl;
      }

  pub advance_space_epoch-Agrees :
      (key : SessionKey) (space : SpaceId) (proposed : SpaceEpoch) (core : WovenCore F)
      → Agrees core
      → Agrees (advance_space_epoch key space proposed core).0
  unfolding advance_space_epoch
  advance_space_epoch-Agrees key space proposed core v =
      commit_cases Agrees core (check_epoch key space proposed core) _ v λ session _.
        let entities =
          entities_with (λ (entity : EntityRecord F). entity.space == space)
            (values session.entities) in
        let of_space = is_of_space (record { session = key; space = space }) in
        let removed = (remove_entities_and_anchored_spaces key entities core).0 in
        let purged : WovenCore F = record removed {
          connections = map_values (purge_queue of_space) removed.connections;
        } in
        let agrees =
          Restricts-Agrees removed _ _ _ _ (purged-Restricts of_space removed) (λ c k h. refl)
            (remove_entities_and_anchored_spaces-Agrees key entities core v) in
        commit_cases Agrees purged (check_renewed key space purged) _ agrees (λ found is.
          Restricts-Agrees purged _ _ _ _
            (renewed-Restricts key space proposed purged found.0 found.1 is) (λ c k h. refl) agrees)
