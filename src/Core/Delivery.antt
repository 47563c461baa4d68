-- ===== src/Core/Delivery.antt =====
-- Whom the fan-out of a publish in crates/woven-core/src/core.rs reaches.
use signalweave.Prelude.{
  ◌&&◌, ◌≡◌, ◌∙◌, refl, Bool, true, false, Option, none, some, [], ◌∷◌, Map, Set, nat_key, map_err,
  arith, same, same_iff,
}
use signalweave.Prelude.Maps.{get, insert}
use signalweave.Prelude.Maps.Laws.{get-insert}
use signalweave.Ids.{ConnectionId, SessionKey}
use signalweave.Message.{OutboundMessage}
use signalweave.Queue
use signalweave.Auth.{can_read_namespace, can_read_session, can_read_space, can_read_channel}
use signalweave.Core.{ConnectionState, queue}
use signalweave.Core.Agreement.{commit_cases}
use signalweave.Core.Fanout.{
  Fanout, can_receive, receiver, delivered, push_to, deliver_at, deliver, deliver_to,
}

-- The connection is there, authenticated, and its grants let it read what the message is about.
abbrev pub may_receive : SessionKey → OutboundMessage → Option ConnectionState → Bool
may_receive session outbound none = false
may_receive session outbound (some state) = elim state.authenticated [
  | none ↦ false
  | some principal ↦
      can_read_namespace principal.grants session.namespace
      && (can_read_session principal.grants session
          && (can_read_space principal.grants (record { session = session; space = outbound.space })
              && can_read_channel principal.grants
                  (record { session = session; channel = outbound.channel })))
]

receiver-may_receive :
    (session : SessionKey) (outbound : OutboundMessage) (recipient : ConnectionId) (fanout : Fanout)
    (state : ConnectionState)
    → receiver session outbound recipient fanout ≡ some state
    → may_receive session outbound (get recipient fanout.connections) ≡ true
unfolding receiver can_receive
receiver-may_receive session outbound recipient fanout state is = ground arith

abbrev Unchanged : ConnectionId → Fanout → Fanout → Type 0
Unchanged k before after = get k after.connections ≡ get k before.connections

get-insert-other :
    (j k : ConnectionId) (v : ConnectionState) (m : Map ConnectionId ConnectionState)
    → same j k ≡ false
    → get k (insert j v m) ≡ get k m
get-insert-other j k v m other = ground (arith, other, get-insert j k v m)

push_to-other :
    (outbound : OutboundMessage) (recipient k : ConnectionId) (state : ConnectionState)
    (fanout : Fanout)
    → same recipient k ≡ false
    → Unchanged k fanout (push_to outbound recipient state fanout).0
unfolding push_to delivered
push_to-other outbound recipient k state fanout other =
    commit_cases (Unchanged k fanout) _ (map_err queue (Queue.push state.outbound outbound).1) _
      (get-insert-other recipient k _ fanout.connections other)
      (λ result is. get-insert-other recipient k _ fanout.connections other)

deliver_at-hidden :
    (session : SessionKey) (outbound : OutboundMessage) (recipient k : ConnectionId)
    (fanout : Fanout) (found : Option ConnectionState)
    → receiver session outbound recipient fanout ≡ found
    → may_receive session outbound (get k fanout.connections) ≡ false
    → Unchanged k fanout (deliver_at outbound recipient fanout found).0
unfolding deliver_at
deliver_at-hidden session outbound recipient k fanout none is hidden = refl
deliver_at-hidden session outbound recipient k fanout (some state) is hidden =
    push_to-other outbound recipient k state fanout (
      ground (
        arith,
        same_iff recipient k,
        hidden,
        receiver-may_receive session outbound recipient fanout state is,
      ))

-- A message reaches nobody who may not read it: whatever recipients the routing gives, the connection of one who is
-- not authenticated, or whose grants do not let it read the namespace, the session, the space and the channel of the
-- message, is the same after the message's fan-out, its queue included.
pub deliver_to-hidden :
    (session : SessionKey) (outbound : OutboundMessage) (recipients : Set ConnectionId)
    (fanout : Fanout) (k : ConnectionId)
    → may_receive session outbound (get k fanout.connections) ≡ false
    → get k (deliver_to session outbound recipients fanout).0.connections ≡ get k fanout.connections
unfolding deliver_to deliver
deliver_to-hidden session outbound [] fanout k hidden = refl
deliver_to-hidden session outbound ((recipient, _) ∷ recipients) fanout k hidden =
    let first =
      deliver_at-hidden session outbound recipient k fanout
        (receiver session outbound recipient fanout) refl hidden in
    let after = (deliver session outbound recipient fanout).0 in
    commit_cases (Unchanged k fanout) after (deliver session outbound recipient fanout).1
      (λ _. deliver_to session outbound recipients after) first
      (λ _ is. deliver_to-hidden session outbound recipients after k (rw first hidden) ∙ first)
