-- ===== src/Core/Fanout.antt =====
-- The fan-out of a message to its recipients in `publish_at` of crates/woven-core/src/core.rs.
use signalweave.Prelude.{
  ℕ, ◌+◌, Bool, not, ◌&&◌, Option, none, some, List, [], ◌∷◌, Map, Set, nat_key, if◌then◌else◌,
  Result, ok, map_err,
}
use signalweave.Prelude.Maps
use signalweave.Ids.{
  ChannelId, SpaceId, ConnectionId, SessionKey, session_key_order, space_key_order,
}
use signalweave.Message.{OutboundMessage, durable}
use signalweave.Queue
use signalweave.Queue.{
  OutboundQueue, QueuePush, QueueEviction, queued, queued_critical_after_eviction, replaced_latest,
  evicted_latest, evicted_best_effort_for_latest, dropped_latest, dropped_best_effort,
  critical_capacity_exhausted,
}
use signalweave.Journal
use signalweave.Journal.{JournalOutbox}
use signalweave.Auth.{
  AuthenticatedPrincipal, can_read_namespace, can_read_session, can_read_space, can_read_channel,
}
use signalweave.Core.{ConnectionState, CoreError, journal_outbox_saturated, queue}
use signalweave.Core.Access.{commit}
use signalweave.Core.Keys.{sequence_key_order}
use signalweave.Core.Publishing.{same_persistence}

pub record QueueActivity : Type 0 where
  pub queued : ℕ
  pub critical_evictions : ℕ
  pub replaced_latest : ℕ
  pub evicted_latest : ℕ
  pub dropped_latest : ℕ
  pub dropped_best_effort : ℕ
  pub critical_capacity_exhausted : ℕ

pub record PublishOutcome : Type 0 where
  pub authorized_messages : ℕ
  pub recipient_attempts : ℕ
  pub queues : QueueActivity
  pub disconnected_slow_consumers : List ConnectionId

abbrev pub no_activity : QueueActivity
no_activity = record {
  queued = 0;
  critical_evictions = 0;
  replaced_latest = 0;
  evicted_latest = 0;
  dropped_latest = 0;
  dropped_best_effort = 0;
  critical_capacity_exhausted = 0;
}

record_eviction : QueueEviction → QueueActivity → QueueActivity
record_eviction (QueueEviction.latest key) a = record a { evicted_latest = a.evicted_latest + 1 }
record_eviction QueueEviction.best_effort a = record a {
  dropped_best_effort = a.dropped_best_effort + 1;
}

unfoldable pub record_queue_result : QueuePush → QueueActivity → QueueActivity
unfolding record_eviction
record_queue_result QueuePush.queued a = record a { queued = a.queued + 1 }
record_queue_result (queued_critical_after_eviction eviction) a =
    record_eviction eviction
      (record a { queued = a.queued + 1; critical_evictions = a.critical_evictions + 1 })
record_queue_result QueuePush.replaced_latest a = record a {
  replaced_latest = a.replaced_latest + 1;
}
record_queue_result (QueuePush.evicted_latest key) a = record a {
  evicted_latest = a.evicted_latest + 1;
}
record_queue_result evicted_best_effort_for_latest a = record a {
  dropped_best_effort = a.dropped_best_effort + 1;
}
record_queue_result QueuePush.dropped_best_effort a = record a {
  dropped_best_effort = a.dropped_best_effort + 1;
}
record_queue_result QueuePush.dropped_latest a = record a { dropped_latest = a.dropped_latest + 1 }
record_queue_result QueuePush.critical_capacity_exhausted a = record a {
  critical_capacity_exhausted = a.critical_capacity_exhausted + 1;
}

unfoldable pub can_receive : AuthenticatedPrincipal → SessionKey → SpaceId → ChannelId → Bool
can_receive principal session space channel =
    can_read_namespace principal.grants session.namespace
    && (can_read_session principal.grants session
        && (can_read_space principal.grants (record { session = session; space = space })
            && can_read_channel principal.grants (record { session = session; channel = channel })))

abbrev pub is_durable : OutboundMessage → Bool
is_durable message = same_persistence message.persistence durable

-- The loop that pushes the durable messages.
unfoldable pub push_durable :
    List OutboundMessage → JournalOutbox → JournalOutbox × Result CoreError (Unit {0})
push_durable [] journal = (journal, ok tt)
push_durable (message ∷ messages) journal =
    let rest = push_durable messages journal in
    let pushed = Journal.push (record { message = message }) journal in
    if not (is_durable message)
    then rest
    else (commit journal (map_err (λ _. journal_outbox_saturated) pushed.1)
        λ _. push_durable messages pushed.0)

-- The variables of the loop over the recipients.
pub record Fanout : Type 0 where
  pub connections : Map ConnectionId ConnectionState
  pub recipient_attempts : ℕ
  pub queues : QueueActivity
  pub disconnected : Set ConnectionId

-- The queue of a recipient, after a push that has returned.
unfoldable pub delivered :
    ConnectionId → ConnectionState → OutboundQueue → Fanout → QueuePush → Fanout
unfolding record_queue_result
delivered recipient state outbound fanout pushed = record {
  connections = Maps.insert recipient (record state { outbound = outbound }) fanout.connections;
  recipient_attempts = fanout.recipient_attempts + 1;
  queues = record_queue_result pushed fanout.queues;
  disconnected = elim pushed [
    | QueuePush.critical_capacity_exhausted ↦ Maps.insert recipient tt fanout.disconnected
    | _ ↦ fanout.disconnected
  ];
}

-- The recipient's state if the message is to be pushed to its queue.
unfoldable pub receiver :
    SessionKey → OutboundMessage → ConnectionId → Fanout → Option ConnectionState
unfolding can_receive
receiver session outbound recipient fanout =
    if Maps.contains recipient fanout.disconnected
    then none
    else elim (Maps.get recipient fanout.connections) [
      | none ↦ none
      | some state ↦ elim state.authenticated [
        | none ↦ none
        | some principal ↦
            if can_receive principal session outbound.space outbound.channel
            then some state
            else none
      ]
    ]

-- The push to the queue of a recipient.
unfoldable pub push_to :
    OutboundMessage → ConnectionId → ConnectionState → Fanout → Fanout × Result CoreError (Unit {0})
unfolding delivered
push_to outbound recipient state fanout =
    let pushed = Queue.push state.outbound outbound in
    commit
      (record fanout {
        connections =
            Maps.insert recipient (record state { outbound = pushed.0 }) fanout.connections;
        recipient_attempts = fanout.recipient_attempts + 1;
      })
      (map_err queue pushed.1) λ result. (delivered recipient state pushed.0 fanout result, ok tt)

unfoldable pub deliver_at :
    OutboundMessage
    → ConnectionId
    → Fanout
    → Option ConnectionState
    → Fanout × Result CoreError (Unit {0})
unfolding push_to
deliver_at outbound recipient fanout none = (fanout, ok tt)
deliver_at outbound recipient fanout (some state) = push_to outbound recipient state fanout

unfoldable pub deliver :
    SessionKey → OutboundMessage → ConnectionId → Fanout → Fanout × Result CoreError (Unit {0})
unfolding receiver deliver_at
deliver session outbound recipient fanout =
    deliver_at outbound recipient fanout (receiver session outbound recipient fanout)

unfoldable pub deliver_to :
    SessionKey → OutboundMessage → Set ConnectionId → Fanout → Fanout × Result CoreError (Unit {0})
unfolding deliver
deliver_to session outbound [] fanout = (fanout, ok tt)
deliver_to session outbound ((recipient, _) ∷ recipients) fanout =
    commit (deliver session outbound recipient fanout).0
      (deliver session outbound recipient fanout).1
      λ _. deliver_to session outbound recipients (deliver session outbound recipient fanout).0
