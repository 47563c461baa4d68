-- ===== src/Core/Relaying.antt =====
-- `publish_at` and `drain_outbound` of crates/woven-core/src/core.rs, for the agreement of both records.
use signalweave.Prelude.{
  ◌≡◌, ◌∙◌, refl, not, Option, none, some, List, [], ◌∷◌, Map, Set, nat_key, arith, map, if_cases,
  Option-cases, inl, inr, Result, ok, err, panic, ok_or, map_err, ◌>>◌,
}
use signalweave.Prelude.Maps.{get, insert, contains}
use signalweave.Ids.{ConnectionId, SessionKey, session_key_order}
use signalweave.Message.{OutboundMessage}
use signalweave.Queue
use signalweave.RateLimit
use signalweave.RateLimit.{Instant}
use signalweave.Space.{Floats}
use signalweave.Core.{
  ConnectionState, CoreError, SessionState, WovenCore, queue, of_rate_limit, session_not_found,
}
use signalweave.Core.Access.{connection_of, validate_connection_id}
use signalweave.Core.Connections.{drain_outbound, after_drain}
use signalweave.Core.Publishing.{AuthorizedMessage, PublishRequest, to_outbound}
use signalweave.Core.StateStore.{store_all, store_message}
use signalweave.Core.Fanout.{
  Fanout, delivered, deliver, deliver_at, deliver_to, no_activity, push_durable, push_to, receiver,
}
use signalweave.Core.Publish.{
  Plan, apply_publish, check_known, check_publish, deliver_all, disconnect_all, publish_at,
  store_plan,
}
use signalweave.Core.Routing.{routing_recipients}
use signalweave.Core.Departure.{transport_lost}
use signalweave.Core.Agreement.{Agrees, commit_cases, unchanged-Agrees}
use signalweave.Core.Shrinking.{SameRoom, SameRolls}
use signalweave.Core.Departing.{transport_lost-Agrees}
use signalweave.Core.Inhabiting.{insert_connection-SameRolls, insert_session-Agrees, rolls-Agrees}

-- Every connection keeps its memberships and subscriptions.
abbrev KeepsRolls : Map ConnectionId ConnectionState → Map ConnectionId ConnectionState → Type 0
KeepsRolls before after = (c : ConnectionId) → SameRolls (get c before) (get c after)

KeepsRolls-refl : (m : Map ConnectionId ConnectionState) → KeepsRolls m m
KeepsRolls-refl m c = record { memberships = λ k. refl; subscriptions = λ k. refl; absent = λ h. h }

KeepsRolls-trans :
    (a b d : Map ConnectionId ConnectionState) → KeepsRolls a b → KeepsRolls b d → KeepsRolls a d
KeepsRolls-trans a b d first second c = record {
  memberships = λ k. (second c).memberships k ∙ (first c).memberships k;
  subscriptions = λ k. (second c).subscriptions k ∙ (first c).subscriptions k;
  absent = λ h. (second c).absent ((first c).absent h);
}

abbrev Kept : Fanout → Fanout → Type 0
Kept before after = KeepsRolls before.connections after.connections

receiver-get :
    (session : SessionKey) (outbound : OutboundMessage) (recipient : ConnectionId) (fanout : Fanout)
    (state : ConnectionState)
    → receiver session outbound recipient fanout ≡ some state
    → get recipient fanout.connections ≡ some state
unfolding receiver
receiver-get session outbound recipient fanout state is = ground arith

push_to-Kept :
    (outbound : OutboundMessage) (recipient : ConnectionId) (state : ConnectionState)
    (fanout : Fanout)
    → get recipient fanout.connections ≡ some state
    → Kept fanout (push_to outbound recipient state fanout).0
unfolding push_to delivered
push_to-Kept outbound recipient state fanout there =
    commit_cases (Kept fanout) _ (map_err queue (Queue.push state.outbound outbound).1) _
      (insert_connection-SameRolls recipient state _ fanout.connections there refl refl)
      (λ _ _. insert_connection-SameRolls recipient state _ fanout.connections there refl refl)

deliver_at-Kept :
    (session : SessionKey) (outbound : OutboundMessage) (recipient : ConnectionId) (fanout : Fanout)
    (found : Option ConnectionState)
    → receiver session outbound recipient fanout ≡ found
    → Kept fanout (deliver_at outbound recipient fanout found).0
unfolding deliver_at
deliver_at-Kept session outbound recipient fanout none is = KeepsRolls-refl fanout.connections
deliver_at-Kept session outbound recipient fanout (some state) is =
    push_to-Kept outbound recipient state fanout
      (receiver-get session outbound recipient fanout state is)

deliver_to-Kept :
    (session : SessionKey) (outbound : OutboundMessage) (recipients : Set ConnectionId)
    (fanout : Fanout)
    → Kept fanout (deliver_to session outbound recipients fanout).0
unfolding deliver_to deliver
deliver_to-Kept session outbound [] fanout = KeepsRolls-refl fanout.connections
deliver_to-Kept session outbound ((recipient, _) ∷ recipients) fanout =
    let after = (deliver session outbound recipient fanout).0 in
    let first =
      deliver_at-Kept session outbound recipient fanout (receiver session outbound recipient fanout)
        refl in
    commit_cases (Kept fanout) after (deliver session outbound recipient fanout).1 _ first
      (λ _ _. KeepsRolls-trans _ _ _ first (deliver_to-Kept session outbound recipients after))

module _ {F : Type 0} where
  store_all-SameRoom :
      (messages : List AuthorizedMessage) (session : SessionState F)
      → SameRoom session (store_all messages session)
  unfolding store_all store_message
  store_all-SameRoom [] session = record { members = refl; spaces = refl; subscribers = refl }
  store_all-SameRoom (message ∷ messages) session =
      let rest = store_all-SameRoom messages (store_message message session) in
      record {
        members = ground (arith, rest.members);
        spaces = ground (arith, rest.spaces);
        subscribers = ground (arith, rest.subscribers);
      }

  disconnect_all-Agrees :
      (connections : Set ConnectionId) (now : Instant) (core : WovenCore F)
      → Agrees core
      → Agrees (disconnect_all connections now core).0
  unfolding disconnect_all
  disconnect_all-Agrees [] now core v = v
  disconnect_all-Agrees ((connection, _) ∷ rest) now core v =
      let lost = transport_lost-Agrees connection now core v in
      if_cases (λ (r : WovenCore F × Result CoreError (List ConnectionId)). Agrees r.0)
        (not (contains connection core.connections)) _ _
        (λ _. disconnect_all-Agrees rest now core v)
        (λ _.
          commit_cases Agrees (transport_lost connection now core).0
            (transport_lost connection now core).1 _ lost
            (λ _ _. disconnect_all-Agrees rest now _ lost))

  check_known-found :
      (connection : ConnectionId) (core : WovenCore F) (state : ConnectionState)
      → (do validate_connection_id connection; connection_of core connection) ≡ ok state
      → get connection core.connections ≡ some state
  check_known-found connection core state is = ground arith

  session-found :
      (key : SessionKey) (core : WovenCore F) (session : SessionState F)
      → ◌≡◌ {A = Result CoreError (SessionState F)}
          (ok_or (get key core.sessions) (session_not_found key))
          (ok session)
      → get key core.sessions ≡ some session
  session-found key core session is = ground arith

  drained-Agrees :
      (connection : ConnectionId) (core : WovenCore F) (checked : Result CoreError ConnectionState)
      → (do validate_connection_id connection; connection_of core connection) ≡ checked
      → Agrees core
      → Agrees (elim (drain_outbound connection core) [ none ↦ core | some drained ↦ drained.0 ])
  unfolding drain_outbound
  drained-Agrees connection core (err e) is v = rw is v
  drained-Agrees connection core panic is v = rw is v
  drained-Agrees connection core (ok state) is v =
      rw is (elim (Option-cases (Queue.drain state.outbound)) [
        | inl stuck ↦ rw stuck v
        | inr (drained, returned) ↦ rw returned (
            rolls-Agrees
              (insert connection (record state { outbound = drained.0 }) core.connections) core
              (insert_connection-SameRolls connection state _ core.connections
                (check_known-found connection core state is) refl refl)
              v)
      ])

  pub drain_outbound-Agrees :
      (connection : ConnectionId) (core : WovenCore F)
      → Agrees core
      → Agrees (after_drain connection core)
  drain_outbound-Agrees connection core v = drained-Agrees connection core _ refl v

module _ (f : Floats) where
  open f use {F64}

  deliver_all-Kept :
      (core : WovenCore F64) (key : SessionKey) (messages : List OutboundMessage) (fanout : Fanout)
      → Kept fanout (deliver_all f core key messages fanout).0
  unfolding deliver_all
  deliver_all-Kept core key [] fanout = KeepsRolls-refl fanout.connections
  deliver_all-Kept core key (outbound ∷ messages) fanout =
      let recipients = elim (get key core.sessions) as (λ _. Set ConnectionId) [
        | none ↦ []
        | some session ↦ routing_recipients f session outbound
      ] in
      let sent = deliver_to key outbound recipients fanout in
      let first = deliver_to-Kept key outbound recipients fanout in
      commit_cases (Kept fanout) sent.0 sent.1 _ first
        (λ _ _. KeepsRolls-trans _ _ _ first (deliver_all-Kept core key messages sent.0))

  apply_publish-Agrees :
      (key : SessionKey) (plan : Plan) (now : Instant) (core : WovenCore F64)
      → Agrees core
      → Agrees (apply_publish f key plan now core).0
  unfolding apply_publish store_plan
  apply_publish-Agrees key plan now core v =
      let outbound = map (to_outbound key) plan.messages in
      let journal = push_durable outbound core.journal_outbox in
      let recorded : WovenCore F64 = record core { journal_outbox = journal.0 } in
      let kept = unchanged-Agrees core recorded v refl refl refl in
      commit_cases Agrees recorded journal.1 _ kept λ _ _.
        commit_cases Agrees recorded (ok_or (get key core.sessions) (session_not_found key)) _ kept
          λ session is.
            let room = store_all-SameRoom plan.messages _ in
            let stored : WovenCore F64 = record recorded {
              sessions = insert key (store_plan plan session) core.sessions;
            } in
            let stored_agrees =
              insert_session-Agrees key session (store_plan plan session) recorded
                (session-found key core session is)
                (record {
                  members = room.members;
                  spaces = room.spaces;
                  subscribers = room.subscribers;
                })
                kept in
            let start : Fanout = record {
              connections = stored.connections;
              recipient_attempts = 0;
              queues = no_activity;
              disconnected = [];
            } in
            let sent = deliver_all f stored key outbound start in
            let sent_agrees =
              rolls-Agrees sent.0.connections stored (deliver_all-Kept stored key outbound start)
                stored_agrees in
            commit_cases Agrees (record stored { connections = sent.0.connections }) sent.1 _
              sent_agrees (λ _ _. disconnect_all-Agrees sent.0.disconnected now _ sent_agrees)

  pub publish_at-Agrees :
      (request : PublishRequest) (now : Instant) (core : WovenCore F64)
      → Agrees core
      → Agrees (publish_at f request now core).0
  unfolding publish_at check_known
  publish_at-Agrees request now core v =
      commit_cases Agrees core (check_known f request.connection core) _ v λ state is.
        let admitted = RateLimit.admit core.config.publish_rate_limit now state.rate_limiter in
        let limited : WovenCore F64 = record core {
          connections =
              insert request.connection (record state { rate_limiter = admitted.0 })
                core.connections;
        } in
        let kept =
          rolls-Agrees limited.connections core
            (insert_connection-SameRolls request.connection state _ core.connections
              (check_known-found request.connection core state is) refl refl)
            v in
        commit_cases Agrees limited (map_err of_rate_limit admitted.1) _ kept λ _ _.
          commit_cases Agrees limited (check_publish request limited) _ kept
            (λ plan _. apply_publish-Agrees request.session plan now limited kept)
