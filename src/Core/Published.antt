-- ===== src/Core/Published.antt =====
-- What a publish of crates/woven-core/src/core.rs stores when its checks have passed.
pub mod Replay
mod Examples
use signalweave.Prelude.{
  nat_key, Bool-cases, inl, inr, ℕ, ◌≤◌, ◌≡◌, refl, sym, subst, Bool, not, Option, none, some, List,
  [], ◌∷◌, All, Map, length, count_if, ltb, Result, ok, err, fail_if, ok_or, ◌>>=◌, ◌>>◌, >>=-eq-ok,
  then_eq_ok, ok_injective, arith,
}
use signalweave.Prelude.Maps.{get}
use signalweave.Ids.{SessionKey, session_key_order}
use signalweave.Message.{durable}
use signalweave.Journal
use signalweave.Core.{
  CoreConfig, CoreError, SequenceKey, SessionState, WovenCore, session_not_found, unknown_channel,
  journal_outbox_saturated,
}
use signalweave.Core.Keys.{sequence_key_order}
use signalweave.Core.Publishing.{
  AuthorizedMessage, PublishRequest, from_request, same_persistence, sequence_key,
  validate_channel_policy, validate_message,
}
use signalweave.Core.StateStore.{
  is_stateful, store_message, store_sequences, store_all, validate_sequence_capacity,
  validate_state_capacity,
}
use signalweave.Core.StateBounds.{HasStateBytes, store_all-validate_state_capacity}
use signalweave.Core.Publish.{
  Plan, context_of, proposed_of, decide, plan_all, check_publisher, check_publish, store_plan,
}
use signalweave.Core.Recorded.{IsRecorded, plan_all-IsRecorded, decide-IsSorted}
use signalweave.Core.Sequences.{
  Exceeds, Rises, Exceeding, Rises-refl, store_sequences-Rises, sequences-store_all,
  validate_message-Exceeds, plan_all-Exceeding, decide-Exceeding,
}

-- Storing states and setting the sequences do not meet.
store_message-sequences :
    {F : Type 0} (message : AuthorizedMessage) (session : SessionState F)
    (sequences : Map SequenceKey ℕ)
    → store_message message (record session { sequences = sequences })
      ≡ record (store_message message session) { sequences = sequences }
unfolding store_message
store_message-sequences message session sequences = elim (Bool-cases (is_stateful message)) [
  | inl stored ↦ rw stored refl
  | inr other ↦ rw other refl
]

store_all-sequences :
    {F : Type 0} (messages : List AuthorizedMessage) (session : SessionState F)
    (sequences : Map SequenceKey ℕ)
    → store_all messages (record session { sequences = sequences })
      ≡ record (store_all messages session) { sequences = sequences }
unfolding store_all
store_all-sequences [] session sequences = refl
store_all-sequences (message ∷ messages) session sequences =
    rw (store_message-sequences message session sequences)
      (store_all-sequences messages (store_message message session) sequences)

module _ {F : Type 0} (core : WovenCore F) (request : PublishRequest) (session : SessionState F)
    (plan : Plan) (there : get request.session core.sessions ≡ some session) where
  -- What the checks say of the plan that they give.
  record IsChecked (checked : Plan) : Type 0 where
    exceeding : Exceeding session.sequences checked.sequences
    increasing :
        All
          (λ (message : AuthorizedMessage).
            Exceeds
              (get (sequence_key request.connection message) session.sequences)
              message.sequence)
          checked.messages
    recorded :
        (before : Map SequenceKey ℕ) × IsRecorded request.connection checked.messages before
          checked.sequences
    few_states : validate_state_capacity core.config session checked.messages ≡ ok tt

  check_publish-IsChecked : check_publish request core ≡ ok plan → IsChecked plan
  unfolding check_publish
  check_publish-IsChecked is =
      let principal = >>=-eq-ok (check_publisher request core) _ is in
      let channel =
        >>=-eq-ok (ok_or (get request.channel core.channels) (unknown_channel request.channel)) _
          principal.2 in
      let policy =
        then_eq_ok (validate_channel_policy channel.0 request.delivery request.persistence) _
          channel.2 in
      let found =
        >>=-eq-ok (ok_or (get request.session core.sessions) (session_not_found request.session)) _
          policy.1 in
      let same : found.0 ≡ session = ground (arith, there, found.1) in
      let valid =
        then_eq_ok
          (validate_message core request.connection request.session (from_request request) []) _
          found.2 in
      let decided =
        >>=-eq-ok
          (decide core.config request.connection (from_request request)
            (channel.0.authority (context_of request principal.0 found.0) (proposed_of request)))
          _ valid.1 in
      let planned =
        >>=-eq-ok
          (plan_all core request.connection request.session decided.0.messages decided.0.sequences)
          _ decided.2 in
      let few_sequences =
        then_eq_ok (validate_sequence_capacity core.config found.0 planned.0) _ planned.2 in
      let few_states =
        then_eq_ok (validate_state_capacity core.config found.0 decided.0.messages) _
          few_sequences.1 in
      let journal =
        then_eq_ok
          (fail_if
            (ltb (Journal.remaining_capacity core.journal_outbox) (
              count_if
                (λ (message : AuthorizedMessage). same_persistence message.persistence durable)
                decided.0.messages))
            journal_outbox_saturated)
          _ few_states.1 in
      let exceeding =
        plan_all-Exceeding core request.session session there request.connection decided.0.messages
          decided.0.sequences planned.0 planned.1
          (decide-Exceeding core request.session session there request.connection
            (from_request request) _ decided.0
            (validate_message-Exceeds core request.session session there request.connection
              (from_request request) [] valid.0)
            decided.1) in
      subst IsChecked (ok_injective journal.1) (record {
        exceeding = exceeding.0;
        increasing = exceeding.1;
        recorded = (
          decided.0.sequences,
          plan_all-IsRecorded core request.session request.connection decided.0.messages
              decided.0.sequences planned.0 planned.1
              (decide-IsSorted core.config request.connection (from_request request) _ decided.0
                decided.1),
        );
        few_states =
            subst
              (λ (s : SessionState F).
                validate_state_capacity core.config s decided.0.messages ≡ ok tt)
              same few_states.0;
      })

  -- Sequence numbers only rise. When a publish has passed its checks, the number of every message that it stores, those
  -- that the authority has emitted included, exceeds the last number of its key, and no key of the session has a smaller
  -- number afterwards than before, or none where it had one.
  pub store_plan-Rises :
      check_publish request core ≡ ok plan
      → All
          (λ (message : AuthorizedMessage).
            Exceeds
              (get (sequence_key request.connection message) session.sequences)
              message.sequence)
          plan.messages
        × ((key : SequenceKey)
            → Rises (get key session.sequences) (get key (store_plan plan session).sequences))
  unfolding store_plan
  store_plan-Rises is =
      let checked = check_publish-IsChecked is in
      (
        checked.increasing,
        λ key.
            subst (λ sequences. Rises (get key session.sequences) (get key sequences))
              (sym (
                sequences-store_all plan.messages (record session {
                  sequences = store_sequences plan.sequences session.sequences;
                })))
              (store_sequences-Rises session.sequences plan.sequences session.sequences key
                checked.exceeding (Rises-refl (get key session.sequences))),
      )

  -- What a publish that has passed its checks stores keeps the session's limits on the number and on the bytes of its
  -- states, whichever keys the messages share, and leaves the count of the bytes exact.
  pub store_plan-HasStateBytes :
      HasStateBytes session
      → check_publish request core ≡ ok plan
      → HasStateBytes (store_plan plan session)
        × (length (store_plan plan session).state ≤ core.config.max_state_entries_per_session)
        × ((store_plan plan session).state_bytes ≤ core.config.max_state_bytes_per_session)
  unfolding store_plan
  store_plan-HasStateBytes exact is =
      let bounds =
        store_all-validate_state_capacity core.config session plan.messages exact
          (check_publish-IsChecked is).few_states in
      subst
        (λ (after : SessionState F).
          HasStateBytes after
          × (length after.state ≤ core.config.max_state_entries_per_session)
          × (after.state_bytes ≤ core.config.max_state_bytes_per_session))
        (sym (
          store_all-sequences plan.messages session
            (store_sequences plan.sequences session.sequences)))
        ((record { sorted = bounds.0.sorted; counted = bounds.0.counted }), bounds.1, bounds.2)
