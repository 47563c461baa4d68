-- ===== src/Core/StateStore.antt =====
-- The sequences and the states that a publish stores in crates/woven-core/src/core.rs, and the
-- checks that they fit.
use signalweave.Prelude.{
  ℕ, ◌+◌, ◌-◌, Bool, Option, none, some, List, [], ◌∷◌, Map, length, ltb, if◌then◌else◌, or_default,
  Result, fail_if, ◌>>◌,
}
use signalweave.Prelude.Maps
use signalweave.Message.{stateful}
use signalweave.Core.{
  CoreConfig, CoreError, SequenceKey, StateKey, StateRecord, SessionState,
  sequence_key_limit_reached, state_entry_limit_reached, state_byte_limit_reached,
}
use signalweave.Core.Keys.{sequence_key_order, state_key_order}
use signalweave.Core.Publishing.{AuthorizedMessage, same_persistence, state_key}

-- How many planned keys are new.
unfoldable pub count_new : Map SequenceKey ℕ → Map SequenceKey ℕ → ℕ
count_new sequences [] = 0
count_new sequences ((key, _) ∷ planned) =
    let rest = count_new sequences planned in if Maps.contains key sequences then rest else 1 + rest

-- `for (key, sequence) in planned_sequences`
unfoldable pub store_sequences : Map SequenceKey ℕ → Map SequenceKey ℕ → Map SequenceKey ℕ
store_sequences [] sequences = sequences
store_sequences ((key, sequence) ∷ planned) sequences =
    store_sequences planned (Maps.insert key sequence sequences)

abbrev pub is_stateful : AuthorizedMessage → Bool
is_stateful message = same_persistence message.persistence stateful

-- The length of the payload of a state, if there is one.
abbrev pub payload_len : Option StateRecord → Option ℕ
payload_len none = none
payload_len (some state) = some (length state.payload)

-- The local variables of `validate_state_capacity`.
pub record Projection : Type 0 where
  pub entries : ℕ
  pub bytes : ℕ
  pub projected : Map StateKey ℕ

-- `entries += 1` for a key without a state.
abbrev pub entries_after : ℕ → Option ℕ → ℕ
entries_after n none = n + 1
entries_after n (some previous) = n

abbrev pub stored_state : AuthorizedMessage → StateRecord
stored_state message = record { sequence = message.sequence; payload = message.payload }

abbrev pub first_of : Option ℕ → Option ℕ → Option ℕ
first_of none b = b
first_of (some a) b = some a

unfoldable pub check_projection : CoreConfig → Projection → Result CoreError (Unit {0})
check_projection config p = do
  fail_if (ltb config.max_state_entries_per_session p.entries) state_entry_limit_reached
  fail_if (ltb config.max_state_bytes_per_session p.bytes) state_byte_limit_reached

module _ {F : Type 0} where
  unfoldable pub validate_sequence_capacity :
      CoreConfig → SessionState F → Map SequenceKey ℕ → Result CoreError (Unit {0})
  unfolding count_new
  validate_sequence_capacity config session planned =
      fail_if
        (ltb config.max_sequence_keys_per_session
          (length session.sequences + count_new session.sequences planned))
        sequence_key_limit_reached

  -- The length that the state of the key has in the projection.
  abbrev pub projected_len : SessionState F → Projection → StateKey → Option ℕ
  projected_len session p key =
      first_of (Maps.get key p.projected) (payload_len (Maps.get key session.state))

  unfoldable pub project_message : SessionState F → AuthorizedMessage → Projection → Projection
  unfolding state_key
  project_message session message p =
      if is_stateful message
      then (record {
        entries = entries_after p.entries (projected_len session p (state_key message));
        bytes =
            p.bytes
            - or_default (projected_len session p (state_key message)) 0
            + length message.payload;
        projected = Maps.insert (state_key message) (length message.payload) p.projected;
      })
      else p

  unfoldable pub project_all : SessionState F → List AuthorizedMessage → Projection → Projection
  unfolding project_message
  project_all session [] p = p
  project_all session (message ∷ messages) p =
      project_all session messages (project_message session message p)

  abbrev pub initial_projection : SessionState F → Projection
  initial_projection session = record {
    entries = length session.state;
    bytes = session.state_bytes;
    projected = [];
  }

  unfoldable pub validate_state_capacity :
      CoreConfig → SessionState F → List AuthorizedMessage → Result CoreError (Unit {0})
  unfolding project_all check_projection
  validate_state_capacity config session messages =
      check_projection config (project_all session messages (initial_projection session))

  -- The state of one message, stored.
  unfoldable pub store_message : AuthorizedMessage → SessionState F → SessionState F
  unfolding state_key
  store_message message session =
      if is_stateful message
      then (record session {
        state = Maps.insert (state_key message) (stored_state message) session.state;
        state_bytes =
            session.state_bytes
            - or_default (payload_len (Maps.get (state_key message) session.state)) 0
            + length message.payload;
      })
      else session

  unfoldable pub store_all : List AuthorizedMessage → SessionState F → SessionState F
  unfolding store_message
  store_all [] session = session
  store_all (message ∷ messages) session = store_all messages (store_message message session)
