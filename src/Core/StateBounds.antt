-- ===== src/Core/StateBounds.antt =====
-- The states that a publish of crates/woven-core/src/core.rs stores, against the limits that it checks
-- beforehand.
use signalweave.Prelude.{
  ℕ, ◌+◌, ◌-◌, ◌≤◌, ◌≡◌, refl, sym, true, Option, none, some, List, [], ◌∷◌, Map, length,
  or_default, ok, arith, Bool-cases, inl, inr,
}
use signalweave.Prelude.Maps.{get, insert}
use signalweave.Prelude.Maps.Laws.{
  IsSorted, Above-before, get-Above, get-insert, insert-IsSorted, length-insert_new,
  length-insert_old,
}
use signalweave.Core.{CoreConfig, StateKey, StateRecord, SessionState}
use signalweave.Core.Keys.{state_key_order}
use signalweave.Core.Publishing.{AuthorizedMessage, state_key}
use signalweave.Core.Removal.{payload_bytes}
use signalweave.Core.StateStore.{
  Projection, payload_len, projected_len, entries_after, stored_state, is_stateful, project_message,
  project_all, initial_projection, check_projection, validate_state_capacity, store_message,
  store_all,
}

-- Storing a state trades the bytes of the old one of its key for those of the new one.
payload_bytes-insert :
    (key : StateKey) (value : StateRecord) (state : Map StateKey StateRecord)
    → IsSorted state
    → payload_bytes (insert key value state) + or_default (payload_len (get key state)) 0
      ≡ payload_bytes state + length value.payload
unfolding payload_bytes get insert
payload_bytes-insert key value [] sorted = omega arith
payload_bytes-insert key value ((j, w) ∷ state) sorted = ground (
  arith,
  Above-before key j state,
  get-Above key state,
  payload_bytes-insert key value state sorted.1,
)

payload_bytes-get-le :
    (key : StateKey) (state : Map StateKey StateRecord)
    → or_default (payload_len (get key state)) 0 ≤ payload_bytes state
unfolding payload_bytes get
payload_bytes-get-le key [] = omega arith
payload_bytes-get-le key ((j, w) ∷ state) = ground (arith, payload_bytes-get-le key state)

length-insert-entries :
    (key : StateKey) (value : StateRecord) (state : Map StateKey StateRecord) (previous : Option ℕ)
    → IsSorted state
    → previous ≡ payload_len (get key state)
    → entries_after (length state) previous ≡ length (insert key value state)
length-insert-entries key value state none sorted is =
    ground (arith, is, length-insert_new key value state)
length-insert-entries key value state (some n) sorted is =
    ground (arith, is, length-insert_old key value state sorted)

check_projection-ok :
    (config : CoreConfig) (p : Projection)
    → check_projection config p ≡ ok tt
    → (p.entries ≤ config.max_state_entries_per_session)
      × (p.bytes ≤ config.max_state_bytes_per_session)
unfolding check_projection
check_projection-ok config p passed = ground arith

module _ {F : Type 0} where
  -- The map of states is in order, and its bytes are counted.
  pub record HasStateBytes (session : SessionState F) : Type 0 where
    pub sorted : IsSorted session.state
    pub counted : session.state_bytes ≡ payload_bytes session.state

  store_message-HasStateBytes :
      (message : AuthorizedMessage) (session : SessionState F)
      → HasStateBytes session
      → HasStateBytes (store_message message session)
  unfolding store_message
  store_message-HasStateBytes message session v = elim (Bool-cases (is_stateful message)) [
    | inr other ↦ rw other v
    | inl stored ↦ rw stored (record {
      sorted = insert-IsSorted (state_key message) _ session.state v.sorted;
      counted = omega (
        arith,
        v.counted,
        payload_bytes-get-le (state_key message) session.state,
        payload_bytes-insert (state_key message) (stored_state message) session.state v.sorted,
      );
    })
  ]

  store_message_stored :
      (message : AuthorizedMessage) (session : SessionState F)
      → is_stateful message ≡ true
      → store_message message session ≡ record session {
        state = insert (state_key message) (stored_state message) session.state;
        state_bytes =
            session.state_bytes
            - or_default (payload_len (get (state_key message) session.state)) 0
            + length message.payload;
      }
  unfolding store_message
  store_message_stored message session stored = rw stored refl

  -- The projection says what storing has made of the session.
  record Tracks (start session : SessionState F) (p : Projection) : Type 0 where
    entries : p.entries ≡ length session.state
    bytes : p.bytes ≡ session.state_bytes
    lengths : (key : StateKey) → projected_len start p key ≡ payload_len (get key session.state)
    exact : HasStateBytes session

  project_message-Tracks :
      (start session : SessionState F) (message : AuthorizedMessage) (p : Projection)
      → Tracks start session p
      → Tracks start (store_message message session) (project_message start message p)
  unfolding store_message project_message
  project_message-Tracks start session message p v = elim (Bool-cases (is_stateful message)) [
    | inr other ↦ rw other v
    | inl stored ↦ rw stored (record {
      entries = rw (v.entries) (
          length-insert-entries (state_key message) (stored_state message) session.state
            (projected_len start p (state_key message)) v.exact.sorted
            (v.lengths (state_key message)));
      bytes = rw (v.bytes, v.lengths (state_key message)) refl;
      lengths = λ key. ground (
        arith,
        get-insert (state_key message) key (length message.payload) p.projected,
        get-insert (state_key message) key (stored_state message) session.state,
        v.lengths key,
      );
      exact =
          rw (sym (store_message_stored message session stored))
            (store_message-HasStateBytes message session v.exact);
    })
  ]

  project_all-Tracks :
      (start session : SessionState F) (messages : List AuthorizedMessage) (p : Projection)
      → Tracks start session p
      → Tracks start (store_all messages session) (project_all start messages p)
  unfolding store_all project_all
  project_all-Tracks start session [] p v = v
  project_all-Tracks start session (message ∷ messages) p v =
      project_all-Tracks start (store_message message session) messages
        (project_message start message p) (project_message-Tracks start session message p v)

  -- The check before a publish is exact enough for what the publish then stores, whichever keys its messages share with
  -- each other and with earlier states: where the check passes, the states stored afterwards are within the limits
  -- on their number and on their bytes, and the count of the bytes is again the sum of the payloads' lengths.
  pub store_all-validate_state_capacity :
      (config : CoreConfig) (session : SessionState F) (messages : List AuthorizedMessage)
      → HasStateBytes session
      → validate_state_capacity config session messages ≡ ok tt
      → HasStateBytes (store_all messages session)
        × (length (store_all messages session).state ≤ config.max_state_entries_per_session)
        × ((store_all messages session).state_bytes ≤ config.max_state_bytes_per_session)
  unfolding validate_state_capacity get
  store_all-validate_state_capacity config session messages exact passed =
      let start : Tracks session session (initial_projection session) = record {
        entries = refl;
        bytes = refl;
        lengths = λ key. refl;
        exact = exact;
      } in
      let tracks = project_all-Tracks session session messages (initial_projection session) start in
      let bounds =
        check_projection-ok config (project_all session messages (initial_projection session))
          passed in
      (tracks.exact, omega (arith, tracks.entries, bounds.0), omega (arith, tracks.bytes, bounds.1))
