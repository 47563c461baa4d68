-- ===== src/Core/Sequences.antt =====
-- The sequence numbers of a publish in crates/woven-core/src/core.rs.
use signalweave.Prelude.{
  ℕ, ◌≤◌, ◌<◌, ◌≡◌, refl, subst, Option, none, some, List, [], ◌∷◌, All, Map, if_cases, ok, fail_if,
  ok_or, >>=-eq-ok, then_eq_ok, ok_injective, arith, same, same_iff, before, ltb, length,
}
use signalweave.Prelude.Maps.{get, insert}
use signalweave.Prelude.Maps.Laws.{get-insert}
use signalweave.Ids.{ConnectionId, SessionKey, session_key_order}
use signalweave.Authority.{AuthorityOutcome, accept, reject, transform, emit}
use signalweave.Core.{
  SequenceKey, SessionState, WovenCore, session_not_found, authority_emission_limit_exceeded,
}
use signalweave.Core.Keys.{sequence_key_order}
use signalweave.Core.Publishing.{
  AuthorizedMessage, later, validate_content, validate_place, validate_sequence, validate_message,
  sequence_key,
}
use signalweave.Core.StateStore.{store_sequences, store_message, store_all}
use signalweave.Core.Publish.{Plan, decide, plan_all}

-- The number exceeds the last one, if there is one.
abbrev pub Exceeds : Option ℕ → ℕ → Type 0
Exceeds none n = Unit
Exceeds (some last) n = last < n

-- The entry stays, and its number does not fall.
abbrev pub Rises : Option ℕ → Option ℕ → Type 0
Rises none after = Unit
Rises (some last) none = ⊥
Rises (some last) (some now) = last ≤ now

-- All numbers of the map exceed those of the sequences.
abbrev pub Exceeding : Map SequenceKey ℕ → Map SequenceKey ℕ → Type 0
Exceeding sequences = All (λ (entry : SequenceKey × ℕ). Exceeds (get entry.0 sequences) entry.1)

validate_sequence-Exceeds :
    (n : ℕ) (stored planned : Option ℕ)
    → validate_sequence n (later stored planned) ≡ ok tt
    → Exceeds stored n
unfolding validate_sequence
validate_sequence-Exceeds n none planned passed = tt
validate_sequence-Exceeds n (some a) none passed = ground arith
validate_sequence-Exceeds n (some a) (some b) passed = ground arith

insert-Exceeding :
    (sequences : Map SequenceKey ℕ) (key : SequenceKey) (n : ℕ) (planned : Map SequenceKey ℕ)
    → Exceeds (get key sequences) n
    → Exceeding sequences planned
    → Exceeding sequences (insert key n planned)
unfolding insert
insert-Exceeding sequences key n [] exceeds all = (exceeds, tt)
insert-Exceeding sequences key n ((j, m) ∷ planned) exceeds all =
    if_cases (Exceeding sequences) (same j key) _ _ (λ found. (exceeds, all.1))
      (λ other.
        if_cases (Exceeding sequences) (before key j) _ _ (λ first. (exceeds, all))
          (λ later. (all.0, insert-Exceeding sequences key n planned exceeds all.1)))

Exceeds-Rises : (o : Option ℕ) (n : ℕ) → Exceeds o n → Rises o (some n)
Exceeds-Rises none n exceeds = tt
Exceeds-Rises (some last) n exceeds = omega (arith, exceeds)

insert-Rises :
    (sequences current : Map SequenceKey ℕ) (j key : SequenceKey) (n : ℕ)
    → Exceeds (get j sequences) n
    → Rises (get key sequences) (get key current)
    → Rises (get key sequences) (get key (insert j n current))
insert-Rises sequences current j key n exceeds rises = rw (get-insert j key n current) (
    if_cases (Rises (get key sequences)) (same j key) (some n) (get key current)
      (λ found.
        Exceeds-Rises (get key sequences) n
          (subst (λ k. Exceeds (get k sequences) n) ((same_iff j key).0 found) exceeds))
      (λ other. rises))

pub store_sequences-Rises :
    (sequences planned current : Map SequenceKey ℕ) (key : SequenceKey)
    → Exceeding sequences planned
    → Rises (get key sequences) (get key current)
    → Rises (get key sequences) (get key (store_sequences planned current))
unfolding store_sequences
store_sequences-Rises sequences [] current key exceeding rises = rises
store_sequences-Rises sequences ((j, n) ∷ planned) current key exceeding rises =
    store_sequences-Rises sequences planned (insert j n current) key exceeding.1
      (insert-Rises sequences current j key n exceeding.0 rises)

pub Rises-refl : (o : Option ℕ) → Rises o o
Rises-refl none = tt
Rises-refl (some n) = omega arith

module _ {F : Type 0} where
  pub sequences-store_all :
      (messages : List AuthorizedMessage) (session : SessionState F)
      → (store_all messages session).sequences ≡ session.sequences
  unfolding store_all store_message
  sequences-store_all [] session = refl
  sequences-store_all (message ∷ messages) session =
      ground (arith, sequences-store_all messages (store_message message session))

  module _ (core : WovenCore F) (key : SessionKey) (session : SessionState F)
      (there : get key core.sessions ≡ some session) where
    pub validate_message-Exceeds :
        (connection : ConnectionId) (message : AuthorizedMessage) (planned : Map SequenceKey ℕ)
        → validate_message core connection key message planned ≡ ok tt
        → Exceeds (get (sequence_key connection message) session.sequences) message.sequence
    unfolding validate_message
    validate_message-Exceeds connection message planned passed =
        let content = then_eq_ok (validate_content core message) _ passed in
        let found = >>=-eq-ok (ok_or (get key core.sessions) (session_not_found key)) _ content.1 in
        let place = then_eq_ok (validate_place key message found.0) _ found.2 in
        let same_session : found.0 ≡ session = ground (arith, there, found.1) in
        subst
          (λ (s : SessionState F).
            Exceeds (get (sequence_key connection message) s.sequences) message.sequence)
          same_session (validate_sequence-Exceeds message.sequence _ _ place.1)

    pub plan_all-Exceeding :
        (connection : ConnectionId) (messages : List AuthorizedMessage)
        (planned after : Map SequenceKey ℕ)
        → plan_all core connection key messages planned ≡ ok after
        → Exceeding session.sequences planned
        → Exceeding session.sequences after
          × All
              (λ (message : AuthorizedMessage).
                Exceeds (get (sequence_key connection message) session.sequences) message.sequence)
              messages
    unfolding plan_all
    plan_all-Exceeding connection [] planned after is exceeding =
        (subst (Exceeding session.sequences) (ok_injective is) exceeding, tt)
    plan_all-Exceeding connection (message ∷ messages) planned after is exceeding =
        let valid = then_eq_ok (validate_message core connection key message planned) _ is in
        let exceeds = validate_message-Exceeds connection message planned valid.0 in
        let others = plan_all-Exceeding connection messages _ after valid.1 (
          insert-Exceeding session.sequences (sequence_key connection message) message.sequence
            planned exceeds exceeding) in
        (others.0, (exceeds, others.1))

    pub decide-Exceeding :
        (connection : ConnectionId) (proposed : AuthorizedMessage) (outcome : AuthorityOutcome)
        (plan : Plan)
        → Exceeds (get (sequence_key connection proposed) session.sequences) proposed.sequence
        → decide core.config connection proposed outcome ≡ ok plan
        → Exceeding session.sequences plan.sequences
    unfolding decide
    decide-Exceeding connection proposed accept plan exceeds is =
        subst (λ (p : Plan). Exceeding session.sequences p.sequences) (ok_injective is) tt
    decide-Exceeding connection proposed (reject reason) plan exceeds is = cc
    decide-Exceeding connection proposed (transform transformed) plan exceeds is =
        subst (λ (p : Plan). Exceeding session.sequences p.sequences) (ok_injective is) tt
    decide-Exceeding connection proposed (emit emissions) plan exceeds is =
        let few =
          then_eq_ok
            (fail_if (ltb core.config.max_authority_emissions (length emissions))
              authority_emission_limit_exceeded)
            _ is in
        subst (λ (p : Plan). Exceeding session.sequences p.sequences) (ok_injective few.1)
          (exceeds, tt)
