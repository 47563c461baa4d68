-- ===== src/Core/Recorded.antt =====
-- The sequence numbers that the plan of a publish in crates/woven-core/src/core.rs holds.
use signalweave.Prelude.{
  nat_key, ℕ, ◌≤◌, if_cases, ◌≡◌, refl, subst, Option, none, some, List, [], ◌∷◌, All, Map, ok,
  ok_or, >>=-eq-ok, then_eq_ok, ok_injective, arith, same, same_iff, same_refl, fail_if, ltb,
  length,
}
use signalweave.Prelude.Maps.{get, insert}
use signalweave.Prelude.Maps.Laws.{IsSorted, get-Above, get-insert, insert-IsSorted}
use signalweave.Ids.{ConnectionId, SessionKey, session_key_order}
use signalweave.Authority.{AuthorityOutcome, accept, reject, transform, emit}
use signalweave.Core.{
  CoreConfig, SequenceKey, WovenCore, session_not_found, authority_emission_limit_exceeded,
}
use signalweave.Core.Keys.{sequence_key_order}
use signalweave.Core.Publishing.{
  AuthorizedMessage, later, validate_content, validate_message, validate_place, validate_sequence,
  sequence_key,
}
use signalweave.Core.StateStore.{first_of, store_sequences}
use signalweave.Core.Publish.{Plan, decide, plan_all}
use signalweave.Core.Sequences.{Exceeds, Rises, Rises-refl}

-- The key has a number, and it is at least this one.
abbrev pub Reaches : Map SequenceKey ℕ → SequenceKey → ℕ → Type 0
Reaches sequences key n = Rises (some n) (get key sequences)

validate_sequence-Exceeds_planned :
    (n : ℕ) (stored planned : Option ℕ)
    → validate_sequence n (later stored planned) ≡ ok tt
    → Exceeds planned n
unfolding validate_sequence
validate_sequence-Exceeds_planned n stored none passed = tt
validate_sequence-Exceeds_planned n none (some b) passed = ground arith
validate_sequence-Exceeds_planned n (some a) (some b) passed = ground arith

Reaches-lt : (o : Option ℕ) (n m : ℕ) → Rises (some n) o → Exceeds o m → n ≤ m
Reaches-lt none n m reaches exceeds = absurd reaches
Reaches-lt (some a) n m reaches exceeds = omega (arith, reaches, exceeds)

-- A greater number of a key keeps what the others reach.
insert-Reaches :
    (planned : Map SequenceKey ℕ) (key k : SequenceKey) (m n : ℕ)
    → Exceeds (get key planned) m
    → Reaches planned k n
    → Reaches (insert key m planned) k n
insert-Reaches planned key k m n exceeds reaches = rw (get-insert key k m planned) (
    if_cases (Rises (some n)) (same key k) (some m) (get k planned)
      (λ found.
        Reaches-lt (get k planned) n m reaches
          (subst (λ j. Exceeds (get j planned) m) ((same_iff key k).0 found) exceeds))
      (λ other. reaches))

insert-reached :
    (planned : Map SequenceKey ℕ) (key : SequenceKey) (m : ℕ) → Reaches (insert key m planned) key m
insert-reached planned key m =
    rw (get-insert key key m planned, same_refl key) (Rises-refl (some m))

pub get-store_sequences :
    (planned sequences : Map SequenceKey ℕ) (key : SequenceKey)
    → IsSorted planned
    → get key (store_sequences planned sequences) ≡ first_of (get key planned) (get key sequences)
unfolding store_sequences get
get-store_sequences [] sequences key sorted = refl
get-store_sequences ((j, n) ∷ planned) sequences key sorted = ground (
  arith,
  get-store_sequences planned (insert j n sequences) key sorted.1,
  get-insert j key n sequences,
  get-Above j planned sorted.0,
  same_iff j key,
)

-- The numbers of the plan are in order, keep what was reached, and reach those of the messages.
pub record IsRecorded (connection : ConnectionId) (messages : List AuthorizedMessage)
    (planned after : Map SequenceKey ℕ) : Type 0 where
  pub sorted : IsSorted after
  pub keeps : (k : SequenceKey) (n : ℕ) → Reaches planned k n → Reaches after k n
  pub all_reached :
      All
        (λ (message : AuthorizedMessage).
          Reaches after (sequence_key connection message) message.sequence)
        messages

module _ {F : Type 0} (core : WovenCore F) (key : SessionKey) where
  validate_message-Exceeds_planned :
      (connection : ConnectionId) (message : AuthorizedMessage) (planned : Map SequenceKey ℕ)
      → validate_message core connection key message planned ≡ ok tt
      → Exceeds (get (sequence_key connection message) planned) message.sequence
  unfolding validate_message
  validate_message-Exceeds_planned connection message planned passed =
      let content = then_eq_ok (validate_content core message) _ passed in
      let found = >>=-eq-ok (ok_or (get key core.sessions) (session_not_found key)) _ content.1 in
      let place = then_eq_ok (validate_place key message found.0) _ found.2 in
      validate_sequence-Exceeds_planned message.sequence _ _ place.1

  pub plan_all-IsRecorded :
      (connection : ConnectionId) (messages : List AuthorizedMessage)
      (planned after : Map SequenceKey ℕ)
      → plan_all core connection key messages planned ≡ ok after
      → IsSorted planned
      → IsRecorded connection messages planned after
  unfolding plan_all
  plan_all-IsRecorded connection [] planned after is sorted =
      subst (IsRecorded connection [] planned) (ok_injective is)
        (record { sorted = sorted; keeps = λ k n reaches. reaches; all_reached = tt })
  plan_all-IsRecorded connection (message ∷ messages) planned after is sorted =
      let valid = then_eq_ok (validate_message core connection key message planned) _ is in
      let own = sequence_key connection message in
      let exceeds = validate_message-Exceeds_planned connection message planned valid.0 in
      let rest =
        plan_all-IsRecorded connection messages (insert own message.sequence planned) after valid.1
          (insert-IsSorted own message.sequence planned sorted) in
      record {
        sorted = rest.sorted;
        keeps = λ k n reaches.
            rest.keeps k n (insert-Reaches planned own k message.sequence n exceeds reaches);
        all_reached = (
          rest.keeps own message.sequence (insert-reached planned own message.sequence),
          rest.all_reached,
        );
      }

pub decide-IsSorted :
    (config : CoreConfig) (connection : ConnectionId) (proposed : AuthorizedMessage)
    (outcome : AuthorityOutcome) (plan : Plan)
    → decide config connection proposed outcome ≡ ok plan
    → IsSorted plan.sequences
unfolding decide
decide-IsSorted config connection proposed accept plan is =
    subst (λ (p : Plan). IsSorted p.sequences) (ok_injective is) tt
decide-IsSorted config connection proposed (reject reason) plan is = cc
decide-IsSorted config connection proposed (transform transformed) plan is =
    subst (λ (p : Plan). IsSorted p.sequences) (ok_injective is) tt
decide-IsSorted config connection proposed (emit emissions) plan is =
    let few =
      then_eq_ok
        (fail_if (ltb config.max_authority_emissions (length emissions))
          authority_emission_limit_exceeded)
        _ is in
    subst (λ (p : Plan). IsSorted p.sequences) (ok_injective few.1) (tt, tt)
