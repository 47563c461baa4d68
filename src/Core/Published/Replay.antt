-- ===== src/Core/Published/Replay.antt =====
-- What a publish of crates/woven-core/src/core.rs refuses when it is sent again.
use signalweave.Prelude.{
  nat_key, ℕ, ◌≡◌, ◌≢◌, Option, none, some, List, [], ◌∷◌, All, Map, ok, arith, refl, same_refl,
}
use signalweave.Prelude.Maps.{get, insert}
use signalweave.Prelude.Maps.Laws.{get-insert}
use signalweave.Ids.{session_key_order}
use signalweave.Core.{SequenceKey, SessionState, WovenCore}
use signalweave.Core.Keys.{sequence_key_order}
use signalweave.Core.Publishing.{AuthorizedMessage, PublishRequest, sequence_key, validate_message}
use signalweave.Core.StateStore.{first_of, store_sequences}
use signalweave.Core.Publish.{Plan, check_publish, store_plan}
use signalweave.Core.Sequences.{Exceeds, Rises, sequences-store_all, validate_message-Exceeds}
use signalweave.Core.Recorded.{get-store_sequences}
use signalweave.Core.Published.{check_publish-IsChecked}

-- A number that has been reached is not exceeded.
Exceeds-absurd : (o : Option ℕ) (n : ℕ) → Rises (some n) o → Exceeds o n → ⊥
Exceeds-absurd none n reached exceeds = reached
Exceeds-absurd (some last) n reached exceeds = omega (arith, reached, exceeds)

first_of-Rises :
    (planned stored : Option ℕ) (n : ℕ)
    → Rises (some n) planned
    → Rises (some n) (first_of planned stored)
first_of-Rises none stored n reached = absurd reached
first_of-Rises (some a) stored n reached = reached

All-imp :
    {A : Type 0} {P Q : A → Type 0} (xs : List A) → ((x : A) → P x → Q x) → All P xs → All Q xs
All-imp [] implies all = tt
All-imp (x ∷ xs) implies all = (implies x all.0, All-imp xs implies all.1)

module _ {F : Type 0} (core : WovenCore F) (request : PublishRequest) (session : SessionState F)
    (plan : Plan) (there : get request.session core.sessions ≡ some session) where
  -- The core with what the plan stores.
  abbrev pub stored : WovenCore F
  stored = record core { sessions = insert request.session (store_plan plan session) core.sessions }

  stored-session : get request.session stored.sessions ≡ some (store_plan plan session)
  stored-session =
      rw
        (
          get-insert request.session request.session (store_plan plan session) core.sessions,
          same_refl request.session,
        )
        refl

  sequences-store_plan :
      (store_plan plan session).sequences ≡ store_sequences plan.sequences session.sequences
  unfolding store_plan
  sequences-store_plan = sequences-store_all plan.messages _

  -- No message is taken twice. When a publish has passed its checks, the core that has stored its plan refuses to
  -- validate any of the messages of the plan again for the same connection, whatever a later publish has planned.
  pub store_plan-refuses :
      check_publish request core ≡ ok plan
      → All
          (λ (message : AuthorizedMessage).
            (planned : Map SequenceKey ℕ)
            → validate_message stored request.connection request.session message planned ≢ ok tt)
          plan.messages
  store_plan-refuses is =
      let recorded = (check_publish-IsChecked core request session plan there is).recorded.1 in
      All-imp plan.messages
        (λ message reached planned passed.
          Exceeds-absurd _ message.sequence
            (rw
              (
                sequences-store_plan,
                get-store_sequences plan.sequences session.sequences
                    (sequence_key request.connection message) recorded.sorted,
              )
              (first_of-Rises _ _ message.sequence reached))
            (validate_message-Exceeds stored request.session (store_plan plan session)
              stored-session request.connection message planned passed))
        recorded.all_reached
