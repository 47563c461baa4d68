-- ===== src/Protocol/Semantics/Delivery.antt =====
-- The delivery classes of the envelopes that crates/woven-protocol/src/semantics.rs accepts.
use signalweave.Prelude.{◌≡◌, ◌⊎◌, inl, inr, refl, true, ok, then_eq_ok, arith}
use signalweave.Protocol.Kinds.{MessageKind, DeliveryClass, is_unreliable}
use signalweave.Protocol.Numeric.{is_same, value_of}
use signalweave.Protocol.Model.{Envelope, message_kind}
use signalweave.Protocol.Scope.{reject_zero_optional_ids}
use signalweave.Protocol.Semantics.{validate, validate_delivery, is_deliverable}

-- What the protocol can afford to lose: states, which later states replace, and the reports of an inference at work.
abbrev pub IsLossy : MessageKind → Type 0
IsLossy kind =
    (kind ≡ MessageKind.entity_state)
    ⊎ ((kind ≡ MessageKind.inference_progress) ⊎ (kind ≡ MessageKind.inference_stream_chunk))

is_deliverable-IsLossy :
    (kind : MessageKind) (class : DeliveryClass)
    → is_deliverable kind class ≡ true
    → is_unreliable class ≡ true
    → IsLossy kind
unfolding is_deliverable is_unreliable is_same value_of
is_deliverable-IsLossy MessageKind.entity_state class allowed lost = inl refl
is_deliverable-IsLossy MessageKind.inference_progress class allowed lost = inr (inl refl)
is_deliverable-IsLossy MessageKind.inference_stream_chunk class allowed lost = inr (inr refl)
is_deliverable-IsLossy kind DeliveryClass.unreliable_sequenced allowed lost = ground arith
is_deliverable-IsLossy kind DeliveryClass.best_effort_event allowed lost = ground arith
is_deliverable-IsLossy kind class allowed lost = ground arith

-- Only messages of the kinds that the protocol can afford to lose pass the validation with an unreliable delivery
-- class: every other message is carried by a reliable stream.
pub validate-IsLossy :
    (envelope : Envelope)
    → validate envelope ≡ ok tt
    → is_unreliable envelope.delivery_class ≡ true
    → IsLossy (message_kind envelope)
unfolding validate validate_delivery
validate-IsLossy envelope passed lost =
    let ids = then_eq_ok (reject_zero_optional_ids envelope) _ passed in
    let delivered = then_eq_ok (validate_delivery envelope) _ ids.1 in
    is_deliverable-IsLossy (message_kind envelope) envelope.delivery_class
      (ground (arith, delivered.0)) lost
