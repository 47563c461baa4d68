-- ===== src/Protocol/Examples.antt =====
-- A pong and its frame: the theorems of the wire protocol at them.
use signalweave.Prelude.{
  ℕ, ◌≡◌, ◌⊎◌, ◌++◌, refl, true, none, some, List, [], ◌∷◌, length, ok, err, arith,
}
use signalweave.Protocol.Kinds.{DeliveryClass, is_unreliable}
use signalweave.Protocol.Model.{
  Envelope, ControlPayload, MessagePayload, control_envelope, message_kind, variable_len,
}
use signalweave.Protocol.Limits
use signalweave.Protocol.Limits.{
  Codec, CodecLimits, default_limits, trailing_bytes, truncated_frame,
}
use signalweave.Protocol.Semantics.{validate, validate_control}
use signalweave.Protocol.Contents.{validate_inference_control}
use signalweave.Protocol.Semantics.Scopes.{IsNested, validate-IsNested}
use signalweave.Protocol.Semantics.Delivery.{IsLossy, validate-IsLossy}
use signalweave.Protocol.Codec.{
  Flatbuffers, wire_envelope, encode, decode, validate_outbound, size_prefix, from_le_bytes,
}
use signalweave.Protocol.Codec.Frames.{Serialises, decode-encode}
use signalweave.Protocol.Codec.Framing.{decode-exact}
use signalweave.Protocol.Codec.Resend.{IsOverlong, decode-validate_outbound}

abbrev pong : Envelope
pong =
    control_envelope DeliveryClass.reliable_unordered (
      ControlPayload.pong (record { nonce = 7; sender_time_micros = 1; responder_time_micros = 2 }))

abbrev codec : Codec
codec = record { limits = default_limits }

-- Stands in for the frame: a size prefix and the bytes that it counts.
abbrev frame : List ℕ
frame = 8 ∷ 0 ∷ 0 ∷ 0 ∷ 1 ∷ 2 ∷ 3 ∷ 4 ∷ 5 ∷ 6 ∷ 7 ∷ 8 ∷ []

abbrev flatbuffers : Flatbuffers
flatbuffers = record {
  finish = λ wire. frame;
  has_identifier = λ bytes. true;
  root = λ bytes. ok (wire_envelope pong);
}

frame-Serialises : Serialises flatbuffers (wire_envelope pong)
unfolding size_prefix from_le_bytes
frame-Serialises = record {
  prefix = 8 ∷ 0 ∷ 0 ∷ 0 ∷ [];
  has_prefix = refl;
  prefix_len = refl;
  long_enough = omega arith;
  identified = refl;
  root_read = refl;
}

codec_made : Limits.new codec.limits ≡ ok codec
unfolding Limits.new
codec_made = refl

pong_sent : validate_outbound codec pong ≡ ok tt
unfolding validate_outbound control_envelope validate_control variable_len
pong_sent = refl

decode-encode_example :
    (bytes : List ℕ) × (encode flatbuffers codec pong ≡ ok bytes)
    × (decode flatbuffers codec bytes ≡ ok pong)
decode-encode_example =
    decode-encode flatbuffers codec pong codec_made frame-Serialises pong_sent (omega arith)

pong_decoded : decode flatbuffers codec frame ≡ ok pong
unfolding decode wire_envelope control_envelope validate_control
pong_decoded = refl

decode-exact_example :
    ((x : ℕ) (more : List ℕ)
      → decode flatbuffers codec (frame ++ x ∷ more)
        ≡ err (trailing_bytes (length frame) (length (frame ++ x ∷ more))))
    × ((start : List ℕ) (x : ℕ) (more : List ℕ)
        → frame ≡ start ++ x ∷ more
        → (expected : ℕ) × (decode flatbuffers codec start
            ≡ err (truncated_frame expected (length start))))
decode-exact_example = decode-exact flatbuffers codec frame pong pong_decoded

decode-validate_outbound_example :
    (validate_outbound codec pong ≡ ok tt) ⊎ IsOverlong codec.limits.max_payload_len pong.message
decode-validate_outbound_example =
    decode-validate_outbound flatbuffers codec frame pong pong_decoded

-- A report of progress on entity 5 in space 3 of session 2 of namespace 1.
abbrev progress : Envelope
progress = record {
  protocol_version = 1;
  delivery_class = DeliveryClass.best_effort_event;
  namespace_id = 1;
  session_id = 2;
  space_id = 3;
  channel_id = none;
  entity_id = some 5;
  space_epoch = 1;
  server_tick = 0;
  sender_sequence = 0;
  correlation_id = none;
  message = MessagePayload.control (ControlPayload.inference_progress (record { percent = 40 }));
}

progress_valid : validate progress ≡ ok tt
unfolding validate validate_control validate_inference_control
progress_valid = refl

validate-IsNested_example : IsNested progress
validate-IsNested_example = validate-IsNested progress progress_valid

progress_unreliable : is_unreliable progress.delivery_class ≡ true
unfolding is_unreliable
progress_unreliable = refl

validate-IsLossy_example : IsLossy (message_kind progress)
validate-IsLossy_example = validate-IsLossy progress progress_valid progress_unreliable
