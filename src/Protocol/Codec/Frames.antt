-- ===== src/Protocol/Codec/Frames.antt =====
-- `Codec::encode` and `Codec::decode` of crates/woven-protocol/src/codec.rs on whole frames.
use signalweave.Prelude.{
  ℕ, ◌+◌, ◌≤◌, ◌<◌, ◌≡◌, refl, sym, true, false, some, List, length, ok, arith, ltb,
}
use signalweave.Ids.{u64_mod, u32_mod}
use signalweave.Protocol.Model.{Envelope, saturating_add}
use signalweave.Protocol.Wire.{WireEnvelope}
use signalweave.Protocol.Limits.{
  Codec, new, new_limits, min_frame_len, min_encoded_len, size_prefix_len, enforce_frame_limit,
}
use signalweave.Protocol.Codec.{
  Flatbuffers, prefixed_len, size_prefix, from_le_bytes, frame_len_of, expected_frame_len,
  validate_outbound, wire_envelope, encode, decode, decode_verified,
}
use signalweave.Protocol.Codec.RoundTrip.{decode_verified-wire_envelope}

-- A finished buffer starts with the length of the bytes that follow, carries the identifier, and
-- its root shows the tables that were written.
pub record Serialises (flatbuffers : Flatbuffers) (wire : WireEnvelope) : Type 0 where
  pub prefix : List ℕ
  pub has_prefix : size_prefix (flatbuffers.finish wire) ≡ some prefix
  pub prefix_len : from_le_bytes prefix + size_prefix_len ≡ length (flatbuffers.finish wire)
  pub long_enough : min_frame_len ≤ length (flatbuffers.finish wire)
  pub identified : flatbuffers.has_identifier (flatbuffers.finish wire) ≡ true
  pub root_read : flatbuffers.root (flatbuffers.finish wire) ≡ ok wire

ltb_irrefl : (n : ℕ) → ltb n n ≡ false
ltb_irrefl n = ground arith

new-bounds :
    (codec : Codec)
    → new codec.limits ≡ ok codec
    → (codec.limits.max_frame_len < u32_mod + 4)
      × (codec.limits.max_payload_len ≤ codec.limits.max_frame_len)
unfolding new new_limits saturating_add
new-bounds codec made = ground (arith, made)

frame_len_of-ok :
    (codec : Codec) (n : ℕ)
    → min_encoded_len ≤ n
    → n + size_prefix_len < u64_mod
    → n + size_prefix_len ≤ codec.limits.max_frame_len
    → frame_len_of codec n ≡ ok (some (n + size_prefix_len))
unfolding frame_len_of saturating_add
frame_len_of-ok codec n enough small fits = ground arith

expected_frame_len-finish :
    (flatbuffers : Flatbuffers) (codec : Codec) (wire : WireEnvelope)
    → new codec.limits ≡ ok codec
    → Serialises flatbuffers wire
    → length (flatbuffers.finish wire) ≤ codec.limits.max_frame_len
    → expected_frame_len codec (flatbuffers.finish wire)
      ≡ ok (some (length (flatbuffers.finish wire)))
unfolding expected_frame_len prefixed_len
expected_frame_len-finish flatbuffers codec wire made writes fits =
    let bounds = new-bounds codec made in
    rw (writes.has_prefix, sym writes.prefix_len)
      (frame_len_of-ok codec (from_le_bytes writes.prefix)
        (omega (arith, writes.prefix_len, writes.long_enough))
        (omega (arith, writes.prefix_len, bounds.0, fits)) (omega (arith, writes.prefix_len, fits)))

enforce_frame_limit-ok :
    (codec : Codec) (n : ℕ) → n ≤ codec.limits.max_frame_len → enforce_frame_limit codec n ≡ ok tt
unfolding enforce_frame_limit
enforce_frame_limit-ok codec n fits = ground arith

decode-finish :
    (flatbuffers : Flatbuffers) (codec : Codec) (wire : WireEnvelope)
    → Serialises flatbuffers wire
    → expected_frame_len codec (flatbuffers.finish wire)
      ≡ ok (some (length (flatbuffers.finish wire)))
    → decode flatbuffers codec (flatbuffers.finish wire) ≡ decode_verified codec wire
unfolding decode
decode-finish flatbuffers codec wire writes exact =
    rw (exact, ltb_irrefl (length (flatbuffers.finish wire)), writes.identified, writes.root_read)
      refl

-- An envelope that the codec may send, and whose frame keeps the limit, is encoded into a frame, and decoding that
-- frame gives the same envelope back.
pub decode-encode :
    (flatbuffers : Flatbuffers) (codec : Codec) (envelope : Envelope)
    → new codec.limits ≡ ok codec
    → Serialises flatbuffers (wire_envelope envelope)
    → validate_outbound codec envelope ≡ ok tt
    → length (flatbuffers.finish (wire_envelope envelope)) ≤ codec.limits.max_frame_len
    → (frame : List ℕ) × (encode flatbuffers codec envelope ≡ ok frame)
      × (decode flatbuffers codec frame ≡ ok envelope)
unfolding encode
decode-encode flatbuffers codec envelope made writes valid fits =
    let wire = wire_envelope envelope in
    let exact = expected_frame_len-finish flatbuffers codec wire made writes fits in
    let bounds = new-bounds codec made in
    (
      flatbuffers.finish wire,
      rw (valid, enforce_frame_limit-ok codec (length (flatbuffers.finish wire)) fits) refl,
      rw (decode-finish flatbuffers codec wire writes exact)
          (decode_verified-wire_envelope codec (omega (arith, bounds.0, bounds.1)) envelope valid),
    )
