-- ===== src/Protocol/Codec/Framing.antt =====
-- `Codec::decode` of crates/woven-protocol/src/codec.rs on frames that are too short or too long.
use signalweave.Prelude.{
  ℕ, ◌≤◌, ◌<◌, ◌≡◌, ◌⊎◌, inl, inr, refl, sym, true, false, not, Option, none, some, List, [], ◌∷◌,
  ◌++◌, length, length-append, Result, ok, err, panic, String, >>=-eq-ok, then_eq_ok, arith, ltb,
  fail_if, ok_or, map_err,
}
use signalweave.Protocol.Model.{Envelope}
use signalweave.Protocol.Wire.{WireEnvelope}
use signalweave.Protocol.Limits.{
  Codec, CodecError, size_prefix_len, truncated_frame, trailing_bytes, invalid_file_identifier,
  invalid_flatbuffer,
}
use signalweave.Protocol.Codec.{
  Flatbuffers, prefixed_len, size_prefix, expected_frame_len, decode, decode_verified,
}

exact_len :
    (found : Result CodecError (Option ℕ)) (prefix : Option ℕ) (expected actual : ℕ)
    (e f g : CodecError)
    → found ≡ ok prefix
    → ok_or prefix e ≡ ok expected
    → fail_if (ltb actual expected) f ≡ ok tt
    → fail_if (ltb expected actual) g ≡ ok tt
    → found ≡ ok (some actual)
exact_len found none expected actual e f g is given long short = cc
exact_len found (some n) expected actual e f g is given long short =
    ground (arith, is, given, long, short)

map_err-ok :
    (found : Result String WireEnvelope) (wire : WireEnvelope)
    → map_err invalid_flatbuffer found ≡ ok wire
    → found ≡ ok wire
map_err-ok (ok other) wire is = ground (arith, is)
map_err-ok (err e) wire is = cc
map_err-ok panic wire is = cc

-- What a frame that is decoded has passed.
pub decode-passed :
    (flatbuffers : Flatbuffers) (codec : Codec) (frame : List ℕ) (envelope : Envelope)
    → decode flatbuffers codec frame ≡ ok envelope
    → (expected_frame_len codec frame ≡ ok (some (length frame)))
      × (flatbuffers.has_identifier frame ≡ true)
      × ((wire : WireEnvelope) × (flatbuffers.root frame ≡ ok wire)
          × (decode_verified codec wire ≡ ok envelope))
unfolding decode
decode-passed flatbuffers codec frame envelope decodes =
    let first = >>=-eq-ok (expected_frame_len codec frame) _ decodes in
    let second =
      >>=-eq-ok (ok_or first.0 (truncated_frame size_prefix_len (length frame))) _ first.2 in
    let long =
      then_eq_ok (fail_if (ltb (length frame) second.0) (truncated_frame second.0 (length frame))) _
        second.2 in
    let short =
      then_eq_ok (fail_if (ltb second.0 (length frame)) (trailing_bytes second.0 (length frame))) _
        long.1 in
    let named =
      then_eq_ok (fail_if (not (flatbuffers.has_identifier frame)) invalid_file_identifier) _
        short.1 in
    let shown = >>=-eq-ok (map_err invalid_flatbuffer (flatbuffers.root frame)) _ named.1 in
    (
      exact_len (expected_frame_len codec frame) first.0 second.0 (length frame) _ _ _ first.1
          second.1 long.0 short.0,
      ground (arith, named.0),
      (shown.0, map_err-ok (flatbuffers.root frame) shown.0 shown.1, shown.2),
    )

module _ (codec : Codec) where
  prefixed_len-some :
      (prefix : Option (List ℕ)) (n : ℕ)
      → prefixed_len codec prefix ≡ ok (some n)
      → (bytes : List ℕ) × (prefix ≡ some bytes)
  unfolding prefixed_len
  prefixed_len-some none n found = cc
  prefixed_len-some (some bytes) n found = (bytes, refl)

  size_prefix-append :
      (frame more : List ℕ) (bytes : List ℕ)
      → size_prefix frame ≡ some bytes
      → size_prefix (frame ++ more) ≡ some bytes
  unfolding size_prefix
  size_prefix-append [] more bytes found = cc
  size_prefix-append (a ∷ []) more bytes found = cc
  size_prefix-append (a ∷ b ∷ []) more bytes found = cc
  size_prefix-append (a ∷ b ∷ c ∷ []) more bytes found = cc
  size_prefix-append (a ∷ b ∷ c ∷ d ∷ frame) more bytes found = found

  size_prefix-prefix :
      (start more : List ℕ) (bytes : List ℕ)
      → size_prefix (start ++ more) ≡ some bytes
      → ((size_prefix start ≡ none) × (length start < size_prefix_len))
        ⊎ (size_prefix start ≡ some bytes)
  unfolding size_prefix
  size_prefix-prefix [] more bytes found = inl (refl, omega arith)
  size_prefix-prefix (a ∷ []) more bytes found = inl (refl, omega arith)
  size_prefix-prefix (a ∷ b ∷ []) more bytes found = inl (refl, omega arith)
  size_prefix-prefix (a ∷ b ∷ c ∷ []) more bytes found = inl (refl, omega arith)
  size_prefix-prefix (a ∷ b ∷ c ∷ d ∷ start) more bytes found = inr found

  prefixed_len-same :
      (p q : Option (List ℕ)) {bytes : List ℕ} {found : Result CodecError (Option ℕ)}
      → p ≡ some bytes
      → q ≡ some bytes
      → prefixed_len codec p ≡ found
      → prefixed_len codec q ≡ found
  prefixed_len-same p q is_p is_q h = cc

  prefixed_len-none : (p : Option (List ℕ)) → p ≡ none → prefixed_len codec p ≡ ok none
  unfolding prefixed_len
  prefixed_len-none p is = rw is refl

  expected_frame_len-append :
      (frame more : List ℕ) (n : ℕ)
      → expected_frame_len codec frame ≡ ok (some n)
      → expected_frame_len codec (frame ++ more) ≡ ok (some n)
  unfolding expected_frame_len
  expected_frame_len-append frame more n found =
      let bytes = prefixed_len-some (size_prefix frame) n found in
      prefixed_len-same (size_prefix frame) (size_prefix (frame ++ more)) bytes.1
        (size_prefix-append frame more bytes.0 bytes.1) found

  expected_frame_len-prefix :
      (start more : List ℕ) (n : ℕ)
      → expected_frame_len codec (start ++ more) ≡ ok (some n)
      → ((expected_frame_len codec start ≡ ok none) × (length start < size_prefix_len))
        ⊎ (expected_frame_len codec start ≡ ok (some n))
  unfolding expected_frame_len
  expected_frame_len-prefix start more n found =
      let bytes = prefixed_len-some (size_prefix (start ++ more)) n found in
      elim (size_prefix-prefix start more bytes.0 bytes.1) [
        | inl short ↦ inl (prefixed_len-none (size_prefix start) short.0, short.1)
        | inr enough ↦ inr (
            prefixed_len-same (size_prefix (start ++ more)) (size_prefix start) bytes.1 enough
              found)
      ]

length-more : (start : List ℕ) (x : ℕ) (more : List ℕ) → length start < length (start ++ x ∷ more)
length-more start x more = omega (arith, length-append start (x ∷ more))

lt→ltb : (a b : ℕ) → a < b → ltb a b ≡ true
lt→ltb a b h = ground arith

le→ltb : (a b : ℕ) → b ≤ a → ltb a b ≡ false
le→ltb a b h = ground arith

decode-long :
    (flatbuffers : Flatbuffers) (codec : Codec) (frame : List ℕ) (n : ℕ)
    → expected_frame_len codec frame ≡ ok (some n)
    → n < length frame
    → decode flatbuffers codec frame ≡ err (trailing_bytes n (length frame))
unfolding decode
decode-long flatbuffers codec frame n expected long =
    rw (expected, le→ltb (length frame) n (omega (arith, long)), lt→ltb n (length frame) long) refl

decode-short :
    (flatbuffers : Flatbuffers) (codec : Codec) (frame : List ℕ) (n : ℕ)
    → expected_frame_len codec frame ≡ ok (some n)
    → length frame < n
    → decode flatbuffers codec frame ≡ err (truncated_frame n (length frame))
unfolding decode
decode-short flatbuffers codec frame n expected short =
    rw (expected, lt→ltb (length frame) n short) refl

decode-unprefixed :
    (flatbuffers : Flatbuffers) (codec : Codec) (frame : List ℕ)
    → expected_frame_len codec frame ≡ ok none
    → decode flatbuffers codec frame ≡ err (truncated_frame size_prefix_len (length frame))
unfolding decode
decode-unprefixed flatbuffers codec frame expected = rw expected refl

-- Frames delimit themselves. If a frame is decoded, the same bytes with more behind them are refused as trailing bytes,
-- and every proper beginning of it is refused as truncated, whatever the buffer's reader does with it.
pub decode-exact :
    (flatbuffers : Flatbuffers) (codec : Codec) (frame : List ℕ) (envelope : Envelope)
    → decode flatbuffers codec frame ≡ ok envelope
    → ((x : ℕ) (more : List ℕ)
        → decode flatbuffers codec (frame ++ x ∷ more)
          ≡ err (trailing_bytes (length frame) (length (frame ++ x ∷ more))))
      × ((start : List ℕ) (x : ℕ) (more : List ℕ)
          → frame ≡ start ++ x ∷ more
          → (expected : ℕ) × (decode flatbuffers codec start
              ≡ err (truncated_frame expected (length start))))
unfolding decode
decode-exact flatbuffers codec frame envelope decodes =
    let exact = (decode-passed flatbuffers codec frame envelope decodes).0 in
    (
      λ x more.
          decode-long flatbuffers codec (frame ++ x ∷ more) (length frame)
            (expected_frame_len-append codec frame (x ∷ more) (length frame) exact)
            (length-more frame x more),
      λ start x more is.
          elim (expected_frame_len-prefix codec start (x ∷ more) (length frame)
            (rw (sym is) exact)) [
              | inl short ↦ (size_prefix_len, decode-unprefixed flatbuffers codec start short.0)
              | inr enough ↦ (
                length frame,
                decode-short flatbuffers codec start (length frame) enough
                    (rw is (length-more start x more)),
              )
            ],
    )
