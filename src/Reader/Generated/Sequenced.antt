-- ===== src/Reader/Generated/Sequenced.antt =====
-- Requests and responses are frames of the reader.
use farseer.Base.{
  Option, ℕ, ◌+◌, ◌*◌, ◌^◌, ◌<◌, ◌≡◌, refl, sym, ap, subst, ◌∙◌, Bool, List, ◌++◌, append_assoc,
  length, length-append, some, arith,
}
use farseer.Base.Outcome.{Outcome, ok}
use farseer.Base.Assoc.{find}
use farseer.Expected.{Expected}
use farseer.Wire.Bits.{length-bits}
use farseer.Wire.Buffer.{pack}
use farseer.Wire.Ballotin.{Ballotin, IsBallotin}
use farseer.Wire.Codec.Scalars.{unsigned_bits}
use farseer.Wire.Codec.Maps.{expected_bits, ExpectedInRange}
use farseer.Registry.{
  ProtocolRegistry, ResponseWithHeaderSerializer, request_descriptor, response_descriptor,
}
use farseer.Generated.Metadata.{Metadata, IsMetadata}
use farseer.Generated.Registration.{AnyOf, request_deserializer, response_deserializer}
use farseer.Generated.Framing.Layout.{
  body_bits, body_size, dynamic_bits, request_bits, response_bits,
}
use farseer.Generated.Framing.Request.{
  request-try_deserialize, request-try_deserialize_short, response-try_deserialize,
  response-try_deserialize_short,
}
use farseer.Reader.{ReadState, consume_request, consume_response}
use farseer.Reader.Frames.{Frame}
use farseer.Reader.Stream.{IsFrame}
use farseer.Reader.Dispatch.{read_request, read_request_none, read_response, read_response_none}
use farseer.Reader.Generated.Rounding.{
  IsRounded, body-IsRounded, dynamic-IsRounded, sequenced-IsRounded,
}
use farseer.Reader.Generated.Header.{header-IsFrame}

header_length : (i n : ℕ) → length (unsigned_bits 4 i ++ unsigned_bits 8 n) ≡ 8 * 12
header_length i n = omega (
  arith,
  length-append (unsigned_bits 4 i) (unsigned_bits 8 n),
  length-bits 32 i,
  length-bits 64 n,
)

-- The sequence number belongs to what stands behind the identifier.
behind_identifier :
    (i n : ℕ) (body : List Bool) (size : ℕ)
    → IsRounded (unsigned_bits 4 i ++ unsigned_bits 8 n) body size
    → IsRounded (unsigned_bits 4 i) (unsigned_bits 8 n ++ body) (64 + size)
behind_identifier i n body size r =
    subst (λ (k : ℕ). IsRounded (unsigned_bits 4 i) (unsigned_bits 8 n ++ body) (k + size))
      (length-bits 64 n)
      (sequenced-IsRounded (unsigned_bits 4 i) (unsigned_bits 8 n) body size 4 (length-bits 32 i) r)

module _ {Any : Type 0} {b : Ballotin} (law : IsBallotin b) (registry : ProtocolRegistry Any)
    (Keeps : ReadState Any → Type 0) {A : Type 0} {m : Metadata A} {P : A → Type 0}
    {encode : A → List Bool} (meta : IsMetadata m P encode) (n : ℕ) (small : n < 2 ^ 64) where
  -- The bytes of the frame, with the sequence number on either side.
  regroup :
      (body : List Bool) (effect : ReadState Any → ReadState Any)
      → IsFrame b registry Keeps (record {
        bytes = pack (unsigned_bits 4 m.protocol_identifier ++ (unsigned_bits 8 n ++ body));
        effect = effect;
      })
      → IsFrame b registry Keeps (record {
        bytes = pack ((unsigned_bits 4 m.protocol_identifier ++ unsigned_bits 8 n) ++ body);
        effect = effect;
      })
  regroup body effect =
      subst (λ xs. IsFrame b registry Keeps (record { bytes = pack xs; effect = effect }))
        (sym (append_assoc (unsigned_bits 4 m.protocol_identifier) (unsigned_bits 8 n) body))

  module _ (any : AnyOf Any A) (serializer : ResponseWithHeaderSerializer Any)
      (known : find m.protocol_identifier registry
        ≡ some (request_descriptor (request_deserializer b any m) serializer))
      (a : A) (r : P a) (fits : length (encode a) < 2 ^ 32) where
    abbrev pub consume : ℕ → ReadState Any → Outcome (Option ℕ) × ReadState Any
    consume =
        consume_request m.protocol_identifier
          (request_descriptor (request_deserializer b any m) serializer) n (any.to_any a)

    abbrev pub request_frame : Frame Any
    request_frame = record {
      bytes = pack (request_bits m encode n a);
      effect = λ s. (consume 0 s).1;
    }

    -- A request is a frame, as long as its consumer's answers can be serialized.
    pub request-IsFrame :
        ((s : ReadState Any) → Keeps s → Keeps (consume 0 s).1)
        → ((s : ReadState Any) (offset : ℕ)
            → Keeps s
            → consume offset s ≡ (ok (some offset), (consume 0 s).1))
        → IsFrame b registry Keeps request_frame
    unfolding request_deserializer
    request-IsFrame keeps answers =
        regroup (body_bits m encode a) (λ s. (consume 0 s).1)
          (header-IsFrame law registry Keeps m.protocol_identifier meta.identifier
            (unsigned_bits 8 n ++ body_bits m encode a) (64 + body_size m encode a)
            (λ s. (consume 0 s).1)
            (behind_identifier m.protocol_identifier n (body_bits m encode a) (body_size m encode a)
              (body-IsRounded m encode a
                (unsigned_bits 4 m.protocol_identifier ++ unsigned_bits 8 n) 12
                (header_length m.protocol_identifier n)))
            (record {
              keeps = keeps;
              whole = λ buffer start post s offset k reads e.
                  read_request b registry buffer offset m.protocol_identifier (length start) s reads
                    (request_deserializer b any m) serializer known n (any.to_any a)
                    (length start + (64 + body_size m encode a))
                    (rw (request-try_deserialize law meta a n buffer start post small r fits e)
                      refl)
                  ∙ answers s (length start + (64 + body_size m encode a)) k;
              short = λ buffer start part more s offset k reads e whole few.
                  read_request_none b registry buffer offset m.protocol_identifier (length start) s
                    reads (request_deserializer b any m) serializer known
                    (rw
                      (request-try_deserialize_short law meta a n buffer start part more small r
                        fits e whole few)
                      refl);
            }))

  module _ (any : AnyOf Any (Expected A))
      (known : find m.protocol_identifier registry
        ≡ some (response_descriptor (response_deserializer b any m)))
      (x : Expected A) (r : ExpectedInRange P x)
      (fits : length (expected_bits encode x) < 2 ^ 32) where
    abbrev pub response_frame : Frame Any
    response_frame = record {
      bytes = pack (response_bits m encode n x);
      effect = consume_response m.protocol_identifier n (any.to_any x);
    }

    -- A response is a frame, be it a success or an error.
    pub response-IsFrame :
        ((s : ReadState Any)
          → Keeps s
          → Keeps (consume_response m.protocol_identifier n (any.to_any x) s))
        → IsFrame b registry Keeps response_frame
    unfolding response_deserializer
    response-IsFrame keeps =
        let bits = expected_bits encode x in
        regroup (dynamic_bits bits) (consume_response m.protocol_identifier n (any.to_any x)) (
          header-IsFrame law registry Keeps m.protocol_identifier meta.identifier
            (unsigned_bits 8 n ++ dynamic_bits bits) (64 + (32 + length bits))
            (consume_response m.protocol_identifier n (any.to_any x))
            (behind_identifier m.protocol_identifier n (dynamic_bits bits) (32 + length bits) (
              dynamic-IsRounded (unsigned_bits 4 m.protocol_identifier ++ unsigned_bits 8 n) bits 12
                (header_length m.protocol_identifier n)))
            (record {
              keeps = keeps;
              whole = λ buffer start post s offset k reads e.
                  read_response b registry buffer offset m.protocol_identifier (length start) s
                    reads (response_deserializer b any m) known n (any.to_any x)
                    (length start + (64 + (32 + length bits)))
                    (rw (response-try_deserialize law meta x n buffer start post small r fits e)
                      (ap (λ (k : ℕ). ok (some (n, any.to_any x, k))) (omega arith)));
              short = λ buffer start part more s offset k reads e whole few.
                  read_response_none b registry buffer offset m.protocol_identifier (length start) s
                    reads (response_deserializer b any m) known
                    (rw
                      (response-try_deserialize_short law meta x n buffer start part more small r
                        fits e whole (omega arith))
                      refl);
            }))
