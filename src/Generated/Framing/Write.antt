-- ===== src/Generated/Framing/Write.antt =====
-- serializeWithHeader appends the layout to whatever whole bytes the buffer holds.
use farseer.Base.{
  ℕ, ◌+◌, ◌*◌, ◌^◌, ◌<◌, ◌≡◌, refl, sym, ap, ap₂, ◌∙◌, Bool, true, false, List, [], ◌∷◌, ◌++◌,
  append_assoc, arith, length, All, if◌then◌else◌, append-nil, length-append,
}
use farseer.Base.Outcome.{Outcome, ok}
use farseer.Expected.{Expected}
use farseer.Wire.Bits.{bits, length-bits}
use farseer.Wire.Buffer.{
  pack, unpack, padding, unpack-pack, pack-unpack, pack-unpack-append, length-unpack, pack-IsByte,
  IsByte,
}
use farseer.Wire.Ballotin.{Ballotin, IsBallotin}
use farseer.Wire.Serializer.{unsigned_serializer, Serializer}
use farseer.Wire.Codec.Laws.{IsCodec}
use farseer.Wire.Codec.Scalars.{unsigned_bits, unsigned-IsCodec}
use farseer.Wire.Codec.Maps.{expected_bits, ExpectedInRange, expected-IsCodec}
use farseer.Generated.Metadata.{Metadata, IsMetadata, push_bytes, write_dynamic}
use farseer.Generated.Framing.Layout.{
  dynamic_bits, body_bits, message_bits, request_bits, response_bits,
}
use farseer.Generated.Message
use farseer.Generated.Request
use farseer.Generated.Response

module _ {b : Ballotin} (law : IsBallotin b) where
  push_bytes_lem :
      (bytes : List ℕ) (bs : List Bool)
      → All IsByte bytes
      → push_bytes b bytes (pack bs) (length bs)
        ≡ (pack (bs ++ unpack bytes), length (bs ++ unpack bytes))
  unfolding push_bytes unpack
  push_bytes_lem [] bs h = ap (λ xs. (pack xs, length xs)) (sym (append-nil bs))
  push_bytes_lem (x ∷ bytes) bs h =
      let step : length bs + 8 ≡ length (bs ++ bits 8 x) =
        omega (arith, length-append bs (bits 8 x), length-bits 8 x) in
      rw (law.push bs x 8 (omega arith) h.0, step)
        (push_bytes_lem bytes (bs ++ bits 8 x) h.1
          ∙ ap (λ xs. (pack xs, length xs)) (append_assoc bs (bits 8 x) (unpack bytes)))

  module _ {A : Type 0} {s : Serializer A} {P : A → Type 0} {encode : A → List Bool}
      (codec : IsCodec s P encode) where
    start : (a : A) → P a → s.serialize a [] 0 ≡ ok (pack (encode a), length (encode a))
    unfolding pack
    start a r = codec.writes a [] r

    pub write_dynamic_lem :
        (a : A) (bs : List Bool)
        → P a
        → length (encode a) < 2 ^ 32
        → write_dynamic b s a (pack bs) (length bs)
          ≡ ok (pack (bs ++ dynamic_bits (encode a)), length (bs ++ dynamic_bits (encode a)))
    unfolding write_dynamic
    write_dynamic_lem a bs r fits =
        let size = unsigned_bits 4 (length (encode a)) in
        rw
          (
            start a r,
            law.size (length (encode a)) fits,
            (unsigned-IsCodec law 4 (omega arith)).writes (length (encode a)) bs fits,
            push_bytes_lem (pack (encode a)) (bs ++ size) (pack-IsByte (encode a)),
            unpack-pack (encode a),
            append_assoc bs size (encode a ++ padding (encode a)),
          )
          refl

module _ {b : Ballotin} (law : IsBallotin b) {A : Type 0} {m : Metadata A} {P : A → Type 0}
    {encode : A → List Bool} (meta : IsMetadata m P encode) where
  -- The header is pushed behind the whole bytes of the buffer.
  write_identifier :
      (bytes : List ℕ)
      → All IsByte bytes
      → (Serializer.serialize (unsigned_serializer b 4)) m.protocol_identifier bytes
          (8 * length bytes)
        ≡ ok (
          pack (unpack bytes ++ unsigned_bits 4 m.protocol_identifier),
          length (unpack bytes ++ unsigned_bits 4 m.protocol_identifier),
        )
  write_identifier bytes h =
      ap₂ ((Serializer.serialize (unsigned_serializer b 4)) m.protocol_identifier)
        (sym (pack-unpack bytes h)) (sym (length-unpack bytes))
      ∙ (unsigned-IsCodec law 4 (omega arith)).writes m.protocol_identifier (unpack bytes)
          meta.identifier

  write_body :
      (a : A) (bs : List Bool)
      → P a
      → length (encode a) < 2 ^ 32
      → (if m.has_static_size
          then m.payload.serialize a (pack bs) (length bs)
          else write_dynamic b m.payload a (pack bs) (length bs))
        ≡ ok (pack (bs ++ body_bits m encode a), length (bs ++ body_bits m encode a))
  write_body a bs r fits =
      branch m.has_static_size (meta.codec.writes a bs r)
        (write_dynamic_lem law meta.codec a bs r fits)
    where
      branch :
          (static : Bool) {x y : Outcome (List ℕ × ℕ)}
          → x ≡ ok (pack (bs ++ encode a), length (bs ++ encode a))
          → y ≡ ok (pack (bs ++ dynamic_bits (encode a)), length (bs ++ dynamic_bits (encode a)))
          → let body = if static then encode a else dynamic_bits (encode a) in
            (if static then x else y) ≡ ok (pack (bs ++ body), length (bs ++ body))
      branch true p q = p
      branch false p q = q

  behind :
      (bytes : List ℕ) (xs ys : List Bool)
      → All IsByte bytes
      → pack ((unpack bytes ++ xs) ++ ys) ≡ bytes ++ pack (xs ++ ys)
  behind bytes xs ys h =
      ap pack (append_assoc (unpack bytes) xs ys) ∙ pack-unpack-append bytes (xs ++ ys) h

  -- On a buffer of bytes, serializeWithHeader of a message in range, whose encoding fits 32 bits of
  -- size, throws nothing and appends the identifier and the body: the fields, with their size in
  -- bits in front and zeros up to a whole byte behind where the size is not static.
  pub message-serialize_with_header :
      (a : A) (bytes : List ℕ)
      → All IsByte bytes
      → P a
      → length (encode a) < 2 ^ 32
      → Message.serialize_with_header b m a bytes ≡ ok (bytes ++ pack (message_bits m encode a))
  unfolding Message.serialize_with_header
  message-serialize_with_header a bytes h r fits =
      let id = unsigned_bits 4 m.protocol_identifier in
      rw (write_identifier bytes h, write_body a (unpack bytes ++ id) r fits)
        (ap ok (behind bytes id (body_bits m encode a) h))

  write_sequence_number :
      (n : ℕ) (bytes : List ℕ)
      → n < 2 ^ 64
      → let bs = unpack bytes ++ unsigned_bits 4 m.protocol_identifier in
        let header = unsigned_bits 4 m.protocol_identifier ++ unsigned_bits 8 n in
        Serializer.serialize (unsigned_serializer b 8) n (pack bs) (length bs)
        ≡ ok (pack (unpack bytes ++ header), length (unpack bytes ++ header))
  write_sequence_number n bytes small =
      let id = unsigned_bits 4 m.protocol_identifier in
      (unsigned-IsCodec law 8 (omega arith)).writes n (unpack bytes ++ id) small
      ∙ ap (λ xs. ok (pack xs, length xs)) (append_assoc (unpack bytes) id (unsigned_bits 8 n))

  -- On a buffer of bytes, serializeWithHeader of a request in range, whose encoding fits 32 bits of
  -- size, throws nothing and appends the identifier, the 64-bit sequence number and the body.
  pub request-serialize_with_header :
      (a : A) (n : ℕ) (bytes : List ℕ)
      → All IsByte bytes
      → n < 2 ^ 64
      → P a
      → length (encode a) < 2 ^ 32
      → Request.serialize_with_header b m a n bytes ≡ ok (bytes ++ pack (request_bits m encode n a))
  unfolding Request.serialize_with_header
  request-serialize_with_header a n bytes h small r fits =
      let header = unsigned_bits 4 m.protocol_identifier ++ unsigned_bits 8 n in
      rw
        (
          write_identifier bytes h,
          write_sequence_number n bytes small,
          write_body a (unpack bytes ++ header) r fits,
        )
        (ap ok (behind bytes header (body_bits m encode a) h))

  -- On a buffer of bytes, serializeWithHeader of a response in range, be it a success or an error,
  -- throws nothing and appends the identifier, the sequence number and the body with its size in
  -- front.
  pub response-serialize_with_header :
      (e : Expected A) (n : ℕ) (bytes : List ℕ)
      → All IsByte bytes
      → n < 2 ^ 64
      → ExpectedInRange P e
      → length (expected_bits encode e) < 2 ^ 32
      → Response.serialize_with_header b m e n bytes
        ≡ ok (bytes ++ pack (response_bits m encode n e))
  unfolding Response.serialize_with_header
  response-serialize_with_header e n bytes h small r fits =
      let header = unsigned_bits 4 m.protocol_identifier ++ unsigned_bits 8 n in
      rw
        (
          write_identifier bytes h,
          write_sequence_number n bytes small,
          write_dynamic_lem law (expected-IsCodec law meta.codec) e (unpack bytes ++ header) r fits,
        )
        (ap ok (behind bytes header (dynamic_bits (expected_bits encode e)) h))
