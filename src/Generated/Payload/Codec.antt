-- ===== src/Generated/Payload/Codec.antt =====
-- Payloads are read back: the fields of a class are written one behind the other.
use farseer.Base.{◌^◌, ap, sym, Bool, List, [], ◌++◌, length, append_assoc, append-nil, arith}
use farseer.Base.Int.{InSignedRange}
use farseer.Base.Outcome.{ok}
use farseer.Wire.Buffer.{pack}
use farseer.Wire.Ballotin.{Ballotin, IsBallotin}
use farseer.Wire.Codec.Laws.{IsCodec}
use farseer.Wire.Codec.Scalars.{
  InUnsignedRange, unsigned_bits, signed_bits, bool_bits, unsigned-IsCodec, signed-IsCodec,
  bool-IsCodec,
}
use farseer.Wire.Codec.Sequences.{
  VectorInRange, vector_bits, StringInRange, string_bits, vector-IsCodec, string-IsCodec, first_run,
  second_run,
}
use farseer.Wire.Codec.Maps.{MapInRange, map_bits, map-IsCodec}
use farseer.Generated.Payload.{
  CppKey, int32, int64, uint32, uint64, text, CppType, key, bool, vector, map, class, CppFields,
  done, field, KeyValue, Value, Values, key_order, key_serializer, serializer, payload,
}

abbrev pub KeyInRange : (k : CppKey) → KeyValue k → Type 0
KeyInRange int32 = InSignedRange (2 ^ 32)
KeyInRange int64 = InSignedRange (2 ^ 64)
KeyInRange uint32 = InUnsignedRange 4
KeyInRange uint64 = InUnsignedRange 8
KeyInRange text = StringInRange

abbrev pub key_bits : (k : CppKey) → KeyValue k → List Bool
key_bits int32 = signed_bits 4
key_bits int64 = signed_bits 8
key_bits uint32 = unsigned_bits 4
key_bits uint64 = unsigned_bits 8
key_bits text = string_bits

-- The values that the C++ type holds and the format can count.
unfoldable mutual
  unfolding Value

  pub InRange : (t : CppType) → Value t → Type 0
  InRange (key k) = KeyInRange k
  InRange bool = λ v. Unit {0}
  InRange (vector t) = VectorInRange (InRange t)
  InRange (map k t) = MapInRange ⦃order = key_order k⦄ (KeyInRange k) (InRange t)
  InRange (class name fields) = AllInRange fields

  pub AllInRange : (fields : CppFields) → Values fields → Type 0
  AllInRange done = λ vs. Unit {0}
  AllInRange (field name t fields) = λ vs. InRange t vs.0 × AllInRange fields vs.1

unfoldable mutual
  unfolding Value

  pub encode : (t : CppType) → Value t → List Bool
  encode (key k) = key_bits k
  encode bool = bool_bits
  encode (vector t) = vector_bits (encode t)
  encode (map k t) = map_bits (key_bits k) (encode t)
  encode (class name fields) = encode_fields fields

  pub encode_fields : (fields : CppFields) → Values fields → List Bool
  encode_fields done = λ vs. []
  encode_fields (field name t fields) = λ vs. encode t vs.0 ++ encode_fields fields vs.1

module _ {b : Ballotin} (law : IsBallotin b) where
  key-IsCodec : (k : CppKey) → IsCodec (key_serializer b k) (KeyInRange k) (key_bits k)
  unfolding key_serializer
  key-IsCodec int32 = signed-IsCodec law 4 (omega arith) (omega arith)
  key-IsCodec int64 = signed-IsCodec law 8 (omega arith) (omega arith)
  key-IsCodec uint32 = unsigned-IsCodec law 4 (omega arith)
  key-IsCodec uint64 = unsigned-IsCodec law 8 (omega arith)
  key-IsCodec text = string-IsCodec law

  mutual
    unfolding serializer encode InRange

    type-IsCodec : (t : CppType) → IsCodec (serializer b t) (InRange t) (encode t)
    type-IsCodec (key k) = key-IsCodec k
    type-IsCodec bool = bool-IsCodec law
    type-IsCodec (vector t) = vector-IsCodec law (type-IsCodec t)
    type-IsCodec (map k t) = map-IsCodec ⦃order = key_order k⦄ law (key-IsCodec k) (type-IsCodec t)
    type-IsCodec (class name fields) = payload-IsCodec fields

    pub payload-IsCodec :
        (fields : CppFields) → IsCodec (payload b fields) (AllInRange fields) (encode_fields fields)
    payload-IsCodec done = record {
      writes = λ vs bs r. ap (λ xs. ok (pack xs, length xs)) (sym (append-nil bs));
      reads = λ vs bytes pre post r e. ap (λ xs. ok (tt, length xs)) (sym (append-nil pre));
    }
    payload-IsCodec (field name t fields) = record {
      writes = λ vs bs r.
          let first = encode t vs.0 in
          rw
            (
              (type-IsCodec t).writes vs.0 bs r.0,
              (payload-IsCodec fields).writes vs.1 (bs ++ first) r.1,
            )
            (ap (λ xs. ok (pack xs, length xs))
              (append_assoc bs first (encode_fields fields vs.1)));
      reads = λ vs bytes pre post r e.
          let first = encode t vs.0 in
          let rest = encode_fields fields vs.1 in
          rw
            (
              (type-IsCodec t).reads vs.0 bytes pre (rest ++ post) r.0
                  (first_run pre first rest post e),
              (payload-IsCodec fields).reads vs.1 bytes (pre ++ first) post r.1
                  (second_run pre first rest post e),
            )
            (ap (λ xs. ok (vs, length xs)) (append_assoc pre first rest));
    }

  -- Whatever its type, nested classes included, a value in range is written as its encoding and read
  -- back from where the encoding stands.
  pub serializer-IsCodec : (t : CppType) → IsCodec (serializer b t) (InRange t) (encode t)
  serializer-IsCodec t = type-IsCodec t
