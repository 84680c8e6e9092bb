-- ===== src/Generated/Payload.antt =====
-- The C++ types of fields, and serializeHeaderless and deserializeHeaderless of a class by its fields.
-- cpp_protocol.cpp, generateMessageMetadataDefinition and generateRequestMetadataDefinition, with
-- getCppType of protocol_definition.cpp
pub mod Codec
pub mod Sizes
pub mod Classes
pub mod Advance
use farseer.Base.{ℕ, ◌+◌, ◌^◌, ◌<◌, Bool, true, false, List, [], ◌∷◌, ◌++◌}
use farseer.Base.Int.{ℤ, InSignedRange}
use farseer.Base.Outcome.{ok, ◌>>=◌}
use farseer.Base.Chars.{Chars}
use farseer.Definition.{
  i32, i64, u32, u64, string, boolean, TypeDefinition, type_definition, no_subtypes, from_message,
  from_list, from_map, FieldDefinition, all_static, sum_static,
}
use farseer.Wire.Ballotin.{Ballotin}
use farseer.Wire.Ordered.{KeyOrder, OrderedMap, ℕ_order, ℤ_order, chars_order}
use farseer.Wire.Serializer.{
  Serializer, unsigned_serializer, signed_serializer, bool_serializer, string_serializer,
  vector_serializer, map_serializer,
}

-- The types that can be the key of a map.
pub data CppKey : Type 0 where
  int32 int64 uint32 uint64 text : CppKey

mutual
  pub data CppType : Type 0 where
    key : CppKey → CppType
    bool : CppType
    vector : CppType → CppType
    map : CppKey → CppType → CppType
    class : Chars → CppFields → CppType

  pub data CppFields : Type 0 where
    done : CppFields
    field : Chars → CppType → CppFields → CppFields

abbrev pub KeyValue : CppKey → Type 0
KeyValue int32 = ℤ
KeyValue int64 = ℤ
KeyValue uint32 = ℕ
KeyValue uint64 = ℕ
KeyValue text = Chars

-- The values of a type; a class is the tuple of its fields.
unfoldable mutual
  pub Value : CppType → Type 0
  Value (key k) = KeyValue k
  Value bool = Bool
  Value (vector t) = List (Value t)
  Value (map k t) = OrderedMap (KeyValue k) (Value t)
  Value (class name fields) = Values fields

  pub Values : CppFields → Type 0
  Values done = Unit {0}
  Values (field name t fields) = Value t × Values fields

abbrev pub key_order : (k : CppKey) → KeyOrder (KeyValue k)
key_order int32 = ℤ_order
key_order int64 = ℤ_order
key_order uint32 = ℕ_order
key_order uint64 = ℕ_order
key_order text = chars_order

-- The definitions of the types, as the parser builds them.
unfoldable pub key_definition : CppKey → TypeDefinition
key_definition int32 = type_definition i32 [] no_subtypes true 32
key_definition int64 = type_definition i64 [] no_subtypes true 64
key_definition uint32 = type_definition u32 [] no_subtypes true 32
key_definition uint64 = type_definition u64 [] no_subtypes true 64
key_definition text = type_definition string [] no_subtypes false 0

module _ (b : Ballotin) where
  unfoldable mutual
    unfolding key_definition from_message from_list from_map all_static sum_static

    pub definition : CppType → TypeDefinition
    definition (key k) = key_definition k
    definition bool = type_definition boolean [] no_subtypes true 1
    definition (vector t) = from_list (definition t)
    definition (map k t) = from_map (key_definition k) (definition t)
    definition (class name fields) =
        let fs = field_definitions fields in from_message name (all_static fs) (sum_static b 0 fs)

    pub field_definitions : CppFields → List FieldDefinition
    field_definitions done = []
    field_definitions (field name t fields) =
        record { definition = definition t; name = name } ∷ field_definitions fields

  unfoldable pub key_serializer : (k : CppKey) → Serializer (KeyValue k)
  unfolding unsigned_serializer signed_serializer string_serializer
  key_serializer int32 = signed_serializer b 4
  key_serializer int64 = signed_serializer b 8
  key_serializer uint32 = unsigned_serializer b 4
  key_serializer uint64 = unsigned_serializer b 8
  key_serializer text = string_serializer b

  -- `payload` is the pair of serializeHeaderless and deserializeHeaderless.
  unfoldable mutual
    unfolding Value key_serializer bool_serializer vector_serializer map_serializer

    pub serializer : (t : CppType) → Serializer (Value t)
    serializer (key k) = key_serializer k
    serializer bool = bool_serializer b
    serializer (vector t) = vector_serializer b (serializer t)
    serializer (map k t) = map_serializer b ⦃order = key_order k⦄ (key_serializer k) (serializer t)
    serializer (class name fields) = payload fields

    pub payload : (fields : CppFields) → Serializer (Values fields)
    payload done = record {
      serialize = λ _ bytes offset. ok (bytes, offset);
      deserialize = λ bytes offset. ok (tt, offset);
    }
    payload (field name t fields) = record {
      serialize = λ vs bytes offset. do
        (bytes', offset') ← (serializer t).serialize vs.0 bytes offset
        (payload fields).serialize vs.1 bytes' offset';
      deserialize = λ bytes offset. do
        (v, offset') ← (serializer t).deserialize bytes offset
        (vs, offset'') ← (payload fields).deserialize bytes offset'
        ok ((v, vs), offset'');
    }
