-- ===== src/Samples/Files.antt =====
-- Definitions, their parsing and their validation on a small protocol file.
use farseer.Base.Int.{pos}
use farseer.Base.{List, ◌<◌, ◌+◌, ◌*◌, ◌%◌, ◌^◌, ◌≡◌, refl, true, false, [], ◌∷◌, length, arith}
use farseer.Base.Outcome.{ok, ◌>>=◌}
use farseer.Base.Chars.{member, same_chars}
use farseer.Definition.{
  MessageProtocolDefinition, from_list, from_message, type_definition, i32, i64, no_subtypes,
  ProtocolDefinition,
}
use farseer.Definition.Hash.{Hashing, message_hash_code, message_hash_code_coarse}
use farseer.Wire.Ballotin.{list_ballotin, list_ballotin-IsBallotin}
use farseer.Wire.Codec.Laws.{IsCodec}
use farseer.Generated.Metadata.{IsMetadata}
use farseer.Generated.Payload.{
  field_definitions, int32, text, key, bool, vector, map, class, CppType, CppFields, done, field,
  definition, serializer, Value,
}
use farseer.Generated.Payload.Codec.{InRange, AllInRange, encode, encode_fields, serializer-IsCodec}
use farseer.Generated.Payload.Sizes.{encode_static, AllFit, Fits, total_size}
use farseer.Generated.Payload.Classes.{
  message_metadata, message_definition_of, message_metadata-IsMetadata,
}
use farseer.Validation.{validate_protocol_definition}
use farseer.Validation.Accepts.{is_ok, protocol_defined, validate_protocol_definition_lem}
use farseer.Parsing.Protocols.{
  parse_protocol_definition_builds, ProtocolClasses, message_class, request_classes, AllCanWrite,
  definitions_of, empty_protocol, file_of,
}
use farseer.Parsing.Classes.{IsClass}
use farseer.Parsing.{is_reserved, find_message, parse_protocol_definition}
use farseer.Parsing.Syntax.{
  simple, int64, uint32, list_of, named, message_item, request_item, FileSyntax, file_nodes,
  file_meaning,
}
use farseer.Parsing.Run.{parse_protocol_definition_lem}

abbrev hashing : Hashing
hashing = record {
  hash_code_type = λ kind. 17;
  hash_code_string = λ name. length name;
  hash_combine = λ m n. (31 * m + n) % 2 ^ 32;
}

-- struct A { int32_t a; bool b; };
abbrev plain : CppFields
plain = field (97 ∷ []) (key int32) (field (98 ∷ []) bool done)

abbrev nested : CppType
nested = class (65 ∷ []) plain

-- list<i32> and list<i64>
message_hash_code_coarse_example :
    message_hash_code hashing (record {
      file_namespace = 110 ∷ [];
      name = 65 ∷ [];
      fields =
          record {
            definition = from_list (type_definition i32 [] no_subtypes true 32);
            name = 97 ∷ [];
          }
          ∷ [];
    })
    ≡ message_hash_code hashing (record {
      file_namespace = 110 ∷ [];
      name = 65 ∷ [];
      fields =
          record {
            definition = from_list (type_definition i64 [] no_subtypes true 64);
            name = 97 ∷ [];
          }
          ∷ [];
    })
unfolding from_list
message_hash_code_coarse_example =
    message_hash_code_coarse hashing (110 ∷ []) (65 ∷ [])
      (record {
        definition = from_list (type_definition i32 [] no_subtypes true 32);
        name = 97 ∷ [];
      }
        ∷ [])
      (record {
        definition = from_list (type_definition i64 [] no_subtypes true 64);
        name = 97 ∷ [];
      }
        ∷ [])
      (refl, refl, tt)

-- std::vector of a class with a map
serializer-IsCodec_example :
    IsCodec
      (serializer list_ballotin (vector (class (66 ∷ []) (field (97 ∷ []) (map text bool) done))))
      (InRange (vector (class (66 ∷ []) (field (97 ∷ []) (map text bool) done))))
      (encode (vector (class (66 ∷ []) (field (97 ∷ []) (map text bool) done))))
serializer-IsCodec_example =
    serializer-IsCodec list_ballotin-IsBallotin
      (vector (class (66 ∷ []) (field (97 ∷ []) (map text bool) done)))

plain-AllFit : AllFit list_ballotin plain
unfolding AllFit total_size field_definitions
plain-AllFit = ground arith

nested-Fits : Fits list_ballotin nested
unfolding Fits
nested-Fits = plain-AllFit

unfoldable nested_value : Value nested
unfolding Value
nested_value = (pos 5, (true, tt))

encode_static_example : length (encode nested nested_value) ≡ 33
unfolding definition
encode_static_example = encode_static list_ballotin-IsBallotin nested nested_value nested-Fits refl

hash_code-lt :
    message_hash_code hashing (message_definition_of list_ballotin (110 ∷ []) (65 ∷ []) plain)
    < 2 ^ 32
unfolding message_hash_code message_definition_of
hash_code-lt = omega arith

message_metadata-IsMetadata_example :
    IsMetadata
      (message_metadata list_ballotin hashing (110 ∷ []) (65 ∷ []) plain)
      (AllInRange plain)
      (encode_fields plain)
message_metadata-IsMetadata_example =
    message_metadata-IsMetadata list_ballotin hashing (110 ∷ []) (65 ∷ []) list_ballotin-IsBallotin
      plain plain-AllFit hash_code-lt

-- namespace n.m; message A { i64 a; } request R { list<A> b; response { u32 c; } }
abbrev file : FileSyntax
file = record {
  namespace = 110 ∷ 46 ∷ 109 ∷ [];
  items =
      message_item (65 ∷ []) ((simple int64, 97 ∷ []) ∷ [])
      ∷ request_item (82 ∷ []) ((list_of (named (65 ∷ [])), 98 ∷ []) ∷ [])
          ((simple uint32, 99 ∷ []) ∷ [])
      ∷ [];
}

parse_protocol_definition_lem_example :
    parse_protocol_definition list_ballotin (λ source. ok (file_nodes file)) [] ≡ (
      file_meaning list_ballotin file >>= λ protocol.
      validate_protocol_definition protocol >>= λ _. ok protocol)
parse_protocol_definition_lem_example =
    parse_protocol_definition_lem list_ballotin (λ source. ok (file_nodes file)) [] file refl

-- A message that refers to itself.
abbrev recursive : ProtocolDefinition
recursive = record {
  file_namespace = [];
  messages =
      record {
        file_namespace = [];
        name = 65 ∷ [];
        fields =
            record { definition = from_list (from_message (65 ∷ []) true 0); name = 97 ∷ [] } ∷ [];
      }
      ∷ [];
  requests = [];
}

validate_protocol_definition_lem_example : is_ok (validate_protocol_definition recursive) ≡ false
unfolding protocol_defined from_list from_message member same_chars
validate_protocol_definition_lem_example = validate_protocol_definition_lem recursive

-- list<A> x;
abbrev referring : CppFields
referring = field (120 ∷ []) (vector nested) done

-- message A { i32 a; bool b; } message B { list<A> x; } and a request C of these fields.
abbrev classes : List ProtocolClasses
classes =
    message_class (65 ∷ []) plain
    ∷ message_class (66 ∷ []) referring
    ∷ request_classes (67 ∷ []) referring plain
    ∷ []

plain-IsClass :
    (others : List MessageProtocolDefinition)
    → IsClass list_ballotin
        (message_definition_of list_ballotin (110 ∷ []) (65 ∷ []) plain ∷ others)
        (65 ∷ [])
        plain
unfolding is_reserved member same_chars find_message message_definition_of
plain-IsClass others = record {
  free = refl;
  message = message_definition_of list_ballotin (110 ∷ []) (65 ∷ []) plain;
  found = refl;
  same = refl;
}

classes-AllCanWrite : AllCanWrite list_ballotin classes (empty_protocol (110 ∷ []))
unfolding is_reserved member same_chars
classes-AllCanWrite = (
  (refl, (refl, tt, (refl, tt, tt))),
  (
    (refl, (refl, plain-IsClass [], tt)),
    ((refl, (refl, plain-IsClass _, tt), (refl, tt, (refl, tt, tt))), tt),
  ),
)

parse_protocol_definition_builds_example :
    let built = definitions_of list_ballotin classes (empty_protocol (110 ∷ [])) in
    parse_protocol_definition list_ballotin
      (λ source. ok (file_nodes (file_of (110 ∷ []) classes)))
      []
    ≡ (validate_protocol_definition built >>= λ _. ok built)
parse_protocol_definition_builds_example =
    parse_protocol_definition_builds list_ballotin
      (λ source. ok (file_nodes (file_of (110 ∷ []) classes))) [] (110 ∷ []) classes refl
      classes-AllCanWrite
