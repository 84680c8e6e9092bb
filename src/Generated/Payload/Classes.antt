-- ===== src/Generated/Payload/Classes.antt =====
-- The Metadata of the classes that a protocol file defines.
use farseer.Base.{◌^◌, ◌<◌, ◌≡◌, sym, ◌∙◌, true, length}
use farseer.Base.Chars.{Chars}
use farseer.Definition.{
  MessageProtocolDefinition, RequestProtocolDefinition, all_static, sum_static,
  message_has_static_size, message_static_number_of_bits, request_has_static_size,
  request_static_number_of_bits, response_has_static_size, response_static_number_of_bits,
}
use farseer.Definition.Hash.{Hashing, message_hash_code, request_hash_code, response_hash_code}
use farseer.Wire.Ballotin.{Ballotin, IsBallotin}
use farseer.Generated.Metadata.{Metadata, IsMetadata}
use farseer.Generated.Payload.{CppFields, Values, field_definitions, payload}
use farseer.Generated.Payload.Codec.{AllInRange, encode_fields, payload-IsCodec}
use farseer.Generated.Payload.Sizes.{AllFit, sum_static-total, fields_static}

module _ (b : Ballotin) (space name : Chars) where
  unfoldable pub message_definition_of : CppFields → MessageProtocolDefinition
  unfolding field_definitions
  message_definition_of fields = record {
    file_namespace = space;
    name = name;
    fields = field_definitions b fields;
  }

  unfoldable pub request_definition_of : CppFields → CppFields → RequestProtocolDefinition
  unfolding field_definitions
  request_definition_of fields answers = record {
    file_namespace = space;
    name = name;
    request_fields = field_definitions b fields;
    response_fields = field_definitions b answers;
  }

module _ (b : Ballotin) (h : Hashing) (space name : Chars) where
  -- generateMessages and generateMessageMetadataDefinition
  unfoldable pub message_metadata : (fields : CppFields) → Metadata (Values fields)
  unfolding message_definition_of message_hash_code message_has_static_size
      message_static_number_of_bits payload
  message_metadata fields =
      let d = message_definition_of b space name fields in
      record {
        protocol_identifier = message_hash_code h d;
        payload = payload b fields;
        has_static_size = message_has_static_size d;
        static_number_of_bits = message_static_number_of_bits b d;
      }

  -- generateRequests and generateRequestMetadataDefinition
  unfoldable pub request_metadata : (fields answers : CppFields) → Metadata (Values fields)
  unfolding request_definition_of request_hash_code request_has_static_size
      request_static_number_of_bits payload
  request_metadata fields answers =
      let d = request_definition_of b space name fields answers in
      record {
        protocol_identifier = request_hash_code h d;
        payload = payload b fields;
        has_static_size = request_has_static_size d;
        static_number_of_bits = request_static_number_of_bits b d;
      }

  unfoldable pub response_metadata : (fields answers : CppFields) → Metadata (Values answers)
  unfolding request_definition_of response_hash_code response_has_static_size
      response_static_number_of_bits payload
  response_metadata fields answers =
      let d = request_definition_of b space name fields answers in
      record {
        protocol_identifier = response_hash_code h d;
        payload = payload b answers;
        has_static_size = response_has_static_size d;
        static_number_of_bits = response_static_number_of_bits b d;
      }

  module _ (law : IsBallotin b) where
    size_counted :
        (fields : CppFields) (vs : Values fields)
        → AllFit b fields
        → all_static (field_definitions b fields) ≡ true
        → length (encode_fields fields vs) ≡ sum_static b 0 (field_definitions b fields)
    size_counted fields vs fit static =
        fields_static law fields vs fit static ∙ sym (sum_static-total law fields fit)

    -- The class of a message whose hash code is a uint32_t and whose static bits can be counted keeps
    -- what its users rely on: its fields are read back as they were written, and where its size is
    -- static, every value takes that many bits.
    pub message_metadata-IsMetadata :
        (fields : CppFields)
        → AllFit b fields
        → message_hash_code h (message_definition_of b space name fields) < 2 ^ 32
        → IsMetadata (message_metadata fields) (AllInRange fields) (encode_fields fields)
    unfolding message_metadata
    message_metadata-IsMetadata fields fit small = record {
      identifier = small;
      codec = payload-IsCodec law fields;
      static_size = λ vs r static. size_counted fields vs fit static;
    }

    pub request_metadata-IsMetadata :
        (fields answers : CppFields)
        → AllFit b fields
        → request_hash_code h (request_definition_of b space name fields answers) < 2 ^ 32
        → IsMetadata (request_metadata fields answers) (AllInRange fields) (encode_fields fields)
    unfolding request_metadata
    request_metadata-IsMetadata fields answers fit small = record {
      identifier = small;
      codec = payload-IsCodec law fields;
      static_size = λ vs r static. size_counted fields vs fit static;
    }

    pub response_metadata-IsMetadata :
        (fields answers : CppFields)
        → AllFit b answers
        → response_hash_code h (request_definition_of b space name fields answers) < 2 ^ 32
        → IsMetadata (response_metadata fields answers) (AllInRange answers) (encode_fields answers)
    unfolding response_metadata
    response_metadata-IsMetadata fields answers fit small = record {
      identifier = small;
      codec = payload-IsCodec law answers;
      static_size = λ vs r static. size_counted answers vs fit static;
    }
