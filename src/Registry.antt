-- ===== src/Registry.antt =====
-- protocol_registry.hpp and protocol_registry.cpp: the descriptors of the known protocols. The mutex
-- makes each call one step, so a call is a function of the map. A null function pointer is `none`.
pub mod WellFormed
use farseer.Base.{ℕ, Bool, true, false, Option, none, some, List, [], if◌then◌else◌}
use farseer.Base.Outcome.{
  Outcome, ok, err, protocol_not_registered, protocol_identifier_already_registered,
}
use farseer.Base.Assoc.{Assoc, find, contains, insert, erase}

pub data ProtocolType : Type 0 where
  message request response : ProtocolType

-- The function pointers of common.hpp. The result of a deserializer is `none` for `false`, and the
-- protocol with the new offset otherwise.
abbrev pub MessageWithHeaderDeserializer : Type 0 → Type 0
MessageWithHeaderDeserializer Any = List ℕ → ℕ → Outcome (Option (Any × ℕ))

abbrev pub SequencedProtocolWithHeaderDeserializer : Type 0 → Type 0
SequencedProtocolWithHeaderDeserializer Any = List ℕ → ℕ → Outcome (Option (ℕ × Any × ℕ))

abbrev pub ResponseWithHeaderSerializer : Type 0 → Type 0
ResponseWithHeaderSerializer Any = Any → ℕ → List ℕ → Outcome (List ℕ)

pub record ProtocolDescriptor (Any : Type 0) : Type 0 where
  pub protocol_type : ProtocolType
  pub message_with_header_deserializer : Option (MessageWithHeaderDeserializer Any)
  pub sequenced_protocol_with_header_deserializer :
      Option (SequencedProtocolWithHeaderDeserializer Any)
  pub response_with_header_serializer : Option (ResponseWithHeaderSerializer Any)

abbrev pub ProtocolRegistry : Type 0 → Type 0
ProtocolRegistry Any = Assoc (ProtocolDescriptor Any)

module _ {Any : Type 0} where
  unfoldable pub is_protocol_registered : ℕ → ProtocolRegistry Any → Bool
  unfolding contains
  is_protocol_registered identifier registry = contains identifier registry

  unfoldable pub get_protocol_descriptor :
      ℕ → ProtocolRegistry Any → Outcome (ProtocolDescriptor Any)
  unfolding find
  get_protocol_descriptor identifier registry = elim (find identifier registry) [
    | some descriptor ↦ ok descriptor
    | none ↦ err protocol_not_registered
  ]

  unfoldable pub message_descriptor : MessageWithHeaderDeserializer Any → ProtocolDescriptor Any
  message_descriptor deserializer = record {
    protocol_type = message;
    message_with_header_deserializer = some deserializer;
    sequenced_protocol_with_header_deserializer = none;
    response_with_header_serializer = none;
  }

  unfoldable pub request_descriptor :
      SequencedProtocolWithHeaderDeserializer Any
      → ResponseWithHeaderSerializer Any
      → ProtocolDescriptor Any
  request_descriptor deserializer serializer = record {
    protocol_type = request;
    message_with_header_deserializer = none;
    sequenced_protocol_with_header_deserializer = some deserializer;
    response_with_header_serializer = some serializer;
  }

  unfoldable pub response_descriptor :
      SequencedProtocolWithHeaderDeserializer Any → ProtocolDescriptor Any
  response_descriptor deserializer = record {
    protocol_type = response;
    message_with_header_deserializer = none;
    sequenced_protocol_with_header_deserializer = some deserializer;
    response_with_header_serializer = none;
  }

  -- The outcome and the registry that the call leaves, also when it throws.
  unfoldable pub register_message_protocol :
      ℕ
      → MessageWithHeaderDeserializer Any
      → ProtocolRegistry Any
      → Outcome (Unit {0}) × ProtocolRegistry Any
  unfolding insert message_descriptor
  register_message_protocol identifier deserializer registry =
      if contains identifier registry
      then (err protocol_identifier_already_registered, registry)
      else (ok tt, insert identifier (message_descriptor deserializer) registry)

  -- The second insertion takes the first one back where it fails (SCOPE_FAILURE).
  unfoldable pub register_request_protocol :
      ℕ
      → SequencedProtocolWithHeaderDeserializer Any
      → ℕ
      → SequencedProtocolWithHeaderDeserializer Any
      → ResponseWithHeaderSerializer Any
      → ProtocolRegistry Any
      → Outcome (Unit {0}) × ProtocolRegistry Any
  unfolding insert erase request_descriptor response_descriptor
  register_request_protocol identifier deserializer response_identifier response_deserializer
        serializer registry =
      if contains identifier registry
      then (err protocol_identifier_already_registered, registry)
      else let registry' =
          insert identifier (request_descriptor deserializer serializer) registry in
        if contains response_identifier registry'
        then (err protocol_identifier_already_registered, erase identifier registry')
        else (
          ok tt,
          insert response_identifier (response_descriptor response_deserializer) registry',
        )
