-- ===== src/Generated/Registration.antt =====
-- The registration of generated protocols: registerMessageProtocol<Message> and
-- registerRequestProtocol<Request> of protocol_registry.hpp. A std::any is a value of a type `Any`,
-- with a conversion from each class and a cast back that may fail.
use farseer.Base.{◌≡◌, Option, none, some}
use farseer.Base.Outcome.{Outcome, ok, err, conversion_error, ◌>>=◌}
use farseer.Expected.{Expected}
use farseer.Wire.Ballotin.{Ballotin}
use farseer.Registry.{
  ProtocolRegistry, MessageWithHeaderDeserializer, SequencedProtocolWithHeaderDeserializer,
  ResponseWithHeaderSerializer, register_message_protocol, register_request_protocol,
}
use farseer.Generated.Metadata.{Metadata}
use farseer.Generated.Message
use farseer.Generated.Request
use farseer.Generated.Response

-- std::any for one class: std::any_cast throws where another class is held.
pub record AnyOf (Any A : Type 0) : Type 0 where
  pub to_any : A → Any
  pub cast : Any → Option A
  pub cast_to_any : (a : A) → cast (to_any a) ≡ some a

any_cast : {Any A : Type 0} → AnyOf Any A → Any → Outcome A
any_cast any x = elim (any.cast x) [ some a ↦ ok a | none ↦ err conversion_error ]

module _ {Any : Type 0} (b : Ballotin) where
  unfoldable pub message_deserializer :
      {A : Type 0} → AnyOf Any A → Metadata A → MessageWithHeaderDeserializer Any
  message_deserializer any m bytes offset = do
    r ← Message.try_deserialize_with_header b m bytes offset
    ok (elim r [ none ↦ none | some (a, n) ↦ some (any.to_any a, n) ])

  unfoldable pub request_deserializer :
      {A : Type 0} → AnyOf Any A → Metadata A → SequencedProtocolWithHeaderDeserializer Any
  request_deserializer any m bytes offset = do
    r ← Request.try_deserialize_with_header b m bytes offset
    ok (elim r [ none ↦ none | some (k, a, n) ↦ some (k, any.to_any a, n) ])

  unfoldable pub response_deserializer :
      {A : Type 0}
      → AnyOf Any (Expected A)
      → Metadata A
      → SequencedProtocolWithHeaderDeserializer Any
  response_deserializer any m bytes offset = do
    r ← Response.try_deserialize_with_header b m bytes offset
    ok (elim r [ none ↦ none | some (k, a, n) ↦ some (k, any.to_any a, n) ])

  unfoldable pub response_serializer :
      {A : Type 0} → AnyOf Any (Expected A) → Metadata A → ResponseWithHeaderSerializer Any
  unfolding any_cast
  response_serializer any m response sequence_number bytes = do
    casted ← any_cast any response
    Response.serialize_with_header b m casted sequence_number bytes

  unfoldable pub register_message :
      {A : Type 0}
      → AnyOf Any A
      → Metadata A
      → ProtocolRegistry Any
      → Outcome (Unit {0}) × ProtocolRegistry Any
  unfolding message_deserializer
  register_message any m registry =
      register_message_protocol m.protocol_identifier (message_deserializer any m) registry

  unfoldable pub register_request :
      {A R : Type 0}
      → AnyOf Any A
      → Metadata A
      → AnyOf Any (Expected R)
      → Metadata R
      → ProtocolRegistry Any
      → Outcome (Unit {0}) × ProtocolRegistry Any
  unfolding request_deserializer response_deserializer response_serializer
  register_request any m any' m' registry =
      register_request_protocol m.protocol_identifier (request_deserializer any m)
        m'.protocol_identifier (response_deserializer any' m') (response_serializer any' m')
        registry
