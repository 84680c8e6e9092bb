-- ===== src/Reader/Dispatch.antt =====
-- The protocol at an offset, by the type of its descriptor.
use farseer.Base.{ℕ, ◌≡◌, none, some, List, arith}
use farseer.Base.Outcome.{ok}
use farseer.Base.Assoc.{find}
use farseer.Wire.Ballotin.{Ballotin}
use farseer.Wire.Serializer.{identifier_serializer}
use farseer.Registry.{
  ProtocolRegistry, MessageWithHeaderDeserializer, SequencedProtocolWithHeaderDeserializer,
  ResponseWithHeaderSerializer, message_descriptor, request_descriptor, response_descriptor,
}
use farseer.Reader.{ReadState, read_protocol, consume_message, consume_request, consume_response}

module _ {Any : Type 0} (b : Ballotin) (registry : ProtocolRegistry Any) (bytes : List ℕ)
    (offset identifier offset' : ℕ) (s : ReadState Any)
    (reads : (identifier_serializer b).deserialize bytes offset ≡ ok (identifier, offset')) where
  module _ (f : MessageWithHeaderDeserializer Any)
      (known : find identifier registry ≡ some (message_descriptor f)) where
    pub read_message :
        (a : Any) (n : ℕ)
        → f bytes offset' ≡ ok (some (a, n))
        → read_protocol b registry bytes offset s ≡ (ok (some n), consume_message identifier a s)
    unfolding read_protocol message_descriptor
    read_message a n e = ground arith

    pub read_message_none :
        f bytes offset' ≡ ok none → read_protocol b registry bytes offset s ≡ (ok none, s)
    unfolding read_protocol message_descriptor
    read_message_none e = ground arith

  module _ (f : SequencedProtocolWithHeaderDeserializer Any) (g : ResponseWithHeaderSerializer Any)
      (known : find identifier registry ≡ some (request_descriptor f g)) where
    pub read_request :
        (sequence_number : ℕ) (a : Any) (n : ℕ)
        → f bytes offset' ≡ ok (some (sequence_number, a, n))
        → read_protocol b registry bytes offset s
          ≡ consume_request identifier (request_descriptor f g) sequence_number a n s
    unfolding read_protocol request_descriptor
    read_request sequence_number a n e = ground arith

    pub read_request_none :
        f bytes offset' ≡ ok none → read_protocol b registry bytes offset s ≡ (ok none, s)
    unfolding read_protocol request_descriptor
    read_request_none e = ground arith

  module _ (f : SequencedProtocolWithHeaderDeserializer Any)
      (known : find identifier registry ≡ some (response_descriptor f)) where
    pub read_response :
        (sequence_number : ℕ) (a : Any) (n : ℕ)
        → f bytes offset' ≡ ok (some (sequence_number, a, n))
        → read_protocol b registry bytes offset s
          ≡ (ok (some n), consume_response identifier sequence_number a s)
    unfolding read_protocol response_descriptor
    read_response sequence_number a n e = ground arith

    pub read_response_none :
        f bytes offset' ≡ ok none → read_protocol b registry bytes offset s ≡ (ok none, s)
    unfolding read_protocol response_descriptor
    read_response_none e = ground arith
