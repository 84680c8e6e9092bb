-- ===== src/Reader/Advance.antt =====
-- A registry whose deserializers never move the offset back leads the loop to its end.
use farseer.Base.{ℕ, ◌≤◌, ◌≡◌, ap, ◌∙◌, some, List, arith, Option-cases, inl, inr}
use farseer.Base.Outcome.{ok, Outcome-cases}
use farseer.Base.Assoc.{find}
use farseer.Wire.Ballotin.{Ballotin}
use farseer.Wire.Serializer.{identifier_serializer}
use farseer.Wire.Advance.{unsigned_moves}
use farseer.Registry.{
  ProtocolType, message, request, response, ProtocolDescriptor, ProtocolRegistry,
  MessageWithHeaderDeserializer, SequencedProtocolWithHeaderDeserializer, get_protocol_descriptor,
}
use farseer.Reader.{
  ReadState, read_inbound_message, consume_request, read_inbound_request, read_inbound_response,
  read_by_type, read_protocol,
}
use farseer.Reader.Loop.{IsAdvancing}

module _ {Any : Type 0} where
  abbrev pub MessageForward : MessageWithHeaderDeserializer Any → Type 0
  MessageForward f =
      (bytes : List ℕ) (offset : ℕ) (a : Any) (offset' : ℕ)
      → f bytes offset ≡ ok (some (a, offset'))
      → offset ≤ offset'

  abbrev pub SequencedForward : SequencedProtocolWithHeaderDeserializer Any → Type 0
  SequencedForward f =
      (bytes : List ℕ) (offset n : ℕ) (a : Any) (offset' : ℕ)
      → f bytes offset ≡ ok (some (n, a, offset'))
      → offset ≤ offset'

  pub record IsForward (d : ProtocolDescriptor Any) : Type 0 where
    pub message_forward :
        (f : MessageWithHeaderDeserializer Any)
        → d.message_with_header_deserializer ≡ some f
        → MessageForward f
    pub sequenced_forward :
        (f : SequencedProtocolWithHeaderDeserializer Any)
        → d.sequenced_protocol_with_header_deserializer ≡ some f
        → SequencedForward f

  abbrev pub AllForward : ProtocolRegistry Any → Type 0
  AllForward registry =
      (k : ℕ) (d : ProtocolDescriptor Any) → find k registry ≡ some d → IsForward d

  consume_request-offset :
      (i : ℕ) (d : ProtocolDescriptor Any) (m : ℕ) (a : Any) (offset : ℕ) (s : ReadState Any)
      (n : ℕ)
      → (consume_request i d m a offset s).0 ≡ ok (some n)
      → offset ≡ n
  unfolding consume_request
  consume_request-offset i d m a offset s n h = ground arith

  module _ (i : ℕ) (d : ProtocolDescriptor Any) (forward : IsForward d) (bytes : List ℕ)
      (offset : ℕ) (s : ReadState Any) (n : ℕ) where
    read_inbound_message-le : (read_inbound_message i d bytes offset s).0 ≡ ok (some n) → offset ≤ n
    unfolding read_inbound_message
    read_inbound_message-le h = elim (Option-cases d.message_with_header_deserializer) [
      | inl missing ↦ absurd (ground arith)
      | inr (f, e) ↦ elim (Outcome-cases (f bytes offset)) [
        | inr (x, throws) ↦ absurd (ground arith)
        | inl (r, reads) ↦ elim (Option-cases r) [
          | inl waits ↦ absurd (ground arith)
          | inr ((a, n'), found) ↦
              let far = forward.message_forward f e bytes offset a n' (reads ∙ ap ok found) in
              ground arith
        ]
      ]
    ]

    read_inbound_request-le : (read_inbound_request i d bytes offset s).0 ≡ ok (some n) → offset ≤ n
    unfolding read_inbound_request
    read_inbound_request-le h = elim (Option-cases d.sequenced_protocol_with_header_deserializer) [
      | inl missing ↦ absurd (ground arith)
      | inr (f, e) ↦ elim (Outcome-cases (f bytes offset)) [
        | inr (x, throws) ↦ absurd (ground arith)
        | inl (r, reads) ↦ elim (Option-cases r) [
          | inl waits ↦ absurd (ground arith)
          | inr ((m, a, n'), found) ↦
              let far = forward.sequenced_forward f e bytes offset m a n' (reads ∙ ap ok found) in
              let same : (consume_request i d m a n' s).0 ≡ ok (some n) = ground arith in
              let end = consume_request-offset i d m a n' s n same in omega arith
        ]
      ]
    ]

    read_inbound_response-le :
        (read_inbound_response i d bytes offset s).0 ≡ ok (some n) → offset ≤ n
    unfolding read_inbound_response
    read_inbound_response-le h = elim (Option-cases d.sequenced_protocol_with_header_deserializer) [
      | inl missing ↦ absurd (ground arith)
      | inr (f, e) ↦ elim (Outcome-cases (f bytes offset)) [
        | inr (x, throws) ↦ absurd (ground arith)
        | inl (r, reads) ↦ elim (Option-cases r) [
          | inl waits ↦ absurd (ground arith)
          | inr ((m, a, n'), found) ↦
              let far = forward.sequenced_forward f e bytes offset m a n' (reads ∙ ap ok found) in
              ground arith
        ]
      ]
    ]

    read_by_type-le :
        (b : Ballotin) (registry : ProtocolRegistry Any) (t : ProtocolType)
        → (read_by_type b registry t i d bytes offset s).0 ≡ ok (some n)
        → offset ≤ n
    unfolding read_by_type
    read_by_type-le b registry message = read_inbound_message-le
    read_by_type-le b registry request = read_inbound_request-le
    read_by_type-le b registry response = read_inbound_response-le

  get_protocol_descriptor_found :
      (i : ℕ) (registry : ProtocolRegistry Any) (d : ProtocolDescriptor Any)
      → get_protocol_descriptor i registry ≡ ok d
      → find i registry ≡ some d
  unfolding get_protocol_descriptor
  get_protocol_descriptor_found i registry d h = ground arith

  pub AllForward-IsAdvancing :
      (b : Ballotin) (registry : ProtocolRegistry Any)
      → AllForward registry
      → IsAdvancing b registry
  unfolding read_protocol
  AllForward-IsAdvancing b registry forward bytes offset s n h =
      elim (Outcome-cases ((identifier_serializer b).deserialize bytes offset)) [
        | inr (x, throws) ↦ absurd (ground arith)
        | inl ((i, middle), reads) ↦
            let header = unsigned_moves b 4 bytes offset i middle reads in
            elim (Outcome-cases (get_protocol_descriptor i registry)) [
              | inr (x, throws) ↦ absurd (ground arith)
              | inl (d, found) ↦
                  let far =
                    read_by_type-le i d
                      (forward i d (get_protocol_descriptor_found i registry d found)) bytes middle
                      s n b registry d.protocol_type (ground arith) in
                  omega (arith, header, far)
            ]
      ]
