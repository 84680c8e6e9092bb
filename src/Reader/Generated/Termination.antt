-- ===== src/Reader/Generated/Termination.antt =====
-- readInboundBytes on the registry that generated protocols registered themselves in.
use farseer.Base.{
  ℕ, suc, ◌≡◌, ◌≢◌, sym, subst, ◌∙◌, Bool, true, false, Option, none, some, some_inj, none-ne-some,
  List, length, ◌==◌, if◌then◌else◌, inl, inr, ap,
}
use farseer.Base.Outcome.{Outcome, ok, ok_inj, bind_ok}
use farseer.Base.Assoc.{find}
use farseer.Expected.{Expected}
use farseer.Wire.Ballotin.{Ballotin, IsBallotin}
use farseer.Wire.Advance.{Advances}
use farseer.Registry.{
  MessageWithHeaderDeserializer, ProtocolDescriptor, ProtocolRegistry,
  SequencedProtocolWithHeaderDeserializer, ResponseWithHeaderSerializer, message_descriptor,
  request_descriptor, response_descriptor,
}
use farseer.Registry.WellFormed.{register_message_protocol_lem, register_request_protocol_atomic}
use farseer.Generated.Metadata.{Metadata}
use farseer.Generated.Message
use farseer.Generated.Request
use farseer.Generated.Response
use farseer.Generated.Registration.{
  AnyOf, message_deserializer, request_deserializer, response_deserializer, response_serializer,
  register_message, register_request,
}
use farseer.Generated.Forward.{message-le, request-le, response-le}
use farseer.Reader.{ReadState, exhausted, read_loop}
use farseer.Reader.Loop.{read_inbound_bytes_total}
use farseer.Reader.Advance.{
  MessageForward, SequencedForward, IsForward, AllForward, AllForward-IsAdvancing,
}

wrapped :
    {A B : Type 0} (to : A → B) (r : Option (A × ℕ)) (x : B) (offset : ℕ)
    → ◌≡◌ {A = Outcome (Option (B × ℕ))}
        (ok (elim r [ none ↦ none | some (a, n) ↦ some (to a, n) ]))
        (ok (some (x, offset)))
    → (a : A) × (r ≡ some (a, offset))
wrapped to none x offset h = absurd (none-ne-some (ok_inj h))
wrapped {A} {B} to (some (a, n)) x offset h =
    (a, ap (λ (t : B × ℕ). some (a, t.1)) (some_inj (ok_inj h)))

wrapped_after :
    {A B : Type 0} (to : A → B) (r : Option (ℕ × A × ℕ)) (k : ℕ) (x : B) (offset : ℕ)
    → ◌≡◌ {A = Outcome (Option (ℕ × B × ℕ))}
        (ok (elim r [ none ↦ none | some (i, a, n) ↦ some (i, to a, n) ]))
        (ok (some (k, x, offset)))
    → (a : A) × (r ≡ some (k, a, offset))
wrapped_after to none k x offset h = absurd (none-ne-some (ok_inj h))
wrapped_after {A} {B} to (some (i, a, n)) k x offset h =
    (a, ap (λ (t : ℕ × B × ℕ). some (t.0, a, t.2)) (some_inj (ok_inj h)))

module _ {Any : Type 0} (b : Ballotin) where
  message_deserializer-MessageForward :
      {A : Type 0} (any : AnyOf Any A) (m : Metadata A)
      → Advances m.payload
      → MessageForward (message_deserializer b any m)
  unfolding message_deserializer
  message_deserializer-MessageForward any m payload bytes offset x offset' h =
      let (r, reads, e) = bind_ok (Message.try_deserialize_with_header b m bytes offset) _ _ h in
      let (a, found) = wrapped any.to_any r x offset' e in
      message-le b m payload bytes offset a offset' (reads ∙ ap ok found)

  request_deserializer-SequencedForward :
      {A : Type 0} (any : AnyOf Any A) (m : Metadata A)
      → Advances m.payload
      → SequencedForward (request_deserializer b any m)
  unfolding request_deserializer
  request_deserializer-SequencedForward any m payload bytes offset n x offset' h =
      let (r, reads, e) = bind_ok (Request.try_deserialize_with_header b m bytes offset) _ _ h in
      let (a, found) = wrapped_after any.to_any r n x offset' e in
      request-le b m payload bytes offset n a offset' (reads ∙ ap ok found)

  response_deserializer-SequencedForward :
      {A : Type 0} (any : AnyOf Any (Expected A)) (m : Metadata A)
      → Advances m.payload
      → SequencedForward (response_deserializer b any m)
  unfolding response_deserializer
  response_deserializer-SequencedForward any m payload bytes offset n x offset' h =
      let (r, reads, e) = bind_ok (Response.try_deserialize_with_header b m bytes offset) _ _ h in
      let (a, found) = wrapped_after any.to_any r n x offset' e in
      response-le b m payload bytes offset n a offset' (reads ∙ ap ok found)

no_function : {F C : Type 0} {f : F} → ◌≡◌ {A = Option F} none (some f) → C
no_function e = absurd (none-ne-some e)

module _ {Any : Type 0} where
  message_descriptor-IsForward :
      (f : MessageWithHeaderDeserializer Any) → MessageForward f → IsForward (message_descriptor f)
  unfolding message_descriptor
  message_descriptor-IsForward f forward = record {
    message_forward = λ g e. subst MessageForward (some_inj e) forward;
    sequenced_forward = λ g e. no_function e;
  }

  request_descriptor-IsForward :
      (f : SequencedProtocolWithHeaderDeserializer Any) (g : ResponseWithHeaderSerializer Any)
      → SequencedForward f
      → IsForward (request_descriptor f g)
  unfolding request_descriptor
  request_descriptor-IsForward f g forward = record {
    message_forward = λ h e. no_function e;
    sequenced_forward = λ h e. subst SequencedForward (some_inj e) forward;
  }

  response_descriptor-IsForward :
      (f : SequencedProtocolWithHeaderDeserializer Any)
      → SequencedForward f
      → IsForward (response_descriptor f)
  unfolding response_descriptor
  response_descriptor-IsForward f forward = record {
    message_forward = λ h e. no_function e;
    sequenced_forward = λ h e. subst SequencedForward (some_inj e) forward;
  }

  keep-IsForward :
      (c : Bool) (d e : ProtocolDescriptor Any) (rest : Option (ProtocolDescriptor Any))
      → IsForward d
      → (rest ≡ some e → IsForward e)
      → (if c then some d else rest) ≡ some e
      → IsForward e
  keep-IsForward true d e rest new old h = subst IsForward (some_inj h) new
  keep-IsForward false d e rest new old h = old h

module _ {Any : Type 0} (b : Ballotin) where
  pub register_message-AllForward :
      {A : Type 0} (any : AnyOf Any A) (m : Metadata A) (registry : ProtocolRegistry Any)
      → Advances m.payload
      → AllForward registry
      → AllForward (register_message b any m registry).1
  unfolding register_message
  register_message-AllForward any m registry payload all k d h =
      let f = message_deserializer b any m in
      elim (register_message_protocol_lem m.protocol_identifier f registry k) [
        | inl (_, _, e) ↦
            keep-IsForward (m.protocol_identifier == k) (message_descriptor f) d (find k registry)
              (message_descriptor-IsForward f (message_deserializer-MessageForward b any m payload))
              (all k d) (sym e ∙ h)
        | inr (_, _, e) ↦ all k d (sym e ∙ h)
      ]

  pub register_request-AllForward :
      {A R : Type 0} (any : AnyOf Any A) (m : Metadata A) (any' : AnyOf Any (Expected R))
      (m' : Metadata R) (registry : ProtocolRegistry Any)
      → Advances m.payload
      → Advances m'.payload
      → AllForward registry
      → AllForward (register_request b any m any' m' registry).1
  unfolding register_request
  register_request-AllForward any m any' m' registry payload payload' all k d h =
      let f = request_deserializer b any m in
      let g = response_deserializer b any' m' in
      let s = response_serializer b any' m' in
      elim (register_request_protocol_atomic m.protocol_identifier m'.protocol_identifier f g s
        registry k) [
          | inl (_, _, _, _, e) ↦
              keep-IsForward (m'.protocol_identifier == k) (response_descriptor g) d _
                (response_descriptor-IsForward g
                  (response_deserializer-SequencedForward b any' m' payload'))
                (keep-IsForward (m.protocol_identifier == k) (request_descriptor f s) d
                  (find k registry)
                  (request_descriptor-IsForward f s
                    (request_deserializer-SequencedForward b any m payload))
                  (all k d))
                (sym e ∙ h)
          | inr (_, _, e) ↦ all k d (sym e ∙ h)
        ]

  -- On any bytes, however they are damaged, readInboundBytes ends by itself, if the registry has the
  -- deserializers of classes whose headerless functions do not move the offset back: with the fuel of
  -- `read_inbound_bytes` the loop does not run out.
  pub read_inbound_bytes_ends :
      (registry : ProtocolRegistry Any) (bytes : List ℕ) (s : ReadState Any)
      → IsBallotin b
      → AllForward registry
      → (read_loop b registry (suc (length bytes)) bytes 0 s).0 ≢ exhausted
  read_inbound_bytes_ends registry bytes s law all =
      read_inbound_bytes_total b registry law (AllForward-IsAdvancing b registry all) bytes s
