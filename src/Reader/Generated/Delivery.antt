-- ===== src/Reader/Generated/Delivery.antt =====
-- From serializeWithHeader at one end to the consumers at the other: a protocol file with a message
-- of class `A`, and a request of class `Q` with its response of class `R`.
use farseer.Base.{
  ℕ, ◌^◌, ◌<◌, ◌≡◌, refl, sym, ap, subst, ◌∙◌, Bool, List, [], ◌∷◌, ◌++◌, append_assoc, append-nil,
  length, concat, some, All, All-append, Option-cases, inl, inr,
}
use farseer.Base.Outcome.{Outcome, ok, ◌>>=◌}
use farseer.Base.Assoc.{Assoc, find}
use farseer.Expected.{Expected}
use farseer.Wire.Buffer.{pack, IsByte, pack-IsByte}
use farseer.Wire.Ballotin.{Ballotin, IsBallotin}
use farseer.Wire.Codec.Maps.{expected_bits, ExpectedInRange}
use farseer.Registry.{ProtocolRegistry, message_descriptor, request_descriptor, response_descriptor}
use farseer.Generated.Metadata.{Metadata, IsMetadata}
use farseer.Generated.Registration.{
  AnyOf, message_deserializer, request_deserializer, response_deserializer, response_serializer,
}
use farseer.Generated.Message
use farseer.Generated.Request
use farseer.Generated.Response
use farseer.Generated.Framing.Layout.{message_bits, request_bits, response_bits}
use farseer.Generated.Framing.Write.{
  message-serialize_with_header, request-serialize_with_header, response-serialize_with_header,
}
use farseer.Reader.{
  ReadState, consume_message, consume_request, consume_response, read_inbound_bytes,
}
use farseer.Reader.Frames.{Frame, stream, effects, receive}
use farseer.Reader.Stream.{IsFrame, AllFrames}
use farseer.Reader.Chunks.{receive_any_chunks}
use farseer.Reader.Generated.Answers.{
  IsServing, consume_message-IsServing, consume_response-IsServing, consume_request_answered,
  consume_request_skipped,
}
use farseer.Reader.Generated.Message.{message-IsFrame}
use farseer.Reader.Generated.Sequenced.{request-IsFrame, response-IsFrame}

-- What is sent over a connection.
pub data Item (A Q R : Type 0) : Type 0 where
  message : A → Item A Q R
  request : ℕ → Q → Item A Q R
  response : ℕ → Expected R → Item A Q R

-- The generated classes, with what their generator has to see to.
pub record Protocols (Any A Q R : Type 0) : Type 1 where
  pub message_metadata : Metadata A
  pub request_metadata : Metadata Q
  pub response_metadata : Metadata R
  pub message_any : AnyOf Any A
  pub request_any : AnyOf Any Q
  pub response_any : AnyOf Any (Expected R)
  pub InMessage : A → Type 0
  pub InRequest : Q → Type 0
  pub InResponse : R → Type 0
  pub message_code : A → List Bool
  pub request_code : Q → List Bool
  pub response_code : R → List Bool
  pub message_law : IsMetadata message_metadata InMessage message_code
  pub request_law : IsMetadata request_metadata InRequest request_code
  pub response_law : IsMetadata response_metadata InResponse response_code

module _ {Any A Q R : Type 0} (b : Ballotin) (p : Protocols Any A Q R) where
  -- serializeWithHeader of the class, onto what is in the buffer already
  unfoldable pub serialize_item : Item A Q R → List ℕ → Outcome (List ℕ)
  serialize_item (message a) = Message.serialize_with_header b p.message_metadata a
  serialize_item (request n q) = Request.serialize_with_header b p.request_metadata q n
  serialize_item (response n e) = Response.serialize_with_header b p.response_metadata e n

  unfoldable pub serialize_items : List (Item A Q R) → List ℕ → Outcome (List ℕ)
  unfolding serialize_item
  serialize_items [] bytes = ok bytes
  serialize_items (i ∷ is) bytes = do bytes' ← serialize_item i bytes; serialize_items is bytes'

  -- What the receiver does with an item.
  unfoldable pub consume_item : Item A Q R → ReadState Any → ReadState Any
  consume_item (message a) s =
      consume_message p.message_metadata.protocol_identifier (p.message_any.to_any a) s
  consume_item (request n q) s =
      (consume_request p.request_metadata.protocol_identifier
        (request_descriptor (request_deserializer b p.request_any p.request_metadata)
          (response_serializer b p.response_any p.response_metadata))
        n (p.request_any.to_any q) 0 s).1
  consume_item (response n e) s =
      consume_response p.response_metadata.protocol_identifier n (p.response_any.to_any e) s

  unfoldable pub consume_items : List (Item A Q R) → ReadState Any → ReadState Any
  unfolding consume_item
  consume_items [] s = s
  consume_items (i ∷ is) s = consume_items is (consume_item i s)

  -- The values are in range, and their sizes in bits fit 32 bits.
  abbrev pub CanSend : Item A Q R → Type 0
  CanSend (message a) = p.InMessage a × (length (p.message_code a) < 2 ^ 32)
  CanSend (request n q) = (n < 2 ^ 64) × p.InRequest q × (length (p.request_code q) < 2 ^ 32)
  CanSend (response n e) =
      (n < 2 ^ 64)
      × ExpectedInRange p.InResponse e
      × (length (expected_bits p.response_code e) < 2 ^ 32)

  -- The consumer of the request, if there is one, answers with a response that can be sent.
  abbrev pub Answers : Assoc (Any → Any) → Type 0
  Answers consumers =
      (consumer : Any → Any) (q : Q)
      → find p.request_metadata.protocol_identifier consumers ≡ some consumer
      → (e : Expected R) × (consumer (p.request_any.to_any q) ≡ p.response_any.to_any e)
        × ExpectedInRange p.InResponse e
        × (length (expected_bits p.response_code e) < 2 ^ 32)

  -- The receiver knows the protocols.
  pub record Knows (registry : ProtocolRegistry Any) : Type 0 where
    pub message_known :
        find p.message_metadata.protocol_identifier registry
        ≡ some (message_descriptor (message_deserializer b p.message_any p.message_metadata))
    pub request_known :
        find p.request_metadata.protocol_identifier registry
        ≡ some (
            request_descriptor
              (request_deserializer b p.request_any p.request_metadata)
              (response_serializer b p.response_any p.response_metadata))
    pub response_known :
        find p.response_metadata.protocol_identifier registry
        ≡ some (response_descriptor (response_deserializer b p.response_any p.response_metadata))

  -- The bits of an item as they are documented to be, and the frame that they make.
  abbrev pub item_bits : Item A Q R → List Bool
  item_bits (message a) = message_bits p.message_metadata p.message_code a
  item_bits (request n q) = request_bits p.request_metadata p.request_code n q
  item_bits (response n e) = response_bits p.response_metadata p.response_code n e

  abbrev pub item_frame : Item A Q R → Frame Any
  item_frame i = record { bytes = pack (item_bits i); effect = consume_item i }

  abbrev pub item_frames : List (Item A Q R) → List (Frame Any)
  item_frames [] = []
  item_frames (i ∷ is) = item_frame i ∷ item_frames is

  effects-item_frames :
      (is : List (Item A Q R)) (s : ReadState Any) → effects (item_frames is) s ≡ consume_items is s
  unfolding effects consume_items
  effects-item_frames [] s = refl
  effects-item_frames (i ∷ is) s = effects-item_frames is (consume_item i s)

  module _ (law : IsBallotin b) where
    serialize_item_lem :
        (i : Item A Q R) (bytes : List ℕ)
        → All IsByte bytes
        → CanSend i
        → serialize_item i bytes ≡ ok (bytes ++ pack (item_bits i))
    unfolding serialize_item
    serialize_item_lem (message a) bytes h c =
        message-serialize_with_header law p.message_law a bytes h c.0 c.1
    serialize_item_lem (request n q) bytes h c =
        request-serialize_with_header law p.request_law q n bytes h c.0 c.1 c.2
    serialize_item_lem (response n e) bytes h c =
        response-serialize_with_header law p.response_law e n bytes h c.0 c.1 c.2

    serialize_items_lem :
        (is : List (Item A Q R)) (bytes : List ℕ)
        → All IsByte bytes
        → All CanSend is
        → serialize_items is bytes ≡ ok (bytes ++ stream (item_frames is))
    unfolding serialize_items stream
    serialize_items_lem [] bytes h c = ap ok (sym (append-nil bytes))
    serialize_items_lem (i ∷ is) bytes h c =
        let added = All-append IsByte bytes (pack (item_bits i)) h (pack-IsByte (item_bits i)) in
        rw (serialize_item_lem i bytes h c.0) (
          serialize_items_lem is (bytes ++ pack (item_bits i)) added c.1
          ∙ ap ok (append_assoc bytes (pack (item_bits i)) (stream (item_frames is))))

    module _ (registry : ProtocolRegistry Any) (knows : Knows registry)
        (consumers : Assoc (Any → Any)) (answers : Answers consumers) where
      request_served :
          (n : ℕ) (q : Q) (s : ReadState Any) (offset : ℕ)
          → CanSend (request n q)
          → IsServing consumers s
          → (consume_request p.request_metadata.protocol_identifier
                (request_descriptor
                  (request_deserializer b p.request_any p.request_metadata)
                  (response_serializer b p.response_any p.response_metadata))
                n
                (p.request_any.to_any q)
                offset
                s
              ≡ (ok (some offset), consume_item (request n q) s))
            × IsServing consumers (consume_item (request n q) s)
      unfolding consume_item
      request_served n q s offset c v =
          let any = p.response_any in
          let meta = p.response_law in
          let ident = p.request_metadata.protocol_identifier in
          let f = request_deserializer b p.request_any p.request_metadata in
          let x = p.request_any.to_any q in
          elim (Option-cases (find ident consumers)) [
            | inl missing ↦
                let here =
                  consume_request_skipped consumers law meta any f ident n c.0 x offset s v
                    missing in
                let at_start =
                  consume_request_skipped consumers law meta any f ident n c.0 x 0 s v missing in
                let state = sym (ap (λ r. r.1) at_start) in
                (
                  here ∙ ap (λ t. (ok (some offset), t)) state,
                  subst (IsServing consumers) state (record { same = v.same; bytes = v.bytes }),
                )
            | inr (consumer, found) ↦
                let (e, answer, r, fits) = answers consumer q found in
                let here =
                  consume_request_answered consumers law meta any f ident n c.0 x offset s v
                    consumer e found answer r fits in
                let at_start =
                  consume_request_answered consumers law meta any f ident n c.0 x 0 s v consumer e
                    found answer r fits in
                let state = sym (ap (λ r. r.1) at_start) in
                let bits = response_bits p.response_metadata p.response_code n e in
                (
                  here ∙ ap (λ t. (ok (some offset), t)) state,
                  subst (IsServing consumers) state (record {
                    same = v.same;
                    bytes =
                        All-append IsByte s.outbound_bytes (pack bits) v.bytes (pack-IsByte bits);
                  }),
                )
          ]

      item-IsFrame :
          (i : Item A Q R) → CanSend i → IsFrame b registry (IsServing consumers) (item_frame i)
      unfolding consume_item
      item-IsFrame (message a) c =
          message-IsFrame law registry p.message_law p.message_any knows.message_known a c.0 c.1
            (IsServing consumers)
            (λ s v.
              consume_message-IsServing consumers p.message_metadata.protocol_identifier
                (p.message_any.to_any a) s v)
      item-IsFrame (request n q) c =
          request-IsFrame law registry (IsServing consumers) p.request_law n c.0 p.request_any
            (response_serializer b p.response_any p.response_metadata) knows.request_known q c.1 c.2
            (λ s v. (request_served n q s 0 c v).1)
            (λ s offset v. (request_served n q s offset c v).0)
      item-IsFrame (response n e) c =
          response-IsFrame law registry (IsServing consumers) p.response_law n c.0 p.response_any
            knows.response_known e c.1 c.2
            (λ s v.
              consume_response-IsServing consumers p.response_metadata.protocol_identifier n
                (p.response_any.to_any e) s v)

      pub items-AllFrames :
          (is : List (Item A Q R))
          → All CanSend is
          → AllFrames b registry (IsServing consumers) (item_frames is)
      items-AllFrames [] c = tt
      items-AllFrames (i ∷ is) c = (item-IsFrame i c.0, items-AllFrames is c.1)

      -- A list of messages, requests and responses is serialized without an error, as the frames of
      -- its items one behind the other. However these bytes are cut into reads, the receiver ends
      -- with no error and no byte left, having done for each item, in order, what `consume_item`
      -- says. The items can be sent, the receiver knows the protocols, its request consumers answer
      -- with responses that can be sent, and its outbound buffer holds bytes.
      pub delivery :
          (is : List (Item A Q R)) (s : ReadState Any) (chunks : List (List ℕ))
          → All CanSend is
          → IsServing consumers s
          → concat chunks ≡ stream (item_frames is)
          → (serialize_items is [] ≡ ok (concat chunks))
            × (receive (read_inbound_bytes b registry) chunks [] s
                ≡ (ok tt, [], consume_items is s))
      delivery is s chunks c v e = (
        serialize_items_lem is [] tt c ∙ ap ok (sym e),
        receive_any_chunks b registry (IsServing consumers) chunks (item_frames is) s
              (items-AllFrames is c) v e
            ∙ ap (λ t. (ok tt, [], t)) (effects-item_frames is s),
      )
