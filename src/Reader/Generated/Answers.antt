-- ===== src/Reader/Generated/Answers.antt =====
-- What consuming a protocol leaves as it is, and the response that a request gets.
use farseer.Base.{
  ℕ, ◌^◌, ◌<◌, ◌≡◌, ap, ◌∙◌, Bool, List, [], ◌∷◌, ◌++◌, length, some, none, arith, All,
  Option-cases, inl, inr,
}
use farseer.Base.Outcome.{ok}
use farseer.Base.Assoc.{Assoc, find}
use farseer.Expected.{Expected}
use farseer.Wire.Buffer.{pack, IsByte}
use farseer.Wire.Ballotin.{Ballotin, IsBallotin}
use farseer.Wire.Codec.Maps.{expected_bits, ExpectedInRange}
use farseer.Registry.{
  ProtocolDescriptor, SequencedProtocolWithHeaderDeserializer, request_descriptor,
}
use farseer.Generated.Metadata.{Metadata, IsMetadata}
use farseer.Generated.Registration.{AnyOf, response_serializer}
use farseer.Generated.Framing.Layout.{response_bits}
use farseer.Generated.Framing.Write.{response-serialize_with_header}
use farseer.Reader.{
  ReadState, request_consumed, skipped, consume_message, consume_request, consume_response,
  add_events,
}

module _ {Any : Type 0} (consumers : Assoc (Any → Any)) where
  -- The request consumers are those given, and the outbound buffer holds bytes.
  pub record IsServing (s : ReadState Any) : Type 0 where
    pub same : s.reader.inbound_request_consumers ≡ consumers
    pub bytes : All IsByte s.outbound_bytes

  pub consume_message-IsServing :
      (i : ℕ) (x : Any) (s : ReadState Any) → IsServing s → IsServing (consume_message i x s)
  unfolding consume_message
  consume_message-IsServing i x s v =
      elim (Option-cases (find i s.reader.inbound_message_consumers)) [
        | inl e ↦ rw (e, consume_message) (record { same = v.same; bytes = v.bytes })
        | inr (c, e) ↦ rw (e, consume_message) (record { same = v.same; bytes = v.bytes })
      ]

  pub consume_response-IsServing :
      (i n : ℕ) (x : Any) (s : ReadState Any) → IsServing s → IsServing (consume_response i n x s)
  unfolding consume_response
  consume_response-IsServing i n x s v =
      elim (Option-cases (find n s.reader.inbound_one_shot_response_consumers)) [
        | inl e ↦ rw (e, consume_response) (record { same = v.same; bytes = v.bytes })
        | inr (c, e) ↦ rw (e, consume_response) (record { same = v.same; bytes = v.bytes })
      ]

  module _ {b : Ballotin} (law : IsBallotin b) {R : Type 0} {m : Metadata R} {P : R → Type 0}
      {encode : R → List Bool} (meta : IsMetadata m P encode) (any : AnyOf Any (Expected R))
      (f : SequencedProtocolWithHeaderDeserializer Any) (i n : ℕ) (small : n < 2 ^ 64) (x : Any)
      (offset : ℕ) (s : ReadState Any) (v : IsServing s) where
    abbrev descriptor : ProtocolDescriptor Any
    descriptor = request_descriptor f (response_serializer b any m)

    -- A request that has a consumer is handed to it, and the consumer's answer, if it is a response
    -- in range, is appended to the outbound buffer under the sequence number of the request, behind
    -- the responses that are waiting already. Nothing else of the state changes but the log of
    -- events.
    pub consume_request_answered :
        (consumer : Any → Any) (e : Expected R)
        → find i consumers ≡ some consumer
        → consumer x ≡ any.to_any e
        → ExpectedInRange P e
        → length (expected_bits encode e) < 2 ^ 32
        → consume_request i descriptor n x offset s ≡ (
          ok (some offset),
          record s {
            outbound_bytes = s.outbound_bytes ++ pack (response_bits m encode n e);
            events = s.events ++ request_consumed i n x ∷ [];
          },
        )
    unfolding consume_request request_descriptor response_serializer
    consume_request_answered consumer e found answer r fits =
        let found' : find i s.reader.inbound_request_consumers ≡ some consumer =
          ap (find i) v.same ∙ found in
        let written =
          response-serialize_with_header law meta e n s.outbound_bytes v.bytes small r fits in
        let cast = any.cast_to_any e in ground (arith, found', written, cast, answer)

    -- A request that has none is skipped, and gets no response.
    pub consume_request_skipped :
        find i consumers ≡ none
        → consume_request i descriptor n x offset s
          ≡ (ok (some offset), add_events (skipped i ∷ []) s)
    unfolding consume_request
    consume_request_skipped missing =
        let missing' : find i s.reader.inbound_request_consumers ≡ none =
          ap (find i) v.same ∙ missing in
        ground (arith, missing')
