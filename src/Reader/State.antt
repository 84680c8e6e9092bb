-- ===== src/Reader/State.antt =====
-- The state of ProtocolReader, and the registration of consumers. internal/protocol_reader.cpp
use farseer.Base.{ℕ, List, [], ◌∷◌, if◌then◌else◌}
use farseer.Base.Outcome.{
  Outcome, ok, err, protocol_not_registered, protocol_consumer_already_registered,
}
use farseer.Base.Assoc.{Assoc, contains, insert}
use farseer.Registry.{ProtocolRegistry, is_protocol_registered}

-- How a consumer ends. The consumers are the user's code; what they do elsewhere is not modelled.
pub data Completion : Type 0 where
  completes throws_wide throws_exception throws_unknown : Completion

abbrev pub Consumer : Type 0 → Type 0
Consumer Any = Any → Completion

-- What the reader does beyond its own state, in order: calls of consumers, and log entries.
pub data Event (Any : Type 0) : Type 0 where
  message_consumed : ℕ → Any → Event Any
  request_consumed : ℕ → ℕ → Any → Event Any
  response_consumed : ℕ → ℕ → Any → Event Any
  -- the protocol had no consumer
  skipped : ℕ → Event Any
  -- the consumer threw
  consumer_failed : ℕ → Event Any

pub record ProtocolReader (Any : Type 0) : Type 0 where
  pub inbound_message_consumers : Assoc (Consumer Any)
  pub inbound_request_consumers : Assoc (Any → Any)
  pub inbound_one_shot_response_consumers : Assoc (Consumer Any)

module _ {Any : Type 0} where
  unfoldable pub register_inbound_message_consumer :
      ProtocolRegistry Any → ℕ → Consumer Any → ProtocolReader Any → Outcome (ProtocolReader Any)
  unfolding is_protocol_registered insert
  register_inbound_message_consumer registry identifier consumer reader =
      if is_protocol_registered identifier registry
      then (if contains identifier reader.inbound_message_consumers
          then err protocol_consumer_already_registered
          else ok (record reader {
            inbound_message_consumers = insert identifier consumer reader.inbound_message_consumers;
          }))
      else err protocol_not_registered

  unfoldable pub register_inbound_request_consumer :
      ProtocolRegistry Any → ℕ → (Any → Any) → ProtocolReader Any → Outcome (ProtocolReader Any)
  unfolding is_protocol_registered insert
  register_inbound_request_consumer registry identifier consumer reader =
      if is_protocol_registered identifier registry
      then (if contains identifier reader.inbound_request_consumers
          then err protocol_consumer_already_registered
          else ok (record reader {
            inbound_request_consumers = insert identifier consumer reader.inbound_request_consumers;
          }))
      else err protocol_not_registered

  unfoldable pub register_inbound_one_shot_response_consumer :
      ℕ → Consumer Any → ProtocolReader Any → Outcome (ProtocolReader Any)
  unfolding insert
  register_inbound_one_shot_response_consumer sequence_number consumer reader =
      if contains sequence_number reader.inbound_one_shot_response_consumers
      then err protocol_consumer_already_registered
      else ok (record reader {
        inbound_one_shot_response_consumers =
            insert sequence_number consumer reader.inbound_one_shot_response_consumers;
      })

  -- The exceptions of a consumer are logged and go no further.
  unfoldable pub wrap_in_try_catch_and_invoke : ℕ → Consumer Any → Any → List (Event Any)
  wrap_in_try_catch_and_invoke identifier consumer protocol = elim (consumer protocol) [
    | completes ↦ []
    | throws_wide ↦ consumer_failed identifier ∷ []
    | throws_exception ↦ consumer_failed identifier ∷ []
    | throws_unknown ↦ consumer_failed identifier ∷ []
  ]
